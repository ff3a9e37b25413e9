-- ===== src/BpTree/Find/Search.antt =====
-- The range search of bptree.c on a well-formed tree: it finds exactly the rows of the entries whose
-- key lies in the range, in the order of the keys.
use cs165db.Prelude.{
  ℕ, ◌+◌, ◌≤◌, ◌<◌, ◌≡◌, refl, sym, ap, ◌∙◌, subst, List, [], ◌∷◌, ◌++◌, length, length-append,
  arith,
}
use cs165db.Word.{word}
use cs165db.Run.{Run, done, Returns-done}
use cs165db.BpTree.{Node, TreeFile, load_node}
use cs165db.BpTree.Find.{find_leaf, find_record_in_range_type}
use cs165db.BpTree.Find.Scan.{
  Entry, all_entries, Ordered, Ordered-right, hits, hits-append, Links, Filled, emitted,
  scan_leaves_lem,
}
use cs165db.BpTree.Find.Descent.{IsTree, FoundIn, KeysBelow, find_leaf-FoundIn, all_entries-append}

-- The leaves of a tree as a chain.
abbrev pub Chain : TreeFile → List Node → Type 0
Chain f [] = Unit
Chain f (l ∷ ls) = Links f l ls

-- A tree file whose root stands over `leaves`, which are linked and in ascending order of keys.
pub record IsTreeFile (f : TreeFile) (height : ℕ) (leaves : List Node) : Type 0 where
  pub root : Node
  pub root_loads : load_node f f.meta.root ≡ done root
  pub tree : IsTree f height root leaves
  pub chain : Chain f leaves
  pub filled : Filled leaves
  pub in_order : Ordered 0 (all_entries leaves)
  pub few : length (all_entries leaves) < word

Links-behind :
    (f : TreeFile) (before : List Node) (leaf : Node) (behind : List Node)
    → Chain f (before ++ (leaf ∷ behind))
    → Links f leaf behind
Links-behind f [] leaf behind c = c
Links-behind f (x ∷ []) leaf behind c = c.2
Links-behind f (x ∷ y ∷ ys) leaf behind c = Links-behind f (y ∷ ys) leaf behind c.2

Filled-behind :
    (before : List Node) (leaf : Node) (behind : List Node)
    → Filled (before ++ (leaf ∷ behind))
    → Filled (leaf ∷ behind)
Filled-behind [] leaf behind c = c
Filled-behind (x ∷ xs) leaf behind c = Filled-behind xs leaf behind c.2

hits-below : (low high : ℕ) (es : List Entry) → KeysBelow low es → hits low high es ≡ []
unfolding hits
hits-below low high [] b = refl
hits-below low high ((k, p) ∷ es) b = ground (arith, hits-below low high es)

module _ {S : Type 0} (emit : S → ℕ → Run S) (low high : ℕ) (f : TreeFile) where
  -- The result depends only on the entries from the found leaf on.
  behind-emitted :
      (leaves : List Node) (leaf : Node) (g : FoundIn low leaves leaf) (s : S)
      → emitted emit low high f s 0 (all_entries (leaf ∷ g.behind))
        ≡ emitted emit low high f s 0 (all_entries leaves)
  behind-emitted leaves leaf g s = sym (
      rw (
        ap all_entries g.is_there ∙ all_entries-append g.before (leaf ∷ g.behind),
        hits-append low high (all_entries g.before) (all_entries (leaf ∷ g.behind)),
        hits-below low high (all_entries g.before) g.below,
      ))

  -- On a tree file whose root stands over linked leaves with their keys in ascending order and
  -- fewer than 2^32 entries, the range search emits the rows of exactly the entries from low to
  -- high, in the order of their keys, and returns their number; fuel above the height and for each
  -- leaf is enough.
  pub find_record_in_range_type_lem :
      (height depth width : ℕ) (leaves : List Node) (s : S)
      → IsTreeFile f height leaves
      → height < depth
      → length leaves ≤ width
      → find_record_in_range_type emit low high depth width f s
        ≡ emitted emit low high f s 0 (all_entries leaves)
  unfolding find_record_in_range_type
  find_record_in_range_type_lem height depth width leaves s t deep wide =
      let (leaf, e, g) =
        Returns-done (FoundIn low leaves) (find_leaf depth f t.root low)
          (find_leaf-FoundIn f low height depth t.root leaves deep t.tree) in
      let linked : Links f leaf g.behind =
        Links-behind f g.before leaf g.behind (subst (Chain f) g.is_there t.chain) in
      let filled : Filled (leaf ∷ g.behind) =
        Filled-behind g.before leaf g.behind (subst Filled g.is_there t.filled) in
      let entries_there : all_entries leaves
          ≡ all_entries g.before ++ all_entries (leaf ∷ g.behind) =
        ap all_entries g.is_there ∙ all_entries-append g.before (leaf ∷ g.behind) in
      let (b, ordered) =
        Ordered-right (all_entries g.before) (all_entries (leaf ∷ g.behind)) 0
          (subst (Ordered 0) entries_there t.in_order) in
      let size : length (all_entries leaves)
          ≡ length (all_entries g.before) + length (all_entries (leaf ∷ g.behind)) =
        ap length entries_there
        ∙ length-append (all_entries g.before) (all_entries (leaf ∷ g.behind)) in
      let number : length leaves ≡ length g.before + length (leaf ∷ g.behind) =
        ap length g.is_there ∙ length-append g.before (leaf ∷ g.behind) in
      rw (t.root_loads, e)
        (scan_leaves_lem emit low high f width leaf g.behind s 0 b (omega arith) linked filled
            ordered (omega (arith, t.few))
          ∙ behind-emitted leaves leaf g s)
