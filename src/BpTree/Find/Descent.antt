-- ===== src/BpTree/Find/Descent.antt =====
-- `_find_leaf` (bptree.c) on a tree: what an inner node promises, and where the way down leads.
use cs165db.Prelude.{
  ℕ, zero, suc, ◌+◌, ◌≤◌, ◌<◌, ◌≡◌, refl, sym, ap, ◌∙◌, subst, List, [], ◌∷◌, ◌++◌, append-nil,
  append_assoc, length, get_or, true, false, arith, inl, inr, Bool-cases, ltb→lt, if_of_true,
  if_of_false,
}
use native.Mathlib.Decide.{ℕ_discrete}
use cs165db.Word.{rank, lt_int}
use cs165db.Run.{done, Returns, Returns-bind, Returns-map, read, read_lem, ◌>>=◌}
use cs165db.BpTree.{Node, TreeFile, load_node}
use cs165db.BpTree.Find.{child_index, find_leaf}
use cs165db.BpTree.Find.Scan.{Entry, all_entries, entries}

-- All keys are below `key`, are at most `key`, are at least `key`.
abbrev pub KeysBelow : ℕ → List Entry → Type 0
KeysBelow key [] = Unit
KeysBelow key ((k, p) ∷ es) = (rank k < rank key) × KeysBelow key es

abbrev pub KeysUpTo : ℕ → List Entry → Type 0
KeysUpTo key [] = Unit
KeysUpTo key ((k, p) ∷ es) = (rank k ≤ rank key) × KeysUpTo key es

abbrev pub KeysFrom : ℕ → List Entry → Type 0
KeysFrom key [] = Unit
KeysFrom key ((k, p) ∷ es) = (rank key ≤ rank k) × KeysFrom key es

-- The lists of the first `n` children in a row.
unfoldable pub join : (ℕ → List Node) → ℕ → List Node
join leaves zero = []
join leaves (suc n) = join leaves n ++ leaves n

-- An inner node over children that satisfy `T`, with their leaves in a row: each key is a bound for
-- the children on its two sides.
pub record Inner (f : TreeFile) (T : Node → List Node → Type 0) (n : Node) (ls : List Node)
    : Type 0 where
  pub kids : ℕ → Node
  pub leaves : ℕ → List Node
  pub inner : n.is_leaf ≡ false
  pub keys_long : n.size ≤ length n.keys
  pub pointers_long : n.size < length n.pointers
  pub loads : (i : ℕ) → i ≤ n.size → load_node f (get_or n.pointers i 0) ≡ done (kids i)
  pub trees : (i : ℕ) → i ≤ n.size → T (kids i) (leaves i)
  pub all_leaves : ls ≡ join leaves (suc n.size)
  pub left_bound : (i : ℕ) → i < n.size → KeysUpTo (get_or n.keys i 0) (all_entries (leaves i))
  pub right_bound :
      (i : ℕ) → i < n.size → KeysFrom (get_or n.keys i 0) (all_entries (leaves (suc i)))

-- The node is the root of a tree of a height, with these leaves.
abbrev pub IsTree : TreeFile → ℕ → Node → List Node → Type 0
IsTree f zero n ls = (n.is_leaf ≡ true) × (ls ≡ n ∷ [])
IsTree f (suc h) n ls = Inner f (IsTree f h) n ls

-- The leaf stands among the leaves, and every key before it is below `key`.
pub record FoundIn (key : ℕ) (ls : List Node) (leaf : Node) : Type 0 where
  pub before : List Node
  pub behind : List Node
  pub is_there : ls ≡ before ++ (leaf ∷ behind)
  pub reached : leaf.is_leaf ≡ true
  pub below : KeysBelow key (all_entries before)

pub all_entries-append :
    (xs ys : List Node) → all_entries (xs ++ ys) ≡ all_entries xs ++ all_entries ys
unfolding all_entries
all_entries-append [] ys = refl
all_entries-append (x ∷ xs) ys =
    ap (λ l. entries x ++ l) (all_entries-append xs ys)
    ∙ sym (append_assoc (entries x) (all_entries xs) (all_entries ys))

KeysBelow-append :
    (key : ℕ) (es fs : List Entry) → KeysBelow key es → KeysBelow key fs → KeysBelow key (es ++ fs)
KeysBelow-append key [] fs p q = q
KeysBelow-append key ((k, r) ∷ es) fs p q = (p.0, KeysBelow-append key es fs p.1 q)

KeysUpTo-below :
    (k key : ℕ) (es : List Entry) → rank k < rank key → KeysUpTo k es → KeysBelow key es
KeysUpTo-below k key [] h p = tt
KeysUpTo-below k key ((j, r) ∷ es) h p = (omega arith, KeysUpTo-below k key es h p.1)

-- The child that the loop picks: the keys before it are below `key`.
abbrev Picked : List ℕ → ℕ → ℕ → ℕ → ℕ → Type 0
Picked keys key counter last c =
    (counter ≤ c) × (c ≤ last) × ((i : ℕ) → counter ≤ i → i < c → rank (get_or keys i 0) < rank key)

child_index-Picked :
    (n : ℕ) (keys : List ℕ) (key counter last : ℕ)
    → counter + n ≡ last
    → last ≤ length keys
    → Returns (child_index n keys key counter) (Picked keys key counter last)
unfolding child_index
child_index-Picked zero keys key counter last e h =
    (omega arith, omega arith, λ i p q. absurd (omega arith))
child_index-Picked (suc n) keys key counter last e h =
    rw (Returns, read_lem keys counter 0 (omega arith))
      (elim (Bool-cases (lt_int (get_or keys counter 0) key)) [
        | inl l ↦
            rw (Returns, l)
              (Returns-map (Picked keys key (counter + 1) last) (Picked keys key counter last)
                (child_index n keys key (counter + 1))
                (child_index-Picked n keys key (counter + 1) last (omega arith) h)
                λ c p. (
                  omega arith,
                  p.1,
                  λ i q r. elim (ℕ_discrete i counter) [
                    | yes same ↦
                        subst (λ j. rank (get_or keys j 0) < rank key) (sym same) (ltb→lt _ _ l)
                    | no other ↦ p.2 i (omega arith) r
                  ],
                ))
        | inr l ↦ rw (Returns, l) (omega arith, omega arith, λ i p q. absurd (omega arith))
      ])

join-split :
    (leaves : ℕ → List Node) (n c : ℕ)
    → c < n
    → (rest : List Node) × (join leaves n ≡ join leaves c ++ (leaves c ++ rest))
unfolding join
join-split leaves zero c h = absurd (omega arith)
join-split leaves (suc n) c h = elim (ℕ_discrete c n) [
  | yes e ↦ ([], rw (e, append-nil))
  | no ne ↦
      let (rest, e) = join-split leaves n c (omega arith) in
      (
        rest ++ leaves n,
        ap (λ l. l ++ leaves n) e
            ∙ append_assoc (join leaves c) (leaves c ++ rest) (leaves n)
            ∙ ap (λ l. join leaves c ++ l) (append_assoc (leaves c) rest (leaves n)),
      )
]

module _ (f : TreeFile) (key : ℕ) where
  join-KeysBelow :
      {T : Node → List Node → Type 0} (n : Node) (ls : List Node) (t : Inner f T n ls) (c : ℕ)
      → c ≤ n.size
      → ((i : ℕ) → i < c → rank (get_or n.keys i 0) < rank key)
      → KeysBelow key (all_entries (join t.leaves c))
  unfolding join all_entries
  join-KeysBelow n ls t zero h p = tt
  join-KeysBelow n ls t (suc c) h p = rw (all_entries-append (join t.leaves c) (t.leaves c)) (
      KeysBelow-append key (all_entries (join t.leaves c)) (all_entries (t.leaves c))
        (join-KeysBelow n ls t c (omega arith) (λ i q. p i (omega arith)))
        (KeysUpTo-below (get_or n.keys c 0) key (all_entries (t.leaves c)) (p c (omega arith))
          (t.left_bound c (omega arith))))

  find_leaf-stop : (fuel : ℕ) (n : Node) → n.is_leaf ≡ true → find_leaf (suc fuel) f n key ≡ done n
  unfolding find_leaf
  find_leaf-stop fuel n e = if_of_true n.is_leaf (done n) _ e

  find_leaf-go :
      (fuel : ℕ) (n : Node)
      → n.is_leaf ≡ false
      → find_leaf (suc fuel) f n key ≡ (
          child_index n.size n.keys key 0 >>= λ counter. read n.pointers counter >>= λ pos.
          load_node f pos >>= λ child. find_leaf fuel f child key)
  unfolding find_leaf
  find_leaf-go fuel n e = if_of_false n.is_leaf (done n) _ e

  -- A leaf found below a child, among all leaves.
  widen :
      (h : ℕ) (n : Node) (ls : List Node) (t : Inner f (IsTree f h) n ls) (c : ℕ)
      → Picked n.keys key 0 n.size c
      → (leaf : Node) → FoundIn key (t.leaves c) leaf
      → FoundIn key ls leaf
  widen h n ls t c p leaf g =
      let (rest, e) = join-split t.leaves (suc n.size) c (omega arith) in
      record {
        before = join t.leaves c ++ g.before;
        behind = g.behind ++ rest;
        is_there =
            t.all_leaves
            ∙ e
            ∙ ap (λ l. join t.leaves c ++ (l ++ rest)) g.is_there
            ∙ ap (λ l. join t.leaves c ++ l) (append_assoc g.before (leaf ∷ g.behind) rest)
            ∙ sym (append_assoc (join t.leaves c) g.before (leaf ∷ (g.behind ++ rest)));
        reached = g.reached;
        below = rw (all_entries-append (join t.leaves c) g.before) (
            KeysBelow-append key (all_entries (join t.leaves c)) (all_entries g.before)
              (join-KeysBelow n ls t c p.1 (λ i q. p.2 i (omega arith) q)) g.below);
      }

  -- On a tree of height below the fuel, find_leaf returns one of its leaves, and every key in the
  -- leaves before that one is below the searched key.
  pub find_leaf-FoundIn :
      (h fuel : ℕ) (n : Node) (ls : List Node)
      → h < fuel
      → IsTree f h n ls
      → Returns (find_leaf fuel f n key) (FoundIn key ls)
  unfolding find_leaf all_entries
  find_leaf-FoundIn h zero n ls fu t = absurd (omega arith)
  find_leaf-FoundIn zero (suc fuel) n ls fu t =
      let stop : find_leaf (suc fuel) f n key ≡ done n = find_leaf-stop fuel n t.0 in
      rw (Returns, stop)
        (record { before = []; behind = []; is_there = t.1; reached = t.0; below = tt })
  find_leaf-FoundIn (suc h) (suc fuel) n ls fu t =
      subst (λ r. Returns r (FoundIn key ls)) (sym (find_leaf-go fuel n t.inner))
        (Returns-bind (Picked n.keys key 0 n.size) (FoundIn key ls)
          (child_index n.size n.keys key 0) _
          (child_index-Picked n.size n.keys key 0 n.size (omega arith) t.keys_long)
          λ c p.
            let load : load_node f (get_or n.pointers c 0) ≡ done (t.kids c) = t.loads c p.1 in
            rw (Returns, read_lem n.pointers c 0 (omega (arith, t.pointers_long)), load)
              (Returns-map (FoundIn key (t.leaves c)) (FoundIn key ls)
                (find_leaf fuel f (t.kids c) key)
                (find_leaf-FoundIn h fuel (t.kids c) (t.leaves c) (omega arith) (t.trees c p.1))
                (λ leaf g. widen h n ls t c p leaf g)))
