-- ===== src/BpTree/Find.antt =====
-- bptree.c: the way from the root to a leaf, and the search for the records in a range of keys.
pub mod Scan
pub mod Descent
pub mod Search
pub mod Results
use cs165db.Prelude.{
  ℕ, zero, suc, ◌+◌, Bool, true, false, not, ◌&&◌, ltb, ◌==◌, if◌then◌else◌, List, [],
}
use cs165db.Word.{add32, lt_int, le_int}
use cs165db.Run.{Run, done, spin, read, ◌>>=◌}
use cs165db.BitVector.{BitVector, mark_bv}
use cs165db.DynArray.{DynArray, append_list}
use cs165db.BpTree.{Node, TreeFile, load_node}

-- `while (counter < size)` of `_find_leaf`: `n` rounds are left until the size is reached.
unfoldable pub child_index : ℕ → List ℕ → ℕ → ℕ → Run ℕ
child_index zero keys key counter = done counter
child_index (suc n) keys key counter =
    let rest = child_index n keys key (counter + 1) in
    read keys counter >>= λ k. if lt_int k key then rest else done counter

-- `_find_leaf` from a node that is given; the fuel bounds the depth.
unfoldable pub find_leaf : ℕ → TreeFile → Node → ℕ → Run Node
find_leaf zero f node key = spin
find_leaf (suc fuel) f node key =
    let down = child_index node.size node.keys key 0 >>= λ counter.
    read node.pointers counter >>= λ pos. load_node f pos >>= λ child. find_leaf fuel f child key in
    if node.is_leaf then done node else down

-- What the search does with a record that it finds: `append_list` or `mark_bv`.
module _ {S : Type 0} (emit : S → ℕ → Run S) (low high : ℕ) where
  -- The `for` loop over the keys of a leaf, with `n` of them left from `i` on. The last part says
  -- that a key above `high` was met, which is the `goto done`.
  unfoldable pub scan_leaf : ℕ → Node → ℕ → S → ℕ → Run (S × ℕ × Bool)
  scan_leaf zero leaf i s count = done (s, count, false)
  scan_leaf (suc n) leaf i s count = read leaf.keys i >>= λ k.
      (if le_int k high && le_int low k
        then (read leaf.pointers i >>= λ p. emit s p >>= λ s'. done (s', add32 count 1))
        else done (s, count))
      >>= λ (s', count').
          (let rest = scan_leaf n leaf (i + 1) s' count' in
            if lt_int high k then done (s', count', true) else rest)

  -- The `do` loop along the leaves.
  unfoldable pub scan_leaves : ℕ → TreeFile → Node → S → ℕ → Run (S × ℕ)
  scan_leaves zero f leaf s count = spin
  scan_leaves (suc fuel) f leaf s count =
      scan_leaf leaf.size leaf 0 s count >>= λ (s', count', stopped). elim stopped [
        | true ↦ done (s', count')
        | false ↦ load_node f leaf.next >>= λ next_leaf.
            (let more = scan_leaves fuel f next_leaf s' count' in
              if leaf.next == 0 then done (s', count') else more)
      ]

  -- `_find_record_in_range_type`: `depth` bounds the way down and `width` the leaves passed.
  unfoldable pub find_record_in_range_type : ℕ → ℕ → TreeFile → S → Run (S × ℕ)
  find_record_in_range_type depth width f s = load_node f f.meta.root >>= λ root.
      find_leaf depth f root low >>= λ low_leaf. scan_leaves width f low_leaf s 0

-- `find_record_in_range` marks the records in a bit vector, `find_record_in_range_id` lists them.
unfoldable pub find_record_in_range : ℕ → ℕ → TreeFile → BitVector → ℕ → ℕ → Run (BitVector × ℕ)
find_record_in_range depth width f bv low high =
    find_record_in_range_type mark_bv low high depth width f bv

unfoldable pub find_record_in_range_id :
    ℕ → ℕ → TreeFile → DynArray ℕ → ℕ → ℕ → Run (DynArray ℕ × ℕ)
find_record_in_range_id depth width f ids low high =
    find_record_in_range_type append_list low high depth width f ids
