-- ===== src/Join/Sorted.antt =====
-- `sortjoin` (helper_join.c): the walk over the duplicates before a match starts at `j - 1`.
use cs165db.Prelude.{
  ℕ, suc, ◌+◌, ◌*◌, ◌%◌, ◌≤◌, ◌<◌, ◌≡◌, refl, ap, ◌∙◌, List, [], length, get_or, get_elem?-none,
  none, some, arith, lt→ltb, false, le→ltb-false,
}
use cs165db.Word.{word, sub32, lt_int}
use cs165db.Run.{done, fault, Returns-done}
use cs165db.Join.{JoinedIds, append_pair, row_val, sortjoin_up, sortjoin_loop, sortjoin}
use cs165db.Join.Rows.{HoldsPairs, row_val_lem, append_pair-HoldsPairs}

row_val-outside : (m : List ℕ) (i : ℕ) → length m ≤ i * 2 % word → row_val m i ≡ fault
row_val-outside m i h =
    ap (λ o. elim o [ none ↦ fault | some v ↦ done v ]) (get_elem?-none m (i * 2 % word) h)

-- Up from the first row: the place wraps around, and the read is far outside the table.
sortjoin_up-wraps :
    (fuel : ℕ) (m0 m1 : List ℕ) (i : ℕ) (ids : JoinedIds)
    → i * 2 < length m0
    → length m0 < word
    → length m1 + 2 ≤ word
    → sortjoin_up (suc fuel) m0 m1 i (sub32 0 1) ids ≡ fault
unfolding sortjoin_up
sortjoin_up-wraps fuel m0 m1 i ids h s0 s1 =
    rw (row_val_lem m0 i h (omega arith), row_val-outside m1 (sub32 0 1) (omega arith)) refl

-- Where the first rows of two tables that are not empty have equal values, the arrays have fewer
-- than 2^32 and 2^32 - 1 cells, and the empty lists of the result have room to grow, sortjoin with
-- fuel for two turns reads outside the second table.
pub sortjoin-fault :
    (fuel c : ℕ) (m0 m1 : List ℕ) (size0 size1 : ℕ) (ids : JoinedIds)
    → 0 < size0
    → 0 < size1
    → size0 * 2 ≤ length m0
    → size1 * 2 ≤ length m1
    → length m0 < word
    → length m1 + 2 ≤ word
    → get_or m0 0 0 ≡ get_or m1 0 0
    → HoldsPairs c [] ids
    → c * 2 < word
    → sortjoin (suc (suc fuel)) m0 m1 size0 size1 ids ≡ fault
unfolding sortjoin sortjoin_loop
sortjoin-fault fuel c m0 m1 size0 size1 ids n0 n1 h0 h1 s0 s1 same h small =
    let (ids', e, h') = Returns-done _ (append_pair m0 m1 0 0 ids) (
      append_pair-HoldsPairs c m0 m1 0 0 [] ids (omega arith) (omega arith) s0 (omega arith) h
        (omega arith)) in
    let first : row_val m0 0 ≡ done (get_or m1 0 0) =
      row_val_lem m0 0 (omega arith) (omega arith) ∙ ap done same in
    let second : row_val m1 0 ≡ done (get_or m1 0 0) =
      row_val_lem m1 0 (omega arith) (omega arith) in
    let equal : lt_int (get_or m1 0 0) (get_or m1 0 0) ≡ false = le→ltb-false _ _ (omega arith) in
    rw
      (
        lt→ltb 0 size0 n0,
        lt→ltb 0 size1 n1,
        first,
        second,
        equal,
        e,
        sortjoin_up-wraps fuel m0 m1 0 ids' (omega arith) s0 s1,
      )
      refl
