-- ===== src/Join/Loop.antt =====
-- `loopjoin` (helper_join.c) finds exactly the pairs of rows with equal values.
use cs165db.Prelude.{
  ℕ, zero, suc, ◌+◌, ◌*◌, ◌≤◌, ◌<◌, sym, subst, List, [], ◌∷◌, ◌++◌, append-nil, append_assoc,
  length, length-append, get_or, arith, ◌==◌, inl, inr, Bool-cases,
}
use cs165db.Word.{word}
use cs165db.Run.{Returns, Returns-bind}
use cs165db.DynArray.{create_list, create_list_of_size}
use cs165db.DynArray.Append.{Holds, create_list_of_size-Holds}
use cs165db.Join.{JoinedIds, append_pair, loopjoin_inner, loopjoin_outer, loopjoin}
use cs165db.Join.Rows.{
  Row, rows_from, partners, joined, HoldsPairs, row_val_lem, append_pair-HoldsPairs,
}

module _ (c : ℕ) (m0 m1 : List ℕ) (small0 : length m0 < word) (small1 : length m1 < word) where
  -- A row of the first table, as the loop reads it.
  abbrev row_at : ℕ → Row
  row_at i = (get_or m0 (i * 2) 0, get_or m0 (i * 2 + 1) 0)

  loopjoin_inner-HoldsPairs :
      (n i j : ℕ) (xs : List (ℕ × ℕ)) (ids : JoinedIds)
      → i * 2 + 1 < length m0
      → (j + n) * 2 ≤ length m1
      → HoldsPairs c xs ids
      → (c + 2 * (length xs + length (partners (row_at i) (rows_from n m1 j)))) * 2 < word
      → Returns
          (loopjoin_inner n m0 m1 i j ids)
          (HoldsPairs c (xs ++ partners (row_at i) (rows_from n m1 j)))
  unfolding loopjoin_inner partners rows_from
  loopjoin_inner-HoldsPairs zero i j xs ids hi hj h small =
      subst (λ l. HoldsPairs c l ids) (sym (append-nil xs)) h
  loopjoin_inner-HoldsPairs (suc n) i j xs ids hi hj h small =
      let reads0 = row_val_lem m0 i (omega arith) (omega arith) in
      let reads1 = row_val_lem m1 j (omega arith) (omega arith) in
      elim (Bool-cases (get_or m0 (i * 2) 0 == get_or m1 (j * 2) 0)) [
        | inl same ↦
            let x : ℕ × ℕ = (get_or m0 (i * 2 + 1) 0, get_or m1 (j * 2 + 1) 0) in
            let ps : List (ℕ × ℕ) = partners (row_at i) (rows_from n m1 (j + 1)) in
            let less : (c + 2 * (length xs + suc (length ps))) * 2 < word = rw same at small in
            rw (Returns, reads0, reads1, same)
              (Returns-bind (HoldsPairs c (xs ++ (x ∷ []))) (HoldsPairs c (xs ++ (x ∷ ps)))
                (append_pair m0 m1 i j ids) (λ ids'. loopjoin_inner n m0 m1 i (j + 1) ids')
                (append_pair-HoldsPairs c m0 m1 i j xs ids hi (omega arith) small0 small1 h
                  (omega arith))
                λ ids' h'.
                  subst (λ l. Returns (loopjoin_inner n m0 m1 i (j + 1) ids') (HoldsPairs c l))
                    (append_assoc xs (x ∷ []) ps)
                    (loopjoin_inner-HoldsPairs n i (j + 1) (xs ++ (x ∷ [])) ids' hi (omega arith) h'
                      (omega (arith, length-append xs (x ∷ [])))))
        | inr other ↦
            let less = rw other at small in
            rw (Returns, reads0, reads1, other)
              (loopjoin_inner-HoldsPairs n i (j + 1) xs ids hi (omega arith) h less)
      ]

  loopjoin_outer-HoldsPairs :
      (n size1 i : ℕ) (xs : List (ℕ × ℕ)) (ids : JoinedIds)
      → (i + n) * 2 ≤ length m0
      → size1 * 2 ≤ length m1
      → HoldsPairs c xs ids
      → (c + 2 * (length xs + length (joined (rows_from n m0 i) (rows_from size1 m1 0)))) * 2 < word
      → Returns
          (loopjoin_outer n m0 m1 size1 i ids)
          (HoldsPairs c (xs ++ joined (rows_from n m0 i) (rows_from size1 m1 0)))
  unfolding loopjoin_outer joined rows_from
  loopjoin_outer-HoldsPairs zero size1 i xs ids hi hj h small =
      subst (λ l. HoldsPairs c l ids) (sym (append-nil xs)) h
  loopjoin_outer-HoldsPairs (suc n) size1 i xs ids hi hj h small =
      let ps : List (ℕ × ℕ) = partners (row_at i) (rows_from size1 m1 0) in
      let qs : List (ℕ × ℕ) = joined (rows_from n m0 (i + 1)) (rows_from size1 m1 0) in
      Returns-bind (HoldsPairs c (xs ++ ps)) (HoldsPairs c (xs ++ (ps ++ qs)))
        (loopjoin_inner size1 m0 m1 i 0 ids) (λ ids'. loopjoin_outer n m0 m1 size1 (i + 1) ids')
        (loopjoin_inner-HoldsPairs size1 i 0 xs ids (omega arith) (omega arith) h
          (omega (arith, length-append ps qs)))
        λ ids' h'.
          subst (λ l. Returns (loopjoin_outer n m0 m1 size1 (i + 1) ids') (HoldsPairs c l))
            (append_assoc xs ps qs)
            (loopjoin_outer-HoldsPairs n size1 (i + 1) (xs ++ ps) ids' (omega arith) hj h'
              (omega (arith, length-append xs ps, length-append ps qs)))

-- On two tables whose arrays hold their rows, with fewer than 2^32 cells, loopjoin ends, and its
-- two lists hold the places of exactly the pairs of rows with equal values, row by row of the
-- first table, if 16 and four times the number of the pairs stay below 2^32.
pub loopjoin-HoldsPairs :
    (m0 m1 : List ℕ) (size0 size1 : ℕ)
    → size0 * 2 ≤ length m0
    → size1 * 2 ≤ length m1
    → length m0 < word
    → length m1 < word
    → (8 + 2 * length (joined (rows_from size0 m0 0) (rows_from size1 m1 0))) * 2 < word
    → Returns
        (loopjoin m0 m1 size0 size1)
        (HoldsPairs 8 (joined (rows_from size0 m0 0) (rows_from size1 m1 0)))
unfolding loopjoin create_list create_list_of_size
loopjoin-HoldsPairs m0 m1 size0 size1 h0 h1 s0 s1 small =
    loopjoin_outer-HoldsPairs 8 m0 m1 s0 s1 size0 size1 0 [] (create_list, create_list)
      (omega arith) h1 start (omega arith)
  where
    fresh : Holds {A = ℕ} create_list []
    fresh = create_list_of_size-Holds ℕ 3 (omega arith)

    start : HoldsPairs 8 [] (create_list, create_list)
    start = record {
      first = fresh;
      second = fresh;
      first_small = omega arith;
      second_small = omega arith;
    }
