-- ===== src/Column/Sorted.antt =====
-- `insert_helper` on a column kept in order (helper_insert.c): the place comes from
-- `get_lower_bound`, which never answers the end of a column that is not empty.
use mathlib.Core.List.{Perm}
use cs165db.Prelude.{
  ℕ, suc, ◌+◌, ◌-◌, ◌≤◌, ◌<◌, ◌≡◌, ◌⊎◌, inl, inr, ap, ◌∙◌, List, ◌∷◌, length, min, arith,
}
use native.Mathlib.Decide.{ℕ_discrete, dec_lt}
use cs165db.Word.{rank}
use cs165db.Run.{Returns, Returns-map, Returns-bind}
use cs165db.Search.{get_lower_bound}
use cs165db.Search.Spec.{◌!◌, IsSorted, SplitsBelow}
use cs165db.Search.LowerFile.{LowerResult, get_lower_bound-LowerResult}
use cs165db.Column.{ColumnFile, insert_sorted, insert_value_to_file}
use cs165db.Column.Contents.{contents, IsWhole}
use cs165db.Column.Insert.{
  inserted, inserted-left, inserted-at, inserted-right, Inserted, insert_value_to_file-Inserted,
}

module _ (a : List ℕ) (n k v : ℕ) (sorted : IsSorted a n) (splits : SplitsBelow a n v k)
    (fits : n ≤ length a) where
  -- Where a cell of the new file comes from.
  data Source (i : ℕ) : Type 0 where
    before : i < k → inserted a n k v ! i ≡ a ! i → Source i
    here : i ≡ k → inserted a n k v ! i ≡ v → Source i
    after : (j : ℕ) → i ≡ suc j → k ≤ j → j < n → inserted a n k v ! i ≡ a ! j → Source i

  source : (i : ℕ) → i < n + 1 → Source i
  source i h = elim (dec_lt i k) [
    | yes p ↦ before p (inserted-left a n k v i splits.0 fits p)
    | no p ↦ elim (ℕ_discrete i k) [
      | yes e ↦ here e (ap (λ t. inserted a n k v ! t) e ∙ inserted-at a n k v splits.0 fits)
      | no e ↦
          let up : i ≡ suc (i - 1) = omega arith in
          after (i - 1) up (omega arith) (omega arith) (
            ap (λ t. inserted a n k v ! t) up
            ∙ inserted-right a n k v (i - 1) splits.0 fits (omega arith) (omega arith))
    ]
  ]

  ordered :
      (i j : ℕ)
      → i ≤ j
      → Source i
      → Source j
      → rank (inserted a n k v ! i) ≤ rank (inserted a n k v ! j)
  ordered i j h (before p e) (before q f) = rw (e, f) (sorted i j h (omega (arith, splits.0)))
  ordered i j h (before p e) (here q f) = rw (e, f) (omega (arith, splits.1 i p))
  ordered i j h (before p e) (after s q r t f) = rw (e, f) (sorted i s (omega arith) t)
  ordered i j h (here p e) (before q f) = absurd (omega arith)
  ordered i j h (here p e) (here q f) = rw (e, f) (omega arith)
  ordered i j h (here p e) (after s q r t f) = rw (e, f) (splits.2 s r t)
  ordered i j h (after u p r' t' e) (before q f) = absurd (omega arith)
  ordered i j h (after u p r' t' e) (here q f) = absurd (omega arith)
  ordered i j h (after u p r' t' e) (after s q r t f) = rw (e, f) (sorted u s (omega arith) t)

  pub inserted-IsSorted : IsSorted (inserted a n k v) (n + 1)
  inserted-IsSorted i j h l = ordered i j h (source i (omega arith)) (source j l)

-- What an insert into a column in order is to leave: the column in order, with the value added.
pub record SortedInsert (f : ColumnFile) (val : ℕ) (after : ColumnFile) : Type 0 where
  pub size_up : after.meta.size ≡ f.meta.size + 1
  pub in_order : IsSorted after.ints after.meta.size
  pub rows : Perm (contents after) (val ∷ contents f)

-- An insert into a whole column kept in order, of a value that is not above its last row or into
-- an empty column, returns the column in order, one row longer, with exactly the value added.
pub insert_sorted-SortedInsert :
    (f : ColumnFile) (val : ℕ)
    → IsWhole f
    → IsSorted f.ints f.meta.size
    → ((f.meta.size ≡ 0) ⊎ (rank val ≤ rank (f.ints ! (f.meta.size - 1))))
    → Returns (insert_sorted f val) (SortedInsert f val)
unfolding insert_sorted
insert_sorted-SortedInsert f val w sorted last =
    Returns-bind (LowerResult f.ints f.meta.size val) (SortedInsert f val)
      (get_lower_bound f.ints f.meta.size val) (λ q. insert_value_to_file f q val)
      (get_lower_bound-LowerResult f.ints f.meta.size val sorted w.stored w.small)
      λ q (r, s, e).
        let same : q ≡ r = place r s q e last in
        Returns-map (Inserted f q val) (SortedInsert f val) (insert_value_to_file f q val)
          (insert_value_to_file-Inserted f q val w (omega (arith, s.0)))
          λ after i. record {
            size_up = i.size_up;
            in_order =
                rw (i.ints_of, i.size_up, same)
                  (inserted-IsSorted f.ints f.meta.size r val sorted s w.stored);
            rows = i.rows;
          }
  where
    place :
        (r : ℕ)
        → SplitsBelow f.ints f.meta.size val r
        → (q : ℕ) → q ≡ min r (f.meta.size - 1)
        → ((f.meta.size ≡ 0) ⊎ (rank val ≤ rank (f.ints ! (f.meta.size - 1))))
        → q ≡ r
    place r s q e (inl z) = omega (arith, s.0)
    place r s q e (inr h) = elim (dec_lt r f.meta.size) [
      | yes p ↦ omega arith
      | no p ↦ elim (dec_lt 0 f.meta.size) [
        | yes z ↦ absurd (omega (arith, s.1 (f.meta.size - 1) (omega arith)))
        | no z ↦ omega (arith, s.0)
      ]
    ]

-- An insert into a whole column kept in order that is not empty, of a value above all its rows,
-- ends and leaves the column out of order.
pub insert_sorted-misplaced :
    (f : ColumnFile) (val : ℕ)
    → IsWhole f
    → IsSorted f.ints f.meta.size
    → 0 < f.meta.size
    → rank (f.ints ! (f.meta.size - 1)) < rank val
    → Returns (insert_sorted f val) (λ after. ¬ IsSorted after.ints after.meta.size)
unfolding insert_sorted
insert_sorted-misplaced f val w sorted some_rows above =
    Returns-bind (LowerResult f.ints f.meta.size val) _ (get_lower_bound f.ints f.meta.size val)
      (λ q. insert_value_to_file f q val)
      (get_lower_bound-LowerResult f.ints f.meta.size val sorted w.stored w.small)
      λ q (r, s, e).
        let last : q ≡ f.meta.size - 1 = place r s q e in
        Returns-map (Inserted f q val) _ (insert_value_to_file f q val)
          (insert_value_to_file-Inserted f q val w (omega arith))
          λ after i in_order.
            let m : ℕ = f.meta.size - 1 in
            let pair : rank (after.ints ! m) ≤ rank (after.ints ! suc m) =
              in_order m (suc m) (omega arith) (omega (arith, i.size_up)) in
            let new : after.ints ! m ≡ val =
              rw (i.ints_of, last) (inserted-at f.ints f.meta.size m val (omega arith) w.stored) in
            let old : after.ints ! suc m ≡ f.ints ! m =
              rw (i.ints_of, last)
                (inserted-right f.ints f.meta.size m val m (omega arith) w.stored (omega arith)
                  (omega arith)) in
            let wrong : rank val ≤ rank (f.ints ! m) = rw (new, old) at pair in omega arith
  where
    place :
        (r : ℕ)
        → SplitsBelow f.ints f.meta.size val r
        → (q : ℕ) → q ≡ min r (f.meta.size - 1)
        → q ≡ f.meta.size - 1
    place r s q e = elim (dec_lt r f.meta.size) [
      | yes p ↦ absurd (omega (arith, s.2 (f.meta.size - 1), s.2 r))
      | no p ↦ omega arith
    ]
