-- ===== src/Search/UpperArray.antt =====
-- `get_upper_bound_from_array` (helper_math.c). Its loop may read one cell past the `size` given,
-- whose content does not change the result.
use cs165db.Prelude.{
  ℕ, zero, suc, ◌+◌, ◌-◌, ◌/◌, ◌≤◌, ◌<◌, ◌≡◌, refl, inl, inr, List, length, arith, ltb,
  if◌then◌else◌, Bool-cases, ltb→lt, ltb-false→le, subst, leb→le, leb-false→lt, ==_of_ne,
}
use cs165db.Word.{half, add32, sub32, rank, le_int, lt_int}
use cs165db.Run.{done, Returns, Returns-bind, read, read_lem, ◌>>=◌}
use cs165db.Search.{upper_array_loop, upper_result, get_upper_bound_from_array}
use cs165db.Search.UpperInv.{Inv, Inv-low, Inv-high, Inv→SplitsAbove}
use cs165db.Search.Spec.{◌!◌, IsSorted, SplitsAbove}

module _ (a : List ℕ) (size num : ℕ) where
  module _ (sorted : IsSorted a size) (two : 1 < size) (small : size < half) where
    upper_array_loop-Inv :
        (fuel low high : ℕ)
        → size < length a
        → Inv a size num low high
        → high - low < fuel
        → Returns (upper_array_loop fuel a num low high) (λ r. Inv a size num r r)
    unfolding upper_array_loop
    upper_array_loop-Inv zero low high fits inv f = absurd (omega arith)
    upper_array_loop-Inv (suc fuel) low high fits inv f = elim (Bool-cases (ltb low high)) [
      | inr t ↦
          let e : high ≡ low = omega (arith, inv.ordered, ltb-false→le low high t) in
          rw (Returns, upper_array_loop, t) (subst (λ k. Inv a size num low k) e inv)
      | inl t ↦
          let h : low < high = ltb→lt _ _ t in
          let m : ℕ = (low + high + 1) / 2 in
          let e : add32 (add32 low high) 1 / 2 ≡ m = omega (arith, inv.inside) in
          let e' : sub32 m 1 ≡ m - 1 = omega (arith, inv.inside) in
          let c : read a m ≡ done (a ! m) = read_lem a m 0 (omega (arith, inv.inside)) in
          elim (Bool-cases (le_int (a ! m) num)) [
            | inl q ↦
                rw (Returns, upper_array_loop, t, e, c, q)
                  (upper_array_loop-Inv fuel m high fits
                    (Inv-low a size num sorted two small low high m inv h refl (leb→le _ _ q))
                    (omega arith))
            | inr q ↦
                rw (Returns, upper_array_loop, t, e, c, q, e')
                  (upper_array_loop-Inv fuel low (m - 1) fits
                    (Inv-high a size num sorted two small low high m inv h refl
                      (leb-false→lt _ _ q))
                    (omega arith))
          ]
    ]

module _ (a : List ℕ) (num : ℕ) where
  one-SplitsAbove : SplitsAbove a 1 num (if lt_int num (a ! 0) then 0 else 1)
  one-SplitsAbove = elim (Bool-cases (lt_int num (a ! 0))) [
    | inl q ↦ rw q (omega arith, λ i p. absurd (omega arith), λ i p r. at0 i r (ltb→lt _ _ q))
    | inr q ↦
        rw q (omega arith, λ i p. at0' i p (ltb-false→le _ _ q), λ i p r. absurd (omega arith))
  ]
    where
      at0 : (i : ℕ) → i < 1 → rank num < rank (a ! 0) → rank num < rank (a ! i)
      at0 zero p h = h
      at0 (suc i) p h = absurd (omega arith)

      at0' : (i : ℕ) → i < 1 → rank (a ! 0) ≤ rank num → rank (a ! i) ≤ rank num
      at0' zero p h = h
      at0' (suc i) p h = absurd (omega arith)

  many-SplitsAbove :
      (size : ℕ)
      → IsSorted a size
      → 1 < size
      → size < length a
      → size < half
      → Returns (get_upper_bound_from_array a size num) (SplitsAbove a size num)
  unfolding get_upper_bound_from_array
  many-SplitsAbove size sorted two fits small =
      rw (==_of_ne size 0 (λ e. omega arith), ==_of_ne size 1 (λ e. omega arith))
        (Returns-bind (λ r. Inv a size num r r) (SplitsAbove a size num)
          (upper_array_loop (suc size) a num 0 size)
          (λ low. read a low >>= λ v. done (upper_result size num low v))
          (upper_array_loop-Inv a size num sorted two small (suc size) 0 size fits (omega arith)
            (omega arith))
          (λ low inv.
            rw (Returns, read_lem a low 0 (omega (arith, inv.inside)))
              (Inv→SplitsAbove a size num sorted two small low inv)))

-- On fewer than 2^31 sorted keys, with one readable cell behind them, get_upper_bound_from_array
-- ends and returns the number of keys that are at most the given one.
pub get_upper_bound_from_array-SplitsAbove :
    (a : List ℕ) (size num : ℕ)
    → IsSorted a size
    → size < length a
    → size < half
    → Returns (get_upper_bound_from_array a size num) (SplitsAbove a size num)
unfolding get_upper_bound_from_array
get_upper_bound_from_array-SplitsAbove a zero num sorted fits small =
    (omega arith, λ i p. absurd (omega arith), λ i p r. absurd (omega arith))
get_upper_bound_from_array-SplitsAbove a (suc zero) num sorted fits small =
    rw (read_lem a 0 0 (omega arith)) (one-SplitsAbove a num)
get_upper_bound_from_array-SplitsAbove a (suc (suc n)) num sorted fits small =
    many-SplitsAbove a num (suc (suc n)) sorted (omega arith) fits small
