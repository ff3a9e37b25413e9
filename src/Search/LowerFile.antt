-- ===== src/Search/LowerFile.antt =====
-- `get_lower_bound` (helper_math.c), over the `int`s of a column file.
use cs165db.Prelude.{
  ℕ, zero, suc, ◌+◌, ◌-◌, ◌/◌, ◌≤◌, ◌<◌, ◌≡◌, refl, ◌≢◌, inl, inr, List, length, true, false, arith,
  ltb, ◌==◌, Bool-cases, ltb→lt, ltb-false→le, subst, leb→le, leb-false→lt, ==_of_ne, ==_iff, min,
  leb,
}
use cs165db.Word.{half, add32, rank, le_int}
use cs165db.Run.{done, Returns, Returns-bind}
use cs165db.Search.{
  Exit, returned, at_low, lower_file_loop, lower_file_end, get_lower_bound, get_val_from_offset,
}
use cs165db.Search.UpperFile.{get_val_from_offset_lem}
use cs165db.Search.Spec.{◌!◌, IsSorted, SplitsBelow}

module _ (f : List ℕ) (size num : ℕ) where
  record Inv (low high : ℕ) : Type 0 where
    ordered : low ≤ high
    inside : high ≤ size
    below : (i : ℕ) → i < low → rank (f ! i) < rank num
    above : (i : ℕ) → high ≤ i → i < size → rank num ≤ rank (f ! i)

  -- The result: the place where the file splits, but never `size` itself.
  abbrev pub LowerResult : ℕ → Type 0
  LowerResult q = (r : ℕ) × SplitsBelow f size num r × (q ≡ min r (size - 1))

  abbrev Ends : Exit → Type 0
  Ends (returned r) = ⊥
  Ends (at_low low) = Inv low low

  module _ (sorted : IsSorted f size) (small : size < half) (fits : size ≤ length f) where
    Inv-low :
        (low high mid : ℕ)
        → Inv low high
        → low < high
        → mid ≡ (low + high) / 2
        → rank (f ! mid) < rank num
        → Inv (mid + 1) high
    Inv-low low high mid inv h e c = record {
      ordered = omega arith;
      inside = inv.inside;
      below = λ i p.
          let s : rank (f ! i) ≤ rank (f ! mid) =
            sorted i mid (omega arith) (omega (arith, inv.inside)) in
          omega arith;
      above = inv.above;
    }

    Inv-high :
        (low high mid : ℕ)
        → Inv low high
        → low < high
        → mid ≡ (low + high) / 2
        → rank num ≤ rank (f ! mid)
        → Inv low mid
    Inv-high low high mid inv h e c = record {
      ordered = omega arith;
      inside = omega (arith, inv.inside);
      below = inv.below;
      above = λ i p q. let s : rank (f ! mid) ≤ rank (f ! i) = sorted mid i p q in omega arith;
    }

    lower_file_loop-Ends :
        (fuel low high : ℕ)
        → Inv low high
        → high - low < fuel
        → Returns (lower_file_loop fuel f size num low high) Ends
    unfolding lower_file_loop
    lower_file_loop-Ends zero low high inv fu = absurd (omega arith)
    lower_file_loop-Ends (suc fuel) low high inv fu = elim (Bool-cases (ltb low high)) [
      | inr t ↦
          let e : high ≡ low = omega (arith, inv.ordered, ltb-false→le low high t) in
          rw (Returns, lower_file_loop, t) (subst (λ k. Inv low k) e inv)
      | inl t ↦
          let h : low < high = ltb→lt _ _ t in
          let m : ℕ = (low + high) / 2 in
          let e : add32 low high / 2 ≡ m = omega (arith, inv.inside) in
          let e' : add32 m 1 ≡ m + 1 = omega (arith, inv.inside) in
          let z : (m == size) ≡ false = ==_of_ne m size (λ w. omega (arith, inv.inside)) in
          let c : get_val_from_offset f m ≡ done (f ! m) =
            get_val_from_offset_lem f m (omega (arith, inv.inside)) in
          elim (Bool-cases (le_int num (f ! m))) [
            | inl q ↦
                rw (Returns, lower_file_loop, t, e, z, c, q)
                  (lower_file_loop-Ends fuel low m (Inv-high low high m inv h refl (leb→le _ _ q))
                    (omega arith))
            | inr q ↦
                rw (Returns, lower_file_loop, t, e, z, c, q, e')
                  (lower_file_loop-Ends fuel (m + 1) high
                    (Inv-low low high m inv h refl (leb-false→lt _ _ q)) (omega arith))
          ]
    ]

    lower_file_end-LowerResult :
        (x : Exit) → 0 < size → Ends x → Returns (lower_file_end f size num x) LowerResult
    unfolding lower_file_end
    lower_file_end-LowerResult (returned r) pos h = absurd h
    lower_file_end-LowerResult (at_low low) pos h = elim (Bool-cases (low == size)) [
      | inl z ↦
          let e : low ≡ size = (==_iff low size).0 z in rw (Returns, z) (low, splits, omega arith)
      | inr z ↦
          let l : low < size = omega (arith, h.inside, ne_of z) in
          rw
            (
              Returns,
              z,
              get_val_from_offset_lem f low (omega arith),
              le→leb (h.above low (omega arith) l),
            )
            (low, splits, omega arith)
    ]
      where
        ne_of : (low == size) ≡ false → low ≢ size
        ne_of z = ground arith

        le→leb : {a b : ℕ} → a ≤ b → leb a b ≡ true
        le→leb p = ground arith

        splits : SplitsBelow f size num low
        splits = (h.inside, h.below, h.above)

    many-LowerResult : 0 < size → Returns (get_lower_bound f size num) LowerResult
    unfolding get_lower_bound
    many-LowerResult pos = rw (==_of_ne size 0 (λ e. omega arith)) (
        Returns-bind Ends LowerResult (lower_file_loop (suc size) f size num 0 size)
          (lower_file_end f size num)
          (lower_file_loop-Ends (suc size) 0 size (omega arith) (omega arith))
          (λ x h. lower_file_end-LowerResult x pos h))

-- On a file that holds fewer than 2^31 sorted values get_lower_bound ends and returns the number
-- of values below the given one, but the last index where all of them are below it.
pub get_lower_bound-LowerResult :
    (f : List ℕ) (size num : ℕ)
    → IsSorted f size
    → size ≤ length f
    → size < half
    → Returns (get_lower_bound f size num) (LowerResult f size num)
unfolding get_lower_bound
get_lower_bound-LowerResult f zero num sorted fits small =
    (0, (omega arith, λ i p. absurd (omega arith), λ i p r. absurd (omega arith)), omega arith)
get_lower_bound-LowerResult f (suc n) num sorted fits small =
    many-LowerResult f (suc n) num sorted small fits (omega arith)
