-- ===== src/Search/UpperInv.antt =====
-- The invariant that the loops of the two upper bounds of helper_math.c share.
use cs165db.Prelude.{
  ℕ, ◌+◌, ◌-◌, ◌/◌, ◌≤◌, ◌<◌, ◌≡◌, inl, inr, List, arith, ltb, if◌then◌else◌, min, sym, Bool-cases,
  ltb→lt, ltb-false→le, subst, leb→le, leb-false→lt,
}
use native.Mathlib.Decide.{dec_lt}
use cs165db.Word.{half, add32, rank, le_int}
use cs165db.Search.{upper_result}
use cs165db.Search.Spec.{◌!◌, IsSorted, SplitsAbove}

module _ (a : List ℕ) (size num : ℕ) where
  -- What holds of `low` and `high` at each test of the loop.
  pub record Inv (low high : ℕ) : Type 0 where
    pub ordered : low ≤ high
    pub inside : high ≤ size
    pub at_low : 0 < low → rank (a ! low) ≤ rank num
    pub below : (i : ℕ) → i ≤ low → i < size → 0 < low → rank (a ! i) ≤ rank num
    pub above : (i : ℕ) → high < i → i < size → rank num < rank (a ! i)

  module _ (sorted : IsSorted a size) (two : 1 < size) (small : size < half) where
    pub Inv-low :
        (low high mid : ℕ)
        → Inv low high
        → low < high
        → mid ≡ (low + high + 1) / 2
        → rank (a ! mid) ≤ rank num
        → Inv mid high
    Inv-low low high mid inv h e c = record {
      ordered = omega arith;
      inside = inv.inside;
      at_low = λ _. c;
      below = λ i p q r. elim (Bool-cases (ltb mid size)) [
        | inl t ↦ grind (arith, sorted i mid p (ltb→lt _ _ t))
        | inr t ↦
            let full : size ≤ mid = ltb-false→le _ _ t in inv.below i (omega arith) q (omega arith)
      ];
      above = inv.above;
    }

    pub Inv-high :
        (low high mid : ℕ)
        → Inv low high
        → low < high
        → mid ≡ (low + high + 1) / 2
        → rank num < rank (a ! mid)
        → Inv low (mid - 1)
    Inv-high low high mid inv h e c = record {
      ordered = omega arith;
      inside = omega arith;
      at_low = inv.at_low;
      below = inv.below;
      above = λ i p q.
          let s : rank (a ! mid) ≤ rank (a ! i) = sorted mid i (omega arith) q in omega arith;
    }

    pub Inv→SplitsAbove :
        (low : ℕ) → Inv low low → SplitsAbove a size num (upper_result size num low (a ! low))
    Inv→SplitsAbove low inv = elim (Bool-cases (le_int (a ! low) num)) [
      | inl q ↦
          let c : rank (a ! low) ≤ rank num = leb→le _ _ q in
          rw (q, upper_result_hit)
            (
              omega (arith, inv.inside),
              λ i p. hit i c (omega arith),
              λ i p r. inv.above i (omega arith) r,
            )
      | inr q ↦
          let c : rank num < rank (a ! low) = leb-false→lt _ _ q in
          let z : low ≡ 0 = elim (dec_lt 0 low) [
            | yes l ↦ absurd (omega (arith, inv.at_low l))
            | no l ↦ omega arith
          ] in
          let c' : rank num < rank (a ! 0) = subst (λ k. rank num < rank (a ! k)) z c in
          rw q (
            omega arith,
            λ i p. absurd (omega arith),
            λ i p r. omega (arith, sorted 0 i (omega arith) r),
          )
    ]
      where
        upper_result_hit :
            (if ltb (add32 low 1) size then add32 low 1 else size) ≡ min (low + 1) size
        upper_result_hit = ground (arith, inv.inside)

        hit : (i : ℕ) → rank (a ! low) ≤ rank num → i < min (low + 1) size → rank (a ! i) ≤ rank num
        hit i c p = elim (dec_lt 0 low) [
          | yes l ↦ inv.below i (omega arith) (omega arith) l
          | no l ↦ let e : i ≡ low = omega arith in subst (λ k. rank (a ! k) ≤ rank num) (sym e) c
        ]
