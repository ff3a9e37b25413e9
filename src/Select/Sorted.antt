-- ===== src/Select/Sorted.antt =====
-- `mark_matching_bv_for_sorted` (helper_variable.c) from the two searches and the two ways to mark.
use cs165db.Prelude.{
  zero, suc, [], ◌∷◌, take, leb, Bool, false, length-take, get_or-take, ℕ, ◌+◌, ◌-◌, ◌%◌, ◌≤◌, ◌<◌,
  ◌≡◌, ◌∙◌, List, length, true, arith, ltb, ◌==◌, ==-self, ==_of_ne, ◌&&◌, if◌then◌else◌, ◌≢◌,
  subst,
}
use native.Mathlib.Decide.{dec_lt, ℕ_discrete}
use cs165db.Word.{half, rank, le_int}
use cs165db.Run.{Returns, Returns-done, Returns-bind}
use cs165db.Search.{get_lower_bound, get_upper_bound}
use cs165db.Search.Spec.{◌!◌, IsSorted, SplitsAbove, SplitsBelow}
use cs165db.Search.LowerFile.{LowerResult, get_lower_bound-LowerResult}
use cs165db.Search.UpperFile.{get_upper_bound-SplitsAbove}
use cs165db.BitVector.{BitVector, mark_bv, mark_bv_by_range}
use cs165db.BitVector.View.{IsShaped, bit_at}
use cs165db.BitVector.Mark.{Toggled, mark_bv-Toggled}
use cs165db.BitVector.Range.{RangeMarked, in_range, mark_bv_by_range-RangeMarked}
use cs165db.Column.{ColumnFile}
use cs165db.Select.Unsorted.{matching}
use cs165db.Select.{mark_matching_bv_for_sorted}

-- `last` is the last place whose value lies between two values.
abbrev pub IsLastBetween : ℕ → ℕ → List ℕ → ℕ → ℕ → Type 0
IsLastBetween low high f size last =
    (last < size)
    × (rank low ≤ rank (f ! last))
    × (rank (f ! last) ≤ rank high)
    × ((j : ℕ) → last < j → j < size → rank high < rank (f ! j))

-- Exactly the bits at the places of the values from `low` to `high` are set, and the total is the number of
-- these values, as is the count of the vector.
pub record BetweenMarked (low high : ℕ) (f : List ℕ) (size : ℕ) (bv : BitVector) (r : BitVector × ℕ)
    : Type 0 where
  pub shaped : IsShaped r.0
  pub size_kept : r.0.size ≡ bv.size
  pub bits :
      (j : ℕ)
      → j < bv.size
      → bit_at r.0.vec j
        ≡ (if ltb j size && (le_int low (f ! j) && le_int (f ! j) high) then 1 else 0)
  pub total : r.1 ≡ length (matching low high (take size f) 0)
  pub counted : r.0.count ≡ r.1

-- The values from `low` to `high` of a list that has them at the places from `a` on and before `b`.
length-matching_interval :
    (low high : ℕ) (vs : List ℕ) (a b k : ℕ)
    → a ≤ b
    → b ≤ length vs
    → ((i : ℕ)
        → i < length vs
        → (le_int low (vs ! i) && le_int (vs ! i) high) ≡ (leb a i && ltb i b))
    → length (matching low high vs k) ≡ b - a
unfolding matching
length-matching_interval low high [] a b k h e hits = omega arith
length-matching_interval low high (v ∷ vs) zero zero k h e hits =
    let miss : (le_int low v && le_int v high) ≡ false = hits 0 (omega arith) ∙ ground arith in
    rw miss (
      length-matching_interval low high vs 0 0 (k + 1) h (omega arith)
        (λ i p. hits (suc i) (omega arith) ∙ ground arith))
length-matching_interval low high (v ∷ vs) zero (suc b) k h e hits =
    let ih : length (matching low high vs (k + 1)) ≡ b - 0 =
      length-matching_interval low high vs 0 b (k + 1) (omega arith) (omega arith)
        (λ i p. hits (suc i) (omega arith) ∙ ground arith) in
    let hit : (le_int low v && le_int v high) ≡ true = hits 0 (omega arith) ∙ ground arith in
    rw hit (omega (arith, ih))
length-matching_interval low high (v ∷ vs) (suc a) zero k h e hits = absurd (omega arith)
length-matching_interval low high (v ∷ vs) (suc a) (suc b) k h e hits =
    let ih : length (matching low high vs (k + 1)) ≡ b - a =
      length-matching_interval low high vs a b (k + 1) (omega arith) (omega arith)
        (λ i p. hits (suc i) (omega arith) ∙ ground arith) in
    let miss : (le_int low v && le_int v high) ≡ false = hits 0 (omega arith) ∙ ground arith in
    rw miss (omega (arith, ih))

-- The last of one search's places is the one before the other's result.
module _ (low high : ℕ) (f : List ℕ) (size last : ℕ)
    (is_last : IsLastBetween low high f size last) where
  upper_place : (u : ℕ) → SplitsAbove f size high u → u ≡ last + 1
  upper_place u (inside, below, above) = elim (dec_lt last u) [
    | yes l ↦ elim (dec_lt (last + 1) u) [
      | yes m ↦
          let a : rank (f ! (last + 1)) ≤ rank high = below (last + 1) m in
          let b : rank high < rank (f ! (last + 1)) =
            is_last.3 (last + 1) (omega arith) (omega arith) in
          absurd (omega arith)
      | no m ↦ omega arith
    ]
    | no l ↦
        let a : rank high < rank (f ! last) = above last (omega arith) is_last.0 in
        absurd (omega (arith, is_last.2))
  ]

  lower_place : (q : ℕ) → LowerResult f size low q → SplitsBelow f size low q × (q ≤ last)
  lower_place q (r, splits, e) = elim (dec_lt last r) [
    | yes l ↦
        let a : rank (f ! last) < rank low = splits.1 last l in absurd (omega (arith, is_last.1))
    | no l ↦
        let same : r ≡ q = omega (arith, is_last.0) in
        (subst (SplitsBelow f size low) same splits, omega arith)
  ]

  between :
      (q j : ℕ)
      → SplitsBelow f size low q
      → SplitsAbove f size high (last + 1)
      → in_range q last j
        ≡ (if ltb j size && (le_int low (f ! j) && le_int (f ! j) high) then 1 else 0)
  between q j b a = elim (dec_lt j size) [
    | no o ↦ ground (arith, is_last.0)
    | yes i ↦ elim (dec_lt j q) [
      | yes before ↦ let x : rank (f ! j) < rank low = b.1 j before in ground arith
      | no behind ↦
          let x : rank low ≤ rank (f ! j) = b.2 j (omega arith) i in
          elim (dec_lt last j) [
            | yes over ↦ let y : rank high < rank (f ! j) = is_last.3 j over i in ground arith
            | no under ↦ let y : rank (f ! j) ≤ rank high = a.1 j (omega arith) in ground arith
          ]
    ]
  ]

-- The number of values between the two.
number_between :
    (low high : ℕ) (f : List ℕ) (size last q : ℕ)
    → IsLastBetween low high f size last
    → q ≤ last
    → SplitsBelow f size low q
    → SplitsAbove f size high (last + 1)
    → size ≤ length f
    → length (matching low high (take size f) 0) ≡ last - q + 1
number_between low high f size last q is_last ordered below above held =
    length-matching_interval low high (take size f) q (last + 1) 0 (omega arith)
      (omega (arith, is_last.0, length-take size f))
      (λ i p.
        let inside : i < size = omega (arith, length-take size f) in
        let same : (take size f) ! i ≡ f ! i = get_or-take size f i 0 inside in
        let hit : in_range q last i
            ≡ (if ltb i size && (le_int low (f ! i) && le_int (f ! i) high) then 1 else 0) =
          between low high f size last is_last q i below above in
        rw same (same_test q last i size (le_int low (f ! i) && le_int (f ! i) high) inside hit))
    ∙ omega arith
  where
    same_test :
        (q last i size : ℕ) (t : Bool)
        → i < size
        → in_range q last i ≡ (if ltb i size && t then 1 else 0)
        → t ≡ (leb q i && ltb i (last + 1))
    same_test q last i size true inside h = ground arith
    same_test q last i size false inside h = ground arith

-- On a column kept in order of fewer than 2^31 rows, but not of one, where some value lies between
-- the two and the last that does is not at the last place of a word, a vector with a bit for each
-- row and none set gets exactly the bits of the rows whose values lie between the two, and the
-- total is their number.
pub mark_matching_bv_for_sorted-BetweenMarked :
    (low high : ℕ) (c : ColumnFile) (bv : BitVector) (last : ℕ)
    → IsSorted c.ints c.meta.size
    → c.meta.size ≢ 1
    → c.meta.size ≤ length c.ints
    → c.meta.size < half
    → IsShaped bv
    → c.meta.size ≤ bv.size
    → ((j : ℕ) → j < bv.size → bit_at bv.vec j ≡ 0)
    → bv.count ≡ 0
    → IsLastBetween low high c.ints c.meta.size last
    → last % 32 < 31
    → Returns
        (mark_matching_bv_for_sorted low high c bv)
        (BetweenMarked low high c.ints c.meta.size bv)
unfolding mark_matching_bv_for_sorted
mark_matching_bv_for_sorted-BetweenMarked low high c bv last sorted many held small s room clear
      none_set is_last place =
    let f : List ℕ = c.ints in
    let size : ℕ = c.meta.size in
    let (q, run_low, low_place) =
      Returns-done (LowerResult f size low) (get_lower_bound f size low)
        (get_lower_bound-LowerResult f size low sorted held small) in
    let (u, run_high, splits) =
      Returns-done (SplitsAbove f size high) (get_upper_bound f size high)
        (get_upper_bound-SplitsAbove f size high sorted many held small) in
    let (below, ordered) = lower_place low high f size last is_last q low_place in
    let upper : u ≡ last + 1 = upper_place low high f size last is_last u splits in
    let above : SplitsAbove f size high (last + 1) = subst (SplitsAbove f size high) upper splits in
    let number : length (matching low high (take size f) 0) ≡ last - q + 1 =
      number_between low high f size last q is_last ordered below above held in
    let high_index : (if ltb 0 u then u - 1 else 0) ≡ last = ground arith in
    let in_order : le_int low high ≡ true = ground (arith, is_last.1, is_last.2) in
    rw (Returns, run_low, run_high, high_index, in_order)
      (elim (ℕ_discrete q last) [
        | yes e ↦
            let first : (q == last) ≡ true = rw e (==-self last) in
            rw first (
              Returns-bind (Toggled bv q 1) (BetweenMarked low high f size bv) (mark_bv bv q) _
                (mark_bv-Toggled bv q s (omega (arith, is_last.0)))
                (λ a t. record {
                  shaped = t.shaped;
                  size_kept = t.size_kept;
                  bits = λ j p.
                      t.bits j
                      ∙ one_place q last j (bit_at bv.vec j) e (clear j p)
                      ∙ between low high f size last is_last q j below above;
                  total = omega (arith, number);
                  counted = omega (arith, t.counted, none_set);
                }))
        | no n ↦ rw (==_of_ne q last n) (
            Returns-bind (RangeMarked bv q last) (BetweenMarked low high f size bv)
              (mark_bv_by_range bv q last) _
              (mark_bv_by_range-RangeMarked bv q last s ordered (omega (arith, is_last.0)) place)
              (λ a t. record {
                shaped = t.shaped;
                size_kept = t.size_kept;
                bits = λ j p. t.bits j p ∙ between low high f size last is_last q j below above;
                total = omega (arith, number, is_last.0);
                counted = omega (arith, t.counted, is_last.0);
              }))
      ])
  where
    one_place : (q last j b : ℕ) → q ≡ last → b ≡ 0 → (if q == j then 1 else b) ≡ in_range q last j
    one_place q last j b e z = ground arith
