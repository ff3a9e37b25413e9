-- ===== src/Search/UpperFile.antt =====
-- `get_upper_bound` (helper_math.c), over the `int`s of a column file.
use cs165db.Prelude.{
  ℕ, zero, suc, ◌+◌, ◌-◌, ◌/◌, ◌≤◌, ◌<◌, ◌≡◌, refl, ◌≢◌, inl, inr, List, length, false, arith, ltb,
  ◌==◌, Bool-cases, ltb→lt, ltb-false→le, subst, leb→le, leb-false→lt, ==_of_ne, ==_iff,
  get_elem?-eq-get_or, ap, none, some,
}
use cs165db.Word.{half, add32, sub32, le_int}
use cs165db.Run.{done, abort, Returns, Returns-bind}
use cs165db.Search.{
  Exit, returned, at_low, upper_file_loop, upper_file_end, get_upper_bound, get_val_from_offset,
}
use cs165db.Search.UpperInv.{Inv, Inv-low, Inv-high, Inv→SplitsAbove}
use cs165db.Search.Spec.{◌!◌, IsSorted, SplitsAbove}

pub get_val_from_offset_lem :
    (f : List ℕ) (i : ℕ) → i < length f → get_val_from_offset f i ≡ done (f ! i)
unfolding get_val_from_offset
get_val_from_offset_lem f i h =
    ap (λ o. elim o [ none ↦ abort | some v ↦ done v ]) (get_elem?-eq-get_or f i 0 h)

module _ (f : List ℕ) (size num : ℕ) where
  -- What each way out of the loop tells.
  abbrev Ends : Exit → Type 0
  Ends (returned r) = SplitsAbove f size num r
  Ends (at_low low) = Inv f size num low low × (low < size)

  module _ (sorted : IsSorted f size) (two : 1 < size) (small : size < half)
      (fits : size ≤ length f) where
    full-SplitsAbove :
        (low high : ℕ)
        → Inv f size num low high
        → low < high
        → (low + high + 1) / 2 ≡ size
        → SplitsAbove f size num size
    full-SplitsAbove low high inv h e = (
      omega arith,
      λ i p. inv.below i (omega (arith, inv.inside)) p (omega (arith, inv.inside)),
      λ i p r. absurd (omega arith),
    )

    upper_file_loop-Ends :
        (fuel low high : ℕ)
        → Inv f size num low high
        → low < size
        → high - low < fuel
        → Returns (upper_file_loop fuel f size num low high) Ends
    unfolding upper_file_loop
    upper_file_loop-Ends zero low high inv l fu = absurd (omega arith)
    upper_file_loop-Ends (suc fuel) low high inv l fu = elim (Bool-cases (ltb low high)) [
      | inr t ↦
          let e : high ≡ low = omega (arith, inv.ordered, ltb-false→le low high t) in
          rw (Returns, upper_file_loop, t) (subst (λ k. Inv f size num low k) e inv, l)
      | inl t ↦
          let h : low < high = ltb→lt _ _ t in
          let m : ℕ = (low + high + 1) / 2 in
          let e : add32 (add32 low high) 1 / 2 ≡ m = omega (arith, inv.inside) in
          let e' : sub32 m 1 ≡ m - 1 = omega (arith, inv.inside) in
          elim (Bool-cases (m == size)) [
            | inl z ↦
                rw (Returns, upper_file_loop, t, e, z)
                  (full-SplitsAbove low high inv h ((==_iff m size).0 z))
            | inr z ↦
                let ne : m ≢ size = ne_of m z in
                let c : get_val_from_offset f m ≡ done (f ! m) =
                  get_val_from_offset_lem f m (omega (arith, inv.inside)) in
                elim (Bool-cases (le_int (f ! m) num)) [
                  | inl q ↦
                      rw (Returns, upper_file_loop, t, e, z, c, q)
                        (upper_file_loop-Ends fuel m high
                          (Inv-low f size num sorted two small low high m inv h refl (leb→le _ _ q))
                          (omega (arith, inv.inside)) (omega arith))
                  | inr q ↦
                      rw (Returns, upper_file_loop, t, e, z, c, q, e')
                        (upper_file_loop-Ends fuel low (m - 1)
                          (Inv-high f size num sorted two small low high m inv h refl
                            (leb-false→lt _ _ q))
                          l (omega arith))
                ]
          ]
    ]
      where
        ne_of : (m : ℕ) → (m == size) ≡ false → m ≢ size
        ne_of m z = ground arith

    upper_file_end-SplitsAbove :
        (x : Exit) → Ends x → Returns (upper_file_end f size num x) (SplitsAbove f size num)
    unfolding upper_file_end
    upper_file_end-SplitsAbove (returned r) h = h
    upper_file_end-SplitsAbove (at_low low) h =
        rw (Returns, get_val_from_offset_lem f low (omega arith))
          (Inv→SplitsAbove f size num sorted two small low h.0)

    many-SplitsAbove : Returns (get_upper_bound f size num) (SplitsAbove f size num)
    unfolding get_upper_bound
    many-SplitsAbove = rw (==_of_ne size 0 (λ e. omega arith)) (
        Returns-bind Ends (SplitsAbove f size num) (upper_file_loop (suc size) f size num 0 size)
          (upper_file_end f size num)
          (upper_file_loop-Ends (suc size) 0 size (omega arith) (omega arith) (omega arith))
          upper_file_end-SplitsAbove)

-- On a file that holds fewer than 2^31 sorted values, and not exactly one, get_upper_bound ends
-- and returns the number of values that are at most the given one.
pub get_upper_bound-SplitsAbove :
    (f : List ℕ) (size num : ℕ)
    → IsSorted f size
    → size ≢ 1
    → size ≤ length f
    → size < half
    → Returns (get_upper_bound f size num) (SplitsAbove f size num)
unfolding get_upper_bound
get_upper_bound-SplitsAbove f zero num sorted ne fits small =
    (omega arith, λ i p. absurd (omega arith), λ i p r. absurd (omega arith))
get_upper_bound-SplitsAbove f (suc zero) num sorted ne fits small = absurd (ne refl)
get_upper_bound-SplitsAbove f (suc (suc n)) num sorted ne fits small =
    many-SplitsAbove f (suc (suc n)) num sorted (omega arith) small fits

-- With one `int` in the file it returns 1 whatever that is.
pub get_upper_bound-one : (f : List ℕ) (num : ℕ) → get_upper_bound f 1 num ≡ done 1
unfolding get_upper_bound upper_file_loop upper_file_end
get_upper_bound-one f num = refl
