-- ===== src/Values/Extremes.antt =====
-- `aggregate_vals` (helper_aggregation.c), on the values that it has got, with `fptr_max` and `fptr_min` finds the greatest and the
-- least value.
use cs165db.Prelude.{
  ℕ, zero, suc, ◌+◌, ◌-◌, ◌≤◌, ◌<◌, ◌≡◌, refl, subst, List, length, arith, false, inl, inr,
  Bool-cases, ltb→lt, ltb-false→le, if◌then◌else◌,
}
use native.Mathlib.Decide.{ℕ_discrete}
use cs165db.Word.{rank, lt_int}
use cs165db.Run.{Run, done, Returns, Returns-bind, read_lem}
use cs165db.Search.Spec.{◌!◌}
use cs165db.Values.{fptr_max, fptr_min, aggregate_loop, aggregate_found}

-- `r` is one of the first `n` values, and none of them is above it.
pub record IsGreatest (vals : List ℕ) (n r : ℕ) : Type 0 where
  pub place : ℕ
  pub place_in : place < n
  pub is_there : r ≡ vals ! place
  pub bound : (k : ℕ) → k < n → rank (vals ! k) ≤ rank r

pub record IsLeast (vals : List ℕ) (n r : ℕ) : Type 0 where
  pub place : ℕ
  pub place_in : place < n
  pub is_there : r ≡ vals ! place
  pub bound : (k : ℕ) → k < n → rank r ≤ rank (vals ! k)

IsGreatest-next :
    (vals : List ℕ) (i r : ℕ)
    → IsGreatest vals i r
    → IsGreatest vals (i + 1) (if lt_int (vals ! i) r then r else vals ! i)
IsGreatest-next vals i r b = elim (Bool-cases (lt_int (vals ! i) r)) [
  | inl above ↦ rw above (record {
    place = b.place;
    place_in = omega (arith, b.place_in);
    is_there = b.is_there;
    bound = λ k p. elim (ℕ_discrete k i) [
      | yes e ↦ rw e (let l = ltb→lt _ _ above in omega arith)
      | no ne ↦ b.bound k (omega arith)
    ];
  })
  | inr not_above ↦ rw not_above (record {
    place = i;
    place_in = omega arith;
    is_there = refl;
    bound = λ k p. elim (ℕ_discrete k i) [
      | yes e ↦ rw e (omega arith)
      | no ne ↦ let l = ltb-false→le _ _ not_above in omega (arith, b.bound k (omega arith))
    ];
  })
]

IsLeast-next :
    (vals : List ℕ) (i r : ℕ)
    → IsLeast vals i r
    → IsLeast vals (i + 1) (if lt_int r (vals ! i) then r else vals ! i)
IsLeast-next vals i r b = elim (Bool-cases (lt_int r (vals ! i))) [
  | inl below ↦ rw below (record {
    place = b.place;
    place_in = omega (arith, b.place_in);
    is_there = b.is_there;
    bound = λ k p. elim (ℕ_discrete k i) [
      | yes e ↦ rw e (let l = ltb→lt _ _ below in omega arith)
      | no ne ↦ b.bound k (omega arith)
    ];
  })
  | inr not_below ↦ rw not_below (record {
    place = i;
    place_in = omega arith;
    is_there = refl;
    bound = λ k p. elim (ℕ_discrete k i) [
      | yes e ↦ rw e (omega arith)
      | no ne ↦ let l = ltb-false→le _ _ not_below in omega (arith, b.bound k (omega arith))
    ];
  })
]

module _ (op : ℕ → ℕ → Run ℕ) (pick : ℕ → ℕ → ℕ) (ops : (a b : ℕ) → op a b ≡ done (pick a b))
    (vals : List ℕ) (Best : ℕ → ℕ → Type 0)
    (next : (i r : ℕ) → Best i r → Best (i + 1) (pick r (vals ! i))) where
  -- A relation that each turn extends by one value holds of all of them in the end.
  aggregate_loop-best :
      (n i last r : ℕ)
      → i + n ≡ last
      → last ≤ length vals
      → Best i r
      → Returns (aggregate_loop op n vals i r) (Best last)
  unfolding aggregate_loop
  aggregate_loop-best zero i last r e h b =
      let same : i ≡ last = omega arith in subst (λ k. Best k r) same b
  aggregate_loop-best (suc n) i last r e h b =
      rw (Returns, read_lem vals i 0 (omega arith), ops r (vals ! i))
        (aggregate_loop-best n (i + 1) last (pick r (vals ! i)) (omega arith) h (next i r b))

  aggregate_found-best :
      (size : ℕ)
      → 0 < size
      → size ≤ length vals
      → Best 1 (vals ! 0)
      → Returns (aggregate_found op vals size false) (Best size)
  unfolding aggregate_found
  aggregate_found-best size p h b =
      rw (Returns, read_lem vals 0 0 (omega arith))
        (Returns-bind (Best size) (Best size) (aggregate_loop op (size - 1) vals 1 (vals ! 0)) _
          (aggregate_loop-best (size - 1) 1 size (vals ! 0) (omega arith) h b) λ r q. q)

-- Of at least one value, the aggregation by fptr_max ends with one of the values that none of them
-- is above.
pub aggregate_found-IsGreatest :
    (vals : List ℕ) (size : ℕ)
    → 0 < size
    → size ≤ length vals
    → Returns (aggregate_found fptr_max vals size false) (IsGreatest vals size)
unfolding fptr_max
aggregate_found-IsGreatest vals size p h =
    aggregate_found-best fptr_max (λ a b. if lt_int b a then a else b) (λ a b. refl) vals
      (IsGreatest vals) (IsGreatest-next vals) size p h
      (record {
        place = 0;
        place_in = omega arith;
        is_there = refl;
        bound = λ k q. let z : k ≡ 0 = omega arith in rw z (omega arith);
      })

-- Of at least one value, the aggregation by `fptr_min` returns a least one.
pub aggregate_found-IsLeast :
    (vals : List ℕ) (size : ℕ)
    → 0 < size
    → size ≤ length vals
    → Returns (aggregate_found fptr_min vals size false) (IsLeast vals size)
unfolding fptr_min
aggregate_found-IsLeast vals size p h =
    aggregate_found-best fptr_min (λ a b. if lt_int a b then a else b) (λ a b. refl) vals
      (IsLeast vals) (IsLeast-next vals) size p h
      (record {
        place = 0;
        place_in = omega arith;
        is_there = refl;
        bound = λ k q. let z : k ≡ 0 = omega arith in rw z (omega arith);
      })
