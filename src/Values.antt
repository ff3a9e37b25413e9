-- ===== src/Values.antt =====
-- helper_math_command.c and helper_aggregation.c: the operations on the values of variables. Overflow
-- of an `int` wraps, as gcc compiles it; a division that overflows is a fault.
pub mod Math
pub mod Extremes
use cs165db.Prelude.{
  ℕ, zero, suc, ◌+◌, ◌-◌, ◌*◌, ◌/◌, ◌%◌, List, replicate, Bool, ◌&&◌, ◌==◌, ltb, if◌then◌else◌, not,
  none, some,
}
use cs165db.BitVector.{BitVector, get_bv_count}
use cs165db.Column.{ColumnFile}
use cs165db.Select.{fetch_matched_from_bv}
use cs165db.Variables.{Variable}
use cs165db.Word.{word, half, add32, sub32, lt_int}
use cs165db.Run.{Run, done, fault, assert, required, read, write, ◌>>=◌, ◌>>◌}

unfoldable pub fptr_add : ℕ → ℕ → Run ℕ
fptr_add a b = done (add32 a b)

unfoldable pub fptr_sub : ℕ → ℕ → Run ℕ
fptr_sub a b = done (sub32 a b)

unfoldable pub fptr_mul : ℕ → ℕ → Run ℕ
fptr_mul a b = done (a * b % word)

-- The absolute value of an `int`.
abbrev pub magnitude : ℕ → ℕ
magnitude a = if ltb a half then a else sub32 0 a

-- `a / b`, rounded towards zero.
unfoldable pub fptr_div : ℕ → ℕ → Run ℕ
fptr_div a b =
    let q = magnitude a / magnitude b in
    let signed =
      if ltb a half
      then (if ltb b half then q else sub32 0 q)
      else (if ltb b half then sub32 0 q else q) in
    if b == 0 then done 0 else if (a == half) && (b == word - 1) then fault else done signed

unfoldable pub fptr_max : ℕ → ℕ → Run ℕ
fptr_max a b = done (if lt_int b a then a else b)

unfoldable pub fptr_min : ℕ → ℕ → Run ℕ
fptr_min a b = done (if lt_int a b then a else b)

-- `return a++`
unfoldable pub fptr_inc : ℕ → ℕ → Run ℕ
fptr_inc a b = done a

module _ (op : ℕ → ℕ → Run ℕ) where
  -- The loop of `math_op_on_var`, with `n` values left from `i` on.
  unfoldable pub math_op_loop : ℕ → List ℕ → List ℕ → ℕ → List ℕ → Run (List ℕ)
  math_op_loop zero m1 m2 i val = done val
  math_op_loop (suc n) m1 m2 i val = read m1 i >>= λ a.
      read m2 i >>= λ b. op a b >>= λ c. write val i c >>= λ val'. math_op_loop n m1 m2 (i + 1) val'

  -- `math_op_on_var`: the values that the variable gets.
  unfoldable pub math_op_on_var : ℕ → List ℕ → List ℕ → Run (List ℕ)
  math_op_on_var val_size m1 m2 = math_op_loop val_size m1 m2 0 (replicate val_size 0)

  -- The loop of `aggregate_found`.
  unfoldable pub aggregate_loop : ℕ → List ℕ → ℕ → ℕ → Run ℕ
  aggregate_loop zero vals i val = done val
  aggregate_loop (suc n) vals i val =
      read vals i >>= λ v. op val v >>= λ val'. aggregate_loop n vals (i + 1) val'

  -- `aggregate_vals` on the values that it has got; the division by the `uint32_t` is one of `uint32_t`s.
  unfoldable pub aggregate_found : List ℕ → ℕ → Bool → Run ℕ
  aggregate_found vals size is_avg = read vals 0 >>= λ first.
      aggregate_loop (size - 1) vals 1 first >>= λ val.
      (let average = assert (not (size == 0)) >> done (val / size) in
        if is_avg then average else done val)

  -- `aggregate_vals`, on the column that `load_col` has opened: a variable that is not materialized is
  -- fetched first.
  unfoldable pub aggregate_vals : Variable → ColumnFile → Bool → Run ℕ
  aggregate_vals v fetched_col is_avg =
      let fetched = required v.bv >>= λ bv. fetch_matched_from_bv fetched_col bv >>= λ vals.
      aggregate_found vals (get_bv_count bv) is_avg in
      let held = required v.val >>= λ val. aggregate_found val v.val_size is_avg in
      if v.is_materialized then held else fetched
