-- ===== src/Search.antt =====
-- helper_math.c: the binary searches over a column file and over the keys of a node, and the
-- arithmetic helpers. The searches read through `Run`: `get_val_from_offset` (helper_file_read.c)
-- ends the process where nothing can be read, and a read past an array is a fault.
pub mod Spec
pub mod UpperInv
pub mod UpperArray
pub mod UpperFile
pub mod LowerFile
use cs165db.Prelude.{
  ℕ, zero, suc, ◌+◌, ◌-◌, ◌/◌, ◌%◌, List, Bool, Option, none, some, get_elem?, ltb, leb, ◌==◌,
  if◌then◌else◌,
}
use cs165db.Word.{word, add32, sub32, rank, lt_int, le_int}
use cs165db.Run.{assert, ◌>>◌, Run, done, abort, spin, fault, read, ◌>>=◌}

-- The ceiling of `x / y`, whose sum is taken modulo 2 ^ 32; a division by zero is a fault.
unfoldable pub get_ceil : ℕ → ℕ → Run ℕ
get_ceil x y = if y == 0 then fault else done (sub32 (add32 x y) 1 / y)

-- `get_val_from_offset`: the `int`s of the file behind its header.
unfoldable pub get_val_from_offset : List ℕ → ℕ → Run ℕ
get_val_from_offset f offset = elim (get_elem? f offset) [ none ↦ abort | some v ↦ done v ]

-- The loop of `get_upper_bound_from_array`; the result is `low`.
unfoldable pub upper_array_loop : ℕ → List ℕ → ℕ → ℕ → ℕ → Run ℕ
upper_array_loop zero a num low high = spin
upper_array_loop (suc fuel) a num low high =
    let mid = add32 (add32 low high) 1 / 2 in
    let upper = upper_array_loop fuel a num mid high in
    let lower = upper_array_loop fuel a num low (sub32 mid 1) in
    if ltb low high then (read a mid >>= λ v. if le_int v num then upper else lower) else done low

-- The code behind the loops of both upper bounds.
abbrev pub upper_result : ℕ → ℕ → ℕ → ℕ → ℕ
upper_result size num low v =
    if le_int v num then (if ltb (add32 low 1) size then add32 low 1 else size) else 0

unfoldable pub get_upper_bound_from_array : List ℕ → ℕ → ℕ → Run ℕ
get_upper_bound_from_array a size num =
    if size == 0
    then done 0
    else if size == 1
    then (read a 0 >>= λ v. done (if lt_int num v then 0 else 1))
    else upper_array_loop (suc size) a num 0 size >>= λ low.
        read a low >>= λ v. done (upper_result size num low v)

-- How the loop of a search over a file ends: by its test, or by a `return` inside.
pub data Exit : Type 0 where
  returned : ℕ → Exit
  at_low : ℕ → Exit

-- The loop of `get_upper_bound`.
unfoldable pub upper_file_loop : ℕ → List ℕ → ℕ → ℕ → ℕ → ℕ → Run Exit
upper_file_loop zero f size num low high = spin
upper_file_loop (suc fuel) f size num low high =
    let mid = add32 (add32 low high) 1 / 2 in
    let upper = upper_file_loop fuel f size num mid high in
    let lower = upper_file_loop fuel f size num low (sub32 mid 1) in
    if ltb low high
    then (if mid == size
        then done (returned size)
        else (get_val_from_offset f mid >>= λ v. if le_int v num then upper else lower))
    else done (at_low low)

unfoldable pub upper_file_end : List ℕ → ℕ → ℕ → Exit → Run ℕ
upper_file_end f size num (returned r) = done r
upper_file_end f size num (at_low low) =
    get_val_from_offset f low >>= λ v. done (upper_result size num low v)

unfoldable pub get_upper_bound : List ℕ → ℕ → ℕ → Run ℕ
get_upper_bound f size num =
    if size == 0
    then done 0
    else (upper_file_loop (suc size) f size num 0 size >>= upper_file_end f size num)

-- The loop of `get_lower_bound`.
unfoldable pub lower_file_loop : ℕ → List ℕ → ℕ → ℕ → ℕ → ℕ → Run Exit
lower_file_loop zero f size num low high = spin
lower_file_loop (suc fuel) f size num low high =
    let mid = add32 low high / 2 in
    let lower = lower_file_loop fuel f size num low mid in
    let upper = lower_file_loop fuel f size num (add32 mid 1) high in
    if ltb low high
    then (if mid == size
        then done (returned (sub32 size 1))
        else (get_val_from_offset f mid >>= λ v. if le_int num v then lower else upper))
    else done (at_low low)

unfoldable pub lower_file_end : List ℕ → ℕ → ℕ → Exit → Run ℕ
lower_file_end f size num (returned r) = done r
lower_file_end f size num (at_low low) =
    if low == size
    then done (sub32 size 1)
    else get_val_from_offset f low >>= λ v. done (if le_int num v then low else size)

unfoldable pub get_lower_bound : List ℕ → ℕ → ℕ → Run ℕ
get_lower_bound f size num =
    if size == 0
    then done 0
    else (lower_file_loop (suc size) f size num 0 size >>= lower_file_end f size num)

-- `compare_int`, `compare_array` and `compare_malloced_array`: the difference of the first `int`s,
-- as gcc computes it.
unfoldable pub compare_int : ℕ → ℕ → ℕ
compare_int a b = sub32 a b

-- `bounded_increment`, of which `bound - 1` is an `int`.
unfoldable pub bounded_increment : ℕ → ℕ → Run ℕ
bounded_increment x bound =
    assert (le_int x bound) >> done (if lt_int (sub32 bound 1) x then bound else add32 x 1)
