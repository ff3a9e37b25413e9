-- ===== src/Text.antt =====
-- Strings as the C program has them: a text is the list of its character codes without the NUL. What
-- the program uses of the string functions of the standard library stands here, and `is_empty_str`
-- of helper_misc.c.
use cs165db.Prelude.{
  ℕ, zero, suc, ◌+◌, ◌-◌, ◌*◌, ◌^◌, ◌%◌, List, [], ◌∷◌, drop, min, Bool, true, false, ◌&&◌, ◌||◌,
  leb, ◌==◌, if◌then◌else◌,
}
use cs165db.Word.{word, sub32}
use cs165db.Run.{Run, done, fault, ◌>>=◌}

abbrev pub Text : Type 0
Text = List ℕ

-- The string that starts at the head of some bytes. One that never ends is read past their end.
unfoldable pub c_string : List ℕ → Run Text
c_string [] = fault
c_string (c ∷ cs) = let rest = c_string cs >>= λ t. done (c ∷ t) in if c == 0 then done [] else rest

abbrev pub text_at : List ℕ → ℕ → Run Text
text_at buffer offset = c_string (drop offset buffer)

-- `is_empty_str`
unfoldable pub is_empty_str : Text → Bool
is_empty_str [] = true
is_empty_str (c ∷ cs) = false

-- `strcmp(a, b) == 0`
unfoldable pub same_text : Text → Text → Bool
same_text [] [] = true
same_text [] (d ∷ ds) = false
same_text (c ∷ cs) [] = false
same_text (c ∷ cs) (d ∷ ds) = (c == d) && same_text cs ds

-- `strncmp(a, b, n) == 0`
unfoldable pub same_prefix : ℕ → Text → Text → Bool
same_prefix zero a b = true
same_prefix (suc n) [] [] = true
same_prefix (suc n) [] (d ∷ ds) = false
same_prefix (suc n) (c ∷ cs) [] = false
same_prefix (suc n) (c ∷ cs) (d ∷ ds) = (c == d) && same_prefix n cs ds

abbrev is_space : ℕ → Bool
is_space c = (c == 32) || (leb 9 c && leb c 13)

abbrev pub is_digit : ℕ → Bool
is_digit c = leb 48 c && leb c 57

-- The digits at the head of a text: the number so far, and how many there were.
unfoldable pub take_digits : Text → ℕ → ℕ → ℕ × ℕ
take_digits [] acc count = (acc, count)
take_digits (c ∷ cs) acc count =
    let rest = take_digits cs (acc * 10 + (c - 48)) (suc count) in
    if is_digit c then rest else (acc, count)

-- A number with its sign, at the most of a `long`; without digits there is none.
abbrev signed_number : Bool → Text → ℕ → ℕ × ℕ
signed_number negative t skipped =
    let n : ℕ = (take_digits t 0 0).0 in
    let count : ℕ = (take_digits t 0 0).1 in
    let signed : ℕ =
      if negative then sub32 0 (min n (2 ^ 63) % word) else min n (2 ^ 63 - 1) % word in
    if count == 0 then (0, 0) else (signed, skipped + count)

-- `strtol(t, &end, 10)`: the value as the `int` or `uint32_t` that the callers keep of it, and how far
-- `end` is from `t`.
unfoldable pub strtol_from : ℕ → Text → ℕ × ℕ
strtol_from skipped [] = (0, 0)
strtol_from skipped (c ∷ cs) =
    let rest = strtol_from (suc skipped) cs in
    if is_space c
    then rest
    else if c == 45
    then signed_number true cs (suc skipped)
    else if c == 43
    then signed_number false cs (suc skipped)
    else signed_number false (c ∷ cs) skipped

abbrev pub strtol : Text → ℕ × ℕ
strtol t = strtol_from 0 t

abbrev pub atoi : Text → ℕ
atoi t = (strtol t).0
