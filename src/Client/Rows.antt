-- ===== src/Client/Rows.antt =====
-- The client (client.c) prints the values of a tuple, which the server sends variable by variable, row by row.
use cs165db.Prelude.{
  ℕ, zero, suc, ◌+◌, ◌*◌, ◌/◌, ◌≡◌, ◌<◌, refl, sym, ap, ◌∙◌, List, [], ◌∷◌, ◌++◌, append_assoc,
  length, get_or, arith, length-append, get_or-append_left, get_or-append_right, ==_of_ne,
}
use native.Mathlib.Nat.{mul-div_cancel}
use cs165db.Run.{done, read_lem}
use cs165db.Client.Command.{print_row, print_rows, print_tuple}

-- The values of some variables, one after the other, as `tuple_helper` lays them out.
abbrev pub concat : List (List ℕ) → List ℕ
concat [] = []
concat (c ∷ cs) = c ++ concat cs

-- The columns that have `n` values each.
abbrev pub EachLong : ℕ → List (List ℕ) → Type 0
EachLong n [] = Unit
EachLong n (c ∷ cs) = (length c ≡ n) × EachLong n cs

-- Number `i` of each column.
abbrev pub row_at : List (List ℕ) → ℕ → List ℕ
row_at [] i = []
row_at (c ∷ cs) i = get_or c i 0 ∷ row_at cs i

abbrev pub rows_of : ℕ → List (List ℕ) → ℕ → List (List ℕ)
rows_of zero cols i = []
rows_of (suc n) cols i = row_at cols i ∷ rows_of n cols (i + 1)

print_row_lem :
    (cols : List (List ℕ)) (before : List ℕ) (n i j : ℕ)
    → EachLong n cols
    → length before ≡ j * n
    → i < n
    → print_row (length cols) (before ++ concat cols) n i j ≡ done (row_at cols i)
unfolding print_row
print_row_lem [] before n i j h e p = refl
print_row_lem (c ∷ cs) before n i j h e p =
    let all : List ℕ = before ++ (c ++ concat cs) in
    let at : ℕ = j * n + i in
    let value : get_or all at 0 ≡ get_or c i 0 =
      get_or-append_right before (c ++ concat cs) at i 0 (omega (arith, e))
      ∙ get_or-append_left c (concat cs) i 0 (omega (arith, h.0)) in
    let inside : at < length all =
      omega (arith, e, h.0, length-append before (c ++ concat cs), length-append c (concat cs)) in
    let longer : length (before ++ c) ≡ (j + 1) * n =
      grind (arith, e, h.0, length-append before c) in
    let rest : print_row (length cs) all n i (j + 1) ≡ done (row_at cs i) =
      ap (λ d. print_row (length cs) d n i (j + 1)) (sym (append_assoc before c (concat cs)))
      ∙ print_row_lem cs (before ++ c) n i (j + 1) h.1 longer p in
    rw (read_lem all at 0 inside, value, rest) refl

print_rows_lem :
    (k : ℕ) (cols : List (List ℕ)) (n i : ℕ)
    → EachLong n cols
    → i + k ≡ n
    → print_rows k (concat cols) (length cols) n i ≡ done (rows_of k cols i)
unfolding print_rows
print_rows_lem zero cols n i h e = refl
print_rows_lem (suc k) cols n i h e =
    rw
      (
        print_row_lem cols [] n i 0 h (omega arith) (omega arith),
        print_rows_lem k cols n (i + 1) h (omega arith),
      )
      refl

-- Of the values of at least one variable, each with `n`, one variable after the other, the client prints `n`
-- rows, and row `i` has number `i` of each variable, in their order.
pub print_tuple-rows :
    (cols : List (List ℕ)) (n : ℕ)
    → 0 < length cols
    → EachLong n cols
    → print_tuple (concat cols) (n * (length cols * 4)) (length cols) ≡ done (rows_of n cols 0)
unfolding print_tuple
print_tuple-rows cols n some_cols h =
    let v : ℕ = length cols in
    let rows : n * (v * 4) / (v * 4) ≡ n = mul-div_cancel n (omega arith) in
    rw (==_of_ne v 0 (λ z. absurd (omega arith)), rows) (print_rows_lem n cols n 0 h (omega arith))
