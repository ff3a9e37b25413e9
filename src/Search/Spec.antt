-- ===== src/Search/Spec.antt =====
-- What the searches of helper_math.c are for: the places where a sorted run of `int`s splits.
use cs165db.Prelude.{ℕ, ◌≤◌, ◌<◌, List, get_or}
use cs165db.Word.{rank}

-- A total read of an `int`, for statements; every use stands under a bound on the index.
infixl 90 ◌!◌
abbrev pub ◌!◌ : List ℕ → ℕ → ℕ
a ! i = get_or a i 0

-- The first `n` cells are in ascending order.
abbrev pub IsSorted : List ℕ → ℕ → Type 0
IsSorted a n = (i j : ℕ) → i ≤ j → j < n → rank (a ! i) ≤ rank (a ! j)

-- `r` is the number of the first `n` cells that are at most `num`.
abbrev pub SplitsAbove : List ℕ → ℕ → ℕ → ℕ → Type 0
SplitsAbove a n num r =
    (r ≤ n)
    × ((i : ℕ) → i < r → rank (a ! i) ≤ rank num)
    × ((i : ℕ) → r ≤ i → i < n → rank num < rank (a ! i))

-- `r` is the number of the first `n` cells that are below `num`.
abbrev pub SplitsBelow : List ℕ → ℕ → ℕ → ℕ → Type 0
SplitsBelow a n num r =
    (r ≤ n)
    × ((i : ℕ) → i < r → rank (a ! i) < rank num)
    × ((i : ℕ) → r ≤ i → i < n → rank num ≤ rank (a ! i))
