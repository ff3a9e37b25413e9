-- ===== src/Tests/Searches.antt =====
-- The searches of helper_math.c and the array of list.c at concrete inputs.
use cs165db.Prelude.{
  ℕ, zero, suc, ◌≤◌, ◌<◌, ◌≡◌, refl, List, [], ◌∷◌, get_elem?, some, none, get_or, arith,
}
use cs165db.Word.{half, rank, rank-small}
use cs165db.Run.{Returns}
use cs165db.Search.{get_upper_bound_from_array, get_lower_bound}
use cs165db.Search.Spec.{◌!◌, IsSorted, SplitsAbove}
use cs165db.Search.UpperArray.{get_upper_bound_from_array-SplitsAbove}
use cs165db.Search.LowerFile.{LowerResult, get_lower_bound-LowerResult}
use cs165db.DynArray.{DynArray, create_list_of_size}
use cs165db.DynArray.Append.{Holds}

pub rank-le : (x y : ℕ) → x ≤ y → y < half → rank x ≤ rank y
rank-le x y h s = omega (arith, rank-small x (omega arith), rank-small y s)

pub IsSorted-one : (xs : List ℕ) → IsSorted xs 1
IsSorted-one xs zero zero h p = omega arith
IsSorted-one xs zero (suc j) h p = absurd (omega arith)
IsSorted-one xs (suc i) zero h p = absurd (omega arith)
IsSorted-one xs (suc i) (suc j) h p = absurd (omega arith)

-- One more small value in front.
pub IsSorted-cons :
    (x : ℕ) (xs : List ℕ) (n : ℕ)
    → x ≤ xs ! 0
    → xs ! 0 < half
    → IsSorted xs n
    → IsSorted (x ∷ xs) (suc n)
IsSorted-cons x xs n h small s zero zero p q = omega arith
IsSorted-cons x xs n h small s zero (suc j) p q =
    omega (arith, s 0 j (omega arith) (omega arith), rank-le x (xs ! 0) h small)
IsSorted-cons x xs n h small s (suc i) zero p q = absurd (omega arith)
IsSorted-cons x xs n h small s (suc i) (suc j) p q = s i j (omega arith) (omega arith)

abbrev pub odd_ints : List ℕ
odd_ints = 1 ∷ 3 ∷ 5 ∷ 9 ∷ []

pub odd_ints-IsSorted : IsSorted odd_ints 3
odd_ints-IsSorted =
    IsSorted-cons 1 (3 ∷ 5 ∷ 9 ∷ []) 2 (omega arith) (omega arith)
      (IsSorted-cons 3 (5 ∷ 9 ∷ []) 1 (omega arith) (omega arith) (IsSorted-one (5 ∷ 9 ∷ [])))

get_upper_bound_from_array-SplitsAbove_example :
    Returns (get_upper_bound_from_array odd_ints 3 4) (SplitsAbove odd_ints 3 4)
get_upper_bound_from_array-SplitsAbove_example =
    get_upper_bound_from_array-SplitsAbove odd_ints 3 4 odd_ints-IsSorted (omega arith)
      (omega arith)

get_lower_bound-LowerResult_example :
    Returns (get_lower_bound odd_ints 3 4) (LowerResult odd_ints 3 4)
get_lower_bound-LowerResult_example =
    get_lower_bound-LowerResult odd_ints 3 4 odd_ints-IsSorted (omega arith) (omega arith)

abbrev empty_array : DynArray ℕ
unfolding create_list_of_size
empty_array = create_list_of_size 1

-- An array of two cells, one of them in use.
abbrev one_value : DynArray ℕ
one_value = record { next = 1; capacity = 2; cells = some 7 ∷ some 0 ∷ [] }

one_value-Holds : Holds one_value (7 ∷ [])
one_value-Holds = record {
  sized = refl;
  room = omega arith;
  allocated = refl;
  positive = omega arith;
  held = cell;
}
  where
    cell : (i : ℕ) → i < 1 → get_or one_value.cells i none ≡ get_elem? (7 ∷ []) i
    cell zero p = refl
    cell (suc i) p = absurd (omega arith)
