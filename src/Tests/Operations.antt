-- ===== src/Tests/Operations.antt =====
-- The joins, the selects and the operations on values at concrete inputs.
use cs165db.Prelude.{
  ℕ, zero, suc, ◌<◌, ◌≡◌, refl, List, [], ◌∷◌, length, get_or, get_elem?, none, some, arith,
}
use cs165db.Run.{done, fault, Returns}
use cs165db.DynArray.{DynArray, create_list, create_list_of_size}
use cs165db.DynArray.Append.{Holds, create_list_of_size-Holds}
use cs165db.BitVector.{BitVector}
use cs165db.BpTree.Find.Results.{AllMarked}
use cs165db.Column.{ColumnFile, unsorted}
use cs165db.Join.{JoinedIds, loopjoin, sortjoin}
use cs165db.Join.Rows.{rows_from, partners, joined, HoldsPairs}
use cs165db.Join.Loop.{loopjoin-HoldsPairs}
use cs165db.Join.Sorted.{sortjoin-fault}
use cs165db.Select.{mark_matching_bv_for_unsorted, fetch_matched_from_rowid}
use cs165db.Select.Ids.{fetch_matched_from_rowid-values}
use cs165db.Select.Unsorted.{matching, mark_matching_bv_for_unsorted-AllMarked}

-- Two tables of two rows; the values 5 and 7 stand in both.
abbrev first_table : List ℕ
first_table = 5 ∷ 0 ∷ 7 ∷ 3 ∷ []

abbrev second_table : List ℕ
second_table = 5 ∷ 1 ∷ 7 ∷ 2 ∷ []

tables_joined :
    joined (rows_from 2 first_table 0) (rows_from 2 second_table 0) ≡ (0, 1) ∷ (3, 2) ∷ []
unfolding joined rows_from partners
tables_joined = refl

loopjoin-HoldsPairs_example :
    Returns
      (loopjoin first_table second_table 2 2)
      (HoldsPairs 8 (joined (rows_from 2 first_table 0) (rows_from 2 second_table 0)))
loopjoin-HoldsPairs_example =
    loopjoin-HoldsPairs first_table second_table 2 2 (omega arith) (omega arith) (omega arith)
      (omega arith) (rw tables_joined (omega arith))

abbrev no_pairs : JoinedIds
unfolding create_list create_list_of_size
no_pairs = (create_list, create_list)

no_pairs-HoldsPairs : HoldsPairs 8 [] no_pairs
unfolding create_list create_list_of_size
no_pairs-HoldsPairs = record {
  first = create_list_of_size-Holds ℕ 3 (omega arith);
  second = create_list_of_size-Holds ℕ 3 (omega arith);
  first_small = omega arith;
  second_small = omega arith;
}

sortjoin-fault_example : sortjoin 9 first_table second_table 2 2 no_pairs ≡ fault
sortjoin-fault_example =
    sortjoin-fault 7 8 first_table second_table 2 2 no_pairs (omega arith) (omega arith)
      (omega arith) (omega arith) (omega arith) (omega arith) refl no_pairs-HoldsPairs (omega arith)

abbrev four_rows : ColumnFile
four_rows = record {
  meta = record { storage = unsorted; size = 4; next_free = 0; root = 0 };
  ints = 9 ∷ 2 ∷ 5 ∷ 2 ∷ [];
}

abbrev four_bits : BitVector
four_bits = record { size = 4; count = 0; vec = 0 ∷ [] }

mark_matching_bv_for_unsorted-AllMarked_example :
    Returns (mark_matching_bv_for_unsorted 2 5 four_rows four_bits) (λ (after, total).
      AllMarked four_bits (matching 2 5 (9 ∷ 2 ∷ 5 ∷ 2 ∷ []) 0) after
      × (total ≡ length (matching 2 5 (9 ∷ 2 ∷ 5 ∷ 2 ∷ []) 0)))
mark_matching_bv_for_unsorted-AllMarked_example =
    mark_matching_bv_for_unsorted-AllMarked 2 5 four_rows four_bits refl (omega arith) (omega arith)
      (record { long = omega arith; small = omega arith })

-- The places 2 and 0.
abbrev two_places : DynArray ℕ
two_places = record { next = 2; capacity = 2; cells = some 2 ∷ some 0 ∷ [] }

two_places-Holds : Holds two_places (2 ∷ 0 ∷ [])
two_places-Holds = record {
  sized = refl;
  room = omega arith;
  allocated = refl;
  positive = omega arith;
  held = cell;
}
  where
    cell : (i : ℕ) → i < 2 → get_or two_places.cells i none ≡ get_elem? (2 ∷ 0 ∷ []) i
    cell zero p = refl
    cell (suc zero) p = refl
    cell (suc (suc i)) p = absurd (omega arith)

fetch_matched_from_rowid-values_example :
    fetch_matched_from_rowid four_rows two_places ≡ done (5 ∷ 9 ∷ [])
fetch_matched_from_rowid-values_example =
    fetch_matched_from_rowid-values four_rows two_places (2 ∷ 0 ∷ []) two_places-Holds (omega arith)
      (omega arith, (omega arith, tt))
