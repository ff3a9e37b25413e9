-- ===== src/Tests/Columns.antt =====
-- What helper_insert.c and helper_updates.c do to a column, at concrete inputs.
use cs165db.Prelude.{length, ℕ, zero, suc, ◌<◌, ◌≡◌, refl, inr, [], ◌∷◌, ◌++◌, get_or, arith}
use cs165db.Word.{rank, rank-small}
use cs165db.Run.{Returns}
use cs165db.Search.Spec.{◌!◌, IsSorted}
use cs165db.Column.{
  ColumnFile, sorted, unsorted, append_value_to_file, insert_sorted, delete_helper,
}
use cs165db.Column.Contents.{contents, IsWhole}
use cs165db.Column.Append.{append_value_to_file-after_delete}
use cs165db.Column.Sorted.{SortedInsert, insert_sorted-SortedInsert, insert_sorted-misplaced}
use cs165db.Column.Delete.{RowsDeleted, delete_helper-RowsDeleted, delete_helper-keeps_last}
use cs165db.BitVector.{BitVector}
use cs165db.BitVector.View.{bit_at}
use cs165db.Select.{mark_matching_bv_for_sorted}
use cs165db.Select.Sorted.{BetweenMarked, mark_matching_bv_for_sorted-BetweenMarked}
use cs165db.Tests.Searches.{rank-le, odd_ints, odd_ints-IsSorted}

-- Three rows, and one `int` that a delete left behind them.
abbrev three_rows : ColumnFile
three_rows = record {
  meta = record { storage = sorted; size = 3; next_free = 0; root = 0 };
  ints = odd_ints;
}

three_rows-IsWhole : IsWhole three_rows
three_rows-IsWhole = record { stored = omega arith; small = omega arith }

-- Three unsorted rows and nothing else.
abbrev exact_rows : ColumnFile
exact_rows = record {
  meta = record { storage = unsorted; size = 3; next_free = 0; root = 0 };
  ints = 4 ∷ 2 ∷ 8 ∷ [];
}

exact_rows-IsWhole : IsWhole exact_rows
exact_rows-IsWhole = record { stored = omega arith; small = omega arith }

insert_sorted-SortedInsert_example :
    Returns (insert_sorted three_rows 4) (SortedInsert three_rows 4)
insert_sorted-SortedInsert_example =
    insert_sorted-SortedInsert three_rows 4 three_rows-IsWhole odd_ints-IsSorted
      (inr (rank-le 4 5 (omega arith) (omega arith)))

insert_sorted-misplaced_example :
    Returns (insert_sorted three_rows 6) (λ after. ¬ IsSorted after.ints after.meta.size)
insert_sorted-misplaced_example =
    insert_sorted-misplaced three_rows 6 three_rows-IsWhole odd_ints-IsSorted (omega arith)
      (omega (arith, rank-small 5 (omega arith), rank-small 6 (omega arith)))

delete_helper-RowsDeleted_example :
    Returns (delete_helper exact_rows (2 ∷ 0 ∷ [])) (RowsDeleted exact_rows (2 ∷ 0 ∷ []))
delete_helper-RowsDeleted_example =
    delete_helper-RowsDeleted (2 ∷ 0 ∷ []) exact_rows refl exact_rows-IsWhole
      (omega arith, (omega arith, tt))

delete_helper-keeps_last_example : Returns (delete_helper exact_rows (0 ∷ 2 ∷ [])) (λ after.
    (after.meta.size ≡ 1) × (0 < length (contents after)) × (get_or (contents after) 0 0 ≡ 8))
delete_helper-keeps_last_example =
    delete_helper-keeps_last exact_rows 0 refl exact_rows-IsWhole (omega arith)

append_value_to_file-after_delete_example :
    Returns
      (delete_helper exact_rows (0 ∷ []))
      (λ after. contents (append_value_to_file after 6) ≡ contents after ++ (8 ∷ []))
append_value_to_file-after_delete_example =
    append_value_to_file-after_delete exact_rows 0 6 refl exact_rows-IsWhole refl (omega arith)

-- Four bits, none of them set.
abbrev clear_bits : BitVector
clear_bits = record { size = 4; count = 0; vec = 0 ∷ [] }

clear_bits-clear : (j : ℕ) → j < 4 → bit_at (0 ∷ []) j ≡ 0
clear_bits-clear zero h = refl
clear_bits-clear (suc zero) h = refl
clear_bits-clear (suc (suc zero)) h = refl
clear_bits-clear (suc (suc (suc zero))) h = refl
clear_bits-clear (suc (suc (suc (suc j)))) h = absurd (omega arith)

above_four : (j : ℕ) → 1 < j → j < 3 → rank 4 < rank (odd_ints ! j)
above_four zero p q = absurd (omega arith)
above_four (suc zero) p q = absurd (omega arith)
above_four (suc (suc zero)) p q =
    omega (arith, rank-small 4 (omega arith), rank-small 5 (omega arith))
above_four (suc (suc (suc j))) p q = absurd (omega arith)

mark_matching_bv_for_sorted-BetweenMarked_example :
    Returns
      (mark_matching_bv_for_sorted 1 4 three_rows clear_bits)
      (BetweenMarked 1 4 odd_ints 3 clear_bits)
mark_matching_bv_for_sorted-BetweenMarked_example =
    mark_matching_bv_for_sorted-BetweenMarked 1 4 three_rows clear_bits 1 odd_ints-IsSorted
      (λ e. omega arith) (omega arith) (omega arith)
      (record { long = omega arith; small = omega arith }) (omega arith) clear_bits-clear refl
      (
        omega arith,
        rank-le 1 3 (omega arith) (omega arith),
        rank-le 3 4 (omega arith) (omega arith),
        above_four,
      )
      (omega arith)
