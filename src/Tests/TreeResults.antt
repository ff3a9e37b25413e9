-- ===== src/Tests/TreeResults.antt =====
-- The two searches and the entry of a record into a node of bptree.c at concrete inputs.
use cs165db.Prelude.{◌≡◌, refl, [], ◌∷◌, ◌++◌, replicate, length, false, arith}
use cs165db.Word.{rank}
use cs165db.Run.{fault, Returns}
use cs165db.DynArray.Append.{Holds}
use cs165db.BitVector.{BitVector}
use cs165db.BitVector.View.{IsShaped}
use cs165db.Column.Update.{Inside}
use cs165db.BpTree.{Node, write_node}
use cs165db.BpTree.Find.{find_record_in_range, find_record_in_range_id}
use cs165db.BpTree.Find.Scan.{entries, all_entries, hits, length-hits}
use cs165db.BpTree.Find.Results.{
  AllMarked, find_record_in_range_id-Holds, find_record_in_range-AllMarked,
}
use cs165db.BpTree.Bulk.{bulk_load, bulk_load-short}
use cs165db.BpTree.Insert.{add_entry_to_node, insert_pointer}
use cs165db.BpTree.Insert.Entry.{
  HasRoom, EntryAdded, add_entry_to_node-EntryAdded, insert_pointer-overrun,
}
use cs165db.Tests.Searches.{IsSorted-one, IsSorted-cons}
use cs165db.Tests.Tree.{low_leaf, leaves, small_tree, small_tree-IsTreeFile, no_ids, leaves_length}

no_ids-Holds : Holds no_ids []
no_ids-Holds = record {
  sized = refl;
  room = omega arith;
  allocated = refl;
  positive = omega arith;
  held = λ i p. absurd (omega arith);
}

find_record_in_range_id-Holds_example :
    Returns (find_record_in_range_id 2 2 small_tree no_ids 15 25) (λ (after, count).
      Holds after ([] ++ hits 15 25 (all_entries leaves))
      × (count ≡ length (hits 15 25 (all_entries leaves))))
find_record_in_range_id-Holds_example =
    find_record_in_range_id-Holds small_tree 1 2 2 leaves 15 25 small_tree-IsTreeFile (omega arith)
      (omega arith) no_ids [] no_ids-Holds
      (omega (arith, length-hits 15 25 (all_entries leaves), leaves_length))

abbrev eight_bits : BitVector
eight_bits = record { size = 8; count = 0; vec = 0 ∷ [] }

eight_bits-IsShaped : IsShaped eight_bits
eight_bits-IsShaped = record { long = omega arith; small = omega arith }

-- The rows of the two entries with key 20.
rows_found : hits 15 25 (all_entries leaves) ≡ 0 ∷ 3 ∷ []
unfolding hits all_entries entries rank
rows_found = refl

rows_found-Inside : Inside 8 (hits 15 25 (all_entries leaves))
rows_found-Inside = rw rows_found (omega arith, (omega arith, tt))

find_record_in_range-AllMarked_example :
    Returns (find_record_in_range 2 2 small_tree eight_bits 15 25) (λ (after, count).
      AllMarked eight_bits (hits 15 25 (all_entries leaves)) after
      × (count ≡ length (hits 15 25 (all_entries leaves))))
find_record_in_range-AllMarked_example =
    find_record_in_range-AllMarked small_tree 1 2 2 leaves 15 25 small_tree-IsTreeFile (omega arith)
      (omega arith) eight_bits eight_bits-IsShaped rows_found-Inside

low_leaf-HasRoom : HasRoom low_leaf
low_leaf-HasRoom = record {
  leaf = refl;
  keys_long = refl;
  pointers_long = refl;
  not_full = omega arith;
  in_order =
      IsSorted-cons 10 (20 ∷ replicate 125 0) 1 (omega arith) (omega arith)
        (IsSorted-one (20 ∷ replicate 125 0));
}

add_entry_to_node-EntryAdded_example :
    Returns
      (add_entry_to_node small_tree low_leaf 15 9)
      (λ (g, after). (g ≡ write_node small_tree after) × EntryAdded low_leaf 15 9 after)
add_entry_to_node-EntryAdded_example =
    add_entry_to_node-EntryAdded small_tree low_leaf 15 9 low_leaf-HasRoom

-- An inner node with 126 keys.
abbrev almost_full : Node
almost_full = record {
  keys = replicate 127 1;
  pointers = replicate 128 1;
  is_leaf = false;
  parent = 0;
  size = 126;
  next = 0;
  pos = 2;
}

insert_pointer-overrun_example : insert_pointer almost_full 5 9 ≡ fault
insert_pointer-overrun_example = insert_pointer-overrun almost_full 5 9 refl refl refl (omega arith)

bulk_load-short_example : bulk_load 2 false almost_full small_tree (3 ∷ 8 ∷ []) 2 ≡ fault
bulk_load-short_example =
    bulk_load-short 2 false almost_full small_tree (3 ∷ 8 ∷ []) 2 (omega arith) (omega arith) refl
