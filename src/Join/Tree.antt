-- ===== src/Join/Tree.antt =====
-- `treejoin` (helper_join.c): each value of one table is looked up in the B+ tree of the other column.
use cs165db.Prelude.{ℕ, zero, suc, ◌+◌, List, Bool, false, not, ◌==◌, if◌then◌else◌}
use cs165db.Run.{assert, ◌>>◌, Run, done, ◌>>=◌}
use cs165db.BitVector.{BitVector, is_marked}
use cs165db.DynArray.{DynArray, create_list, append_list, get_list_val}
use cs165db.Column.{StorageType, unsorted, sorted, bptree}
use cs165db.BpTree.{TreeFile}
use cs165db.BpTree.Find.{find_record_in_range_id}
use cs165db.Join.{JoinedIds, row_val, row_pos}

-- The inner loop, with `n` of the found rows left from `j` on. The first list is that of the tree.
unfoldable pub append_found :
    ℕ → BitVector → List ℕ → ℕ → DynArray ℕ → ℕ → JoinedIds → Run JoinedIds
append_found zero tree_bv vals i id_list j ids = done ids
append_found (suc n) tree_bv vals i id_list j ids = get_list_val id_list j >>= λ pos.
    is_marked tree_bv pos >>= λ marked.
    (if marked
      then (append_list ids.0 pos >>= λ tree_ids.
          row_pos vals i >>= λ q. append_list ids.1 q >>= λ other_ids. done (tree_ids, other_ids))
      else done ids)
    >>= λ ids'. append_found n tree_bv vals i id_list (j + 1) ids'

-- A value that equals the one before it is not looked up again.
unfoldable pub repeats : List ℕ → ℕ → Run Bool
repeats vals zero = done false
repeats vals (suc i) = row_val vals i >>= λ a. row_val vals (suc i) >>= λ b. done (a == b)

-- The outer loop, with `n` values left from `i` on; `depth` and `width` bound the search.
unfoldable pub treejoin_loop :
    ℕ → ℕ → ℕ → TreeFile → BitVector → List ℕ → ℕ → DynArray ℕ → ℕ → JoinedIds → Run JoinedIds
treejoin_loop depth width zero f tree_bv vals i id_list result_count ids = done ids
treejoin_loop depth width (suc n) f tree_bv vals i id_list result_count ids =
    repeats vals i >>= λ again.
    (if again
      then done (id_list, result_count)
      else (row_val vals i >>= λ v. find_record_in_range_id depth width f create_list v v))
    >>= λ (found, count). append_found count tree_bv vals i found 0 ids >>= λ ids'.
        treejoin_loop depth width n f tree_bv vals (i + 1) found count ids'

-- `treejoin`: the first column's tree is searched if it has one, and else the second one's. The
-- trees, the bit vectors and the tables of the two columns stand side by side. The second variable must be
-- `materialized` where the first has the tree, and the table that is searched for may not be empty.
unfoldable pub treejoin :
    ℕ
    → ℕ
    → StorageType
    → Bool
    → TreeFile × TreeFile
    → BitVector × BitVector
    → List ℕ × List ℕ
    → ℕ × ℕ
    → JoinedIds
    → Run JoinedIds
treejoin depth width storage materialized trees bvs m m_size ids =
    let first =
      assert materialized
      >> assert (not (m_size.1 == 0))
      >> treejoin_loop depth width m_size.1 trees.0 bvs.0 m.1 0 create_list 0 ids in
    let second =
      assert (not (m_size.0 == 0))
      >> treejoin_loop depth width m_size.0 trees.1 bvs.1 m.0 0 create_list 0 (ids.1, ids.0)
      >>= λ (tree_ids, other_ids). done (other_ids, tree_ids) in
    elim storage [ unsorted ↦ second | sorted ↦ second | bptree ↦ first ]
