-- ===== src/Insert.antt =====
-- `insert_helper` (helper_insert.c) over the three storage types of a column.
use cs165db.Prelude.{ℕ, Option, some}
use cs165db.Run.{Run, done, required, ◌>>=◌}
use cs165db.Column.{ColumnFile, unsorted, sorted, bptree, append_value_to_file, insert_sorted}
use cs165db.BpTree.{TreeFile}
use cs165db.BpTree.Insert.{bpt_insert_record}

-- The column with the tree file that stands beside it, if there is one; `depth` bounds the ways in the
-- tree.
unfoldable pub insert_helper :
    ℕ → ColumnFile → Option TreeFile → ℕ → Run (ColumnFile × Option TreeFile)
insert_helper depth c tree num_insert = elim c.meta.storage [
  | unsorted ↦ done (append_value_to_file c num_insert, tree)
  | sorted ↦ insert_sorted c num_insert >>= λ c'. done (c', tree)
  | bptree ↦ required tree >>= λ t. bpt_insert_record depth t num_insert c.meta.size >>= λ t'.
      done (append_value_to_file c num_insert, some t')
]
