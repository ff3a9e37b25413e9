-- ===== src/Select.antt =====
-- The select helpers of helper_variable.c, and the fetch helpers of helper_fetch_command.c.
pub mod Unsorted
pub mod Sorted
pub mod Ids
pub mod Fetch
pub mod Positions
use cs165db.Prelude.{
  leb, ℕ, zero, suc, ◌+◌, ◌-◌, List, [], ◌∷◌, Option, none, some, length, take, drop, replicate,
  Bool, ◌&&◌, ◌==◌, ltb, if◌then◌else◌,
}
use cs165db.Word.{add32, sub32, le_int}
use cs165db.Run.{Run, done, abort, fault, assert, read, write, ◌>>=◌, ◌>>◌}
use cs165db.Search.{get_ceil, get_lower_bound, get_upper_bound}
use cs165db.BitVector.{BitVector, mark_bv, mark_bv_by_range, is_marked, get_bv_count}
use cs165db.DynArray.{DynArray, get_list_size, get_list_val}
use cs165db.Column.{ColumnFile}

-- `FILE_BLOCK_SIZE`
abbrev pub file_block_size : ℕ
file_block_size = 128

module _ (low high : ℕ) where
  -- The loop over the values of a block.
  unfoldable pub mark_block : List ℕ → ℕ → BitVector → ℕ → Run (BitVector × ℕ)
  mark_block [] index bv total = done (bv, total)
  mark_block (v ∷ vs) index bv total =
      (if le_int low v && le_int v high
        then (mark_bv bv index >>= λ bv'. done (bv', add32 total 1))
        else done (bv, total))
      >>= λ (bv', total'). mark_block vs (add32 index 1) bv' total'

  -- The loop over the blocks, with `n` of them left and what is left of the file. A block that is empty
  -- ends the process.
  unfoldable pub mark_blocks : ℕ → List ℕ → ℕ → BitVector → ℕ → Run (BitVector × ℕ)
  mark_blocks zero rest index bv total = done (bv, total)
  mark_blocks (suc n) rest index bv total =
      let more = mark_block (take file_block_size rest) index bv total >>= λ (bv', total').
      mark_blocks n (drop file_block_size rest) (add32 index file_block_size) bv' total' in
      if length (take file_block_size rest) == 0 then abort else more

  -- `mark_matching_bv_for_unsorted`
  unfoldable pub mark_matching_bv_for_unsorted : ColumnFile → BitVector → Run (BitVector × ℕ)
  mark_matching_bv_for_unsorted c bv =
      get_ceil c.meta.size file_block_size >>= λ block_count. mark_blocks block_count c.ints 0 bv 0

  -- `mark_matching_bv_for_sorted`
  unfoldable pub mark_matching_bv_for_sorted : ColumnFile → BitVector → Run (BitVector × ℕ)
  mark_matching_bv_for_sorted c bv = get_lower_bound c.ints c.meta.size low >>= λ low_index.
      get_upper_bound c.ints c.meta.size high >>= λ upper.
      (let high_index = if ltb 0 upper then upper - 1 else 0 in
        assert (le_int low high)
        >> (if low_index == high_index
            then mark_bv bv low_index
            else mark_bv_by_range bv low_index high_index)
        >>= λ bv'. done (bv', add32 (sub32 high_index low_index) 1))

-- The loop of `fetch_matched_from_rowid`, with `n` ids left from `i` on. An id is an `int`.
unfoldable pub fetch_rowids : ℕ → List ℕ → DynArray ℕ → ℕ → List ℕ → Run (List ℕ)
fetch_rowids zero buffer ids i result = done result
fetch_rowids (suc n) buffer ids i result = get_list_val ids i >>= λ id. read buffer id >>= λ v.
    write result i v >>= λ result'. fetch_rowids n buffer ids (i + 1) result'

unfoldable pub fetch_matched_from_rowid : ColumnFile → DynArray ℕ → Run (List ℕ)
fetch_matched_from_rowid c ids =
    assert (leb c.meta.size (length c.ints))
    >> fetch_rowids (get_list_size ids) (take c.meta.size c.ints) ids 0
        (replicate (get_list_size ids) 0)

-- The loop of `fetch_matched_from_bv` over the values of a block, with the places filled so far.
unfoldable pub fetch_block : List ℕ → ℕ → BitVector → List ℕ → ℕ → Run (List ℕ × ℕ)
fetch_block [] index bv result matched = done (result, matched)
fetch_block (v ∷ vs) index bv result matched = is_marked bv index >>= λ marked.
    (if marked
      then (write result matched v >>= λ result'. done (result', matched + 1))
      else done (result, matched))
    >>= λ (result', matched'). fetch_block vs (add32 index 1) bv result' matched'

-- The loop over the blocks. A block that is empty ends the process.
unfoldable pub fetch_blocks : ℕ → List ℕ → ℕ → BitVector → List ℕ → ℕ → Run (List ℕ)
fetch_blocks zero rest index bv result matched = done result
fetch_blocks (suc n) rest index bv result matched =
    let more =
      fetch_block (take file_block_size rest) index bv result matched >>= λ (result', matched').
      fetch_blocks n (drop file_block_size rest) (add32 index file_block_size) bv result'
        matched' in
    if length (take file_block_size rest) == 0 then abort else more

unfoldable pub fetch_matched_from_bv : ColumnFile → BitVector → Run (List ℕ)
fetch_matched_from_bv c bv = get_ceil c.meta.size file_block_size >>= λ block_count.
    fetch_blocks block_count c.ints 0 bv (replicate (get_bv_count bv) 0) 0
