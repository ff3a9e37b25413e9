-- ===== src/Column.antt =====
-- A column on disk: the header and the `int`s of its file (data_structures.h, helper_file_open.c),
-- and what helper_insert.c and helper_updates.c do to it. `fopen`, `fseek`, `fwrite`, `remove` and
-- `rename` succeed. A read that finds too little is written out; a write past the end of the file
-- fills the gap with zeros.
pub mod Contents
pub mod Delete
pub mod Update
pub mod Append
pub mod Insert
pub mod Sorted
use cs165db.Prelude.{
  ℕ, zero, suc, ◌+◌, ◌-◌, List, [], ◌∷◌, ◌++◌, length, take, drop, set, replicate, Bool, true,
  false, ltb, leb, ◌==◌, if◌then◌else◌, Option, none, some, get_elem?,
}
use cs165db.Word.{word, half, add32, sub32, lt_int, le_int}
use cs165db.Run.{Run, done, fault, abort, assert, read, write, ◌>>=◌, ◌>>◌}
use cs165db.BitVector.{BitVector, is_marked, get_bv_count, get_bv_size}
use cs165db.DynArray.{DynArray, get_list_size}
use cs165db.Search.{get_lower_bound}

-- `storage_t`
pub data StorageType : Type 0 where
  unsorted sorted bptree : StorageType

-- `column_meta_t`
pub record ColumnMeta : Type 0 where
  pub storage : StorageType
  pub size : ℕ
  pub next_free : ℕ
  pub root : ℕ

-- `<name>.data`: the header, and all `int`s behind it. Their number may differ from `meta.size`.
pub record ColumnFile : Type 0 where
  pub meta : ColumnMeta
  pub ints : List ℕ

-- `make_new_column_file`, as far as this file goes.
unfoldable pub make_new_column_file : StorageType → ColumnFile
make_new_column_file storage = record {
  meta = record { storage = storage; size = 0; next_free = 0; root = 0 };
  ints = [];
}

-- `append_value_to_file`: the size in the header goes up, and the value goes to the end of the file.
unfoldable pub append_value_to_file : ColumnFile → ℕ → ColumnFile
append_value_to_file f val =
    let meta = f.meta in
    record { meta = record meta { size = add32 f.meta.size 1 }; ints = f.ints ++ (val ∷ []) }

-- `fread` of `n` `int`s from place `pos` on, where fewer end the process.
abbrev pub read_ints : List ℕ → ℕ → ℕ → Run (List ℕ)
read_ints ints pos n = if leb (pos + n) (length ints) then done (take n (drop pos ints)) else abort

-- `insert_value_to_file`: the file is written anew with the value at `index`.
unfoldable pub insert_value_to_file : ColumnFile → ℕ → ℕ → Run ColumnFile
insert_value_to_file f index val = do
  let rest_num = sub32 f.meta.size index
  assert (le_int 0 rest_num)
  let some_first = lt_int 0 index
  first ← read_ints f.ints 0 (if some_first then index else 0)
  last ← read_ints f.ints (if some_first then index else 0) rest_num
  let meta = f.meta
  done (record { meta = record meta { size = add32 f.meta.size 1 }; ints = first ++ (val ∷ last) })

-- `insert_helper` on a column that is kept in order.
unfoldable pub insert_sorted : ColumnFile → ℕ → Run ColumnFile
insert_sorted f num_insert = do
  insert_index ← get_lower_bound f.ints f.meta.size num_insert
  insert_value_to_file f insert_index num_insert

-- `fseek` to place `pos` and `fwrite` of one `int`. A negative place is outside the `int`s.
abbrev pub put_int : List ℕ → ℕ → ℕ → Run (List ℕ)
put_int ints pos val =
    if ltb pos half then done (set (ints ++ replicate (suc pos - length ints) 0) pos val) else fault

-- `dbg_assert(c.m.type == UNSORTED)`
abbrev pub is_unsorted : StorageType → Bool
is_unsorted storage = elim storage [ unsorted ↦ true | sorted ↦ false | bptree ↦ false ]

-- `last_val` behind the `fread`, which must read it.
abbrev pub read_last : ColumnFile → Run ℕ
read_last f = elim (get_elem? f.ints (sub32 f.meta.size 1)) [ none ↦ abort | some v ↦ done v ]

-- One turn of the loop of `delete_helper`: the last value goes to the place, and the size goes down.
unfoldable pub delete_one : ColumnFile → ℕ → Run ColumnFile
delete_one f pos = read_last f >>= λ v. put_int f.ints pos v >>= λ ints.
    (let meta = f.meta in
      done (record { meta = record meta { size = sub32 f.meta.size 1 }; ints = ints }))

-- The loop of `delete_helper`. The header is written behind the loop.
unfoldable pub delete_from : ColumnFile → List ℕ → Run ColumnFile
delete_from f [] = done f
delete_from f (pos ∷ rest) = delete_one f pos >>= λ f'. delete_from f' rest

unfoldable pub delete_helper : ColumnFile → List ℕ → Run ColumnFile
delete_helper f delete_pos = assert (is_unsorted f.meta.storage) >> delete_from f delete_pos

-- The loop of `update_helper`.
unfoldable pub update_ints : List ℕ → List ℕ → ℕ → Run (List ℕ)
update_ints ints [] val = done ints
update_ints ints (pos ∷ rest) val = put_int ints pos val >>= λ ints'. update_ints ints' rest val

unfoldable pub update_helper : ColumnFile → List ℕ → ℕ → Run ColumnFile
update_helper f update_pos val =
    assert (is_unsorted f.meta.storage) >> update_ints f.ints update_pos val >>= λ ints.
    done (record f { ints = ints })

-- The loop of `get_pos_from_var` over a bit vector: `n` indices from `u` on are left, and `itr`
-- cells of `pos` are filled.
unfoldable pub collect_pos : ℕ → BitVector → ℕ → List ℕ → ℕ → Run (List ℕ × ℕ)
collect_pos zero bv u pos itr = done (pos, itr)
collect_pos (suc n) bv u pos itr = is_marked bv u >>= λ marked.
    (if marked then write pos itr u else done pos) >>= λ pos'.
    collect_pos n bv (u + 1) pos' (if marked then itr + 1 else itr)

-- `get_pos_from_var` for a variable that a bit vector stands for.
unfoldable pub get_pos_from_bv : BitVector → Run (List ℕ)
get_pos_from_bv bv =
    collect_pos (get_bv_size bv) bv 0 (replicate (get_bv_count bv) 0) 0 >>= λ (pos, itr).
    assert (itr == get_bv_count bv) >> done pos
