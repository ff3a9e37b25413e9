-- ===== src/Store.antt =====
-- The columns on disk by their names (helper_init.c, helper_file_open.c), the helpers of the commands
-- that open a column themselves, and `load_helper` (helper_load.c).
use cs165db.Prelude.{
  ℕ, zero, suc, ◌+◌, ◌*◌, List, [], ◌∷◌, ◌++◌, Option, none, some, drop, length, Bool, true, false,
  not, ltb, if◌then◌else◌,
}
use cs165db.Word.{sub32, lt_int}
use cs165db.Run.{Run, done, fault, abort, assert, required, read, ◌>>=◌, ◌>>◌}
use cs165db.Text.{Text, is_empty_str, same_text, text_at}
use cs165db.DynArray.{DynArray, get_list_size, get_list_val}
use cs165db.Column.{
  StorageType, unsorted, sorted, bptree, ColumnFile, make_new_column_file, delete_helper,
  update_helper, get_pos_from_bv, is_unsorted,
}
use cs165db.Insert.{insert_helper}
use cs165db.BpTree.{Node, TreeFile, make_tree_file}
use cs165db.BpTree.Bulk.{bulk_load}
use cs165db.Variables.{Variables, found_variable, max_name_size}

-- What a file has: the header and the `int`s of a column, or the nodes of a tree.
pub data Content : Type 0 where
  column_data : ColumnFile → Content
  tree_data : TreeFile → Content

-- A file, by the name that `.data` is put behind.
pub record NamedFile : Type 0 where
  pub name : Text
  pub content : Content

abbrev pub Db : Type 0
Db = List NamedFile

-- `get_bpt_nodes_file_name`: "_nodes" behind the name of the column. A column may have that name too, and
-- then has the same file.
unfoldable pub nodes_name : Text → Text
nodes_name name = name ++ (95 ∷ 110 ∷ 111 ∷ 100 ∷ 101 ∷ 115 ∷ [])

-- `fopen` of a file that is to be there.
unfoldable pub lookup : Db → Text → Option Content
lookup [] name = none
lookup (f ∷ fs) name =
    let rest = lookup fs name in if same_text name f.name then some f.content else rest

-- A file as it is once it is written.
unfoldable pub store_file : Db → Text → Content → Db
store_file [] name content = record { name = name; content = content } ∷ []
store_file (f ∷ fs) name content =
    let rest = store_file fs name content in
    if same_text name f.name then record f { content = content } ∷ fs else f ∷ rest

-- A column as it is opened, with the nodes of its tree. What the bytes of a column read as nodes is left out:
-- there are none then.
pub record Stored : Type 0 where
  pub column : ColumnFile
  pub tree : Option TreeFile

-- The files of a column that are written back.
unfoldable pub store_column : Db → Text → Stored → Db
store_column db name stored =
    let db' = store_file db name (column_data stored.column) in
    elim stored.tree [ none ↦ db' | some tree ↦ store_file db' (nodes_name name) (tree_data tree) ]

-- The read of the header of a column. What the bytes of nodes read as `int`s is left out, and comes to a
-- fault.
unfoldable pub column_in : Content → Run ColumnFile
column_in (column_data c) = done c
column_in (tree_data t) = fault

unfoldable pub tree_in : Content → Option TreeFile
tree_in (column_data c) = none
tree_in (tree_data t) = some t

-- The second file, which is opened for a tree; one that is not there ends the process.
unfoldable pub open_nodes : Db → Text → StorageType → Run (Option TreeFile)
open_nodes db name storage =
    let opened : Run (Option TreeFile) = elim (lookup db (nodes_name name)) [
      | none ↦ abort
      | some f ↦ done (tree_in f)
    ] in
    elim storage [ unsorted ↦ done none | sorted ↦ done none | bptree ↦ opened ]

-- `get_file_for_update`, the read of the header and the opening of the second file, which are `load_col`. A
-- file that is not there ends the process.
unfoldable pub load_col : Db → Text → Run Stored
load_col db name = assert (not (is_empty_str name)) >> elim (lookup db name) [
  | none ↦ abort
  | some f ↦ column_in f >>= λ column. open_nodes db name column.meta.storage >>= λ tree.
      done (record { column = column; tree = tree })
]

-- `init_col` copies the name into an array of 16 characters first.
unfoldable pub init_col : Db → Text → Run Stored
init_col db name = if ltb (length name) max_name_size then load_col db name else fault

-- `make_new_column_file`: the file is emptied if there is one, and so is the second one for a tree.
unfoldable pub make_column : Db → Text → StorageType → Run Db
make_column db name storage =
    let tree : Option TreeFile = elim storage [
      | unsorted ↦ none
      | sorted ↦ none
      | bptree ↦ some (make_tree_file bptree)
    ] in
    assert (not (is_empty_str name))
    >> done (store_column db name (record { column = make_new_column_file storage; tree = tree }))

unfoldable pub insert_value : ℕ → Db → Text → ℕ → Run Db
insert_value depth db name num_insert = init_col db name >>= λ c.
    insert_helper depth c.column c.tree num_insert >>= λ (column, tree).
    done (store_column db name (record { column = column; tree = tree }))

abbrev pub is_bptree : StorageType → Bool
is_bptree storage = elim storage [ unsorted ↦ false | sorted ↦ false | bptree ↦ true ]

unfoldable pub delete_values : Db → Text → List ℕ → Run Db
delete_values db name delete_pos = init_col db name >>= λ c.
    delete_helper c.column delete_pos >>= λ column.
    done (store_column db name (record c { column = column }))

unfoldable pub update_values : Db → Text → List ℕ → ℕ → Run Db
update_values db name update_pos val = init_col db name >>= λ c.
    update_helper c.column update_pos val >>= λ column.
    done (store_column db name (record c { column = column }))

-- The `memcpy` of the ids, with `n` of them left from `i` on.
unfoldable pub copy_ids : ℕ → DynArray ℕ → ℕ → Run (List ℕ)
copy_ids zero ids i = done []
copy_ids (suc n) ids i =
    get_list_val ids i >>= λ id. copy_ids n ids (i + 1) >>= λ rest. done (id ∷ rest)

-- `get_pos_from_var`
unfoldable pub get_pos_from_var : Variables → Text → Run (List ℕ)
get_pos_from_var vars var_name = found_variable vars var_name >>= λ (p, pos_var).
    (let from_ids = required pos_var.ids >>= λ ids. copy_ids (get_list_size ids) ids 0 in
      let from_bv = required pos_var.bv >>= λ bv. get_pos_from_bv bv in
      if pos_var.is_id then from_ids else from_bv)

-- `qsort` of the rows by `compare_malloced_array`, the sign of the difference of their first values.
-- Where rows compare equal, any order is allowed.
unfoldable pub insert_row : List ℕ → List (List ℕ) → Run (List (List ℕ))
insert_row row [] = done (row ∷ [])
insert_row row (r ∷ rs) = read row 0 >>= λ a. read r 0 >>= λ b.
    insert_row row rs >>= λ rest. done (if lt_int 0 (sub32 a b) then r ∷ rest else row ∷ r ∷ rs)

unfoldable pub sort_rows : List (List ℕ) → Run (List (List ℕ))
sort_rows [] = done []
sort_rows (row ∷ rows) = sort_rows rows >>= λ sorted_rows. insert_row row sorted_rows

-- The values of column `i` of the rows.
unfoldable pub column_of : List (List ℕ) → ℕ → Run (List ℕ)
column_of [] i = done []
column_of (row ∷ rows) i = read row i >>= λ v. column_of rows i >>= λ rest. done (v ∷ rest)

-- The loop over the columns, with `n` of them left from `i` on: the values are written from the first
-- place of the file on, over those that it has.
unfoldable pub load_columns : ℕ → Db → List ℕ → List (List ℕ) → ℕ → Run Db
load_columns zero db col_names rows i = done db
load_columns (suc n) db col_names rows i = text_at col_names (i * max_name_size) >>= λ name.
    init_col db name >>= λ c. column_of rows i >>= λ vals.
    (let column = c.column in
      let meta = column.meta in
      load_columns n
        (store_column db name (record c {
          column = record {
            meta = record meta { size = length rows };
            ints = vals ++ drop (length vals) column.ints;
          };
        }))
        col_names rows (i + 1))

-- `load_helper`, with `fuel`, `test` and `junk` for `bulk_load`. The rows are `row_size` many.
unfoldable pub load_helper : ℕ → Bool → Node → Db → List ℕ → List (List ℕ) → ℕ → Run Db
load_helper fuel test junk db col_names ints_buffer col_size = text_at col_names 0 >>= λ first_name.
    init_col db first_name >>= λ first_c.
    (let storage = first_c.column.meta.storage in
      (if is_unsorted storage then done ints_buffer else sort_rows ints_buffer) >>= λ rows.
      load_columns col_size db col_names rows 0 >>= λ db'.
      (let with_tree = required first_c.tree >>= λ tree. column_of rows 0 >>= λ bpt_data.
      bulk_load fuel test junk tree bpt_data (length rows) >>= λ tree'.
      init_col db' first_name >>= λ c.
      done (store_column db' first_name (record c { tree = some tree' })) in
        if is_bptree storage then with_tree else done db'))
