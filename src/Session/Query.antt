-- ===== src/Session/Query.antt =====
-- The commands create, select and fetch (worker.c).
use cs165db.Prelude.{ℕ, List, [], ◌∷◌, Option, none, some, Bool, true, not, ◌==◌, if◌then◌else◌}
use cs165db.Run.{Run, done, fault, abort, assert, required, ◌>>=◌, ◌>>◌}
use cs165db.Text.{Text, is_empty_str, same_prefix, strtol, atoi}
use cs165db.BitVector.{BitVector, mark_all_bv, cpy_bv}
use cs165db.DynArray.{get_list_size}
use cs165db.Column.{StorageType, unsorted, sorted, bptree, ColumnFile}
use cs165db.BpTree.Find.{find_record_in_range}
use cs165db.Select.{
  mark_matching_bv_for_unsorted, mark_matching_bv_for_sorted, fetch_matched_from_rowid,
  fetch_matched_from_bv,
}
use cs165db.Variables.{Variable, deref, assign, initialize_variable, find_variable, found_variable}
use cs165db.Store.{Stored, init_col, make_column}
use cs165db.Session.{
  Machine, Scene, Next, again, give_up, arg, in_var, in_arg_one, in_arg_two, in_arg_three, reply,
}

-- `strncmp(..., "sorted", 4)`, then `strncmp(..., "unsorted", 8)`.
unfoldable pub storage_named : Text → StorageType
storage_named t =
    if same_prefix 4 t (115 ∷ 111 ∷ 114 ∷ 116 ∷ 101 ∷ 100 ∷ [])
    then sorted
    else if same_prefix 8 t (117 ∷ 110 ∷ 115 ∷ 111 ∷ 114 ∷ 116 ∷ 101 ∷ 100 ∷ [])
    then unsorted
    else bptree

unfoldable pub create_command : Scene → List (Option Text) → Run (Next × Scene)
create_command s args = arg args in_arg_one >>= λ name. arg args in_arg_two >>= λ kind.
    make_column s.db name (storage_named kind) >>= λ db. done (again, record s { db = db })

-- The marks of a select between two values, by the storage of the column, and how many there are.
unfoldable pub mark_selected : Machine → Stored → BitVector → ℕ → ℕ → Run (BitVector × ℕ)
mark_selected m c bv low high = elim c.column.meta.storage [
  | unsorted ↦ mark_matching_bv_for_unsorted low high c.column bv
  | sorted ↦ mark_matching_bv_for_sorted low high c.column bv
  | bptree ↦ required c.tree >>= λ tree. find_record_in_range m.depth m.width tree bv low high
]

-- The branch of select for a vector that is there.
unfoldable pub select_into : Machine → Stored → BitVector → List (Option Text) → Run BitVector
select_into m c bv args = arg args in_arg_two >>= λ two.
    (let between = arg args in_arg_three >>= λ three.
    mark_selected m c bv (atoi two) (if is_empty_str three then atoi two else atoi three)
    >>= λ (bv', result). assert (not (result == 0)) >> done bv' in
      if is_empty_str two then mark_all_bv bv else between)

unfoldable pub select_command : Machine → Bool → Scene → List (Option Text) → Run (Next × Scene)
select_command m has_var s args = assert has_var >> arg args in_arg_one >>= λ col_name.
    init_col s.db col_name >>= λ c. arg args in_var >>= λ name.
    initialize_variable s.vars name c.column.meta.size >>= λ (p, vars). deref vars p >>= λ new_var.
    elim new_var.bv [
      | none ↦ done (give_up, record s { vars = vars })
      | some bv ↦ select_into m c bv args >>= λ bv'.
          assign vars p (record new_var { bv = some bv' }) >>= λ vars'.
          done (again, record s { vars = vars' })
    ]

-- What the new variable gets of the old one.
unfoldable pub fetch_into : ColumnFile → Text → Variable → Variable → Run Variable
fetch_into c col_name old_var new_var =
    let from_ids = required old_var.ids >>= λ ids. fetch_matched_from_rowid c ids >>= λ val.
    done (record new_var {
      is_materialized = true;
      val = some val;
      val_size = get_list_size ids;
      is_fetched = true;
      fetched_col = some col_name;
    }) in
    let from_bv = required new_var.bv >>= λ new_bv. required old_var.bv >>= λ old_bv.
    cpy_bv new_bv old_bv >>= λ bv.
    done (record new_var { bv = some bv; is_fetched = true; fetched_col = some col_name }) in
    if old_var.is_id then from_ids else from_bv

-- `b = fetch(column, a)`
unfoldable pub fetch_variable : Scene → ColumnFile → Text → Text → Text → Run (Next × Scene)
fetch_variable s c col_name name two = initialize_variable s.vars name c.meta.size >>= λ (p, vars).
    (let from_var = found_variable vars two >>= λ (q, old_var). deref vars p >>= λ new_var.
    fetch_into c col_name old_var new_var >>= λ v.
    assign vars p v >>= λ vars'. done (again, record s { vars = vars' }) in
      if (strtol two).1 == 0 then from_var else done (again, record s { vars = vars }))

-- The values that `fetch(column, a)` prints.
unfoldable pub fetched_vals : ColumnFile → Variable → Run (List ℕ)
fetched_vals c found_var =
    let from_ids = required found_var.ids >>= λ ids. fetch_matched_from_rowid c ids in
    let from_bv = required found_var.bv >>= λ bv. fetch_matched_from_bv c bv in
    if found_var.is_id then from_ids else from_bv

-- `fetch(column, a)`. One value by its place is printed with `sprintf` to `msg`, which is `NULL` or
-- the text of a literal.
unfoldable pub fetch_print : Machine → Scene → ColumnFile → Text → Run (Next × Scene)
fetch_print m s c two =
    let from_var = find_variable s.vars two >>= λ found. elim found [
      | none ↦ abort
      | some q ↦ deref s.vars q >>= λ found_var. fetched_vals c found_var >>= λ vals. reply m s vals
    ] in
    if (strtol two).1 == 0 then from_var else fault

unfoldable pub fetch_command : Machine → Bool → Scene → List (Option Text) → Run (Next × Scene)
fetch_command m has_var s args = arg args in_arg_one >>= λ col_name. arg args in_arg_two >>= λ two.
    init_col s.db col_name >>= λ c.
    assert (not (is_empty_str two))
    >> (let into = arg args in_var >>= λ name. fetch_variable s c.column col_name name two in
        let print = fetch_print m s c.column two in if has_var then into else print)
