-- ===== src/Variables.antt =====
-- The variables of a session (helper_variable.c, data_structures.h): a dynamic array of `variable_t`,
-- looked up by name. A pointer into the array is the place and the capacity that the array had: the
-- next `realloc` may move the array, and to follow the pointer then is a fault.
pub mod Lookup
use cs165db.Prelude.{
  ℕ, zero, suc, ◌+◌, ◌-◌, List, Option, none, some, length, Bool, true, false, not, ◌||◌, ◌&&◌, ltb,
  ◌==◌, if◌then◌else◌,
}
use cs165db.Run.{Run, done, fault, assert, required, write, ◌>>=◌, ◌>>◌}
use cs165db.Text.{Text, is_empty_str, same_text}
use cs165db.BitVector.{BitVector, create_bv}
use cs165db.DynArray.{DynArray, create_list, append_list, get_list_size, get_list_val}

-- `variable_t`. What is not set, `NULL` or freed is `none`; of `fetched_col` only the name lasts from
-- one command to the next, since `load_col` fills in the rest before each use.
pub record Variable : Type 0 where
  pub name : Text
  pub is_id : Bool
  pub is_fetched : Bool
  pub is_materialized : Bool
  pub ids : Option (DynArray ℕ)
  pub bv : Option BitVector
  pub fetched_col : Option Text
  pub val_size : ℕ
  pub val : Option (List ℕ)

abbrev pub Variables : Type 0
Variables = DynArray Variable

pub record Pointer : Type 0 where
  pub place : ℕ
  pub capacity : ℕ

abbrev pub deref : Variables → Pointer → Run Variable
deref vars p = if p.capacity == vars.capacity then get_list_val vars p.place else fault

-- `*p = v`
abbrev pub assign : Variables → Pointer → Variable → Run Variables
assign vars p v =
    if p.capacity == vars.capacity
    then (write vars.cells p.place (some v) >>= λ cells. done (record vars { cells = cells }))
    else fault

-- `MAX_NAME_SIZE`
abbrev pub max_name_size : ℕ
max_name_size = 16

-- The loop of `find_variable`, with `n` variables left from `i` on.
unfoldable pub find_from : ℕ → Variables → Text → ℕ → Run (Option Pointer)
find_from zero vars name i = done none
find_from (suc n) vars name i =
    let rest = find_from n vars name (i + 1) in
    get_list_val vars i >>= λ v.
    if same_text name v.name
    then done (some (record { place = i; capacity = vars.capacity }))
    else rest

unfoldable pub find_variable : Variables → Text → Run (Option Pointer)
find_variable vars name =
    assert (not (is_empty_str name)) >> find_from (get_list_size vars) vars name 0

-- `new_var` filled in and appended; the name is copied into an array of 16 characters.
unfoldable pub append_variable :
    Variables → Text → Bool → Bool → Option BitVector → Run (Pointer × Variables)
append_variable vars name is_materialized is_id bv =
    let new_var : Variable = record {
      name = name;
      is_id = is_id;
      is_fetched = false;
      is_materialized = is_materialized;
      ids = if is_id then some create_list else none;
      bv = bv;
      fetched_col = none;
      val_size = 0;
      val = none;
    } in
    let appended : Run (Pointer × Variables) = append_list vars new_var >>= λ vars'.
    (let p : Pointer = record { place = vars.next; capacity = vars'.capacity } in
      done (p, vars')) in
    if ltb (length name) max_name_size then appended else fault

-- `_initialize_variable_types`: a variable of that name is returned as it is.
unfoldable pub _initialize_variable_types :
    Variables → Text → Bool → ℕ → Bool → Run (Pointer × Variables)
_initialize_variable_types vars name is_materialized size is_id =
    let with_bv =
      create_bv size >>= λ bv. append_variable vars name is_materialized is_id (some bv) in
    let without = append_variable vars name is_materialized is_id none in
    let new_var = if not is_materialized || not is_id then with_bv else without in
    find_variable vars name >>= λ found. elim found [ some p ↦ done (p, vars) | none ↦ new_var ]

abbrev pub initialize_variable : Variables → Text → ℕ → Run (Pointer × Variables)
initialize_variable vars name size = _initialize_variable_types vars name false size false

abbrev pub initialize_variable_materialized : Variables → Text → Run (Pointer × Variables)
initialize_variable_materialized vars name = _initialize_variable_types vars name true 0 false

abbrev pub initialize_rowid_variable : Variables → Text → Run (Pointer × Variables)
initialize_rowid_variable vars name = _initialize_variable_types vars name false 0 true

-- `find_variable` where the result is followed without a test.
abbrev pub found_variable : Variables → Text → Run (Pointer × Variable)
found_variable vars name =
    find_variable vars name >>= λ found. required found >>= λ p. deref vars p >>= λ v. done (p, v)
