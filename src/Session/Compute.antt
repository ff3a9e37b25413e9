-- ===== src/Session/Compute.antt =====
-- The commands count, min, max, sum, avg and those of arithmetic, and update (worker.c).
use cs165db.Prelude.{
  ℕ, List, [], ◌∷◌, Option, none, some, Bool, true, false, ◌==◌, ltb, if◌then◌else◌, get_or,
}
use cs165db.Run.{Run, done, assert, required, ◌>>=◌, ◌>>◌}
use cs165db.Text.{Text, atoi}
use cs165db.BitVector.{get_bv_count}
use cs165db.Column.{ColumnFile}
use cs165db.Select.{fetch_matched_from_bv}
use cs165db.Values.{
  fptr_add, fptr_sub, fptr_mul, fptr_div, fptr_min, fptr_max, math_op_on_var, aggregate_vals,
}
use cs165db.Variables.{
  Variable, Variables, Pointer, deref, assign, initialize_variable_materialized, found_variable,
}
use cs165db.Store.{Db, load_col, update_values, get_pos_from_var}
use cs165db.Session.{Scene, Next, again, arg, in_var, in_arg_one, in_arg_two, in_arg_three}

-- A variable that holds values of its own: `val`, `val_size` and `is_materialized` are set.
unfoldable pub hold_values : Variables → Text → List ℕ → ℕ → Run Variables
hold_values vars name val val_size = initialize_variable_materialized vars name >>= λ (p, vars').
    deref vars' p >>= λ new_var.
    assign vars' p (record new_var { is_materialized = true; val_size = val_size; val = some val })

-- How many values count finds: a fetched variable is counted by its vector.
unfoldable pub count_of : Variable → Run ℕ
count_of var =
    let marked = required var.bv >>= λ bv. done (get_bv_count bv) in
    if var.is_fetched then marked else done (if var.is_materialized then var.val_size else 0)

unfoldable pub count_command : Bool → Scene → List (Option Text) → Run (Next × Scene)
count_command has_var s args = assert has_var >> arg args in_arg_one >>= λ one.
    found_variable s.vars one >>= λ (p, var). count_of var >>= λ count. arg args in_var >>= λ name.
    hold_values s.vars name (count ∷ []) 1 >>= λ vars. done (again, record s { vars = vars })

-- The `switch` on the second letter of min, max, avg and sum.
unfoldable pub aggregate_by : ℕ → Variable → ColumnFile → Run ℕ
aggregate_by letter var c =
    if letter == 105
    then aggregate_vals fptr_min var c false
    else if letter == 97
    then aggregate_vals fptr_max var c false
    else aggregate_vals fptr_add var c (letter == 118)

-- `aggregate_vals` frees the values that it has read.
unfoldable pub aggregate_command : Bool → Text → Scene → List (Option Text) → Run (Next × Scene)
aggregate_command has_var command s args = assert has_var >> arg args in_arg_one >>= λ one.
    found_variable s.vars one >>= λ (p, var). required var.fetched_col >>= λ col_name.
    load_col s.db col_name >>= λ c.
    aggregate_by (get_or command 1 0) var c.column >>= λ aggr_result.
    assign s.vars p (record var { val = if var.is_materialized then none else var.val }) >>= λ vars.
    arg args in_var >>= λ name.
    hold_values vars name (aggr_result ∷ []) 1 >>= λ vars'. done (again, record s { vars = vars' })

-- One operand made ready: a fetched one gets the values of its column, and sets `size`.
unfoldable pub prepare_operand : Db → Variables → Pointer → Option ℕ → Run (Option ℕ × Variables)
prepare_operand db vars p size = deref vars p >>= λ v.
    (let fetched = required v.bv >>= λ bv. required v.fetched_col >>= λ col_name.
    load_col db col_name >>= λ c. fetch_matched_from_bv c.column bv >>= λ m.
    assign vars p (record v { is_materialized = true; val = some m }) >>= λ vars'.
    done (some (get_bv_count bv), vars') in
      let held = assert v.is_materialized >> assert (ltb 0 v.val_size) >> required v.val >>= λ val.
      done (size, vars) in
      if v.is_fetched then fetched else held)

-- The `switch` on the first letter of add, sub, div and mul.
unfoldable pub math_by : ℕ → ℕ → List ℕ → List ℕ → Run (List ℕ)
math_by letter size m1 m2 =
    if letter == 97
    then math_op_on_var fptr_add size m1 m2
    else if letter == 115
    then math_op_on_var fptr_sub size m1 m2
    else if letter == 100
    then math_op_on_var fptr_div size m1 m2
    else math_op_on_var fptr_mul size m1 m2

-- The operands are pointers from before the result is appended to the array.
unfoldable pub math_command : Bool → Text → Scene → List (Option Text) → Run (Next × Scene)
math_command has_var command s args = assert has_var >> arg args in_arg_one >>= λ one.
    arg args in_arg_two >>= λ two. found_variable s.vars one >>= λ (p, v).
    found_variable s.vars two >>= λ (q, w). prepare_operand s.db s.vars p none >>= λ (size0, vars0).
    prepare_operand s.db vars0 q size0 >>= λ (size, vars1). arg args in_var >>= λ name.
    initialize_variable_materialized vars1 name >>= λ (r, vars2). required size >>= λ n.
    deref vars2 p >>= λ v0. deref vars2 q >>= λ v1. required v0.val >>= λ m1.
    required v1.val >>= λ m2. math_by (get_or command 0 0) n m1 m2 >>= λ val.
    deref vars2 r >>= λ new_var.
    assign vars2 r (record new_var { is_materialized = true; val_size = n; val = some val })
    >>= λ vars3. done (again, record s { vars = vars3 })

unfoldable pub update_command : Scene → List (Option Text) → Run (Next × Scene)
update_command s args = arg args in_arg_one >>= λ one. get_pos_from_var s.vars one >>= λ pos_val.
    arg args in_arg_three >>= λ three. arg args in_arg_two >>= λ col_name.
    update_values s.db col_name pos_val (atoi three) >>= λ db. done (again, record s { db = db })
