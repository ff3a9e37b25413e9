-- ===== src/Session/Sums.antt =====
-- The aggregation of a variable that an arithmetic command has read, and a select that finds nothing
-- (worker.c).
use cs165db.Prelude.{
  ℕ, ◌+◌, ◌≡◌, ◌≤◌, ◌<◌, refl, ap, ◌∙◌, List, [], ◌∷◌, Option, none, some, true, false, length, set,
  arith, ==-self, get_or-set_self, length-set,
}
use cs165db.Word.{word}
use cs165db.Run.{Run, done, abort, write_lem, read_lem, Returns, Returns-done}
use cs165db.Text.{Text, is_empty_str, atoi}
use cs165db.BitVector.{BitVector, get_bv_count}
use cs165db.BitVector.View.{IsShaped}
use cs165db.DynArray.{get_list_val}
use cs165db.Column.{ColumnFile, unsorted}
use cs165db.Select.{fetch_matched_from_bv, mark_matching_bv_for_unsorted}
use cs165db.Select.Unsorted.{matching, mark_matching_bv_for_unsorted-AllMarked}
use cs165db.BpTree.Find.Results.{AllMarked}
use cs165db.Values.{aggregate_vals, aggregate_found, aggregate_loop}
use cs165db.Variables.{Variable, Variables, Pointer, deref, assign}
use cs165db.Store.{Db, Stored, load_col}
use cs165db.Session.{Machine, arg, in_arg_two, in_arg_three}
use cs165db.Session.Query.{select_into, mark_selected}
use cs165db.Session.Compute.{prepare_operand}

deref-assign :
    (vars : Variables) (p : Pointer) (v : Variable)
    → p.capacity ≡ vars.capacity
    → p.place < length vars.cells
    → (vars' : Variables) × (assign vars p v ≡ done vars') × (deref vars' p ≡ done v)
unfolding get_list_val
deref-assign vars p v e h =
    let cells : List (Option Variable) = set vars.cells p.place (some v) in
    (
      record vars { cells = cells },
      rw (e, ==-self vars.capacity, write_lem vars.cells p.place (some v) h) refl,
      rw
          (
            e,
            ==-self vars.capacity,
            read_lem cells p.place none (omega (arith, length-set vars.cells p.place (some v))),
            get_or-set_self vars.cells p.place (some v) none h,
          )
          refl,
    )

-- A fetched variable that was an operand of an arithmetic command, and whose val_size is still 0,
-- has its values in memory with a size of 0: an aggregation that is not an average then returns
-- the first of its values, whatever the operation and however many values there are.
pub prepare_operand-aggregate :
    (db : Db) (vars : Variables) (p : Pointer) (size : Option ℕ) (v : Variable) (bv : BitVector)
    (col_name : Text) (c : Stored) (x : ℕ) (xs : List ℕ) (op : ℕ → ℕ → Run ℕ) (col : ColumnFile)
    → deref vars p ≡ done v
    → p.capacity ≡ vars.capacity
    → p.place < length vars.cells
    → v.is_fetched ≡ true
    → v.val_size ≡ 0
    → v.bv ≡ some bv
    → v.fetched_col ≡ some col_name
    → load_col db col_name ≡ done c
    → fetch_matched_from_bv c.column bv ≡ done (x ∷ xs)
    → Returns (prepare_operand db vars p size) (λ (n, vars').
      (n ≡ some (get_bv_count bv))
      × Returns (deref vars' p) (λ w. aggregate_vals op w col false ≡ done x))
unfolding prepare_operand aggregate_vals aggregate_found aggregate_loop
prepare_operand-aggregate db vars p size v bv col_name c x xs op col at e h fetched unsized marks
      named loaded got =
    let w : Variable = record v {
      is_fetched = true;
      bv = some bv;
      fetched_col = some col_name;
      is_materialized = true;
      val = some (x ∷ xs);
    } in
    let (vars', set_to, back) = deref-assign vars p w e h in
    rw (Returns, at, fetched, marks, named, loaded, got, set_to, back) (refl, rw unsized refl)

mark_selected-unsorted :
    (m : Machine) (c : Stored) (bv : BitVector) (low high : ℕ)
    → c.column.meta.storage ≡ unsorted
    → mark_selected m c bv low high ≡ mark_matching_bv_for_unsorted low high c.column bv
unfolding mark_selected
mark_selected-unsorted m c bv low high e = rw e refl

-- A select between two values that no value of an unsorted column lies between ends the process,
-- on a column whose file holds just its rows, fewer than 2^32 - 256, with a shaped vector that has
-- a bit for each.
pub select_into-nothing :
    (m : Machine) (c : Stored) (bv : BitVector) (args : List (Option Text)) (two three : Text)
    → arg args in_arg_two ≡ done two
    → arg args in_arg_three ≡ done three
    → is_empty_str two ≡ false
    → is_empty_str three ≡ false
    → c.column.meta.storage ≡ unsorted
    → length c.column.ints ≡ c.column.meta.size
    → c.column.meta.size ≤ bv.size
    → c.column.meta.size + 256 < word
    → IsShaped bv
    → matching (atoi two) (atoi three) c.column.ints 0 ≡ []
    → select_into m c bv args ≡ abort
unfolding select_into
select_into-nothing m c bv args two three a2 a3 e2 e3 storage e fits small shaped nothing =
    let ((after, total), run, (marked, count)) =
      Returns-done
        (λ (after, total).
          AllMarked bv (matching (atoi two) (atoi three) c.column.ints 0) after
          × (total ≡ length (matching (atoi two) (atoi three) c.column.ints 0)))
        (mark_matching_bv_for_unsorted (atoi two) (atoi three) c.column bv)
        (mark_matching_bv_for_unsorted-AllMarked (atoi two) (atoi three) c.column bv e fits small
          shaped) in
    let none_found : total ≡ 0 = count ∙ ap length nothing in
    rw
      (
        a2,
        a3,
        e2,
        e3,
        mark_selected-unsorted m c bv (atoi two) (atoi three) storage,
        run,
        none_found,
      )
      refl
