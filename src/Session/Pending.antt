-- ===== src/Session/Pending.antt =====
-- What a session does with the data that a load, tuple, insert or delete has announced (worker.c), and
-- `tuple_helper` (helper_fetch_command.c).
use cs165db.Prelude.{
  ℕ, zero, suc, ◌+◌, ◌-◌, ◌*◌, ◌/◌, ◌%◌, List, [], ◌++◌, false, not, ◌==◌, ltb, leb, if◌then◌else◌,
  length, take, replicate,
}
use cs165db.Run.{Run, done, fault, assert, required, read, write, ◌>>=◌, ◌>>◌}
use cs165db.Text.{text_at, atoi}
use cs165db.BitVector.{BitVector, is_marked}
use cs165db.DynArray.{DynArray, create_list, append_list, get_list_size}
use cs165db.Variables.{Variables, found_variable, max_name_size}
use cs165db.Store.{
  Db, load_col, load_helper, insert_value, delete_values, get_pos_from_var, copy_ids,
}
use cs165db.Session.{
  Machine, Locals, Scene, Session, Next, again, hang_up, reply, bytes_ints, max_command_buffer_size,
}

-- The loop of `tuple_helper` over variables that hold values, with `n` of them left from `i` on: each
-- gives `row_num` values.
unfoldable pub tuple_vals : ℕ → Variables → List ℕ → ℕ → ℕ → Run (List ℕ)
tuple_vals zero vars data_buffer row_num i = done []
tuple_vals (suc n) vars data_buffer row_num i = text_at data_buffer (i * max_name_size) >>= λ name.
    found_variable vars name >>= λ (p, v).
    assert (v.val_size == row_num) >> required v.val >>= λ val.
    (if leb row_num (length val) then done (take row_num val) else fault) >>= λ vals.
    tuple_vals n vars data_buffer row_num (i + 1) >>= λ rest. done (vals ++ rest)

-- The marked values of what was read of a column, with `n` rows left from `u` on.
unfoldable pub append_marked : ℕ → List ℕ → BitVector → ℕ → DynArray ℕ → Run (DynArray ℕ)
append_marked zero buffer bv u result = done result
append_marked (suc n) buffer bv u result = is_marked bv u >>= λ marked.
    (if marked then (read buffer u >>= λ v. append_list result v) else done result) >>= λ result'.
    append_marked n buffer bv (u + 1) result'

-- The loop over the variables that are read from their columns; `max_row` is the size of the first,
-- and a column with fewer values ends the process.
unfoldable pub tuple_rows : ℕ → Db → Variables → List ℕ → ℕ → ℕ → DynArray ℕ → Run (DynArray ℕ)
tuple_rows zero db vars data_buffer max_row i result = done result
tuple_rows (suc n) db vars data_buffer max_row i result =
    text_at data_buffer (i * max_name_size) >>= λ name. found_variable vars name >>= λ (p, v).
    assert v.is_fetched >> required v.fetched_col >>= λ col_name. load_col db col_name >>= λ c.
    required v.bv >>= λ bv.
    assert (leb max_row (length c.column.ints))
    >> append_marked max_row (take max_row c.column.ints) bv 0 result
    >>= λ result'. tuple_rows n db vars data_buffer max_row (i + 1) result'

-- `tuple_helper`: the values of the variables, one variable after the other.
unfoldable pub tuple_helper : Db → Variables → List ℕ → ℕ → Run (List ℕ)
tuple_helper db vars data_buffer v_count = text_at data_buffer 0 >>= λ name.
    found_variable vars name >>= λ (p, first).
    (let from_vals =
        assert (ltb 0 first.val_size) >> tuple_vals v_count vars data_buffer first.val_size 0 in
      let from_cols = assert first.is_fetched >> required first.fetched_col >>= λ col_name.
      load_col db col_name >>= λ c.
      assert (ltb 0 c.column.meta.size)
      >> tuple_rows v_count db vars data_buffer c.column.meta.size 0 create_list
      >>= λ result. copy_ids (get_list_size result) result 0 in
      if first.is_materialized then from_vals else from_cols)

-- A tuple is over once its values are sent; otherwise the session ends with the flag still set.
unfoldable pub after_tuple : Session → Next → Scene → Next × Session
after_tuple s again scene =
    let locals : Locals = s.locals in
    (
      again,
      record s {
        locals = record locals { is_tuple = false };
        scene = scene;
        data_buffer = replicate max_command_buffer_size 0;
      },
    )
after_tuple s hang_up scene = (hang_up, record s { scene = scene })
after_tuple s Next.give_up scene = (hang_up, record s { scene = scene })

unfoldable pub tuple_data : Machine → Session → Run (Next × Session)
tuple_data m s =
    let scene : Scene = s.scene in
    let locals : Locals = s.locals in
    tuple_helper scene.db scene.vars s.data_buffer locals.v_count >>= λ vals.
    assert (not (length vals == 0)) >> reply m scene vals >>= λ (next, scene').
    done (after_tuple s next scene')

-- The loop of an insert over pairs of a column's name and a number, with `n` pairs left from `u` on.
unfoldable pub insert_pairs : ℕ → ℕ → Db → List ℕ → ℕ → Run Db
insert_pairs depth zero db data_buffer u = done db
insert_pairs depth (suc n) db data_buffer u =
    text_at data_buffer (u * max_name_size) >>= λ col_name.
    text_at data_buffer ((u + 1) * max_name_size) >>= λ number.
    insert_value depth db col_name (atoi number) >>= λ db'.
    insert_pairs depth n db' data_buffer (u + 2)

unfoldable pub insert_data : Machine → Session → Run (Next × Session)
insert_data m s =
    let scene : Scene = s.scene in
    let locals : Locals = s.locals in
    assert (locals.v_count % 2 == 0)
    >> insert_pairs m.depth (locals.v_count / 2) scene.db s.data_buffer 0
    >>= λ db.
        (let s' : Session = record s {
          locals = record locals { is_insert = false };
          scene = record scene { db = db };
        } in
          done (again, s'))

-- The loop of a delete over the names of the columns, with `n` left from `u` on.
unfoldable pub delete_each : ℕ → Db → List ℕ → List ℕ → ℕ → Run Db
delete_each zero db data_buffer pos_val u = done db
delete_each (suc n) db data_buffer pos_val u =
    text_at data_buffer (u * max_name_size) >>= λ col_name.
    delete_values db col_name pos_val >>= λ db'. delete_each n db' data_buffer pos_val (u + 1)

unfoldable pub delete_data : Session → Run (Next × Session)
delete_data s =
    let scene : Scene = s.scene in
    let locals : Locals = s.locals in
    text_at s.data_buffer 0 >>= λ var_name. get_pos_from_var scene.vars var_name >>= λ pos_val.
    delete_each (locals.v_count - 1) scene.db s.data_buffer pos_val 1 >>= λ db.
    (let s' : Session = record s {
      locals = record locals { is_delete = false };
      scene = record scene { db = db };
    } in
      done (again, s'))

-- The head of the buffer, which a `memcpy` takes.
abbrev pub buffer_head : List ℕ → ℕ → Run (List ℕ)
buffer_head buffer n = if leb n (length buffer) then done (take n buffer) else fault

-- All rows are there: the columns are written, and the load is over.
unfoldable pub finish_load : Machine → Session → Locals → Run (Next × Session)
finish_load m s locals =
    let scene : Scene = s.scene in
    load_helper m.fuel m.test m.junk scene.db locals.load_col_names locals.ints_buffer
      locals.col_size
    >>= λ db.
        (let s' : Session = record s {
          locals = record locals {
            is_loading = false;
            cur_row = 0;
            load_col_names = [];
            ints_buffer = [];
          };
          scene = record scene { db = db };
        } in
          done (again, s'))

-- A row of a load; the last one ends it.
unfoldable pub load_row : Machine → Session → Run (Next × Session)
load_row m s =
    let locals : Locals = s.locals in
    buffer_head s.data_buffer (locals.col_size * 4) >>= λ bytes.
    write locals.ints_buffer (locals.cur_row - 1) (bytes_ints locals.col_size bytes) >>= λ rows.
    (let stored : Locals = record locals { ints_buffer = rows; cur_row = locals.cur_row + 1 } in
      let finished = finish_load m s stored in
      let more : Session = record s { locals = stored } in
      if leb stored.cur_row locals.row_size then done (again, more) else finished)

-- The branch of a session that is loading: first the names of the columns, then the rows.
unfoldable pub load_data : Machine → Session → Run (Next × Session)
load_data m s =
    let locals : Locals = s.locals in
    let names = buffer_head s.data_buffer (locals.col_size * max_name_size) >>= λ bytes.
    (let s' : Session = record s {
      locals = record locals { load_col_names = bytes; cur_row = 1 };
    } in
      done (again, s')) in
    let row = load_row m s in
    let finished = finish_load m s locals in
    assert (ltb 0 locals.col_size)
    >> assert (ltb 0 locals.row_size)
    >> (if locals.cur_row == 0
        then names
        else if leb locals.cur_row locals.row_size
        then row
        else finished)
