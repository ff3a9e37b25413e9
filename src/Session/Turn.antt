-- ===== src/Session/Turn.antt =====
-- The loop of `db_worker` (worker.c): a turn receives the size of a message or the message itself, and
-- a message is a command or the data that one has announced.
use cs165db.Prelude.{
  ℕ, suc, ◌*◌, List, [], ◌∷◌, Option, Bool, true, false, not, ◌||◌, ◌==◌, if◌then◌else◌, length,
  drop, replicate, take, ◌++◌,
}
use cs165db.Word.{lt_int}
use cs165db.Variables.{max_name_size}
use cs165db.Session.Words.{
  the_create, the_select, the_fetch, the_load, the_tuple, the_insert, the_update, the_delete,
  the_add, the_sub, the_div, the_mul, the_count, the_min, the_max, the_sum, the_avg, the_join,
  the_exit, syntax_msg,
}
use cs165db.Run.{Run, done, assert, write, first_match, ◌>>=◌, ◌>>◌}
use cs165db.Text.{Text, c_string, is_empty_str, same_prefix, atoi}
use cs165db.Parser.{match_regex}
use cs165db.Socket.{Socket, expected_bytes, meta_size, safe_recv}
use cs165db.Session.{
  Machine, Locals, Scene, Session, Next, again, hang_up, arg, in_var, in_command, in_arg_one,
  in_arg_two,
}
use cs165db.Session.Query.{create_command, select_command, fetch_command}
use cs165db.Session.Compute.{count_command, aggregate_command, math_command, update_command}
use cs165db.Session.JoinCommand.{join_command}
use cs165db.Session.Pending.{load_data, tuple_data, insert_data, delete_data}

-- `load`, `tuple`, `insert` and `delete` only announce the data that follows.
abbrev pub loading_locals : Locals → Text → Text → Locals
loading_locals locals cols rows = record locals {
  is_loading = true;
  col_size = atoi cols;
  row_size = atoi rows;
  load_col_names = replicate (atoi cols * max_name_size) 0;
  ints_buffer = replicate (atoi rows) (replicate (atoi cols) 0);
}

unfoldable pub start_load : Locals → List (Option Text) → Run Locals
start_load locals args = arg args in_arg_one >>= λ cols.
    arg args in_arg_two >>= λ rows. done (loading_locals locals cols rows)

-- `v_count`, which must not be 0.
abbrev pub announced : List (Option Text) → Run ℕ
announced args = arg args in_arg_one >>= λ one. assert (not (atoi one == 0)) >> done (atoi one)

abbrev pub tuple_locals : Locals → ℕ → Locals
tuple_locals locals n = record locals { v_count = n; is_tuple = true }

unfoldable pub start_tuple : Locals → List (Option Text) → Run Locals
start_tuple locals args = announced args >>= λ n. done (tuple_locals locals n)

abbrev pub insert_locals : Locals → ℕ → Locals
insert_locals locals n = record locals { v_count = n; is_insert = true }

unfoldable pub start_insert : Locals → List (Option Text) → Run Locals
start_insert locals args = announced args >>= λ n. done (insert_locals locals n)

abbrev pub delete_locals : Locals → ℕ → Locals
delete_locals locals n = record locals { v_count = n; is_delete = true }

unfoldable pub start_delete : Locals → List (Option Text) → Run Locals
start_delete locals args = announced args >>= λ n. done (delete_locals locals n)

-- A command that works on the scene, and one that sets locals.
unfoldable pub on_scene : Session → Run (Next × Scene) → Run (Next × Session)
on_scene s r =
    r >>= λ (next, scene). (let s' : Session = record s { scene = scene } in done (next, s'))

unfoldable pub on_locals : Session → Run Locals → Run (Next × Session)
on_locals s r =
    r >>= λ locals. (let s' : Session = record s { locals = locals } in done (again, s'))

-- The tests on the command with the branches behind them, in the order of the code. Of the text behind
-- a command of fewer than four letters nothing is taken to be `join`.
abbrev pub command_branches : Machine → Text → Session → List (Bool × Run (Next × Session))
command_branches m command s =
    let locals : Locals = s.locals in
    let has_var : Bool = locals.has_var in
    let scene : Scene = s.scene in
    let args : List (Option Text) = s.input_args in
    (same_prefix 6 command the_create, on_scene s (create_command scene args))
    ∷ (same_prefix 6 command the_select, on_scene s (select_command m has_var scene args))
    ∷ (same_prefix 5 command the_fetch, on_scene s (fetch_command m has_var scene args))
    ∷ (same_prefix 4 command the_load, on_locals s (start_load locals args))
    ∷ (same_prefix 5 command the_tuple, on_locals s (start_tuple locals args))
    ∷ (same_prefix 6 command the_insert, on_locals s (start_insert locals args))
    ∷ (same_prefix 6 command the_update, on_scene s (update_command scene args))
    ∷ (same_prefix 6 command the_delete, on_locals s (start_delete locals args))
    ∷ (
      same_prefix 3 command the_add
          || same_prefix 3 command the_sub
          || same_prefix 3 command the_div
          || same_prefix 3 command the_mul,
      on_scene s (math_command has_var command scene args),
    )
    ∷ (same_prefix 4 command the_count, on_scene s (count_command has_var scene args))
    ∷ (
      same_prefix 3 command the_min
          || same_prefix 3 command the_max
          || same_prefix 3 command the_sum
          || same_prefix 3 command the_avg,
      on_scene s (aggregate_command has_var command scene args),
    )
    ∷ (same_prefix 4 (drop 4 command) the_join, on_scene s (join_command m command scene args))
    ∷ []

-- Any other command is passed over.
unfoldable pub run_command : Machine → Text → Session → Run (Next × Session)
run_command m command s = first_match (command_branches m command s) (done (again, s))

-- The answer to a message that does not match, with a bare `send`.
unfoldable pub refuse : Machine → Session → Next × Session
refuse m s =
    let scene : Scene = s.scene in
    let socket : Socket = scene.socket in
    let sent : ℕ = m.send socket.calls (length syntax_msg) in
    let called : Socket = record socket { calls = suc socket.calls } in
    let wrote : Socket = record called { outgoing = socket.outgoing ++ take sent syntax_msg } in
    if lt_int sent 0
    then (hang_up, record s { scene = record scene { socket = called } })
    else (again, record s { scene = record scene { socket = wrote } })

-- The command that stands in the arguments.
unfoldable pub run_args : Machine → Session → Run (Next × Session)
run_args m s = arg s.input_args in_command >>= λ command. run_command m command s

-- A message that does not match is answered, and then the command that the arguments still hold runs
-- again, unless the answer could not be sent.
unfoldable pub after_refusal : Machine → Next × Session → Run (Next × Session)
after_refusal m (again, s) = run_args m s
after_refusal m (hang_up, s) = done (hang_up, s)
after_refusal m (Next.give_up, s) = done (hang_up, s)

unfoldable pub unmatched : Machine → Session → Run (Next × Session)
unmatched m s = after_refusal m (refuse m s)

-- One that matches sets the arguments and `has_var`.
unfoldable pub matched : Machine → Session → List (Option Text) → Run (Next × Session)
matched m s args = arg args in_var >>= λ var.
    (let locals : Locals = s.locals in
      let s' : Session = record s {
        input_args = args;
        locals = record locals { has_var = not (is_empty_str var) };
      } in
      run_args m s')

-- A message that is a command, or ends the session.
unfoldable pub command_message : Machine → Session → Run (Next × Session)
command_message m s = c_string s.data_buffer >>= λ line.
    (let command = match_regex m.regexec line s.input_args >>= λ (nomatch, args).
    (if nomatch then unmatched m s else matched m s args) in
      if same_prefix 4 line the_exit || same_prefix 1 line (10 ∷ [])
      then done (hang_up, s)
      else command)

-- A message: data for what is pending, or a command.
unfoldable pub handle : Machine → Session → Run (Next × Session)
handle m s =
    let locals : Locals = s.locals in
    if locals.is_loading
    then load_data m s
    else if locals.is_tuple
    then tuple_data m s
    else if locals.is_insert
    then insert_data m s
    else if locals.is_delete
    then delete_data s
    else command_message m s

-- What was received is in the buffer: the size of a message, or the message, behind which a NUL is put.
unfoldable pub received : Machine → Session → Run (Next × Session)
received m s =
    let locals : Locals = s.locals in
    let size_known : Session = record s {
      locals = record locals {
        size_expected = expected_bytes s.data_buffer;
        is_waiting_for_meta = false;
      };
    } in
    let message = write s.data_buffer locals.size_expected 0 >>= λ buffer.
    (let s' : Session = record s {
      locals = record locals { is_waiting_for_meta = true; size_expected = meta_size };
      data_buffer = buffer;
    } in
      handle m s') in
    if locals.is_waiting_for_meta then done (again, size_known) else message

-- One turn of the loop.
unfoldable pub turn : Machine → Session → Run (Next × Session)
turn m s =
    let locals : Locals = s.locals in
    let scene : Scene = s.scene in
    safe_recv m.recv scene.socket s.data_buffer locals.size_expected
    >>= λ (result, (buffer, socket)).
        (let s' : Session = record s {
          scene = record scene { socket = socket };
          data_buffer = buffer;
        } in
          let go = received m s' in if result == 0 then go else done (hang_up, s'))
