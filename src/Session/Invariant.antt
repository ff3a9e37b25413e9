-- ===== src/Session/Invariant.antt =====
-- What holds of the locals of `db_worker` (worker.c) after any turns of its loop, through any number
-- of sessions.
use cs165db.Prelude.{◌≡◌, refl, List, Option, true, false, length, replicate, length-replicate}
use cs165db.Run.{Run, done, first_match-each, WhenDone, WhenDone-bind, WhenDone-then}
use cs165db.Text.{Text, atoi}
use cs165db.Socket.{meta_size}
use cs165db.Session.{
  Machine, Locals, Scene, Session, Next, again, arg, in_command, in_arg_one, in_arg_two,
}
use cs165db.Session.Turn.{
  on_scene, on_locals, run_command, run_args, start_load, start_tuple, start_insert, announced,
  command_branches, start_delete, loading_locals, tuple_locals, insert_locals, delete_locals,
}

-- At most one of load, tuple, insert and delete waits for its data.
pub data OnePending (l : Locals) : Type 0 where
  nothing :
      l.is_loading ≡ false
      → l.is_tuple ≡ false
      → l.is_insert ≡ false
      → l.is_delete ≡ false
      → OnePending l
  loading :
      l.is_loading ≡ true
      → l.is_tuple ≡ false
      → l.is_insert ≡ false
      → l.is_delete ≡ false
      → OnePending l
  tuple :
      l.is_loading ≡ false
      → l.is_tuple ≡ true
      → l.is_insert ≡ false
      → l.is_delete ≡ false
      → OnePending l
  insert :
      l.is_loading ≡ false
      → l.is_tuple ≡ false
      → l.is_insert ≡ true
      → l.is_delete ≡ false
      → OnePending l
  delete :
      l.is_loading ≡ false
      → l.is_tuple ≡ false
      → l.is_insert ≡ false
      → l.is_delete ≡ true
      → OnePending l

-- The table that a load fills has a row for each of `row_size`.
pub record IsSound (l : Locals) : Type 0 where
  pub one : OnePending l
  pub rows : l.is_loading ≡ true → length l.ints_buffer ≡ l.row_size
  pub header : l.is_waiting_for_meta ≡ true → l.size_expected ≡ meta_size

-- No data is waited for.
abbrev pub IsIdle : Locals → Type 0
IsIdle l =
    (l.is_loading ≡ false) × (l.is_tuple ≡ false) × (l.is_insert ≡ false) × (l.is_delete ≡ false)

abbrev pub Sound : Next × Session → Type 0
Sound r = IsSound (Session.locals (r.1))

pub idle-IsSound :
    (l : Locals)
    → IsIdle l
    → (l.is_waiting_for_meta ≡ true → l.size_expected ≡ meta_size)
    → IsSound l
idle-IsSound l (a, b, c, d) h = record {
  one = nothing a b c d;
  rows = λ e. absurd (cc (a, e));
  header = h;
}

on_scene-Sound :
    (s : Session) (r : Run (Next × Scene)) → IsSound s.locals → WhenDone (on_scene s r) Sound
unfolding on_scene
on_scene-Sound s r h = WhenDone-bind Sound r _ (λ a. h)

on_locals-Sound :
    (s : Session) (r : Run Locals) → WhenDone r IsSound → WhenDone (on_locals s r) Sound
unfolding on_locals
on_locals-Sound s r h = WhenDone-then IsSound Sound r _ h (λ a k. k)

pub sound :
    (l : Locals)
    → OnePending l
    → (l.is_loading ≡ true → length l.ints_buffer ≡ l.row_size)
    → (l.is_waiting_for_meta ≡ true → l.size_expected ≡ meta_size)
    → IsSound l
sound l one rows header = record { one = one; rows = rows; header = header }

module _ (l : Locals) (args : List (Option Text)) (idle : IsIdle l) (i : IsSound l) where
  start_load-IsSound : WhenDone (start_load l args) IsSound
  unfolding start_load
  start_load-IsSound = WhenDone-bind IsSound (arg args in_arg_one) _ (λ cols.
      WhenDone-bind IsSound (arg args in_arg_two) _ (λ rows.
        sound (loading_locals l cols rows) (loading refl (idle.1) (idle.2) (idle.3))
          (λ e. length-replicate (atoi rows) (replicate (atoi cols) 0)) i.header))

  start_tuple-IsSound : WhenDone (start_tuple l args) IsSound
  unfolding start_tuple
  start_tuple-IsSound =
      WhenDone-bind IsSound (announced args) _
        (λ n. sound (tuple_locals l n) (tuple (idle.0) refl (idle.2) (idle.3)) i.rows i.header)

  start_insert-IsSound : WhenDone (start_insert l args) IsSound
  unfolding start_insert
  start_insert-IsSound =
      WhenDone-bind IsSound (announced args) _
        (λ n. sound (insert_locals l n) (insert (idle.0) (idle.1) refl (idle.3)) i.rows i.header)

  start_delete-IsSound : WhenDone (start_delete l args) IsSound
  unfolding start_delete
  start_delete-IsSound =
      WhenDone-bind IsSound (announced args) _
        (λ n. sound (delete_locals l n) (delete (idle.0) (idle.1) (idle.2) refl) i.rows i.header)

-- A command keeps the locals sound where no data is waited for.
run_command-Sound :
    (m : Machine) (command : Text) (s : Session)
    → IsIdle s.locals
    → IsSound s.locals
    → WhenDone (run_command m command s) Sound
unfolding run_command
run_command-Sound m command s idle i =
    let args : List (Option Text) = s.input_args in
    first_match-each (λ r. WhenDone r Sound) (command_branches m command s) (done (again, s))
      (
        on_scene-Sound s _ i,
        (
          on_scene-Sound s _ i,
          (
            on_scene-Sound s _ i,
            (
              on_locals-Sound s _ (start_load-IsSound s.locals args idle i),
              (
                on_locals-Sound s _ (start_tuple-IsSound s.locals args idle i),
                (
                  on_locals-Sound s _ (start_insert-IsSound s.locals args idle i),
                  (
                    on_scene-Sound s _ i,
                    (
                      on_locals-Sound s _ (start_delete-IsSound s.locals args idle i),
                      (
                        on_scene-Sound s _ i,
                        (on_scene-Sound s _ i, (on_scene-Sound s _ i, (on_scene-Sound s _ i, tt))),
                      ),
                    ),
                  ),
                ),
              ),
            ),
          ),
        ),
      )
      i

pub run_args-Sound :
    (m : Machine) (s : Session) → IsIdle s.locals → IsSound s.locals → WhenDone (run_args m s) Sound
unfolding run_args
run_args-Sound m s idle i =
    WhenDone-bind Sound (arg s.input_args in_command) _
      (λ command. run_command-Sound m command s idle i)
