-- ===== src/Session/Reach.antt =====
-- The turns of `db_worker` (worker.c), through any number of sessions: a step relation, and what holds of
-- every state that is reached.
use cs165db.Prelude.{
  ◌≡◌, refl, ◌∙◌, List, Option, true, false, not, ◌||◌, if◌then◌else◌, length, [], ◌∷◌, Bool-cases,
  inl, inr, ◌==◌,
}
use cs165db.Word.{lt_int}
use cs165db.Run.{Run, done, write, ◌>>=◌, WhenDone, WhenDone-bind, WhenDone-if, WhenDone-at}
use cs165db.Text.{Text, c_string, same_prefix, is_empty_str}
use cs165db.Parser.{match_regex}
use cs165db.Socket.{Socket, meta_size, expected_bytes, safe_recv}
use cs165db.Session.{
  Machine, Locals, Scene, Session, Next, again, hang_up, first_locals, start_session, arg, in_var,
}
use cs165db.Session.Words.{syntax_msg, the_exit}
use cs165db.Session.Turn.{
  refuse, after_refusal, unmatched, matched, command_message, handle, received, turn,
}
use cs165db.Session.Pending.{load_data, tuple_data, insert_data, delete_data}
use cs165db.Session.Data.{load_data-Sound, tuple_data-Sound, insert_data-Sound, delete_data-Sound}
use cs165db.Session.Invariant.{
  OnePending, nothing, loading, tuple, insert, delete, IsSound, IsIdle, Sound, sound,
  run_args-Sound,
}
use cs165db.Store.{Db}

refuse-kept : (m : Machine) (s : Session) → Session.locals ((refuse m s).1) ≡ s.locals
unfolding refuse
refuse-kept m s = elim (Bool-cases (lt_int (m.send s.scene.socket.calls (length syntax_msg)) 0)) [
  | inl t ↦ rw t refl
  | inr t ↦ rw t refl
]

after_refusal-Sound :
    (m : Machine) (s : Session) (r : Next × Session)
    → IsIdle s.locals
    → IsSound s.locals
    → Session.locals (r.1) ≡ s.locals
    → WhenDone (after_refusal m r) Sound
unfolding after_refusal
after_refusal-Sound m s (again, t) idle i e = run_args-Sound m t (rw e idle) (rw e i)
after_refusal-Sound m s (hang_up, t) idle i e = rw e i
after_refusal-Sound m s (Next.give_up, t) idle i e = rw e i

module _ (m : Machine) (s : Session) (i : IsSound s.locals) where
  unmatched-Sound : IsIdle s.locals → WhenDone (unmatched m s) Sound
  unfolding unmatched
  unmatched-Sound idle = after_refusal-Sound m s (refuse m s) idle i (refuse-kept m s)

  matched-Sound : (args : List (Option Text)) → IsIdle s.locals → WhenDone (matched m s args) Sound
  unfolding matched
  matched-Sound args idle = WhenDone-bind Sound (arg args in_var) _ (λ var.
      (let l : Locals = s.locals in
        let l' : Locals = record l { has_var = not (is_empty_str var) } in
        run_args-Sound m (record s { input_args = args; locals = l' }) idle
          (sound l' (one_pending l' idle) i.rows i.header)))
    where
      one_pending : (l : Locals) → IsIdle l → OnePending l
      one_pending l (a, b, c, d) = nothing a b c d

  command_message-Sound : IsIdle s.locals → WhenDone (command_message m s) Sound
  unfolding command_message
  command_message-Sound idle = WhenDone-bind Sound (c_string s.data_buffer) _ (λ line.
      (elim (Bool-cases (same_prefix 4 line the_exit || same_prefix 1 line (10 ∷ []))) [
        | inl t ↦ rw t i
        | inr t ↦ rw t (
            WhenDone-bind Sound (match_regex m.regexec line s.input_args) _ (λ (nomatch, args).
              WhenDone-if Sound nomatch (unmatched m s) (matched m s args)
                (λ e. unmatched-Sound idle) (λ e. matched-Sound args idle)))
      ]))

  handle-Sound : WhenDone (handle m s) Sound
  unfolding handle
  handle-Sound =
      let l : Locals = s.locals in
      let delete_or : Run (Next × Session) =
        if l.is_delete then delete_data s else command_message m s in
      let insert_or : Run (Next × Session) = if l.is_insert then insert_data m s else delete_or in
      let tuple_or : Run (Next × Session) = if l.is_tuple then tuple_data m s else insert_or in
      WhenDone-if Sound l.is_loading (load_data m s) tuple_or (load_data-Sound m s i) (λ a.
        WhenDone-if Sound l.is_tuple (tuple_data m s) insert_or (tuple_data-Sound m s i) (λ b.
          WhenDone-if Sound l.is_insert (insert_data m s) delete_or (insert_data-Sound m s i) (λ c.
            WhenDone-if Sound l.is_delete (delete_data s) (command_message m s)
              (delete_data-Sound m s i) (λ d. command_message-Sound (a, b, c, d)))))

-- The flags alone decide what is pending.
one_of_flags :
    (l k : Locals)
    → k.is_loading ≡ l.is_loading
    → k.is_tuple ≡ l.is_tuple
    → k.is_insert ≡ l.is_insert
    → k.is_delete ≡ l.is_delete
    → OnePending l
    → OnePending k
one_of_flags l k p q r t (nothing a b c d) = nothing (p ∙ a) (q ∙ b) (r ∙ c) (t ∙ d)
one_of_flags l k p q r t (loading a b c d) = loading (p ∙ a) (q ∙ b) (r ∙ c) (t ∙ d)
one_of_flags l k p q r t (tuple a b c d) = tuple (p ∙ a) (q ∙ b) (r ∙ c) (t ∙ d)
one_of_flags l k p q r t (insert a b c d) = insert (p ∙ a) (q ∙ b) (r ∙ c) (t ∙ d)
one_of_flags l k p q r t (delete a b c d) = delete (p ∙ a) (q ∙ b) (r ∙ c) (t ∙ d)

received-Sound : (m : Machine) (s : Session) → IsSound s.locals → WhenDone (received m s) Sound
unfolding received
received-Sound m s i =
    let l : Locals = s.locals in
    let known : Locals = record l {
      size_expected = expected_bytes s.data_buffer;
      is_waiting_for_meta = false;
    } in
    let waiting : Locals = record l { is_waiting_for_meta = true; size_expected = meta_size } in
    WhenDone-if Sound l.is_waiting_for_meta (done (again, record s { locals = known }))
      (write s.data_buffer l.size_expected 0 >>= λ buffer.
        handle m (record s { locals = waiting; data_buffer = buffer }))
      (λ e.
        sound known (one_of_flags l known refl refl refl refl i.one) i.rows (λ x. absurd (cc x)))
      (λ e. WhenDone-bind Sound (write s.data_buffer l.size_expected 0) _ (λ buffer.
        handle-Sound m (record s { locals = waiting; data_buffer = buffer })
          (sound waiting (one_of_flags l waiting refl refl refl refl i.one) i.rows (λ x. refl))))

turn-Sound : (m : Machine) (s : Session) → IsSound s.locals → WhenDone (turn m s) Sound
unfolding turn
turn-Sound m s i =
    let scene : Scene = s.scene in
    WhenDone-bind Sound (safe_recv m.recv scene.socket s.data_buffer s.locals.size_expected) _
      (λ (result, (buffer, socket)).
        (let s' : Session = record s {
          scene = record scene { socket = socket };
          data_buffer = buffer;
        } in
          WhenDone-if Sound (result == 0) (received m s') (done (hang_up, s'))
            (λ e. received-Sound m s' i) (λ e. i)))

-- What a worker can do: a turn after which the loop goes on, and the start of the next session, on any
-- connection and with the files as they then are, after a turn that ends one.
pub data Step (m : Machine) (s : Session) (t : Session) : Type 0 where
  next_turn : turn m s ≡ done (again, t) → Step m s t
  next_session :
      (u : Session) (db : Db) (socket : Socket)
      → turn m s ≡ done (hang_up, u)
      → t ≡ start_session u.locals db socket
      → Step m s t

pub data Reach (m : Machine) (s : Session) : Session → Type 0 where
  here : Reach m s s
  step : {t u : Session} → Reach m s t → Step m t u → Reach m s u

Step-Sound : (m : Machine) (s t : Session) → IsSound s.locals → Step m s t → IsSound t.locals
unfolding start_session
Step-Sound m s t i (next_turn e) = WhenDone-at Sound (turn m s) (again, t) (turn-Sound m s i) e
Step-Sound m s t i (next_session u db socket e p) =
    rw p (WhenDone-at Sound (turn m s) (hang_up, u) (turn-Sound m s i) e)

first_locals-IsSound : IsSound first_locals
first_locals-IsSound =
    sound first_locals (nothing refl refl refl refl) (λ e. absurd (cc e)) (λ e. refl)

-- In every state that a worker thread reaches from its start, through any turns and sessions, at
-- most one of load, tuple, insert and delete waits for its data, the table of a load has its
-- row_size rows, and while the size of a message is waited for four bytes are.
pub Reach-IsSound :
    (m : Machine) (db : Db) (socket : Socket) (s : Session)
    → Reach m (start_session first_locals db socket) s
    → IsSound s.locals
unfolding start_session
Reach-IsSound m db socket s here = first_locals-IsSound
Reach-IsSound m db socket s (step r e) = Step-Sound m _ s (Reach-IsSound m db socket _ r) e
