-- ===== src/Session/Failures.antt =====
-- Where `db_worker` (worker.c) does not do what it means to: the end of a connection, messages that fill the
-- buffer and lines that do not match.
use cs165db.Prelude.{
  ℕ, zero, suc, ◌≡◌, ◌≤◌, ◌<◌, refl, sym, ap, ◌∙◌, List, ◌++◌, false, length, take, drop, arith,
  take-append-drop, length-append, length-take, length-drop, le→ltb-false, ==_of_ne,
}
use cs165db.Word.{rank}
use cs165db.Run.{done, fault, Returns-done}
use cs165db.Text.{Text}
use cs165db.Socket.{Socket, MovesBytes, safe_recv, recv_loop}
use cs165db.Socket.Receive.{safe_recv-stretch}
use cs165db.Session.{Machine, Scene, Session, hang_up, start_session, max_command_buffer_size}
use cs165db.Session.Frame.{turn-received}
use cs165db.Session.Turn.{turn, received}
use cs165db.Store.{Db}

-- A message that fills the buffer has its NUL written behind the end of the buffer.
received-full :
    (m : Machine) (s : Session)
    → s.locals.is_waiting_for_meta ≡ false
    → length s.data_buffer ≤ s.locals.size_expected
    → received m s ≡ fault
unfolding received
received-full m s w h = rw (w, le→ltb-false s.locals.size_expected (length s.data_buffer) h) refl

-- Once a client has announced 65536 bytes and sent them, the worker writes outside its buffer,
-- over any kernel that moves bytes.
pub turn-full :
    (m : Machine) (s : Session)
    → MovesBytes m.recv
    → s.locals.is_waiting_for_meta ≡ false
    → s.locals.size_expected ≡ max_command_buffer_size
    → length s.data_buffer ≡ max_command_buffer_size
    → max_command_buffer_size ≤ length s.scene.socket.incoming
    → turn m s ≡ fault
turn-full m s moves w e size enough =
    let socket : Socket = s.scene.socket in
    let n : ℕ = max_command_buffer_size in
    let bytes : List ℕ = take n socket.incoming in
    let long : length bytes ≡ n = omega (arith, length-take n socket.incoming) in
    let ((result, (got, socket')), run, (zero_result, filled_with, left)) =
      Returns-done
        (λ (r, (g, t)).
          (r ≡ 0) × (g ≡ bytes ++ drop n s.data_buffer) × (t.incoming ≡ drop n socket.incoming))
        (safe_recv m.recv socket s.data_buffer n)
        (safe_recv-stretch m.recv moves socket s.data_buffer bytes (drop n socket.incoming) n
          (sym (take-append-drop n socket.incoming)) long (omega arith) (omega arith)) in
    let scene : Scene = s.scene in
    let over : length got ≤ n = rw filled_with (
      omega (
        arith,
        length-append bytes (drop n s.data_buffer),
        length-drop n s.data_buffer,
        long,
        size,
      )) in
    turn-received m s got socket' (
      ap (λ k. safe_recv m.recv socket s.data_buffer k) e
      ∙ run
      ∙ ap (λ k. done (k, (got, socket'))) zero_result)
    ∙ received-full m (record s { scene = record scene { socket = socket' }; data_buffer = got }) w
        (rw e over)

safe_recv-closed :
    (recv : ℕ → ℕ → ℕ) (s : Socket) (buffer : List ℕ) (n : ℕ)
    → 0 < n
    → recv s.calls n ≡ 0
    → safe_recv recv s buffer n ≡ done (1, (buffer, record s { calls = suc s.calls }))
unfolding safe_recv recv_loop rank
safe_recv-closed recv s buffer zero h closed = absurd (omega arith)
safe_recv-closed recv s buffer (suc n) h closed =
    rw (==_of_ne (suc n) 0 (λ e. absurd (omega arith)), closed) refl

-- Where the peer has closed the connection, or closes it before a message that it has announced,
-- the session ends, and the next session on the thread starts with the flags, the counts and the
-- announced size of the one before.
pub turn-closed :
    (m : Machine) (s : Session) (db : Db) (socket : Socket)
    → 0 < s.locals.size_expected
    → m.recv s.scene.socket.calls s.locals.size_expected ≡ 0
    → (u : Session) × (turn m s ≡ done (hang_up, u))
      × (Session.locals (start_session u.locals db socket) ≡ s.locals)
unfolding turn start_session
turn-closed m s db socket h closed =
    let scene : Scene = s.scene in
    let old : Socket = scene.socket in
    (
      record s { scene = record scene { socket = record old { calls = suc old.calls } } },
      rw (safe_recv-closed m.recv old s.data_buffer s.locals.size_expected h closed) refl,
      refl,
    )
