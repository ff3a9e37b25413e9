-- ===== src/Session/Frame.antt =====
-- A message from `safe_send` (helper_socket.c) at one end to the turns of `db_worker` (worker.c) at the
-- other.
use cs165db.Prelude.{
  ℕ, ◌≡◌, ◌≤◌, ◌<◌, refl, sym, ap, ◌∙◌, List, [], ◌∷◌, ◌++◌, true, false, length, drop, get_or,
  arith, length-append, set-append, length-drop, suc, append_assoc,
}
use cs165db.Word.{word, half}
use cs165db.Run.{done, write_lem, Returns, Returns-done, Returns-at}
use cs165db.Socket.{Socket, meta_bytes, meta_size, expected_bytes, MovesBytes, safe_send, safe_recv}
use cs165db.Socket.Send.{Sent, safe_send-Sent, length-meta_bytes}
use cs165db.Socket.Receive.{safe_recv-stretch, drop-append}
use cs165db.Session.{
  Machine, Locals, Scene, Session, again, int_bytes, bytes_ints, max_command_buffer_size,
}
use cs165db.Session.Turn.{handle, received, turn}

-- What follows the four bytes of a size does not change the size that is read.
pub expected_bytes-meta_bytes :
    (n : ℕ) (rest : List ℕ) → n < word → expected_bytes (meta_bytes n ++ rest) ≡ n
unfolding expected_bytes meta_bytes
expected_bytes-meta_bytes n rest h = omega arith

-- The `int`s that a message of `int`s is read as are those that it was made of, whatever follows it.
pub bytes_ints-int_bytes :
    (vals rest : List ℕ)
    → ((i : ℕ) → i < length vals → get_or vals i 0 < word)
    → bytes_ints (length vals) (int_bytes vals ++ rest) ≡ vals
unfolding int_bytes bytes_ints
bytes_ints-int_bytes [] rest h = refl
bytes_ints-int_bytes (v ∷ vals) rest h =
    let tail : bytes_ints (length vals) (int_bytes vals ++ rest) ≡ vals =
      bytes_ints-int_bytes vals rest (λ i k. h (suc i) (omega arith)) in
    let value : expected_bytes (meta_bytes v ++ (int_bytes vals ++ rest)) ≡ v =
      expected_bytes-meta_bytes v (int_bytes vals ++ rest) (h 0 (omega arith)) in
    let skip : drop 4 (meta_bytes v ++ (int_bytes vals ++ rest)) ≡ int_bytes vals ++ rest =
      drop-append (meta_bytes v) (int_bytes vals ++ rest) 4 0
        (omega (arith, length-meta_bytes v)) in
    rw (append_assoc (meta_bytes v) (int_bytes vals) rest, value, skip, tail) refl

-- The buffer holds the bytes as a string.
pub record HasText (t : Session) (bytes : List ℕ) : Type 0 where
  pub rest : List ℕ
  pub text : t.data_buffer ≡ bytes ++ (0 ∷ rest)

same_locals :
    (l : Locals)
    → l.is_waiting_for_meta ≡ true
    → l.size_expected ≡ meta_size
    → record l { is_waiting_for_meta = true; size_expected = meta_size } ≡ l
same_locals l w e =
    ap (λ b. record l { is_waiting_for_meta = b; size_expected = meta_size }) (sym w)
    ∙ ap (λ k. record l { size_expected = k }) (sym e)

pub turn-received :
    (m : Machine) (s : Session) (got : List ℕ) (socket' : Socket)
    → safe_recv m.recv s.scene.socket s.data_buffer s.locals.size_expected
      ≡ done (0, (got, socket'))
    → turn m s
      ≡ received m (
          let scene : Scene = s.scene in
          record s { scene = record scene { socket = socket' }; data_buffer = got })
unfolding turn
turn-received m s got socket' run = rw run refl

received_text :
    (m : Machine) (s : Session) (bytes tail : List ℕ)
    → s.locals.is_waiting_for_meta ≡ false
    → s.locals.size_expected ≡ length bytes
    → s.data_buffer ≡ bytes ++ tail
    → 0 < length tail
    → received m s
      ≡ handle m (
          let l : Locals = s.locals in
          record s {
            locals = record l { is_waiting_for_meta = true; size_expected = meta_size };
            data_buffer = bytes ++ (0 ∷ drop 1 tail);
          })
unfolding received
received_text m s bytes tail w e text room =
    let fits : length bytes < length (bytes ++ tail) = omega (arith, length-append bytes tail) in
    rw
      (
        w,
        e,
        text,
        write_lem (bytes ++ tail) (length bytes) 0 fits,
        set-append bytes tail (length bytes) 0 refl room,
      )
      refl

module _ (m : Machine) (moves : MovesBytes m.recv) where
  -- The turn that takes the size.
  turn-size :
      (s : Session) (n : ℕ) (rest : List ℕ)
      → s.locals.is_waiting_for_meta ≡ true
      → s.locals.size_expected ≡ meta_size
      → s.scene.socket.incoming ≡ meta_bytes n ++ rest
      → meta_size ≤ length s.data_buffer
      → n < word
      → Returns (turn m s) (λ (next, t).
        (next ≡ again)
        × (t.locals ≡ (
            let l : Locals = s.locals in
            record l { size_expected = n; is_waiting_for_meta = false }))
        × (t.scene.socket.incoming ≡ rest)
        × (length t.data_buffer ≡ length s.data_buffer))
  unfolding turn received
  turn-size s n rest w e wire b h =
      let socket : Socket = s.scene.socket in
      let l : Locals = s.locals in
      let buffer : List ℕ = s.data_buffer in
      let ((result, (got, socket')), run, (zero_result, filled_with, left)) =
        Returns-done
          (λ (r, (g, t)).
            (r ≡ 0) × (g ≡ meta_bytes n ++ drop meta_size buffer) × (t.incoming ≡ rest))
          (safe_recv m.recv socket buffer meta_size)
          (safe_recv-stretch m.recv moves socket buffer (meta_bytes n) rest meta_size wire
            (length-meta_bytes n) b (omega arith)) in
      let size : expected_bytes got ≡ n =
        rw filled_with (expected_bytes-meta_bytes n (drop meta_size buffer) h) in
      let same : length got ≡ length buffer = rw filled_with (
        omega (
          arith,
          length-append (meta_bytes n) (drop meta_size buffer),
          length-meta_bytes n,
          length-drop meta_size buffer,
        )) in
      rw (Returns, e, run, zero_result, w)
        (
          refl,
          ap (λ k. record l { size_expected = k; is_waiting_for_meta = false }) size,
          left,
          same,
        )

  -- The turn that takes the message hands over to `handle`, with the message at the head of the buffer,
  -- its NUL behind it, and the size of the next message waited for.
  turn-text :
      (s : Session) (bytes rest : List ℕ)
      → s.locals.is_waiting_for_meta ≡ false
      → s.locals.size_expected ≡ length bytes
      → s.scene.socket.incoming ≡ bytes ++ rest
      → length bytes < length s.data_buffer
      → length bytes < half
      → (t : Session) × (turn m s ≡ handle m t)
        × HasText t bytes
        × (t.locals ≡ (
            let l : Locals = s.locals in
            record l { is_waiting_for_meta = true; size_expected = meta_size }))
        × (t.scene.socket.incoming ≡ rest)
  unfolding turn received
  turn-text s bytes rest w e wire b h =
      let socket : Socket = s.scene.socket in
      let scene : Scene = s.scene in
      let l : Locals = s.locals in
      let buffer : List ℕ = s.data_buffer in
      let n : ℕ = length bytes in
      let ((result, (got, socket')), run, (zero_result, filled_with, left)) =
        Returns-done (λ (r, (g, t)). (r ≡ 0) × (g ≡ bytes ++ drop n buffer) × (t.incoming ≡ rest))
          (safe_recv m.recv socket buffer n)
          (safe_recv-stretch m.recv moves socket buffer bytes rest n wire refl (omega arith) h) in
      let scene' : Scene = record scene { socket = socket' } in
      let t : Session = record s {
        locals = record l { is_waiting_for_meta = true; size_expected = meta_size };
        scene = scene';
        data_buffer = bytes ++ (0 ∷ drop 1 (drop n buffer));
      } in
      (
        t,
        turn-received m s got socket' (
              ap (λ k. safe_recv m.recv socket buffer k) e
              ∙ run
              ∙ ap (λ k. done (k, (got, socket'))) zero_result)
            ∙ received_text m (record s { scene = scene'; data_buffer = got }) bytes (drop n buffer)
                w e filled_with (omega (arith, length-drop n buffer)),
        record { rest = drop 1 (drop n buffer); text = refl },
        refl,
        left,
      )

  -- Over kernels that move at least one byte in each call, in whatever pieces, a message of fewer
  -- bytes than the buffer has, which a peer has sent with safe_send, takes a waiting session two
  -- turns: after the first the loop goes on, and the second hands over to handle with the message
  -- in the buffer as a string, the locals as they were and what the peer sent later still to be
  -- read.
  pub safe_send-turn :
      (send : ℕ → ℕ → ℕ) (c c' : Socket) (bytes later : List ℕ) (result : ℕ) (s : Session)
      → MovesBytes send
      → c.outgoing ≡ []
      → safe_send send c bytes (length bytes) ≡ done (result, c')
      → s.locals.is_waiting_for_meta ≡ true
      → s.locals.size_expected ≡ meta_size
      → s.scene.socket.incoming ≡ c'.outgoing ++ later
      → length s.data_buffer ≡ max_command_buffer_size
      → length bytes < max_command_buffer_size
      → (u t : Session) × (turn m s ≡ done (again, u))
        × (turn m u ≡ handle m t)
        × HasText t bytes
        × (t.locals ≡ s.locals)
        × (t.scene.socket.incoming ≡ later)
  safe_send-turn send c c' bytes later result s sends fresh sent w e arrived size h =
      let n : ℕ = length bytes in
      let l : Locals = s.locals in
      let wire : c'.outgoing ≡ meta_bytes n ++ bytes =
        (Returns-at (Sent c (meta_bytes n ++ bytes)) (safe_send send c bytes n) (result, c')
          (safe_send-Sent send sends c bytes (omega arith)) sent).wrote
        ∙ ap (λ o. o ++ (meta_bytes n ++ bytes)) fresh in
      let stream : s.scene.socket.incoming ≡ meta_bytes n ++ (bytes ++ later) =
        arrived ∙ ap (λ o. o ++ later) wire ∙ append_assoc (meta_bytes n) bytes later in
      let ((next, u), run, (go, known, left, kept)) =
        Returns-done _ (turn m s)
          (turn-size s n (bytes ++ later) w e stream (omega arith) (omega arith)) in
      let (t, handled, text, locals, remaining) =
        turn-text u bytes later (rw known refl) (rw known refl) left (omega arith) (omega arith) in
      (
        u,
        t,
        run ∙ ap (λ k. done (k, u)) go,
        handled,
        text,
        locals
            ∙ ap
                (λ (k : Locals). record k { is_waiting_for_meta = true; size_expected = meta_size })
                known
            ∙ same_locals l w e,
        remaining,
      )
