-- ===== src/Client/Answers.antt =====
-- What the worker (worker.c) replies to a tuple, and what the client (client.c) prints of it.
use cs165db.Prelude.{
  ℕ, ◌*◌, ◌/◌, ◌%◌, ◌≡◌, ◌≤◌, ◌<◌, refl, sym, ap, ◌∙◌, List, [], ◌∷◌, ◌++◌, append_assoc, length,
  replicate, drop, get_or, true, false, arith, length-append, length-replicate, ◌==◌, ==_of_ne,
}
use cs165db.Word.{word, half}
use cs165db.Run.{done, Returns, Returns-done, Returns-at}
use cs165db.Socket.{MovesBytes, meta_bytes, meta_size, expected_bytes, safe_send, safe_recv}
use cs165db.Socket.Send.{Sent, safe_send-Sent, length-meta_bytes}
use cs165db.Socket.Receive.{safe_recv-stretch}
use cs165db.Session.{Machine, Scene, Next, again, int_bytes, reply}
use cs165db.Session.Frame.{expected_bytes-meta_bytes, bytes_ints-int_bytes}
use cs165db.Client.Command.{print_tuple}
use cs165db.Client.Rows.{concat, EachLong, rows_of, print_tuple-rows}
use cs165db.Client.Loop.{Client, receive_ints, receive_tuple}

length-int_bytes : (vals : List ℕ) → length (int_bytes vals) ≡ length vals * 4
unfolding int_bytes
length-int_bytes [] = refl
length-int_bytes (v ∷ vals) = omega (
  arith,
  length-append (meta_bytes v) (int_bytes vals),
  length-meta_bytes v,
  length-int_bytes vals,
)

length-concat :
    (cols : List (List ℕ)) (n : ℕ) → EachLong n cols → length (concat cols) ≡ n * length cols
length-concat [] n h = grind arith
length-concat (c ∷ cs) n h = grind (arith, h.0, length-append c (concat cs), length-concat cs n h.1)

-- A reply of values leaves its size and its values on the wire, and the loop goes on.
pub reply-wrote :
    (m : Machine) (s : Scene) (vals : List ℕ)
    → MovesBytes m.send
    → s.socket.outgoing ≡ []
    → length vals * 4 < half
    → Returns (reply m s vals) (λ (next, s').
      (next ≡ again) × (s'.socket.outgoing ≡ meta_bytes (length vals * 4) ++ int_bytes vals))
reply-wrote m s vals sends fresh small =
    let bytes : List ℕ = int_bytes vals in
    let size : length bytes ≡ length vals * 4 = length-int_bytes vals in
    let asked : length vals * 4 % 0x1_0000_0000 ≡ length bytes = omega (arith, size) in
    let ((result, socket), run, known) =
      Returns-done (Sent s.socket (meta_bytes (length bytes) ++ bytes))
        (safe_send m.send s.socket bytes (length bytes))
        (safe_send-Sent m.send sends s.socket bytes (omega (arith, size))) in
    rw (Returns, asked, run, known.returned)
      (
        refl,
        known.wrote
            ∙ ap (λ o. o ++ (meta_bytes (length bytes) ++ bytes)) fresh
            ∙ ap (λ n. meta_bytes n ++ bytes) size,
      )

module _ (recv : ℕ → ℕ → ℕ) (moves : MovesBytes recv) where
  receive_ints_lem :
      (c : Client) (vals later : List ℕ) (size : ℕ)
      → c.socket.incoming ≡ int_bytes vals ++ later
      → size ≡ length vals * 4
      → size < half
      → ((i : ℕ) → i < length vals → get_or vals i 0 < word)
      → Returns
          (receive_ints recv c size)
          (λ (r, (ints, c')). (r ≡ 0) × (ints ≡ vals) × (c'.socket.incoming ≡ later))
  unfolding receive_ints
  receive_ints_lem c vals later size wire e small words =
      let ((r, (got, s)), run, (zero_result, buffered, left)) =
        Returns-done _ (safe_recv recv c.socket (replicate size 0) size) (
          safe_recv-stretch recv moves c.socket (replicate size 0) (int_bytes vals) later size wire
            (length-int_bytes vals ∙ sym e) (omega (arith, length-replicate {A = ℕ} size 0))
            small) in
      let count : size / 4 ≡ length vals = omega arith in
      rw (Returns, run, count, buffered)
        (zero_result, bytes_ints-int_bytes vals (drop size (replicate size 0)) words, left)

  -- Where the worker replies with the values of at least one variable, each with the same number
  -- of values, one variable after the other, over a kernel that moves bytes, its loop goes on, and
  -- the client that receives the reply prints a row for each place, with the value of each
  -- variable there in their order, and leaves in the stream what comes later.
  pub receive_tuple-reply :
      (m : Machine) (s s' : Scene) (next : Next) (cols : List (List ℕ)) (n : ℕ) (c : Client)
      (later : List ℕ)
      → MovesBytes m.send
      → s.socket.outgoing ≡ []
      → 0 < length cols
      → EachLong n cols
      → ((i : ℕ) → i < length (concat cols) → get_or (concat cols) i 0 < word)
      → length (concat cols) * 4 < half
      → reply m s (concat cols) ≡ done (next, s')
      → c.socket.incoming ≡ s'.socket.outgoing ++ later
      → meta_size ≤ length c.data_buffer
      → (next ≡ again)
        × Returns (receive_tuple recv c (length cols)) (λ a.
          (a.going ≡ true) × (a.printed ≡ rows_of n cols 0) × (a.client.socket.incoming ≡ later))
  unfolding receive_tuple
  receive_tuple-reply m s s' next cols n c later sends fresh some_cols h words small replied wire
        room =
      let vals : List ℕ = concat cols in
      let size : ℕ = length vals * 4 in
      let (goes_on, wrote) =
        Returns-at (λ (k, t). (k ≡ again) × (t.socket.outgoing ≡ meta_bytes size ++ int_bytes vals))
          (reply m s vals) (next, s') (reply-wrote m s vals sends fresh small) replied in
      let stream : c.socket.incoming ≡ meta_bytes size ++ (int_bytes vals ++ later) =
        wire ∙ ap (λ o. o ++ later) wrote ∙ append_assoc (meta_bytes size) (int_bytes vals) later in
      let ((r0, (buffer, s0)), run, (zero_result, buffered, left)) =
        Returns-done _ (safe_recv recv c.socket c.data_buffer meta_size) (
          safe_recv-stretch recv moves c.socket c.data_buffer (meta_bytes size)
            (int_bytes vals ++ later) meta_size stream (length-meta_bytes size) room
            (omega arith)) in
      let announced : expected_bytes buffer ≡ size =
        rw buffered (expected_bytes-meta_bytes size (drop meta_size c.data_buffer) (omega arith)) in
      let c0 : Client = record { data_buffer = buffer; socket = s0 } in
      let ((r1, (ints, c1)), run1, (zero_result1, same, left1)) =
        Returns-done _ (receive_ints recv c0 size)
          (receive_ints_lem c0 vals later size left refl small words) in
      let some_vars : (length cols == 0) ≡ false =
        ==_of_ne (length cols) 0 (λ z. absurd (omega arith)) in
      let whole : size ≡ n * (length cols * 4) = grind (arith, length-concat cols n h) in
      let rows : print_tuple ints size (length cols) ≡ done (rows_of n cols 0) =
        rw (same, whole) (print_tuple-rows cols n some_cols h) in
      (
        goes_on,
        rw (Returns, run, zero_result, some_vars, announced, run1, zero_result1, rows)
            (refl, refl, left1),
      )
