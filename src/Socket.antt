-- ===== src/Socket.antt =====
-- helper_socket.c: messages over a connected socket. What `send` and `recv` return is the kernel's
-- choice: two parameters give, for the number of the call and the bytes asked for, the bit pattern of
-- the `int` that the call returns. The bytes themselves are those of the two streams of the socket.
pub mod Send
pub mod Receive
use cs165db.Prelude.{
  ℕ, zero, suc, ◌≤◌, ◌<◌, ◌+◌, ◌*◌, ◌/◌, ◌%◌, List, [], ◌∷◌, ◌++◌, length, take, drop, get_or, leb,
  ◌==◌, if◌then◌else◌,
}
use cs165db.Word.{word, add32, sub32, le_int, lt_int}
use cs165db.Run.{Run, done, fault, abort, spin, ◌>>=◌}

-- The bytes that the peer has written and that are not read yet, the bytes written to the peer, and
-- the number of calls made so far.
pub record Socket : Type 0 where
  pub incoming : List ℕ
  pub outgoing : List ℕ
  pub calls : ℕ

-- The bytes of `socket_meta_t`, whose one member is a `uint32_t`, on a little-endian machine.
unfoldable pub meta_bytes : ℕ → List ℕ
meta_bytes n = n % 256 ∷ n / 256 % 256 ∷ n / 0x1_0000 % 256 ∷ n / 0x100_0000 % 256 ∷ []

-- `((socket_meta_t *)data_buffer)->expected_bytes`
unfoldable pub expected_bytes : List ℕ → ℕ
expected_bytes b =
    get_or b 0 0 + get_or b 1 0 * 256 + get_or b 2 0 * 0x1_0000 + get_or b 3 0 * 0x100_0000

abbrev pub meta_size : ℕ
meta_size = 4

-- The bytes that a call of `recv` leaves at `offset` of the buffer.
abbrev pub store : List ℕ → ℕ → List ℕ → Run (List ℕ)
store buffer offset bytes =
    if leb (offset + length bytes) (length buffer)
    then done (take offset buffer ++ (bytes ++ drop (offset + length bytes) buffer))
    else fault

module _ (send : ℕ → ℕ → ℕ) where
  -- `_safe_send_helper`; `bytes` is what `data` points to. The result is the returned `int` and
  -- the socket. Fuel counts the calls of `send`.
  unfoldable pub _safe_send_helper : ℕ → Socket → List ℕ → ℕ → Run (ℕ × Socket)
  _safe_send_helper zero s bytes total = if total == 0 then done (0, s) else spin
  _safe_send_helper (suc fuel) s bytes total =
      let sent = send s.calls total in
      let called = record s { calls = suc s.calls } in
      let rest =
        _safe_send_helper fuel (record called { outgoing = called.outgoing ++ take sent bytes })
          (drop sent bytes) (sub32 total sent) in
      if total == 0
      then done (0, s)
      else if le_int sent 0
      then (if lt_int sent 0 then abort else done (1, called))
      else if leb sent (length bytes)
      then rest
      else fault

  -- `safe_send`: the size, then the bytes, also where the size could not be sent.
  unfoldable pub safe_send : Socket → List ℕ → ℕ → Run (ℕ × Socket)
  safe_send s bytes total =
      _safe_send_helper meta_size s (meta_bytes total) meta_size >>= λ (a, s1).
      _safe_send_helper total s1 bytes total >>= λ (b, s2). done (add32 a b, s2)

module _ (recv : ℕ → ℕ → ℕ) where
  -- The loop of `safe_recv`: the result, the buffer and the socket.
  unfoldable pub recv_loop : ℕ → Socket → List ℕ → ℕ → ℕ → Run (ℕ × (List ℕ × Socket))
  recv_loop zero s buffer offset total = if total == 0 then done (0, (buffer, s)) else spin
  recv_loop (suc fuel) s buffer offset total =
      let received = recv s.calls total in
      let called = record s { calls = suc s.calls } in
      let rest = λ (stored : List ℕ).
        recv_loop fuel (record called { incoming = drop received called.incoming }) stored
          (offset + received) (sub32 total received) in
      if total == 0
      then done (0, (buffer, s))
      else if le_int received 0
      then (if lt_int received 0 then abort else done (1, (buffer, called)))
      else store buffer offset (take received s.incoming) >>= rest

  unfoldable pub safe_recv : Socket → List ℕ → ℕ → Run (ℕ × (List ℕ × Socket))
  safe_recv s buffer total = recv_loop total s buffer 0 total

-- What a call of `send` or `recv` promises while the connection is up and, for `recv`, the peer has
-- written enough: it moves at least one byte and at most what it was asked for.
abbrev pub MovesBytes : (ℕ → ℕ → ℕ) → Type 0
MovesBytes call = (i n : ℕ) → 0 < n → (0 < call i n) × (call i n ≤ n)
