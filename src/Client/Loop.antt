-- ===== src/Client/Loop.antt =====
-- The loop of the client (client.c) over the lines of `stdin`: the dispatch of a line, and the answers.
-- `getline` gives the lines, and `open_file` the bytes of a file of a load, if it opens.
use cs165db.Prelude.{
  ℕ, ◌-◌, ◌/◌, List, [], ◌∷◌, length, replicate, get_or, Bool, true, false, ◌==◌, ◌++◌, ◌&&◌, ◌||◌,
  if◌then◌else◌, Option, none, some,
}
use cs165db.Run.{Run, done, fault, abort, ◌>>=◌}
use cs165db.Text.{Text, same_prefix}
use cs165db.Socket.{Socket, meta_size, expected_bytes, safe_send, safe_recv}
use cs165db.Session.{bytes_ints}
use cs165db.Client.{parse_load_filename}
use cs165db.Client.Command.{load_table, print_tuple, send_names}

-- `data_buffer` and the connection.
pub record Client : Type 0 where
  pub data_buffer : List ℕ
  pub socket : Socket

-- Whether the loop goes on, the lines of numbers that were printed, and the client.
pub record Answer : Type 0 where
  pub going : Bool
  pub printed : List (List ℕ)
  pub client : Client

-- After a result that is not 0 the client closes the connection.
abbrev pub sent : List ℕ → ℕ × Socket → Answer
sent buffer (r, s) = record {
  going = r == 0;
  printed = [];
  client = record { data_buffer = buffer; socket = s };
}

abbrev pub singles : List ℕ → List (List ℕ)
singles [] = []
singles (v ∷ vs) = (v ∷ []) ∷ singles vs

-- The names that open `load`, `tuple`, `delete`, `insert` and `fetch`.
abbrev pub load_name : Text
load_name = 108 ∷ 111 ∷ 97 ∷ 100 ∷ []

abbrev pub tuple_name : Text
tuple_name = 116 ∷ 117 ∷ 112 ∷ 108 ∷ 101 ∷ []

abbrev pub delete_name : Text
delete_name = 100 ∷ 101 ∷ 108 ∷ 101 ∷ 116 ∷ 101 ∷ []

abbrev pub insert_name : Text
insert_name = 105 ∷ 110 ∷ 115 ∷ 101 ∷ 114 ∷ 116 ∷ []

abbrev pub fetch_name : Text
fetch_name = 102 ∷ 101 ∷ 116 ∷ 99 ∷ 104 ∷ []

module _ (recv : ℕ → ℕ → ℕ) where
  -- The data of an answer, of the size that was announced.
  unfoldable pub receive_ints : Client → ℕ → Run (ℕ × (List ℕ × Client))
  receive_ints c size_expected =
      safe_recv recv c.socket (replicate size_expected 0) size_expected >>= λ (r, (bytes, s)).
      done (
        r,
        (bytes_ints (size_expected / 4) bytes, record { data_buffer = c.data_buffer; socket = s }),
      )

  -- The answer to a tuple of `v_count` variables, printed by rows.
  unfoldable pub receive_tuple : Client → ℕ → Run Answer
  receive_tuple c v_count =
      safe_recv recv c.socket c.data_buffer meta_size >>= λ (r0, (buffer, s0)).
      (let c0 : Client = record { data_buffer = buffer; socket = s0 } in
        let rows = receive_ints c0 (expected_bytes buffer) >>= λ (r1, (int_data, c1)).
        (let shown = print_tuple int_data (expected_bytes buffer) v_count >>= λ rows.
        done (record { going = true; printed = rows; client = c1 }) in
          if r1 == 0 then shown else done (record { going = false; printed = []; client = c1 })) in
        if r0 == 0
        then (if v_count == 0 then fault else rows)
        else done (record { going = false; printed = []; client = c0 }))

  -- The answer to a fetch, a number on each line. The result of the first `safe_recv` is not looked at.
  unfoldable pub receive_fetch : Client → Run Answer
  receive_fetch c = safe_recv recv c.socket c.data_buffer meta_size >>= λ (r0, (buffer, s0)).
      receive_ints (record { data_buffer = buffer; socket = s0 }) (expected_bytes buffer)
      >>= λ (r1, (int_data, c1)). done (record {
        going = r1 == 0;
        printed = if r1 == 0 then singles int_data else [];
        client = c1;
      })

module _ (send recv : ℕ → ℕ → ℕ) where
  -- `load`: a file that does not open ends the process.
  unfoldable pub load_line : (Text → Option (List ℕ)) → Client → Text → Run Answer
  load_line open_file c line = parse_load_filename line >>= λ file_name.
      elim (open_file file_name) [
        | none ↦ abort
        | some file ↦ load_table send c.socket file >>= λ r. done (sent c.data_buffer r)
      ]

  -- `tuple`, `delete` and `insert`
  unfoldable pub names_line : Client → Text → Run Answer
  names_line c line = send_names send c.socket line >>= λ (v_count, (r, s)).
      (let answer =
          receive_tuple recv (record { data_buffer = c.data_buffer; socket = s }) v_count in
        if (r == 0) && (get_or line 0 0 == 116) then answer else done (sent c.data_buffer (r, s)))

  -- Any other command goes to the server as it is.
  unfoldable pub other_line : Client → Text → Run Answer
  other_line c line = safe_send send c.socket line (length line) >>= λ (r, s).
      (let answer = receive_fetch recv (record { data_buffer = c.data_buffer; socket = s }) in
        if (r == 0) && same_prefix 5 line fetch_name
        then answer
        else done (sent c.data_buffer (r, s)))

  -- One turn of the loop: a line that is empty or whose last character but one is not `)` ends it.
  unfoldable pub client_line : (Text → Option (List ℕ)) → Client → Text → Run Answer
  client_line open_file c line =
      let len = length line in
      let load = load_line open_file c line in
      let names = names_line c line in
      let other = other_line c line in
      let ends : Run Answer = done (record { going = false; printed = []; client = c }) in
      if len == 0
      then ends
      else if len == 1
      then fault
      else if get_or line (len - 2) 0 == 41
      then (if same_prefix 4 line load_name
          then load
          else if same_prefix 5 line tuple_name
              || (same_prefix 6 line delete_name || same_prefix 6 line insert_name)
          then names
          else other)
      else ends

  -- The turns for the lines that `getline` gives: what is printed, and the client.
  unfoldable pub client_lines :
      (Text → Option (List ℕ)) → Client → List Text → Run (List (List ℕ) × Client)
  client_lines open_file c [] = done ([], c)
  client_lines open_file c (line ∷ lines) = client_line open_file c line >>= λ a.
      (let more = client_lines open_file a.client lines >>= λ (printed, c').
      done (a.printed ++ printed, c') in
        if a.going then more else done (a.printed, a.client))
