-- ===== src/Tests/Sockets.antt =====
-- helper_socket.c and the turns of worker.c at concrete inputs, over a kernel that moves one byte in each
-- call.
use cs165db.Prelude.{
  ℕ, ◌≡◌, refl, List, [], ◌∷◌, ◌++◌, none, some, true, false, replicate, length-replicate, arith,
}
use cs165db.Run.{done, fault, Returns}
use cs165db.BpTree.{zero_node}
use cs165db.DynArray.{create_list}
use cs165db.Socket.{Socket, MovesBytes, meta_bytes, _safe_send_helper, safe_send, safe_recv}
use cs165db.Socket.Send.{Sent, safe_send-Sent}
use cs165db.Socket.Receive.{Received, safe_recv-Received}
use cs165db.Session.{
  Machine, Locals, Session, again, hang_up, first_locals, start_session, max_command_buffer_size,
}
use cs165db.Session.Words.{the_tuple}
use cs165db.Session.Turn.{turn, handle}
use cs165db.Session.Invariant.{IsSound}
use cs165db.Session.Reach.{Reach, here, step, next_session, Reach-IsSound}
use cs165db.Session.Frame.{HasText, safe_send-turn}
use cs165db.Session.Failures.{turn-closed, turn-full}

abbrev one_byte : ℕ → ℕ → ℕ
one_byte i n = 1

one_byte-MovesBytes : MovesBytes one_byte
one_byte-MovesBytes i n h = (omega arith, omega arith)

abbrev fresh_socket : Socket
fresh_socket = record { incoming = []; outgoing = []; calls = 0 }

abbrev full_socket : Socket
full_socket = record { incoming = 5 ∷ 6 ∷ 7 ∷ []; outgoing = []; calls = 0 }

safe_send-Sent_example :
    Returns
      (safe_send one_byte fresh_socket (8 ∷ 9 ∷ []) 2)
      (Sent fresh_socket (meta_bytes 2 ++ (8 ∷ 9 ∷ [])))
safe_send-Sent_example =
    safe_send-Sent one_byte one_byte-MovesBytes fresh_socket (8 ∷ 9 ∷ []) (omega arith)

safe_recv-Received_example :
    Returns
      (safe_recv one_byte full_socket (0 ∷ 0 ∷ 0 ∷ []) 2)
      (Received full_socket (0 ∷ 0 ∷ 0 ∷ []) 0 2)
safe_recv-Received_example =
    safe_recv-Received one_byte one_byte-MovesBytes full_socket (0 ∷ 0 ∷ 0 ∷ []) 2 (omega arith)
      (omega arith) (omega arith)

-- A kernel that sends all and receives one byte at a time, and a regular expression that never matches.
abbrev some_machine : Machine
some_machine = record {
  regexec = λ t. none;
  send = λ i n. n;
  recv = one_byte;
  junk = zero_node;
  test = false;
  depth = 5;
  width = 5;
  fuel = 100;
}

abbrev sent_socket : Socket
sent_socket = record { incoming = []; outgoing = 1 ∷ 0 ∷ 0 ∷ 0 ∷ 7 ∷ []; calls = 5 }

sent_run : safe_send one_byte fresh_socket (7 ∷ []) 1 ≡ done (0, sent_socket)
unfolding safe_send _safe_send_helper meta_bytes cs165db.Word.rank
sent_run = refl

-- A session on some locals, with what the peer has sent and the bytes in the buffer.
abbrev some_session : Locals → List ℕ → List ℕ → Session
some_session locals incoming buffer = record {
  locals = locals;
  scene = record {
    db = [];
    vars = create_list;
    socket = record { incoming = incoming; outgoing = []; calls = 0 };
  };
  data_buffer = buffer;
  input_args = none ∷ none ∷ none ∷ [];
}

abbrev waiting_session : Session
waiting_session =
    some_session first_locals (1 ∷ 0 ∷ 0 ∷ 0 ∷ 7 ∷ 3 ∷ []) (replicate max_command_buffer_size 0)

safe_send-turn_example :
    (u t : Session) × (turn some_machine waiting_session ≡ done (again, u))
    × (turn some_machine u ≡ handle some_machine t)
    × HasText t (7 ∷ [])
    × (t.locals ≡ first_locals)
    × (t.scene.socket.incoming ≡ 3 ∷ [])
safe_send-turn_example =
    safe_send-turn some_machine one_byte-MovesBytes one_byte fresh_socket sent_socket (7 ∷ [])
      (3 ∷ []) 0 waiting_session one_byte-MovesBytes refl sent_run refl refl refl
      (length-replicate {A = ℕ} max_command_buffer_size 0) (omega arith)

-- The locals of a session that waits for a message of a size, with a tuple pending.
abbrev message_locals : ℕ → Locals
message_locals size =
    let l : Locals = first_locals in
    record l { is_tuple = true; is_waiting_for_meta = false; size_expected = size }

abbrev full_session : Session
full_session =
    some_session (message_locals max_command_buffer_size) (replicate max_command_buffer_size 7)
      (replicate max_command_buffer_size 0)

turn-full_example : turn some_machine full_session ≡ fault
turn-full_example =
    turn-full some_machine full_session one_byte-MovesBytes refl refl
      (length-replicate {A = ℕ} max_command_buffer_size 0)
      (omega (arith, length-replicate {A = ℕ} max_command_buffer_size 7))

-- A kernel whose peer has closed the connection.
abbrev closed_machine : Machine
closed_machine = let m : Machine = some_machine in record m { recv = λ i n. 0 }

abbrev closed_session : Session
closed_session = some_session (message_locals 9) [] (0 ∷ [])

turn-closed_example :
    (u : Session) × (turn closed_machine closed_session ≡ done (hang_up, u))
    × (Session.locals (start_session u.locals [] fresh_socket) ≡ message_locals 9)
turn-closed_example = turn-closed closed_machine closed_session [] fresh_socket (omega arith) refl

-- The first session of a worker ends at once, and the next one begins.
first_turn :
    (u : Session) × (turn closed_machine (start_session first_locals [] fresh_socket)
      ≡ done (hang_up, u))
    × (Session.locals (start_session u.locals [] fresh_socket) ≡ first_locals)
unfolding start_session
first_turn =
    turn-closed closed_machine (start_session first_locals [] fresh_socket) [] fresh_socket
      (omega arith) refl

second_session :
    Reach closed_machine
      (start_session first_locals [] fresh_socket)
      (start_session (Session.locals first_turn.0) [] fresh_socket)
second_session = step here (next_session first_turn.0 [] fresh_socket first_turn.1 refl)

Reach-IsSound_example :
    IsSound (Session.locals (start_session (Session.locals first_turn.0) [] fresh_socket))
Reach-IsSound_example =
    Reach-IsSound closed_machine [] fresh_socket
      (start_session (Session.locals first_turn.0) [] fresh_socket) second_session

-- A line of one letter, after a tuple command with two names.
abbrev line_session : Session
line_session =
    let s : Session = some_session first_locals [] (120 ∷ 0 ∷ []) in
    record s { input_args = some [] ∷ some the_tuple ∷ some (50 ∷ []) ∷ [] }
