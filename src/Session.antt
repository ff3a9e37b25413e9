-- ===== src/Session.antt =====
-- `db_worker` (worker.c): the state of a worker thread and of the session that it serves. The
-- children model the branches for the commands, the turn of its loop and what follows from them.
pub mod Query
pub mod Compute
pub mod JoinCommand
pub mod Pending
pub mod Words
pub mod Turn
pub mod Invariant
pub mod Data
pub mod Reach
pub mod Frame
pub mod Failures
pub mod Names
pub mod Sums
use cs165db.Prelude.{
  ℕ, zero, suc, ◌+◌, ◌*◌, ◌%◌, List, [], ◌∷◌, ◌++◌, get_or, length, drop, replicate, Bool, true,
  false, Option, none, some,
}
use cs165db.Run.{Run, done, read, required, ◌>>=◌}
use cs165db.Text.{Text}
use cs165db.Parser.{Regex, max_arg_num}
use cs165db.Socket.{Socket, meta_bytes, expected_bytes, meta_size, safe_send}
use cs165db.BpTree.{Node}
use cs165db.DynArray.{DynArray, create_list}
use cs165db.Variables.{Variables}
use cs165db.Store.{Db}

-- What the worker takes from outside the program: what `regexec`, `send` and `recv` do, and what
-- `malloc` left in a node. `test` is the macro TEST; the rest bounds the loops over a tree and of
-- the sorted join.
pub record Machine : Type 0 where
  pub regexec : Regex
  pub send : ℕ → ℕ → ℕ
  pub recv : ℕ → ℕ → ℕ
  pub junk : Node
  pub test : Bool
  pub depth : ℕ
  pub width : ℕ
  pub fuel : ℕ

-- The locals of `db_worker` that live as long as the thread. `ints_buffer` has `row_size` rows.
pub record Locals : Type 0 where
  pub has_var : Bool
  pub is_loading : Bool
  pub col_size : ℕ
  pub row_size : ℕ
  pub cur_row : ℕ
  pub load_col_names : List ℕ
  pub ints_buffer : List (List ℕ)
  pub is_tuple : Bool
  pub is_insert : Bool
  pub is_delete : Bool
  pub is_waiting_for_meta : Bool
  pub size_expected : ℕ
  pub v_count : ℕ

-- As the thread starts.
abbrev pub first_locals : Locals
first_locals = record {
  has_var = false;
  is_loading = false;
  col_size = 0;
  row_size = 0;
  cur_row = 0;
  load_col_names = [];
  ints_buffer = [];
  is_tuple = false;
  is_insert = false;
  is_delete = false;
  is_waiting_for_meta = true;
  size_expected = meta_size;
  v_count = 0;
}

-- What a command works on: the files, the variables of the session and its connection.
pub record Scene : Type 0 where
  pub db : Db
  pub vars : Variables
  pub socket : Socket

-- The session: the scene, the buffer and the arguments of the last command that matched.
pub record Session : Type 0 where
  pub locals : Locals
  pub scene : Scene
  pub data_buffer : List ℕ
  pub input_args : List (Option Text)

-- `MAX_COMMAND_BUFFER_SIZE`
abbrev pub max_command_buffer_size : ℕ
max_command_buffer_size = 0x1_0000

-- The start of a session on a new connection. The arguments are not set; what `malloc` left in the
-- buffer is taken for zeros.
unfoldable pub start_session : Locals → Db → Socket → Session
start_session locals db socket = record {
  locals = locals;
  scene = record { db = db; vars = create_list; socket = socket };
  data_buffer = replicate max_command_buffer_size 0;
  input_args = replicate max_arg_num none;
}

-- How a turn ends: the loop goes on, `goto done` ends the session, or the thread returns 1.
pub data Next : Type 0 where
  again hang_up give_up : Next

-- The indices of `input_t`.
abbrev pub in_var : ℕ
in_var = 0

abbrev pub in_command : ℕ
in_command = 1

abbrev pub in_arg_one : ℕ
in_arg_one = 2

abbrev pub in_arg_two : ℕ
in_arg_two = 3

abbrev pub in_arg_three : ℕ
in_arg_three = 4

-- A string argument; one that is not set is read all the same.
abbrev pub arg : List (Option Text) → ℕ → Run Text
arg args i = read args i >>= λ a. required a

-- The bytes of an array of `int`s, and the `n` `int`s at the head of some bytes.
unfoldable pub int_bytes : List ℕ → List ℕ
int_bytes [] = []
int_bytes (v ∷ vs) = meta_bytes v ++ int_bytes vs

unfoldable pub bytes_ints : ℕ → List ℕ → List ℕ
bytes_ints zero bytes = []
bytes_ints (suc n) bytes = expected_bytes bytes ∷ bytes_ints n (drop 4 bytes)

-- `safe_send` of `n` of the values to the client; the loop goes on if it returns 0.
abbrev pub reply : Machine → Scene → List ℕ → Run (Next × Scene)
reply m s vals =
    safe_send m.send s.socket (int_bytes vals) (length vals * 4 % 0x1_0000_0000)
    >>= λ (result, socket).
        (let s' : Scene = record s { socket = socket } in
          elim result [ zero ↦ done (again, s') | suc r ↦ done (hang_up, s') ])
