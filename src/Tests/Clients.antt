-- ===== src/Tests/Clients.antt =====
-- client_helper.c and the answers to client.c at concrete inputs.
use cs165db.Prelude.{
  ℕ, zero, suc, ◌≡◌, ◌<◌, refl, List, [], ◌∷◌, ◌++◌, length, replicate, none, some, true, false,
  get_or, arith,
}
use cs165db.Word.{word}
use cs165db.Run.{done, Returns}
use cs165db.Text.{is_empty_str}
use cs165db.BpTree.{zero_node}
use cs165db.DynArray.{get_list_val, get_list_size}
use cs165db.Socket.{MovesBytes}
use cs165db.Variables.{Variable, Variables, find_variable, find_from}
use cs165db.Session.{Machine, Locals, Session, again, first_locals}
use cs165db.Session.Pending.{tuple_data}
use cs165db.Client.{get_int_line}
use cs165db.Client.Lines.{line_of, get_int_line_lem}
use cs165db.Client.Loop.{receive_tuple}
use cs165db.Client.Tuples.{AllHold, tuple_data-printed}

-- The cells "12" and "-3", and what follows the line.
get_int_line_lem_example :
    get_int_line
      (record { rest = line_of (49 ∷ 50 ∷ []) ((45 ∷ 51 ∷ []) ∷ []) (55 ∷ []); at_eof = false })
      (0 ∷ 0 ∷ [])
      2
    ≡ done (record { rest = 55 ∷ []; at_eof = false }, 12 ∷ 0xFFFF_FFFD ∷ [])
unfolding cs165db.Text.strtol_from cs165db.Text.take_digits
get_int_line_lem_example =
    get_int_line_lem (49 ∷ 50 ∷ []) ((45 ∷ 51 ∷ []) ∷ []) (55 ∷ []) (0 ∷ 0 ∷ [])
      (refl, refl, (refl, refl, tt)) (omega arith) ((refl, refl, (refl, refl, tt)), omega arith, tt)
      refl (omega arith)

-- A kernel that moves one byte in each call.
abbrev slow_kernel : ℕ → ℕ → ℕ
slow_kernel i n = 1

slow_kernel-MovesBytes : MovesBytes slow_kernel
slow_kernel-MovesBytes i n h = (omega arith, omega arith)

abbrev whole_kernel : ℕ → ℕ → ℕ
whole_kernel i n = n

whole_kernel-MovesBytes : MovesBytes whole_kernel
whole_kernel-MovesBytes i n h = (h, omega arith)

abbrev server : Machine
server = record {
  regexec = λ t. none;
  send = whole_kernel;
  recv = whole_kernel;
  junk = zero_node;
  test = false;
  depth = 5;
  width = 5;
  fuel = 100;
}

-- Two variables, named `a` and `b`, with values of their own.
abbrev held_variable : ℕ → List ℕ → Variable
held_variable letter vals = record {
  name = letter ∷ [];
  is_id = false;
  is_fetched = false;
  is_materialized = true;
  ids = none;
  bv = none;
  fetched_col = none;
  val_size = length vals;
  val = some vals;
}

abbrev two_variables : Variables
two_variables = record {
  next = 2;
  capacity = 2;
  cells = some (held_variable 97 (1 ∷ 2 ∷ [])) ∷ some (held_variable 98 (3 ∷ 4 ∷ [])) ∷ [];
}

abbrev two_names : List ℕ
two_names = 97 ∷ (replicate 15 0 ++ (98 ∷ 0 ∷ []))

abbrev tuple_session : Session
tuple_session =
    let l : Locals = first_locals in
    record {
      locals = record l { is_tuple = true; v_count = 2 };
      scene = record {
        db = [];
        vars = two_variables;
        socket = record { incoming = []; outgoing = []; calls = 0 };
      };
      data_buffer = two_names;
      input_args = none ∷ none ∷ none ∷ [];
    }

two_names-AllHold : AllHold two_variables two_names 0 ((1 ∷ 2 ∷ []) ∷ (3 ∷ 4 ∷ []) ∷ [])
unfolding cs165db.Text.c_string find_variable find_from cs165db.Text.same_text is_empty_str
    get_list_val get_list_size
two_names-AllHold = (
  record {
    name = 97 ∷ [];
    variable = held_variable 97 (1 ∷ 2 ∷ []);
    pointer = record { place = 0; capacity = 2 };
    named = refl;
    found = refl;
    materialized = refl;
    sized = refl;
    held = refl;
  },
  (
    record {
      name = 98 ∷ [];
      variable = held_variable 98 (3 ∷ 4 ∷ []);
      pointer = record { place = 1; capacity = 2 };
      named = refl;
      found = refl;
      materialized = refl;
      sized = refl;
      held = refl;
    },
    tt,
  ),
)

small_values : (i : ℕ) → i < 4 → get_or (1 ∷ 2 ∷ 3 ∷ 4 ∷ []) i 0 < word
small_values zero h = omega arith
small_values (suc zero) h = omega arith
small_values (suc (suc zero)) h = omega arith
small_values (suc (suc (suc zero))) h = omega arith
small_values (suc (suc (suc (suc i)))) h = absurd (omega arith)

tuple_data-printed_example :
    (t : Session) × (tuple_data server tuple_session ≡ done (again, t))
    × (t.locals.is_tuple ≡ false)
    × Returns
        (receive_tuple slow_kernel
          (record {
            data_buffer = 9 ∷ 9 ∷ 9 ∷ 9 ∷ 9 ∷ [];
            socket = record {
              incoming = t.scene.socket.outgoing ++ (8 ∷ []);
              outgoing = [];
              calls = 0;
            };
          })
          2)
        (λ a.
          (a.going ≡ true)
          × (a.printed ≡ (1 ∷ 3 ∷ []) ∷ (2 ∷ 4 ∷ []) ∷ [])
          × (a.client.socket.incoming ≡ 8 ∷ []))
tuple_data-printed_example =
    tuple_data-printed slow_kernel slow_kernel-MovesBytes server tuple_session 2 (1 ∷ 2 ∷ [])
      ((3 ∷ 4 ∷ []) ∷ []) (9 ∷ 9 ∷ 9 ∷ 9 ∷ 9 ∷ []) (8 ∷ []) whole_kernel-MovesBytes refl refl
      two_names-AllHold (refl, (refl, tt)) (omega arith) small_values (omega arith) (omega arith)
