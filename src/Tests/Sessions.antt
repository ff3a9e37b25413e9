-- ===== src/Tests/Sessions.antt =====
-- The variables and commands of a session (helper_variable.c, worker.c), the columns on disk and the fetches at
-- concrete inputs.
use cs165db.Prelude.{
  ℕ, zero, suc, ◌≡◌, ◌<◌, refl, List, [], ◌∷◌, Option, none, some, true, false, take, get_or,
  get_elem?, arith, leb, if◌then◌else◌,
}
use cs165db.Run.{done, fault, abort, Returns}
use cs165db.Text.{Text, is_empty_str, same_text, strtol_from, take_digits}
use cs165db.BitVector.{BitVector}
use cs165db.BitVector.View.{IsShaped}
use cs165db.BitVector.Count.{IsCounted, popcount}
use cs165db.DynArray.Append.{Holds}
use cs165db.Column.{ColumnFile, unsorted, get_pos_from_bv}
use cs165db.Select.{fetch_matched_from_bv}
use cs165db.Select.Fetch.{picked, fetch_matched_from_bv-picked}
use cs165db.Select.Positions.{places, get_pos_from_bv-places}
use cs165db.Variables.{Variable, Variables, Pointer, deref, find_variable, initialize_variable}
use cs165db.Variables.Lookup.{
  place_of, pointer_to, SetUp, find_variable_lem, initialize_variable-SetUp,
  initialize_variable-dangles,
}
use cs165db.BitVector.{is_marked}
use cs165db.Search.{get_ceil}
use cs165db.DynArray.{get_list_val}
use cs165db.Select.{fetch_blocks, fetch_block}
use cs165db.Select.Unsorted.{matching}
use cs165db.BpTree.{zero_node}
use cs165db.Values.{fptr_add, aggregate_vals}
use cs165db.Store.{Stored, Db, column_data, lookup, load_col, column_in, open_nodes}
use cs165db.Session.{Machine}
use cs165db.Session.Query.{select_into}
use cs165db.Session.Compute.{prepare_operand}
use cs165db.Session.JoinCommand.{split_names}
use cs165db.Session.Names.{split_names_lem}
use cs165db.Session.Sums.{prepare_operand-aggregate, select_into-nothing}

-- Three bits, of which bits 0 and 2 are set.
abbrev two_of_three : BitVector
two_of_three = record { size = 3; count = 2; vec = 5 ∷ [] }

two_of_three-IsShaped : IsShaped two_of_three
two_of_three-IsShaped = record { long = omega arith; small = omega arith }

two_of_three-IsCounted : IsCounted two_of_three
unfolding popcount
two_of_three-IsCounted = refl

abbrev three_values : ColumnFile
three_values = record {
  meta = record { storage = unsorted; size = 3; next_free = 0; root = 0 };
  ints = 7 ∷ 8 ∷ 9 ∷ [];
}

fetch_matched_from_bv-picked_example :
    fetch_matched_from_bv three_values two_of_three ≡ done (picked (5 ∷ []) (7 ∷ 8 ∷ 9 ∷ []) 0)
fetch_matched_from_bv-picked_example =
    fetch_matched_from_bv-picked three_values two_of_three refl refl (omega arith)
      two_of_three-IsShaped two_of_three-IsCounted

get_pos_from_bv-places_example :
    get_pos_from_bv two_of_three ≡ done (picked (5 ∷ []) (places 3 0) 0)
get_pos_from_bv-places_example =
    get_pos_from_bv-places two_of_three two_of_three-IsShaped two_of_three-IsCounted

-- A fetched variable named `a` over a column of that name.
abbrev some_variable : Variable
some_variable = record {
  name = 97 ∷ [];
  is_id = false;
  is_fetched = true;
  is_materialized = false;
  ids = none;
  bv = some two_of_three;
  fetched_col = some (97 ∷ []);
  val_size = 0;
  val = none;
}

-- An array that is full with it.
abbrev one_variable : Variables
one_variable = record { next = 1; capacity = 1; cells = some some_variable ∷ [] }

first_cell :
    (i : ℕ) → i < 1 → get_or (some some_variable ∷ []) i none ≡ get_elem? (some_variable ∷ []) i
first_cell zero h = refl
first_cell (suc i) h = absurd (omega arith)

one_variable-Holds : Holds one_variable (some_variable ∷ [])
one_variable-Holds = record {
  sized = refl;
  room = omega arith;
  allocated = refl;
  positive = omega arith;
  held = first_cell;
}

is_named : is_empty_str (98 ∷ []) ≡ false
unfolding is_empty_str
is_named = refl

not_yet : place_of (some_variable ∷ []) (98 ∷ []) 0 ≡ none
unfolding place_of same_text
not_yet = refl

find_variable_lem_example :
    find_variable one_variable (98 ∷ [])
    ≡ done (pointer_to 1 (place_of (some_variable ∷ []) (98 ∷ []) 0))
find_variable_lem_example =
    find_variable_lem one_variable (some_variable ∷ []) (98 ∷ []) one_variable-Holds is_named

initialize_variable-SetUp_example :
    Returns
      (initialize_variable one_variable (98 ∷ []) 40)
      (SetUp one_variable (some_variable ∷ []) (98 ∷ []) 40)
initialize_variable-SetUp_example =
    initialize_variable-SetUp one_variable (some_variable ∷ []) (98 ∷ []) 40 one_variable-Holds
      not_yet is_named (omega arith) (omega arith) (omega arith)

initialize_variable-dangles_example :
    Returns
      (initialize_variable one_variable (98 ∷ []) 40)
      (λ (p, vars'). deref vars' (record { place = 0; capacity = 1 }) ≡ fault)
initialize_variable-dangles_example =
    initialize_variable-dangles one_variable (some_variable ∷ []) (98 ∷ []) 40 0 one_variable-Holds
      not_yet is_named (omega arith) (omega arith) (omega arith) refl

-- A column named `a`, unsorted, with its three values on disk.
abbrev some_stored : Stored
some_stored = record { column = three_values; tree = none }

abbrev some_db : Db
some_db = record { name = 97 ∷ []; content = column_data three_values } ∷ []

some_loaded : load_col some_db (97 ∷ []) ≡ done some_stored
unfolding load_col lookup column_in open_nodes same_text is_empty_str
some_loaded = refl

some_fetched : fetch_matched_from_bv three_values two_of_three ≡ done (7 ∷ 9 ∷ [])
unfolding fetch_matched_from_bv fetch_blocks fetch_block is_marked get_ceil
some_fetched = refl

abbrev operand : Pointer
operand = record { place = 0; capacity = 1 }

operand_there : deref one_variable operand ≡ done some_variable
unfolding get_list_val
operand_there = refl

prepare_operand-aggregate_example :
    Returns (prepare_operand some_db one_variable operand none) (λ (n, vars').
      (n ≡ some 2)
      × Returns (deref vars' operand) (λ w. aggregate_vals fptr_add w three_values false ≡ done 7))
prepare_operand-aggregate_example =
    prepare_operand-aggregate some_db one_variable operand none some_variable two_of_three (97 ∷ [])
      some_stored 7 (9 ∷ []) fptr_add three_values operand_there refl (omega arith) refl refl refl
      refl some_loaded some_fetched

split_names_lem_example :
    split_names (97 ∷ 44 ∷ 98 ∷ 99 ∷ [])
    ≡ (if leb 1 2 then done (97 ∷ [], take 1 (98 ∷ 99 ∷ [])) else fault)
split_names_lem_example =
    split_names_lem (97 ∷ []) (98 ∷ 99 ∷ []) (refl, tt) (omega arith) (omega arith)

-- The arguments of a select from 1 to 2.
abbrev one_to_two : List (Option Text)
one_to_two = none ∷ none ∷ none ∷ some (49 ∷ []) ∷ some (50 ∷ []) ∷ []

some_digit : (c : ℕ) → is_empty_str (c ∷ []) ≡ false
unfolding is_empty_str
some_digit c = refl

no_match : matching (strtol_from 0 (49 ∷ [])).0 (strtol_from 0 (50 ∷ [])).0 (7 ∷ 8 ∷ 9 ∷ []) 0 ≡ []
unfolding matching strtol_from take_digits cs165db.Word.rank
no_match = refl

abbrev plain_machine : Machine
plain_machine = record {
  regexec = λ t. none;
  send = λ i n. n;
  recv = λ i n. n;
  junk = zero_node;
  test = false;
  depth = 5;
  width = 5;
  fuel = 100;
}

select_into-nothing_example : select_into plain_machine some_stored two_of_three one_to_two ≡ abort
select_into-nothing_example =
    select_into-nothing plain_machine some_stored two_of_three one_to_two (49 ∷ []) (50 ∷ []) refl
      refl (some_digit 49) (some_digit 50) refl refl (omega arith) (omega arith)
      two_of_three-IsShaped no_match
