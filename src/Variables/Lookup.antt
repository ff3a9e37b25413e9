-- ===== src/Variables/Lookup.antt =====
-- The lookup of variables by name (helper_variable.c) against a list of variables.
use cs165db.Prelude.{
  ℕ, suc, ◌+◌, ◌*◌, ◌≡◌, ◌≤◌, ◌<◌, refl, sym, ap, ◌∙◌, List, [], ◌∷◌, ◌++◌, Option, none, some,
  true, false, length, arith, get_elem?, if◌then◌else◌, Bool-cases, inl, inr, ==-self, ◌==◌,
  length-append, get_elem?-append_end, lt→ltb, ==_of_ne, if_of_true,
}
use cs165db.Word.{word}
use cs165db.Run.{done, fault, Returns, Returns-done, Returns-map, Returns-bind}
use cs165db.Text.{Text, is_empty_str, same_text}
use cs165db.BitVector.{BitVector, create_bv}
use cs165db.BitVector.View.{create_bv_lem, IsShaped, bit_at}
use cs165db.DynArray.{append_list, get_list_val}
use cs165db.DynArray.Append.{Holds, Appended, append_list-Holds, get_list_val-Holds}
use cs165db.Variables.{
  Variable, Variables, Pointer, deref, find_from, find_variable, append_variable,
  initialize_variable, _initialize_variable_types, max_name_size,
}

-- The place of the first variable of a name, where the list starts at place `i`.
unfoldable pub place_of : List Variable → Text → ℕ → Option ℕ
place_of [] name i = none
place_of (v ∷ vs) name i =
    let rest = place_of vs name (suc i) in if same_text name v.name then some i else rest

abbrev pub pointer_to : ℕ → Option ℕ → Option Pointer
pointer_to capacity none = none
pointer_to capacity (some i) = some (record { place = i; capacity = capacity })

pub same_text_self : (t : Text) → same_text t t ≡ true
unfolding same_text
same_text_self [] = refl
same_text_self (c ∷ cs) = rw (==-self c) (same_text_self cs)

get_list_val_at :
    (vars : Variables) (vs : List Variable) (i : ℕ) (v : Variable)
    → Holds vars vs
    → get_elem? vs i ≡ some v
    → i < length vs
    → get_list_val vars i ≡ done v
get_list_val_at vars vs i v h e p =
    let (w, run, same) =
      Returns-done (λ w. get_elem? vs i ≡ some w) (get_list_val vars i)
        (get_list_val-Holds vars vs i h p) in
    run ∙ ap done (some_injective (sym same ∙ e))
  where
    some_injective : {v w : Variable} → some v ≡ some w → v ≡ w
    some_injective k = cc k

find_from_lem :
    (rest : List Variable) (vars : Variables) (vs : List Variable) (name : Text) (i : ℕ)
    → Holds vars vs
    → i + length rest ≡ length vs
    → ((k : ℕ) → k < length rest → get_elem? vs (i + k) ≡ get_elem? rest k)
    → find_from (length rest) vars name i ≡ done (pointer_to vars.capacity (place_of rest name i))
unfolding find_from place_of
find_from_lem [] vars vs name i h e at = refl
find_from_lem (v ∷ rest) vars vs name i h e at =
    let here : i + 0 ≡ i = omega arith in
    let next : i + 1 ≡ suc i = omega arith in
    let ih : find_from (length rest) vars name (suc i)
        ≡ done (pointer_to vars.capacity (place_of rest name (suc i))) =
      find_from_lem rest vars vs name (suc i) h (omega arith) (λ k p.
        (let s : suc i + k ≡ i + suc k = omega arith in ap (get_elem? vs) s)
        ∙ at (suc k) (omega arith)) in
    let got : get_list_val vars i ≡ done v =
      get_list_val_at vars vs i v h (ap (get_elem? vs) (sym here) ∙ at 0 (omega arith))
        (omega arith) in
    elim (Bool-cases (same_text name v.name)) [
      | inl t ↦ rw (got, t) refl
      | inr t ↦ rw (got, t, next) ih
    ]

-- In an array that holds a list of variables, find_variable with a name that is not empty points
-- to the first variable of that name, or finds nothing exactly where the list has none.
pub find_variable_lem :
    (vars : Variables) (vs : List Variable) (name : Text)
    → Holds vars vs
    → is_empty_str name ≡ false
    → find_variable vars name ≡ done (pointer_to vars.capacity (place_of vs name 0))
unfolding find_variable
find_variable_lem vars vs name h e = rw e (
    ap (λ n. find_from n vars name 0) h.sized
    ∙ find_from_lem vs vars vs name 0 h (omega arith)
        (λ k p. (let z : 0 + k ≡ k = omega arith in ap (get_elem? vs) z)))

place_of-append :
    (vs : List Variable) (v : Variable) (name : Text) (i j : ℕ)
    → place_of vs name i ≡ none
    → same_text name v.name ≡ true
    → j ≡ i + length vs
    → place_of (vs ++ (v ∷ [])) name i ≡ some j
unfolding place_of
place_of-append [] v name i j h t e = let z : i ≡ j = omega arith in rw t (ap some z)
place_of-append (w ∷ vs) v name i j h t e = elim (Bool-cases (same_text name w.name)) [
  | inl u ↦ absurd (cc (rw u at h))
  | inr u ↦ rw u (place_of-append vs v name (suc i) j (rw u at h) t (omega arith))
]

-- The variable that `initialize_variable` appends: its bit vector has none of its bits set.
pub record IsFresh (v : Variable) (name : Text) (size : ℕ) : Type 0 where
  pub named : v.name ≡ name
  pub unfetched : v.is_fetched ≡ false
  pub unheld : v.is_materialized ≡ false
  pub rowless : v.is_id ≡ false
  pub unset :
      (bv : BitVector) × (v.bv ≡ some bv)
      × IsShaped bv
      × (bv.size ≡ size)
      × (bv.count ≡ 0)
      × ((j : ℕ) → j < size → bit_at bv.vec j ≡ 0)

-- What is left of the variables `vs` after a new one of size `size` is set up, and where it is.
pub record SetUp (vars : Variables) (vs : List Variable) (name : Text) (size : ℕ)
    (r : Pointer × Variables) : Type 0 where
  pub new_var : Variable
  pub fresh : IsFresh new_var name size
  pub holds : Holds (r.1) (vs ++ (new_var ∷ []))
  pub followed : deref (r.1) (r.0) ≡ done new_var
  pub capacity_up :
      r.1.capacity ≡ (if vars.next == vars.capacity then vars.capacity * 2 else vars.capacity)
  pub found : find_variable (r.1) name ≡ done (some (r.0))

append_variable-SetUp :
    (vars : Variables) (vs : List Variable) (name : Text) (size : ℕ) (bv : BitVector)
    → Holds vars vs
    → place_of vs name 0 ≡ none
    → is_empty_str name ≡ false
    → length name < max_name_size
    → vars.capacity * 2 < word
    → IsShaped bv
    → bv.size ≡ size
    → bv.count ≡ 0
    → ((j : ℕ) → j < size → bit_at bv.vec j ≡ 0)
    → Returns (append_variable vars name false false (some bv)) (SetUp vars vs name size)
unfolding append_variable
append_variable-SetUp vars vs name size bv h none_yet named short small shaped e c clear =
    let v : Variable = record {
      name = name;
      is_id = false;
      is_fetched = false;
      is_materialized = false;
      ids = none;
      bv = some bv;
      fetched_col = none;
      val_size = 0;
      val = none;
    } in
    let (after, run, a) =
      Returns-done (Appended vars vs v) (append_list vars v)
        (append_list-Holds vars vs v h small) in
    let p : Pointer = record { place = vars.next; capacity = after.capacity } in
    let at_end : get_elem? (vs ++ (v ∷ [])) vars.next ≡ some v =
      get_elem?-append_end vs v vars.next h.sized in
    let place : place_of (vs ++ (v ∷ [])) name 0 ≡ some vars.next =
      place_of-append vs v name 0 vars.next none_yet (same_text_self name)
        (omega (arith, h.sized)) in
    rw (Returns, lt→ltb (length name) max_name_size short, run)
      (record {
        new_var = v;
        fresh = record {
          named = refl;
          unfetched = refl;
          unheld = refl;
          rowless = refl;
          unset = (bv, refl, shaped, e, c, clear);
        };
        holds = a.holds;
        capacity_up = a.capacity_up;
        followed = rw (==-self after.capacity) (
            get_list_val_at after (vs ++ (v ∷ [])) vars.next v a.holds at_end
              (omega (arith, h.sized, length-append vs (v ∷ []))));
        found =
            find_variable_lem after (vs ++ (v ∷ [])) name a.holds named
            ∙ ap (λ o. done (pointer_to after.capacity o)) place;
      })

-- For a name that is not empty, shorter than 16 characters and that no variable of the array has,
-- with room to grow, initialize_variable appends a variable of that name with a bit vector of the
-- size asked for, none of its bits set and none counted, the pointer that it returns leads to it,
-- and find_variable finds it.
pub initialize_variable-SetUp :
    (vars : Variables) (vs : List Variable) (name : Text) (size : ℕ)
    → Holds vars vs
    → place_of vs name 0 ≡ none
    → is_empty_str name ≡ false
    → length name < max_name_size
    → vars.capacity * 2 < word
    → size + 32 ≤ word
    → Returns (initialize_variable vars name size) (SetUp vars vs name size)
unfolding _initialize_variable_types
initialize_variable-SetUp vars vs name size h none_yet named short small fits =
    let missing : find_variable vars name ≡ done none =
      find_variable_lem vars vs name h named
      ∙ ap (λ o. done (pointer_to vars.capacity o)) none_yet in
    rw (Returns, missing)
      (Returns-bind _ (SetUp vars vs name size) (create_bv size) _ (create_bv_lem size fits)
        (λ bv (shaped, e, c, unset).
          append_variable-SetUp vars vs name size bv h none_yet named short small shaped e c
            (λ j p. unset j p)))

-- A name that a variable has already: the variable comes back as it is, with its bit vector, whatever
-- size is asked for, and nothing else changes.
pub initialize_variable-reused :
    (vars : Variables) (vs : List Variable) (name : Text) (size i : ℕ) (v : Variable)
    → Holds vars vs
    → place_of vs name 0 ≡ some i
    → get_elem? vs i ≡ some v
    → i < length vs
    → is_empty_str name ≡ false
    → (initialize_variable vars name size
        ≡ done (record { place = i; capacity = vars.capacity }, vars))
      × (deref vars (record { place = i; capacity = vars.capacity }) ≡ done v)
unfolding _initialize_variable_types
initialize_variable-reused vars vs name size i v h found e p named = (
  rw (find_variable_lem vars vs name h named ∙ ap (λ o. done (pointer_to vars.capacity o)) found)
      refl,
  rw (==-self vars.capacity) (get_list_val_at vars vs i v h e p),
)

-- A variable with a new name that is set up where the array is full, with room to double, moves
-- the array: a pointer from before leads nowhere.
pub initialize_variable-dangles :
    (vars : Variables) (vs : List Variable) (name : Text) (size place : ℕ)
    → Holds vars vs
    → place_of vs name 0 ≡ none
    → is_empty_str name ≡ false
    → length name < max_name_size
    → vars.capacity * 2 < word
    → size + 32 ≤ word
    → vars.next ≡ vars.capacity
    → Returns
        (initialize_variable vars name size)
        (λ (p, vars'). deref vars' (record { place = place; capacity = vars.capacity }) ≡ fault)
initialize_variable-dangles vars vs name size place h none_yet named short small fits full =
    Returns-map (SetUp vars vs name size) _ (initialize_variable vars name size)
      (initialize_variable-SetUp vars vs name size h none_yet named short small fits)
      (λ (p, vars') i.
        (let grown : vars'.capacity ≡ vars.capacity * 2 =
            i.capacity_up
            ∙ if_of_true (vars.next == vars.capacity) _ _ (rw full (==-self vars.capacity)) in
          let moved : ¬ (vars.capacity ≡ vars'.capacity) =
            λ e. absurd (omega (arith, h.positive)) in
          rw (==_of_ne vars.capacity vars'.capacity moved) refl))
