-- ===== src/DynArray/Append.antt =====
-- The dynamic array of list.c holds a list; `append_list` adds at its end, growing when it is full.
use cs165db.Prelude.{
  ℕ, ◌+◌, ◌-◌, ◌*◌, ◌%◌, ◌≤◌, ◌<◌, ◌≡◌, refl, sym, ◌∙◌, List, [], ◌∷◌, ◌++◌, Option, none, some,
  true, length, take, replicate, set, get_or, get_elem?, arith, ◌==◌, if◌then◌else◌, ==_iff,
  ==_of_ne, length-append, length-take, length-replicate, length-set, get_or-append_left,
  get_or-take, get_or-set_self, get_or-set_ne, get_elem?-append_left, get_elem?-append_end,
  get_elem?-some,
}
use native.Mathlib.Decide.{ℕ_discrete}
use cs165db.Word.{word, add32}
use cs165db.Run.{Returns, read_lem, write_lem}
use cs165db.DynArray.{DynArray, create_list_of_size, grow, append_list, get_list_val, resize}

module _ {ℓ} {A : Type ℓ} where
  -- The array holds the list `xs`, inside an allocation of `capacity` cells.
  pub record Holds (l : DynArray A) (xs : List A) : Type ℓ where
    pub sized : l.next ≡ length xs
    pub room : l.next ≤ l.capacity
    pub allocated : length l.cells ≡ l.capacity
    pub positive : 0 < l.capacity
    pub held : (i : ℕ) → i < length xs → get_or l.cells i none ≡ get_elem? xs i

module _ {ℓ} (A : Type ℓ) where
  -- A fresh array holds the empty list, if its capacity does not wrap.
  pub create_list_of_size-Holds :
      (size : ℕ) → (size + 1) * 2 < word → Holds {A = A} (create_list_of_size size) []
  unfolding create_list_of_size
  create_list_of_size-Holds size h = record {
    sized = refl;
    room = omega arith;
    allocated = length-replicate _ none;
    positive = omega arith;
    held = λ i p. absurd (omega arith);
  }

module _ {ℓ} {A : Type ℓ} where
  grow-Holds :
      (l : DynArray A) (xs : List A)
      → Holds l xs
      → l.capacity * 2 < word
      → Holds (grow l) xs × ((grow l).next < (grow l).capacity)
  unfolding grow
  grow-Holds l xs h small = elim (ℕ_discrete l.next l.capacity) [
    | no n ↦ rw (==_of_ne l.next l.capacity n) (h, omega (arith, h.room))
    | yes e ↦ rw (full e) (
      record {
        sized = h.sized;
        room = omega (arith, h.room);
        allocated = sizes;
        positive = omega (arith, h.positive);
        held = λ i p. kept i (omega (arith, h.room, h.sized)) ∙ h.held i p;
      },
      omega (arith, h.positive),
    )
  ]
    where
      full : l.next ≡ l.capacity → (l.next == l.capacity) ≡ true
      full e = (==_iff l.next l.capacity).1 e

      sizes : length (resize (l.capacity * 2 % word) l.cells) ≡ l.capacity * 2 % word
      sizes = omega (
        arith,
        h.allocated,
        length-append (take (l.capacity * 2 % word) l.cells)
            (replicate (l.capacity * 2 % word - length l.cells) none),
        length-take (l.capacity * 2 % word) l.cells,
        length-replicate {A = Option A} (l.capacity * 2 % word - length l.cells) none,
      )

      kept :
          (i : ℕ)
          → i < l.capacity
          → get_or (resize (l.capacity * 2 % word) l.cells) i none ≡ get_or l.cells i none
      kept i p =
          get_or-append_left (take (l.capacity * 2 % word) l.cells) _ i none
            (omega (arith, h.allocated, length-take (l.capacity * 2 % word) l.cells))
          ∙ get_or-take (l.capacity * 2 % word) l.cells i none (omega arith)

  add-Holds :
      (g : DynArray A) (xs : List A) (v : A)
      → Holds g xs
      → g.next < g.capacity
      → g.capacity < word
      → Holds
          (record g { next = add32 g.next 1; cells = set g.cells g.next (some v) })
          (xs ++ (v ∷ []))
  add-Holds g xs v h p small = record {
    sized = omega (arith, h.sized, length-append xs (v ∷ []));
    room = omega arith;
    allocated = length-set g.cells g.next (some v) ∙ h.allocated;
    positive = h.positive;
    held = λ i q. elim (ℕ_discrete i g.next) [
      | yes e ↦
          rw e (get_or-set_self g.cells g.next (some v) none (omega (arith, h.allocated)))
          ∙ sym (get_elem?-append_end xs v i (omega (arith, h.sized)))
      | no n ↦
          let l : i < length xs = omega (arith, h.sized, length-append xs (v ∷ [])) in
          get_or-set_ne g.cells g.next i (some v) none (λ e. n (sym e))
          ∙ h.held i l
          ∙ sym (get_elem?-append_left xs (v ∷ []) i l)
    ];
  }

  -- The capacity after growing is at most doubled.
  grow-small : (l : DynArray A) → l.capacity * 2 < word → (grow l).capacity < word
  unfolding grow
  grow-small l small = ground arith

-- What `append_list` leaves of an array that holds `xs`.
pub record Appended {A : Type 0} (l : DynArray A) (xs : List A) (v : A) (after : DynArray A)
    : Type 0 where
  pub holds : Holds after (xs ++ (v ∷ []))
  pub capacity_up : after.capacity ≡ (if l.next == l.capacity then l.capacity * 2 else l.capacity)

grow-capacity :
    {A : Type 0} (l : DynArray A)
    → l.capacity * 2 < word
    → (grow l).capacity ≡ (if l.next == l.capacity then l.capacity * 2 else l.capacity)
unfolding grow
grow-capacity l small = ground arith

-- If the array holds a list and twice its capacity is below 2^32, append_list returns an array
-- that holds the list with the value at its end, with twice the capacity exactly if the array was
-- full.
pub append_list-Holds :
    {A : Type 0} (l : DynArray A) (xs : List A) (v : A)
    → Holds l xs
    → l.capacity * 2 < word
    → Returns (append_list l v) (Appended l xs v)
unfolding append_list
append_list-Holds l xs v h small =
    let g : Holds (grow l) xs × ((grow l).next < (grow l).capacity) = grow-Holds l xs h small in
    rw (Returns, write_lem (grow l).cells (grow l).next (some v) (omega (arith, g.0.allocated)))
      (record {
        holds = add-Holds (grow l) xs v g.0 g.1 (grow-small l small);
        capacity_up = grow-capacity l small;
      })

-- If the array holds a list, get_list_val at an index inside it returns the element of the list.
pub get_list_val-Holds :
    {A : Type 0} (l : DynArray A) (xs : List A) (i : ℕ)
    → Holds l xs
    → i < length xs
    → Returns (get_list_val l i) (λ v. get_elem? xs i ≡ some v)
unfolding get_list_val
get_list_val-Holds l xs i h p =
    let (v, e) = get_elem?-some xs i p in
    rw
      (
        Returns,
        read_lem l.cells i none (omega (arith, h.sized, h.room, h.allocated)),
        h.held i p,
        e,
      )
      refl
