-- ===== src/DynArray.antt =====
-- list.c: the dynamic array `list_t`. The data is a list of cells, one for each element that the
-- allocation has room for; a cell that was never written is `none`. `malloc` and `realloc` succeed.
-- Elements are counted, not bytes: that `unit * capacity` fits a `uint32_t` too is taken for granted.
pub mod Append
use cs165db.Prelude.{
  ℕ, ◌+◌, ◌-◌, ◌*◌, ◌%◌, List, ◌++◌, Option, none, some, length, replicate, take, ltb, ◌==◌,
  if◌then◌else◌,
}
use cs165db.Word.{word, add32}
use cs165db.Run.{Run, done, fault, read, write, ◌>>=◌}

-- `list_t`; `unit` is the size of an element, which the type `A` stands for.
pub record DynArray {ℓ} (A : Type ℓ) : Type ℓ where
  pub next : ℕ
  pub capacity : ℕ
  pub cells : List (Option A)

module _ {ℓ} {A : Type ℓ} where
  -- `(size + 1) << 1`
  unfoldable pub create_list_of_size : ℕ → DynArray A
  create_list_of_size size =
      let capacity = add32 size 1 * 2 % word in
      record { next = 0; capacity = capacity; cells = replicate capacity none }

  -- `DEFAULT_DYN_ARR_SIZE` is 3.
  unfoldable pub create_list : DynArray A
  unfolding create_list_of_size
  create_list = create_list_of_size 3

  abbrev pub get_list_size : DynArray A → ℕ
  get_list_size l = l.next

  -- The value behind the pointer that `get_list_val` returns.
  unfoldable pub get_list_val : DynArray A → ℕ → Run A
  get_list_val l index = read l.cells index >>= λ c. elim c [ none ↦ fault | some v ↦ done v ]

  -- `realloc` to the new capacity keeps the cells that both sizes have.
  abbrev pub resize : ℕ → List (Option A) → List (Option A)
  resize n cells = take n cells ++ replicate (n - length cells) none

  unfoldable pub grow : DynArray A → DynArray A
  grow l =
      if l.next == l.capacity
      then (let capacity = l.capacity * 2 % word in
          record l { capacity = capacity; cells = resize capacity l.cells })
      else l

  -- `append_list`
  unfoldable pub append_list : DynArray A → A → Run (DynArray A)
  append_list l val =
      let g = grow l in
      write g.cells g.next (some val) >>= λ cells.
      done (record g { next = add32 g.next 1; cells = cells })
