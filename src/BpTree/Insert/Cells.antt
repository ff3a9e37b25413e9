-- ===== src/BpTree/Insert/Cells.antt =====
-- `memmove`, `memcpy` and a write (bptree.c) as what they leave in each cell.
use cs165db.Prelude.{
  ℕ, ◌+◌, ◌-◌, ◌≤◌, ◌<◌, ◌≡◌, refl, sym, ◌∙◌, subst, List, ◌++◌, length, take, drop, get_or, true,
  ◌&&◌, leb, if◌then◌else◌, arith, length-append, length-take, length-drop, length-set,
  get_or-append_left, get_or-append_right, get_or-take, get_or-drop, get_or-set_self, get_or-set_ne,
}
use cs165db.Word.{word, sub32}
use cs165db.Run.{done, fault, Returns, Returns-bind, write, write_lem, ◌>>=◌}
use cs165db.BpTree.{copy_cells}

-- `out` is `des` with `n` cells of `src` in place of its own.
pub record Copied (des : List ℕ) (to : ℕ) (src : List ℕ) (from n : ℕ) (out : List ℕ) : Type 0 where
  pub long : length out ≡ length des
  pub before : (i : ℕ) → i < to → get_or out i 0 ≡ get_or des i 0
  pub inside : (i : ℕ) → i < n → get_or out (to + i) 0 ≡ get_or src (from + i) 0

pub copy_cells-Copied :
    (des : List ℕ) (to : ℕ) (src : List ℕ) (from n : ℕ)
    → from + n ≤ length src
    → to + n ≤ length des
    → Returns (copy_cells des to src from n) (Copied des to src from n)
unfolding copy_cells
copy_cells-Copied des to src from n h k =
    subst (λ b. Returns (if b then done out else fault) (Copied des to src from n)) (sym fits)
      (record {
        long = omega (
          arith,
          length-append (take to des) (middle ++ drop (to + n) des),
          length-append middle (drop (to + n) des),
          length-take to des,
          length-drop (to + n) des,
          middle_long,
        );
        before = λ i p.
            get_or-append_left (take to des) (middle ++ drop (to + n) des) i 0
              (omega (arith, length-take to des))
            ∙ get_or-take to des i 0 p;
        inside = λ i p.
            get_or-append_right (take to des) (middle ++ drop (to + n) des) (to + i) i 0
              (omega (arith, length-take to des))
            ∙ get_or-append_left middle (drop (to + n) des) i 0 (omega (arith, middle_long))
            ∙ get_or-take n (drop from src) i 0 p
            ∙ get_or-drop from src i (from + i) 0 refl;
      })
  where
    middle : List ℕ
    middle = take n (drop from src)

    out : List ℕ
    out = take to des ++ (middle ++ drop (to + n) des)

    middle_long : length middle ≡ n
    middle_long = omega (arith, length-take n (drop from src), length-drop from src)

    fits : (leb (from + n) (length src) && leb (to + n) (length des)) ≡ true
    fits = ground arith

-- `out` is `a` with `v` at `pos`, and the cells from `pos` to `size` moved up by one.
pub record Opened (a : List ℕ) (size pos v : ℕ) (out : List ℕ) : Type 0 where
  pub long : length out ≡ length a
  pub before : (i : ℕ) → i < pos → get_or out i 0 ≡ get_or a i 0
  pub here : get_or out pos 0 ≡ v
  pub after : (i : ℕ) → i < size - pos → get_or out (pos + 1 + i) 0 ≡ get_or a (pos + i) 0

-- The `memmove` and the write of `_add_entry_to_node`.
pub open-Opened :
    (a : List ℕ) (size pos v : ℕ)
    → pos ≤ size
    → size < length a
    → size < word
    → Returns
        (copy_cells a (pos + 1) a pos (sub32 size pos) >>= λ moved. write moved pos v)
        (Opened a size pos v)
open-Opened a size pos v p h small =
    let n : sub32 size pos ≡ size - pos = omega arith in
    rw n (
      Returns-bind (Copied a (pos + 1) a pos (size - pos)) (Opened a size pos v)
        (copy_cells a (pos + 1) a pos (size - pos)) (λ moved. write moved pos v)
        (copy_cells-Copied a (pos + 1) a pos (size - pos) (omega arith) (omega arith))
        λ moved c.
          rw (Returns, write_lem moved pos v (omega (arith, c.long)))
            (record {
              long = length-set moved pos v ∙ c.long;
              before = λ i q.
                  get_or-set_ne moved pos i v 0 (λ e. omega arith) ∙ c.before i (omega arith);
              here = get_or-set_self moved pos v 0 (omega (arith, c.long));
              after = λ i q.
                  get_or-set_ne moved pos (pos + 1 + i) v 0 (λ e. omega arith) ∙ c.inside i q;
            }))

-- A `memmove` that leaves its target faults.
pub copy_cells-outside :
    (des : List ℕ) (to : ℕ) (src : List ℕ) (from n : ℕ)
    → length des < to + n
    → copy_cells des to src from n ≡ fault
unfolding copy_cells
copy_cells-outside des to src from n h = ground arith
