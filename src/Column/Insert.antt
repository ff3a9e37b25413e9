-- ===== src/Column/Insert.antt =====
-- `insert_value_to_file` (helper_insert.c) puts a value between the first `index` rows and the rest.
use mathlib.Core.List.{Perm, perm_middle}
use cs165db.Prelude.{
  ℕ, zero, suc, ◌+◌, ◌-◌, ◌≤◌, ◌<◌, ◌≡◌, refl, ap, List, [], ◌∷◌, ◌++◌, length, take, drop, get_or,
  arith, length-append, length-take, length-drop, if◌then◌else◌, true, get_or-take,
}
use cs165db.Word.{add32, sub32, rank-small, le_int, lt_int}
use cs165db.Run.{done, Returns}
use cs165db.Column.{ColumnFile, insert_value_to_file, read_ints}
use cs165db.Column.Contents.{contents, IsWhole}

-- The `int`s after the call.
abbrev pub inserted : List ℕ → ℕ → ℕ → ℕ → List ℕ
inserted xs size index val = take index xs ++ (val ∷ take (size - index) (drop index xs))

take-all : (xs : List ℕ) (n : ℕ) → length xs ≡ n → take n xs ≡ xs
take-all [] zero h = refl
take-all [] (suc n) h = refl
take-all (x ∷ xs) zero h = absurd (omega arith)
take-all (x ∷ xs) (suc n) h = ap (λ l. x ∷ l) (take-all xs n (omega arith))

take_split : (k m n : ℕ) (xs : List ℕ) → n ≡ k + m → take k xs ++ take m (drop k xs) ≡ take n xs
take_split zero m n xs e = let e' : m ≡ n = omega arith in ap (λ t. take t xs) e'
take_split (suc k) m zero xs e = absurd (omega arith)
take_split (suc k) zero (suc n) [] e = refl
take_split (suc k) (suc m) (suc n) [] e = refl
take_split (suc k) m (suc n) (x ∷ xs) e = ap (λ l. x ∷ l) (take_split k m n xs (omega arith))

pub length-inserted :
    (xs : List ℕ) (size index val : ℕ)
    → index ≤ size
    → size ≤ length xs
    → length (inserted xs size index val) ≡ size + 1
length-inserted xs size index val h k = omega (
  arith,
  length-append (take index xs) (val ∷ take (size - index) (drop index xs)),
  length-take index xs,
  length-take (size - index) (drop index xs),
  length-drop index xs,
)

-- The value and what the column held.
pub inserted-perm :
    (xs : List ℕ) (size index val : ℕ)
    → index ≤ size
    → Perm (inserted xs size index val) (val ∷ take size xs)
inserted-perm xs size index val h =
    rw (← (take_split index (size - index) size xs (omega arith)))
      (perm_middle (take index xs) (take (size - index) (drop index xs)))

-- Where each `int` of the new file comes from.
pub inserted-left :
    (xs : List ℕ) (size index val i : ℕ)
    → index ≤ size
    → size ≤ length xs
    → i < index
    → get_or (inserted xs size index val) i 0 ≡ get_or xs i 0
inserted-left xs size zero val i h k l = absurd (omega arith)
inserted-left [] size (suc index) val i h k l = absurd (omega arith)
inserted-left (x ∷ xs) zero (suc index) val i h k l = absurd (omega arith)
inserted-left (x ∷ xs) (suc size) (suc index) val zero h k l = refl
inserted-left (x ∷ xs) (suc size) (suc index) val (suc i) h k l =
    let e : suc size - suc index ≡ size - index = omega arith in
    rw e (inserted-left xs size index val i (omega arith) (omega arith) (omega arith))

pub inserted-at :
    (xs : List ℕ) (size index val : ℕ)
    → index ≤ size
    → size ≤ length xs
    → get_or (inserted xs size index val) index 0 ≡ val
inserted-at xs size zero val h k = refl
inserted-at [] size (suc index) val h k = absurd (omega arith)
inserted-at (x ∷ xs) zero (suc index) val h k = absurd (omega arith)
inserted-at (x ∷ xs) (suc size) (suc index) val h k =
    let e : suc size - suc index ≡ size - index = omega arith in
    rw e (inserted-at xs size index val (omega arith) (omega arith))

pub inserted-right :
    (xs : List ℕ) (size index val i : ℕ)
    → index ≤ size
    → size ≤ length xs
    → index ≤ i
    → i < size
    → get_or (inserted xs size index val) (suc i) 0 ≡ get_or xs i 0
inserted-right xs size zero val i h k l m = get_or-take (size - 0) xs i 0 (omega arith)
inserted-right [] size (suc index) val i h k l m = absurd (omega arith)
inserted-right (x ∷ xs) zero (suc index) val i h k l m = absurd (omega arith)
inserted-right (x ∷ xs) (suc size) (suc index) val zero h k l m = absurd (omega arith)
inserted-right (x ∷ xs) (suc size) (suc index) val (suc i) h k l m =
    let e : suc size - suc index ≡ size - index = omega arith in
    rw e
      (inserted-right xs size index val i (omega arith) (omega arith) (omega arith) (omega arith))

-- What the call leaves.
pub record Inserted (f : ColumnFile) (index val : ℕ) (after : ColumnFile) : Type 0 where
  pub size_up : after.meta.size ≡ f.meta.size + 1
  pub ints_of : after.ints ≡ inserted f.ints f.meta.size index val
  pub rows : Perm (contents after) (val ∷ contents f)

-- With an index up to the size of a whole file, insert_value_to_file writes the first rows, the
-- value and the other rows, and counts one row more; nothing is lost or added.
pub insert_value_to_file-Inserted :
    (f : ColumnFile) (index val : ℕ)
    → IsWhole f
    → index ≤ f.meta.size
    → Returns (insert_value_to_file f index val) (Inserted f index val)
unfolding insert_value_to_file
insert_value_to_file-Inserted f index val w h =
    rw (Returns, rest, not_negative, first_test, reads_first, reads_last)
      (record {
        size_up = omega (arith, w.small);
        ints_of = refl;
        rows =
            let e : add32 f.meta.size 1 ≡ f.meta.size + 1 = omega (arith, w.small) in
            rw
              (
                e,
                take-all (inserted f.ints f.meta.size index val) (f.meta.size + 1)
                    (length-inserted f.ints f.meta.size index val h w.stored),
              )
              (inserted-perm f.ints f.meta.size index val h);
      })
  where
    rest : sub32 f.meta.size index ≡ f.meta.size - index
    rest = omega (arith, w.small)

    not_negative : le_int 0 (f.meta.size - index) ≡ true
    not_negative = ground (arith, rank-small 0, rank-small (f.meta.size - index), w.small)

    first_test : (if lt_int 0 index then index else 0) ≡ index
    first_test = ground (arith, rank-small 0, rank-small index, w.small)

    reads_first : read_ints f.ints 0 index ≡ done (take index f.ints)
    reads_first = ground (arith, w.stored)

    reads_last :
        read_ints f.ints index (f.meta.size - index)
        ≡ done (take (f.meta.size - index) (drop index f.ints))
    reads_last = ground (arith, w.stored)
