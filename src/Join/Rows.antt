-- ===== src/Join/Rows.antt =====
-- Tables of helper_join.c as lists of rows, and the pairs of rows with equal values.
use cs165db.Prelude.{
  ℕ, zero, suc, ◌+◌, ◌*◌, ◌%◌, ◌≤◌, ◌<◌, ◌≡◌, refl, sym, ap, subst, List, [], ◌∷◌, ◌++◌, length,
  length-append, map, get_or, arith, ◌==◌, if◌then◌else◌,
}
use cs165db.Word.{word, add32}
use cs165db.Run.{done, Returns, Returns-map, Returns-done, read_lem}
use cs165db.DynArray.{DynArray, append_list}
use cs165db.DynArray.Append.{Holds, Appended, append_list-Holds}
use cs165db.Join.{JoinedIds, append_pair, row_val, row_pos}

-- The value of a row and its place.
abbrev pub Row : Type 0
Row = ℕ × ℕ

unfoldable pub rows_from : ℕ → List ℕ → ℕ → List Row
rows_from zero m i = []
rows_from (suc n) m i = (get_or m (i * 2) 0, get_or m (i * 2 + 1) 0) ∷ rows_from n m (i + 1)

-- The pairs of places of a row and each row of a table with the same value.
unfoldable pub partners : Row → List Row → List (ℕ × ℕ)
partners r [] = []
partners r (s ∷ ss) = let rest = partners r ss in if r.0 == s.0 then (r.1, s.1) ∷ rest else rest

-- The pairs of places of all rows of two tables with the same value.
unfoldable pub joined : List Row → List Row → List (ℕ × ℕ)
joined [] ss = []
joined (r ∷ rs) ss = partners r ss ++ joined rs ss

-- The two lists hold the two halves of the pairs, in allocations that started from `c` cells.
pub record HoldsPairs (c : ℕ) (xs : List (ℕ × ℕ)) (ids : JoinedIds) : Type 0 where
  pub first : Holds ids.0 (map (λ x. x.0) xs)
  pub second : Holds ids.1 (map (λ x. x.1) xs)
  pub first_small : ids.0.capacity ≤ c + 2 * length xs
  pub second_small : ids.1.capacity ≤ c + 2 * length xs

length-map : (f : ℕ × ℕ → ℕ) (xs : List (ℕ × ℕ)) → length (map f xs) ≡ length xs
length-map f [] = refl
length-map f (x ∷ xs) = ap suc (length-map f xs)

map-append : (f : ℕ × ℕ → ℕ) (xs ys : List (ℕ × ℕ)) → map f (xs ++ ys) ≡ map f xs ++ map f ys
map-append f [] ys = refl
map-append f (x ∷ xs) ys = ap (λ l. f x ∷ l) (map-append f xs ys)

pub row_val_lem :
    (m : List ℕ) (i : ℕ) → i * 2 < length m → i * 2 < word → row_val m i ≡ done (get_or m (i * 2) 0)
row_val_lem m i h small =
    let e : i * 2 % word ≡ i * 2 = omega arith in rw e (read_lem m (i * 2) 0 h)

pub row_pos_lem :
    (m : List ℕ) (i : ℕ)
    → i * 2 + 1 < length m
    → i * 2 + 1 < word
    → row_pos m i ≡ done (get_or m (i * 2 + 1) 0)
row_pos_lem m i h small =
    let e : add32 (i * 2 % word) 1 ≡ i * 2 + 1 = omega arith in rw e (read_lem m (i * 2 + 1) 0 h)

-- One list of the two.
append-half :
    (c : ℕ) (f : ℕ × ℕ → ℕ) (xs : List (ℕ × ℕ)) (x : ℕ × ℕ) (l : DynArray ℕ)
    → Holds l (map f xs)
    → l.capacity ≤ c + 2 * length xs
    → (c + 2 * length xs) * 2 < word
    → Returns (append_list l (f x)) (λ after.
      Holds after (map f (xs ++ (x ∷ []))) × (after.capacity ≤ c + 2 * length (xs ++ (x ∷ []))))
append-half c f xs x l h b small =
    Returns-map (Appended l (map f xs) (f x)) _ (append_list l (f x))
      (append_list-Holds l (map f xs) (f x) h (omega (arith, length-map f xs)))
      λ after a. (
        subst (Holds after) (sym (map-append f xs (x ∷ []))) a.holds,
        bound l.capacity l.next after.capacity (length xs) (length (xs ++ (x ∷ []))) b
            (omega (arith, h.sized, length-map f xs)) a.capacity_up
            (omega (arith, length-append xs (x ∷ []))),
      )
  where
    bound :
        (cap next cap' n n' : ℕ)
        → cap ≤ c + 2 * n
        → next ≡ n
        → cap' ≡ (if next == cap then cap * 2 else cap)
        → n' ≡ n + 1
        → cap' ≤ c + 2 * n'
    bound cap next cap' n n' q r s t = ground arith

-- A pair appended.
pub append_pair-HoldsPairs :
    (c : ℕ) (m0 m1 : List ℕ) (i j : ℕ) (xs : List (ℕ × ℕ)) (ids : JoinedIds)
    → i * 2 + 1 < length m0
    → j * 2 + 1 < length m1
    → length m0 < word
    → length m1 < word
    → HoldsPairs c xs ids
    → (c + 2 * length xs) * 2 < word
    → Returns
        (append_pair m0 m1 i j ids)
        (HoldsPairs c (xs ++ ((get_or m0 (i * 2 + 1) 0, get_or m1 (j * 2 + 1) 0) ∷ [])))
unfolding append_pair
append_pair-HoldsPairs c m0 m1 i j xs ids hi hj s0 s1 h small =
    let x : ℕ × ℕ = (get_or m0 (i * 2 + 1) 0, get_or m1 (j * 2 + 1) 0) in
    let (l0, e0, h0) =
      Returns-done _ (append_list ids.0 x.0)
        (append-half c (λ y. y.0) xs x ids.0 h.first h.first_small small) in
    let (l1, e1, h1) =
      Returns-done _ (append_list ids.1 x.1)
        (append-half c (λ y. y.1) xs x ids.1 h.second h.second_small small) in
    rw (Returns, row_pos_lem m0 i hi (omega arith), e0, row_pos_lem m1 j hj (omega arith), e1)
      (record { first = h0.0; second = h1.0; first_small = h0.1; second_small = h1.1 })
