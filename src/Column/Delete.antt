-- ===== src/Column/Delete.antt =====
-- `delete_helper` (helper_updates.c): the last row takes the place of each deleted one.
use mathlib.Core.List.{Perm}
use mathlib.Core.List.Perm
use native.Mathlib.Decide.{ℕ_discrete}
use cs165db.Prelude.{
  ℕ, zero, suc, ◌+◌, ◌-◌, ◌≤◌, ◌<◌, ◌≡◌, refl, ap, ap₂, ◌∙◌, subst, List, [], ◌∷◌, ◌++◌, length,
  take, set, get_or, map, arith, length-set, length-take, get_or-set_self, get_or-set_ne,
  get_or-take,
}
use cs165db.Run.{Returns, Returns-map}
use cs165db.Column.{ColumnFile, unsorted, delete_from, delete_helper}
use cs165db.Column.Contents.{contents, IsWhole, deleted, delete_one_lem, delete_helper_lem}

-- Removing the element at a place by putting the last one there.
set-perm :
    (xs : List ℕ) (x : ℕ) (pos : ℕ)
    → pos < length xs
    → Perm (get_or xs pos 0 ∷ set xs pos x) (x ∷ xs)
set-perm [] x pos h = absurd (omega arith)
set-perm (y ∷ ys) x zero h = Perm.swap _ _ _
set-perm (y ∷ ys) x (suc pos) h =
    Perm.trans (Perm.swap y (get_or ys pos 0) (set ys pos x))
      (Perm.trans (Perm.cons y (set-perm ys x pos (omega arith))) (Perm.swap x y ys))

take-set :
    (n : ℕ) (xs : List ℕ) (pos x : ℕ) → pos < n → take n (set xs pos x) ≡ set (take n xs) pos x
take-set zero xs pos x h = absurd (omega arith)
take-set (suc n) [] pos x h = refl
take-set (suc n) (y ∷ ys) zero x h = refl
take-set (suc n) (y ∷ ys) (suc pos) x h = ap (λ l. y ∷ l) (take-set n ys pos x (omega arith))

take-set_out : (n : ℕ) (xs : List ℕ) (pos x : ℕ) → n ≤ pos → take n (set xs pos x) ≡ take n xs
take-set_out zero xs pos x h = refl
take-set_out (suc n) [] pos x h = refl
take-set_out (suc n) (y ∷ ys) zero x h = absurd (omega arith)
take-set_out (suc n) (y ∷ ys) (suc pos) x h =
    ap (λ l. y ∷ l) (take-set_out n ys pos x (omega arith))

take_last-perm :
    (n : ℕ) (xs : List ℕ) → n < length xs → Perm (get_or xs n 0 ∷ take n xs) (take (suc n) xs)
take_last-perm zero [] h = absurd (omega arith)
take_last-perm zero (x ∷ xs) h = Perm.refl _
take_last-perm (suc n) [] h = absurd (omega arith)
take_last-perm (suc n) (x ∷ xs) h =
    Perm.trans (Perm.swap x (get_or xs n 0) (take n xs))
      (Perm.cons x (take_last-perm n xs (omega arith)))

-- The new contents and the value at the deleted place make up the old contents.
deleted-perm :
    (xs : List ℕ) (m pos : ℕ)
    → m < length xs
    → pos < suc m
    → Perm (get_or xs pos 0 ∷ take m (set xs pos (get_or xs m 0))) (take (suc m) xs)
deleted-perm xs m pos h p = elim (ℕ_discrete pos m) [
  | yes e ↦ rw (take-set_out m xs pos (get_or xs m 0) (omega arith), e) (take_last-perm m xs h)
  | no n ↦
      let l : pos < m = omega arith in
      let same : get_or (take m xs) pos 0 ≡ get_or xs pos 0 = get_or-take m xs pos 0 l in
      rw (take-set m xs pos (get_or xs m 0) l, ← same)
        (Perm.trans (set-perm (take m xs) (get_or xs m 0) pos (omega (arith, length-take m xs)))
          (take_last-perm m xs h))
]

-- The places stand in strictly falling order below `b`.
abbrev pub Descending : ℕ → List ℕ → Type 0
Descending b [] = Unit
Descending b (p ∷ ps) = (p < b) × Descending p ps

-- The values of the rows at the places.
abbrev pub rows_at : ColumnFile → List ℕ → List ℕ
rows_at f ps = map (λ p. get_or f.ints p 0) ps

Descending-mono : (a b : ℕ) (ps : List ℕ) → a ≤ b → Descending a ps → Descending b ps
Descending-mono a b [] h d = tt
Descending-mono a b (p ∷ ps) h d = (omega arith, d.1)

rows_at-deleted :
    (f : ColumnFile) (pos : ℕ) (ps : List ℕ)
    → Descending pos ps
    → rows_at (deleted f pos) ps ≡ rows_at f ps
rows_at-deleted f pos [] d = refl
rows_at-deleted f pos (p ∷ ps) d =
    ap₂ ◌∷◌ (get_or-set_ne f.ints pos p _ 0 (λ e. omega arith))
      (rows_at-deleted f pos ps (Descending-mono p pos ps (omega arith) d.1))

deleted-IsWhole : (f : ColumnFile) (pos : ℕ) → IsWhole f → IsWhole (deleted f pos)
deleted-IsWhole f pos w = record {
  stored = omega (arith, w.stored, length-set f.ints pos (get_or f.ints (f.meta.size - 1) 0));
  small = omega (arith, w.small);
}

-- One turn of the loop, as far as the contents go.
deleted-contents :
    (f : ColumnFile) (pos : ℕ)
    → IsWhole f
    → pos < f.meta.size
    → Perm (get_or f.ints pos 0 ∷ contents (deleted f pos)) (contents f)
deleted-contents f pos w h =
    let e : suc (f.meta.size - 1) ≡ f.meta.size = omega arith in
    subst (λ n. Perm (get_or f.ints pos 0 ∷ contents (deleted f pos)) (take n f.ints)) e
      (deleted-perm f.ints (f.meta.size - 1) pos (omega (arith, w.stored)) (omega arith))

-- What `delete_helper` leaves.
abbrev pub RowsDeleted : ColumnFile → List ℕ → ColumnFile → Type 0
RowsDeleted f ps after = IsWhole after × Perm (rows_at f ps ++ contents after) (contents f)

-- The loop.
delete_from-RowsDeleted :
    (ps : List ℕ) (f : ColumnFile)
    → IsWhole f
    → Descending f.meta.size ps
    → Returns (delete_from f ps) (RowsDeleted f ps)
unfolding delete_from
delete_from-RowsDeleted [] f w d = (w, Perm.refl _)
delete_from-RowsDeleted (p ∷ ps) f w d =
    rw
      (
        Returns,
        delete_one_lem f p w (omega arith) (omega (arith, w.stored)) (omega (arith, w.small)),
      )
      (Returns-map (RowsDeleted (deleted f p) ps) (RowsDeleted f (p ∷ ps))
        (delete_from (deleted f p) ps)
        (delete_from-RowsDeleted ps (deleted f p) (deleted-IsWhole f p w)
          (Descending-mono p (f.meta.size - 1) ps (omega arith) d.1))
        λ after r. (
          r.0,
          Perm.trans (Perm.cons (get_or f.ints p 0) (kept after r)) (deleted-contents f p w d.0),
        ))
  where
    kept :
        (after : ColumnFile)
        → RowsDeleted (deleted f p) ps after
        → Perm (rows_at f ps ++ contents after) (contents (deleted f p))
    kept after r = rw (rows_at-deleted f p ps d.1) at r.1

-- Deleting rows of a whole unsorted column at places in falling order ends and removes exactly the
-- rows at those places: what is left and what was there are a permutation of the old contents.
pub delete_helper-RowsDeleted :
    (ps : List ℕ) (f : ColumnFile)
    → f.meta.storage ≡ unsorted
    → IsWhole f
    → Descending f.meta.size ps
    → Returns (delete_helper f ps) (RowsDeleted f ps)
delete_helper-RowsDeleted ps f u w d =
    rw (delete_helper_lem f ps u) (delete_from-RowsDeleted ps f w d)

-- Deleting a row before the last two and then the last one of a whole unsorted column, in rising
-- order of places, ends, takes two off the size, and leaves the value of the last row among the
-- rows of the column, at the first place.
pub delete_helper-keeps_last :
    (f : ColumnFile) (p : ℕ)
    → f.meta.storage ≡ unsorted
    → IsWhole f
    → p + 2 < f.meta.size
    → Returns (delete_helper f (p ∷ (f.meta.size - 1) ∷ [])) (λ after.
      (after.meta.size ≡ f.meta.size - 2)
      × (p < length (contents after))
      × (get_or (contents after) p 0 ≡ get_or f.ints (f.meta.size - 1) 0))
unfolding delete_from
delete_helper-keeps_last f p u w h =
    rw
      (
        Returns,
        delete_helper_lem f (p ∷ (f.meta.size - 1) ∷ []) u,
        delete_one_lem f p w (omega arith) (omega (arith, w.stored)) (omega (arith, w.small)),
        delete_one_lem (deleted f p) (f.meta.size - 1) (deleted-IsWhole f p w) (omega arith)
            (omega (arith, w.stored, length-set f.ints p (get_or f.ints (f.meta.size - 1) 0)))
            (omega (arith, w.small)),
      )
      (
        omega arith,
        omega (
          arith,
          w.stored,
          length-take (f.meta.size - 1 - 1) (deleted (deleted f p) (f.meta.size - 1)).ints,
          length-set (deleted f p).ints (f.meta.size - 1)
              (get_or (deleted f p).ints (f.meta.size - 1 - 1) 0),
          length-set f.ints p (get_or f.ints (f.meta.size - 1) 0),
        ),
        get_or-take (f.meta.size - 1 - 1) (set (deleted f p).ints (f.meta.size - 1) _) p 0
              (omega arith)
            ∙ get_or-set_ne (deleted f p).ints (f.meta.size - 1) p _ 0 (λ e. omega arith)
            ∙ get_or-set_self f.ints p (get_or f.ints (f.meta.size - 1) 0) 0
                (omega (arith, w.stored)),
      )
