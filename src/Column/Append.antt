-- ===== src/Column/Append.antt =====
-- `append_value_to_file` (helper_insert.c) writes at the end of the file, not behind the contents.
use cs165db.Prelude.{
  ℕ, zero, suc, ◌+◌, ◌-◌, ◌≤◌, ◌<◌, ◌≡◌, refl, ap, ◌∙◌, List, [], ◌∷◌, ◌++◌, length, take, get_or,
  arith, get_or-append_left, get_or-append_right, length-set, get_or-set_ne,
}
use cs165db.Word.{add32}
use cs165db.Run.{Returns}
use cs165db.Column.{ColumnFile, unsorted, append_value_to_file, delete_helper, delete_from}
use cs165db.Column.Contents.{contents, IsWhole, deleted, delete_one_lem, delete_helper_lem}

-- One more `int` of a file is the next one.
take-suc :
    (n : ℕ) (xs : List ℕ) → n < length xs → take (suc n) xs ≡ take n xs ++ (get_or xs n 0 ∷ [])
take-suc zero [] h = absurd (omega arith)
take-suc zero (x ∷ xs) h = refl
take-suc (suc n) [] h = absurd (omega arith)
take-suc (suc n) (x ∷ xs) h = ap (λ l. x ∷ l) (take-suc n xs (omega arith))

take-append : (n : ℕ) (xs ys : List ℕ) → n ≤ length xs → take n (xs ++ ys) ≡ take n xs
take-append zero xs ys h = refl
take-append (suc n) [] ys h = absurd (omega arith)
take-append (suc n) (x ∷ xs) ys h = ap (λ l. x ∷ l) (take-append n xs ys (omega arith))

length-snoc : (xs : List ℕ) (v : ℕ) → length (xs ++ (v ∷ [])) ≡ length xs + 1
length-snoc [] v = refl
length-snoc (x ∷ xs) v = omega (arith, length-snoc xs v)

-- The row that appears is the one that stands behind the contents in the file with the value added.
append_contents :
    (f : ColumnFile) (val : ℕ)
    → IsWhole f
    → contents (append_value_to_file f val)
      ≡ contents f ++ (get_or (f.ints ++ (val ∷ [])) f.meta.size 0 ∷ [])
unfolding append_value_to_file
append_contents f val w =
    let e : add32 f.meta.size 1 ≡ suc f.meta.size = omega (arith, w.small) in
    rw e (
      take-suc f.meta.size (f.ints ++ (val ∷ [])) (omega (arith, w.stored, length-snoc f.ints val))
      ∙ ap (λ l. l ++ (get_or (f.ints ++ (val ∷ [])) f.meta.size 0 ∷ []))
          (take-append f.meta.size f.ints (val ∷ []) w.stored))

-- On a whole file that holds no more than its contents, append_value_to_file adds the value behind
-- the contents.
pub append_value_to_file-contents :
    (f : ColumnFile) (val : ℕ)
    → IsWhole f
    → length f.ints ≡ f.meta.size
    → contents (append_value_to_file f val) ≡ contents f ++ (val ∷ [])
append_value_to_file-contents f val w e =
    append_contents f val w
    ∙ ap (λ v. contents f ++ (v ∷ []))
        (get_or-append_right f.ints (val ∷ []) f.meta.size 0 0 (omega arith))

-- On a whole file of an unsorted column that holds no more than its contents, after the delete of
-- a row other than the last, append_value_to_file adds the value that was last before the delete
-- to the contents in place of the given one.
pub append_value_to_file-after_delete :
    (f : ColumnFile) (pos val : ℕ)
    → f.meta.storage ≡ unsorted
    → IsWhole f
    → length f.ints ≡ f.meta.size
    → pos + 1 < f.meta.size
    → Returns (delete_helper f (pos ∷ [])) (λ after.
      contents (append_value_to_file after val)
      ≡ contents after ++ (get_or f.ints (f.meta.size - 1) 0 ∷ []))
unfolding delete_from
append_value_to_file-after_delete f pos val u w e h =
    rw
      (
        Returns,
        delete_helper_lem f (pos ∷ []) u,
        delete_one_lem f pos w (omega arith) (omega arith) (omega (arith, w.small)),
      )
      (append_contents (deleted f pos) val whole
        ∙ ap (λ v. contents (deleted f pos) ++ (v ∷ []))
            (get_or-append_left (deleted f pos).ints (val ∷ []) (f.meta.size - 1) 0
                (omega (arith, length-set f.ints pos (get_or f.ints (f.meta.size - 1) 0)))
              ∙ get_or-set_ne f.ints pos (f.meta.size - 1) _ 0 (λ d. omega arith)))
  where
    whole : IsWhole (deleted f pos)
    whole = record {
      stored = omega (arith, w.stored, length-set f.ints pos (get_or f.ints (f.meta.size - 1) 0));
      small = omega (arith, w.small);
    }
