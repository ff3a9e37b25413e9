-- ===== src/Column/Update.antt =====
-- `update_helper` (helper_updates.c) writes one value at the given places.
use cs165db.Prelude.{
  ℕ, ◌<◌, ◌≡◌, refl, ◌∙◌, List, [], ◌∷◌, length, set, get_or, Bool, false, ◌||◌, ◌==◌,
  if◌then◌else◌, arith, length-set, get_or-set_self, get_or-set_ne,
}
use native.Mathlib.Decide.{ℕ_discrete}
use cs165db.Word.{half}
use cs165db.Run.{Returns, Returns-map, Returns-bind}
use cs165db.Column.{ColumnFile, unsorted, update_ints, update_helper}
use cs165db.Column.Contents.{put_int_lem}

-- `i` is one of the places.
unfoldable pub listed : ℕ → List ℕ → Bool
listed i [] = false
listed i (p ∷ ps) = (p == i) || listed i ps

-- Every place is inside the file.
abbrev pub Inside : ℕ → List ℕ → Type 0
Inside n [] = Unit
Inside n (p ∷ ps) = (p < n) × Inside n ps

-- What the call leaves.
pub record Updated (ints ps : List ℕ) (val : ℕ) (after : List ℕ) : Type 0 where
  pub long : length after ≡ length ints
  pub cells :
      (i : ℕ) → i < length ints → get_or after i 0 ≡ (if listed i ps then val else get_or ints i 0)

update_ints-Updated :
    (ps ints : List ℕ) (val : ℕ)
    → Inside (length ints) ps
    → length ints < half
    → Returns (update_ints ints ps val) (Updated ints ps val)
unfolding update_ints listed
update_ints-Updated [] ints val d small = record { long = refl; cells = λ i h. refl }
update_ints-Updated (p ∷ ps) ints val d small =
    rw (Returns, put_int_lem ints p val d.0 (omega arith))
      (Returns-map (Updated (set ints p val) ps val) (Updated ints (p ∷ ps) val)
        (update_ints (set ints p val) ps val)
        (update_ints-Updated ps (set ints p val) val inside (omega (arith, length-set ints p val)))
        λ after u. record {
          long = omega (arith, u.long, length-set ints p val);
          cells =
              λ i h. u.cells i (omega (arith, length-set ints p val)) ∙ cell i h (ℕ_discrete p i);
        })
  where
    inside : Inside (length (set ints p val)) ps
    inside = rw (length-set ints p val) d.1

    cell :
        (i : ℕ)
        → i < length ints
        → Dec (p ≡ i)
        → (if listed i ps then val else get_or (set ints p val) i 0)
          ≡ (if (p == i) || listed i ps then val else get_or ints i 0)
    cell i h (yes e) = ground (arith, get_or-set_self ints i val 0 h)
    cell i h (no n) = ground (arith, get_or-set_ne ints p i val 0 n)

-- For places inside the file of an unsorted column of fewer than 2^31 values, update_helper puts the value at exactly
-- these places, and keeps the other values, the length and the header.
pub update_helper-Updated :
    (f : ColumnFile) (ps : List ℕ) (val : ℕ)
    → f.meta.storage ≡ unsorted
    → Inside (length f.ints) ps
    → length f.ints < half
    → Returns
        (update_helper f ps val)
        (λ after. (after.meta ≡ f.meta) × Updated f.ints ps val after.ints)
unfolding update_helper
update_helper-Updated f ps val storage d small =
    rw (Returns, storage)
      (Returns-bind (Updated f.ints ps val) _ (update_ints f.ints ps val) _
        (update_ints-Updated ps f.ints val d small) (λ ints u. (refl, u)))
