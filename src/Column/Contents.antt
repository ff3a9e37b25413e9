-- ===== src/Column/Contents.antt =====
-- What a column file holds for the rest of the program: the first `meta.size` of its `int`s.
use cs165db.Prelude.{
  ℕ, suc, ◌-◌, ◌≤◌, ◌<◌, ◌≡◌, ap, List, length, take, set, get_or, arith, append-nil, lt→ltb, none,
  some, ◌∙◌, get_elem?, get_elem?-eq-get_or,
}
use cs165db.Word.{half, sub32}
use cs165db.Run.{done, abort, assert, ◌>>◌}
use cs165db.Column.{
  ColumnFile, unsorted, is_unsorted, delete_one, delete_from, delete_helper, put_int, read_last,
}

abbrev pub contents : ColumnFile → List ℕ
contents f = take f.meta.size f.ints

-- The header does not promise more than the file holds, and the size is that of a C `int`.
pub record IsWhole (f : ColumnFile) : Type 0 where
  pub stored : f.meta.size ≤ length f.ints
  pub small : f.meta.size < half

pub put_int_lem :
    (ints : List ℕ) (pos val : ℕ)
    → pos < length ints
    → pos < half
    → put_int ints pos val ≡ done (set ints pos val)
put_int_lem ints pos val h small =
    rw (lt→ltb pos half small, gap) (ap (λ l. done (set l pos val)) (append-nil ints))
  where
    gap : suc pos - length ints ≡ 0
    gap = omega arith

-- What one turn of the delete loop leaves.
abbrev pub deleted : ColumnFile → ℕ → ColumnFile
deleted f pos =
    let meta = f.meta in
    record {
      meta = record meta { size = f.meta.size - 1 };
      ints = set f.ints pos (get_or f.ints (f.meta.size - 1) 0);
    }

pub delete_one_lem :
    (f : ColumnFile) (pos : ℕ)
    → IsWhole f
    → 0 < f.meta.size
    → pos < length f.ints
    → pos < half
    → delete_one f pos ≡ done (deleted f pos)
unfolding delete_one
delete_one_lem f pos w some_rows h small =
    rw (found, last, put_int_lem f.ints pos (get_or f.ints (f.meta.size - 1) 0) h small)
  where
    last : sub32 f.meta.size 1 ≡ f.meta.size - 1
    last = omega (arith, w.small)

    found : read_last f ≡ done (get_or f.ints (f.meta.size - 1) 0)
    found =
        ap (λ o. elim o [ none ↦ abort | some v ↦ done v ])
          (ap (get_elem? f.ints) last
            ∙ get_elem?-eq-get_or f.ints (f.meta.size - 1) 0 (omega (arith, w.stored)))

-- On an unsorted column the assertion of `delete_helper` holds.
pub delete_helper_lem :
    (f : ColumnFile) (ps : List ℕ)
    → f.meta.storage ≡ unsorted
    → delete_helper f ps ≡ delete_from f ps
unfolding delete_helper
delete_helper_lem f ps e = ap (λ s. assert (is_unsorted s) >> delete_from f ps) e
