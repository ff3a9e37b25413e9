-- ===== src/Select/Unsorted.antt =====
-- `mark_matching_bv_for_unsorted` (helper_variable.c), read block by block, against one pass over the
-- values of the column.
use cs165db.Prelude.{
  ℕ, zero, suc, ◌+◌, ◌-◌, ◌*◌, ◌/◌, ◌≤◌, ◌<◌, ◌≡◌, refl, sym, ap, ◌∙◌, subst, List, [], ◌∷◌, ◌++◌,
  length, length-append, length-take, length-drop, take, drop, take-append-drop, false, arith, ◌==◌,
  ==_of_ne, ◌&&◌, inl, inr, ◌⊎◌, min, Bool-cases, if◌then◌else◌,
}
use native.Mathlib.Decide.{dec_lt}
use cs165db.Word.{word, add32, sub32, le_int}
use cs165db.Run.{Run, done, Returns, Returns-bind, bind_assoc, bind_ext, ◌>>=◌}
use cs165db.Search.{get_ceil}
use cs165db.BitVector.{BitVector, mark_bv}
use cs165db.BitVector.View.{IsShaped}
use cs165db.Column.{ColumnFile}
use cs165db.Column.Update.{Inside}
use cs165db.BpTree.Find.Scan.{emit_all, emit_all-append}
use cs165db.BpTree.Find.Results.{AllMarked, emit_all-AllMarked}
use cs165db.Select.{mark_block, mark_blocks, mark_matching_bv_for_unsorted}

-- The places of the values from `low` to `high`, where the first place is `index`.
unfoldable pub matching : ℕ → ℕ → List ℕ → ℕ → List ℕ
matching low high [] index = []
matching low high (v ∷ vs) index =
    let rest = matching low high vs (index + 1) in
    if le_int low v && le_int v high then index ∷ rest else rest

module _ (low high : ℕ) where
  length-matching : (vs : List ℕ) (index : ℕ) → length (matching low high vs index) ≤ length vs
  unfolding matching
  length-matching [] index = omega arith
  length-matching (v ∷ vs) index = ground (arith, length-matching vs (index + 1))

  matching-append :
      (xs ys : List ℕ) (index : ℕ)
      → matching low high (xs ++ ys) index
        ≡ matching low high xs index ++ matching low high ys (index + length xs)
  unfolding matching
  matching-append [] ys index =
      let z : index ≡ index + 0 = omega arith in ap (λ i. matching low high ys i) z
  matching-append (x ∷ xs) ys index =
      let z : index + 1 + length xs ≡ index + suc (length xs) = omega arith in
      let ih =
        subst
          (λ i.
            matching low high (xs ++ ys) (index + 1)
            ≡ matching low high xs (index + 1) ++ matching low high ys i)
          z (matching-append xs ys (index + 1)) in
      elim (Bool-cases (le_int low x && le_int x high)) [
        | inl hit ↦ rw hit (ap (λ l. index ∷ l) ih)
        | inr miss ↦ rw miss ih
      ]

  matching-Inside :
      (n : ℕ) (vs : List ℕ) (index : ℕ)
      → index + length vs ≤ n
      → Inside n (matching low high vs index)
  unfolding matching
  matching-Inside n [] index h = tt
  matching-Inside n (v ∷ vs) index h = elim (Bool-cases (le_int low v && le_int v high)) [
    | inl hit ↦ rw hit (omega arith, matching-Inside n vs (index + 1) (omega arith))
    | inr miss ↦ rw miss (matching-Inside n vs (index + 1) (omega arith))
  ]

  -- What a pass over the values comes to.
  abbrev passed : List ℕ → ℕ → BitVector → ℕ → Run (BitVector × ℕ)
  passed vs index bv total = emit_all mark_bv bv (matching low high vs index) >>= λ b.
      done (b, total + length (matching low high vs index))

  mark_block-passed :
      (vs : List ℕ) (index : ℕ) (bv : BitVector) (total : ℕ)
      → index + length vs < word
      → total + length vs < word
      → mark_block low high vs index bv total ≡ passed vs index bv total
  unfolding mark_block matching emit_all
  mark_block-passed [] index bv total h k = ap (λ t. done (bv, t)) (omega arith)
  mark_block-passed (v ∷ vs) index bv total h k =
      let next : add32 index 1 ≡ index + 1 = omega arith in
      let up : add32 total 1 ≡ total + 1 = omega arith in
      elim (Bool-cases (le_int low v && le_int v high)) [
        | inl hit ↦
            rw (hit, next, up)
              (bind_assoc (mark_bv bv index) (λ b. done (b, total + 1)) _
                ∙ bind_ext (mark_bv bv index) _ _ (λ b.
                  mark_block-passed vs (index + 1) b (total + 1) (omega arith) (omega arith)
                  ∙ bind_ext (emit_all mark_bv b (matching low high vs (index + 1))) _ _
                      (λ x. ap (λ t. done (x, t)) (omega arith)))
                ∙ sym (
                    bind_assoc (mark_bv bv index)
                      (λ b. emit_all mark_bv b (matching low high vs (index + 1))) _))
        | inr miss ↦
            rw (miss, next) (mark_block-passed vs (index + 1) bv total (omega arith) (omega arith))
      ]

  passed-append :
      (xs ys : List ℕ) (index : ℕ) (bv : BitVector) (total : ℕ)
      → passed (xs ++ ys) index bv total
        ≡ (passed xs index bv total >>= λ (b, t). passed ys (index + length xs) b t)
  passed-append xs ys index bv total =
      let ps : List ℕ = matching low high xs index in
      let qs : List ℕ = matching low high ys (index + length xs) in
      rw (matching-append xs ys index, emit_all-append mark_bv bv ps qs)
        (bind_assoc (emit_all mark_bv bv ps) _ _
          ∙ bind_ext (emit_all mark_bv bv ps) _ _ (λ x.
            bind_ext (emit_all mark_bv x qs) _ _
              (λ y. ap (λ t. done (y, t)) (omega (arith, length-append ps qs))))
          ∙ sym (bind_assoc (emit_all mark_bv bv ps) _ _))

  full_or_last : (r b m : ℕ) → b ≡ min 128 r → m ≡ r - 128 → (m ≡ 0) ⊎ (b ≡ 128)
  full_or_last r b m e f = elim (dec_lt r 128) [
    | yes p ↦ inl (omega arith)
    | no p ↦ inr (omega arith)
  ]

  -- Behind a full block the next place is its first place and 128; behind a short one is nothing.
  same_place :
      (block more : List ℕ) (index : ℕ) (b : BitVector) (total : ℕ)
      → ((length more ≡ 0) ⊎ (length block ≡ 128))
      → index + 128 < word
      → passed more (add32 index 128) b total ≡ passed more (index + length block) b total
  unfolding matching
  same_place block [] index b total e h = refl
  same_place block (v ∷ vs) index b total (inl e) h = absurd (omega arith)
  same_place block (v ∷ vs) index b total (inr e) h =
      let place : add32 index 128 ≡ index + length block = omega arith in
      ap (λ i. passed (v ∷ vs) i b total) place

  mark_blocks-passed :
      (n : ℕ) (rest : List ℕ) (index : ℕ) (bv : BitVector) (total : ℕ)
      → length rest ≤ n * 128
      → n * 128 < length rest + 128
      → index + n * 128 < word
      → total + length rest < word
      → mark_blocks low high n rest index bv total ≡ passed rest index bv total
  unfolding mark_blocks matching emit_all
  mark_blocks-passed zero [] index bv total h l s t =
      let z : total ≡ total + 0 = omega arith in ap (λ x. done (bv, x)) z
  mark_blocks-passed zero (v ∷ vs) index bv total h l s t = absurd (omega arith)
  mark_blocks-passed (suc n) rest index bv total h l s t =
      let block : List ℕ = take 128 rest in
      let more : List ℕ = drop 128 rest in
      let block_long = length-take 128 rest in
      let more_long = length-drop 128 rest in
      let read_some : (length block == 0) ≡ false =
        ==_of_ne (length block) 0 (λ e. omega (arith, block_long)) in
      rw
        (
          read_some,
          mark_block-passed block index bv total (omega (arith, block_long))
              (omega (arith, block_long)),
        )
        (bind_assoc (emit_all mark_bv bv (matching low high block index)) _ _
          ∙ bind_ext (emit_all mark_bv bv (matching low high block index)) _ _ (λ b.
            mark_blocks-passed n more (add32 index 128) b
              (total + length (matching low high block index)) (omega (arith, more_long))
              (omega (arith, more_long)) (omega (arith, more_long))
              (omega (arith, more_long, block_long, length-matching block index))
            ∙ same_place block more index b (total + length (matching low high block index))
                (full_or_last (length rest) (length block) (length more) block_long more_long)
                (omega arith))
          ∙ sym (bind_assoc (emit_all mark_bv bv (matching low high block index)) _ _)
          ∙ sym (passed-append block more index bv total)
          ∙ ap (λ r. passed r index bv total) (take-append-drop 128 rest))

-- On a column whose file holds just its rows, fewer than 2^32 - 256, with a shaped vector that has
-- a bit for each, the select by blocks ends, marks exactly the rows whose value lies from low to
-- high, as one pass over the values finds them, keeps the other bits, and returns their number.
pub mark_matching_bv_for_unsorted-AllMarked :
    (low high : ℕ) (c : ColumnFile) (bv : BitVector)
    → length c.ints ≡ c.meta.size
    → c.meta.size ≤ bv.size
    → c.meta.size + 256 < word
    → IsShaped bv
    → Returns (mark_matching_bv_for_unsorted low high c bv) (λ (after, total).
      AllMarked bv (matching low high c.ints 0) after
      × (total ≡ length (matching low high c.ints 0)))
unfolding mark_matching_bv_for_unsorted get_ceil
mark_matching_bv_for_unsorted-AllMarked low high c bv e fits small shaped =
    rw
      (
        Returns,
        mark_blocks-passed low high blocks c.ints 0 bv 0 (omega arith) (omega arith) (omega arith)
            (omega arith),
      )
      (Returns-bind (AllMarked bv (matching low high c.ints 0)) _
        (emit_all mark_bv bv (matching low high c.ints 0)) _
        (emit_all-AllMarked (matching low high c.ints 0) bv shaped
          (matching-Inside low high bv.size c.ints 0 (omega arith)))
        λ after r. (r, omega arith))
  where
    blocks : ℕ
    blocks = sub32 (add32 c.meta.size 128) 1 / 128
