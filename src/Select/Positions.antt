-- ===== src/Select/Positions.antt =====
-- `get_pos_from_var` (helper_updates.c) on a bit vector: the places of a delete or an update.
use cs165db.Prelude.{
  ℕ, zero, suc, ◌+◌, ◌-◌, ◌≡◌, ◌≤◌, refl, sym, ap, ap₂, ◌∙◌, List, [], ◌∷◌, ◌++◌, append-nil,
  length, replicate, arith, ◌==◌, ==-self, Bool-cases, inl, inr,
}
use cs165db.Run.{done}
use cs165db.BitVector.{BitVector}
use cs165db.BitVector.View.{IsShaped, bit_at, is_marked_lem}
use cs165db.BitVector.Count.{popcount, IsCounted}
use cs165db.Column.{collect_pos, get_pos_from_bv}
use cs165db.Select.Fetch.{picked, length-picked, filled_up, nothing_found, put_next}

-- The `n` places from `u` on.
unfoldable pub places : ℕ → ℕ → List ℕ
places zero u = []
places (suc n) u = u ∷ places n (u + 1)

length-places : (n u : ℕ) → length (places n u) ≡ n
unfolding places
length-places zero u = refl
length-places (suc n) u = ap suc (length-places n (u + 1))

collect_pos_lem :
    (n : ℕ) (bv : BitVector) (u : ℕ) (pre : List ℕ) (room : ℕ)
    → IsShaped bv
    → u + n ≤ bv.size
    → length (picked bv.vec (places n u) u) ≤ room
    → collect_pos n bv u (pre ++ replicate room 0) (length pre)
      ≡ done (
        filled_up pre (picked bv.vec (places n u) u) room,
        length pre + length (picked bv.vec (places n u) u),
      )
unfolding collect_pos picked places
collect_pos_lem zero bv u pre room s h l =
    let z : length pre ≡ length pre + 0 = omega arith in
    ap₂ (λ r k. done (r, k)) (nothing_found pre room) z
collect_pos_lem (suc n) bv u pre room s h l = elim (Bool-cases (bit_at bv.vec u == 1)) [
  | inl t ↦
      rw (is_marked_lem bv u s (omega arith), t)
        (put_next (λ p i. collect_pos n bv (u + 1) p i) u (picked bv.vec (places n (u + 1)) (u + 1))
          pre room (rw t at l)
          (λ r k. collect_pos_lem n bv (u + 1) (pre ++ (u ∷ [])) r s (omega arith) k))
  | inr t ↦
      rw (is_marked_lem bv u s (omega arith), t)
        (collect_pos_lem n bv (u + 1) pre room s (omega arith) (rw t at l))
]

-- Of a shaped bit vector whose count is the number of its marks, get_pos_from_var returns exactly
-- the places that are marked, in rising order, one for each.
pub get_pos_from_bv-places :
    (bv : BitVector)
    → IsShaped bv
    → IsCounted bv
    → get_pos_from_bv bv ≡ done (picked bv.vec (places bv.size 0) 0)
unfolding get_pos_from_bv popcount
get_pos_from_bv-places bv s counted =
    let found : List ℕ = picked bv.vec (places bv.size 0) 0 in
    let z : 0 + length (places bv.size 0) ≡ bv.size = omega (arith, length-places bv.size 0) in
    let count : bv.count ≡ length found =
      counted
      ∙ ap (popcount bv.vec) (sym z)
      ∙ length-picked bv.vec (places bv.size 0) 0
      ∙ omega arith in
    let full : bv.count - length found ≡ 0 = omega (arith, count) in
    let all : 0 + length found ≡ bv.count = omega (arith, count) in
    let result : ([] ++ found) ++ replicate (bv.count - length found) 0 ≡ found =
      ap (λ k. found ++ replicate k 0) full ∙ append-nil found in
    rw
      (
        collect_pos_lem bv.size bv 0 [] bv.count s (omega arith) (omega (arith, count)),
        all,
        ==-self bv.count,
      )
      (ap done result)
