-- ===== src/BitVector/Count.antt =====
-- The counter of a vector against the number of bits that are set.
use cs165db.Prelude.{
  ℕ, zero, suc, ◌+◌, ◌≤◌, ◌<◌, ◌≡◌, refl, List, if◌then◌else◌, ◌==◌, arith, ==_of_ne, ==-self, ◌∙◌,
  ap, ap₂,
}
use native.Mathlib.Decide.{ℕ_discrete}
use cs165db.Word.{add32}
use cs165db.Run.{Returns, Returns-map}
use cs165db.BitVector.{BitVector, mark_bv, unmark_bv}
use cs165db.BitVector.View.{bit_at, IsShaped}
use cs165db.BitVector.Mark.{Toggled, mark_bv-Toggled, unmark_bv-Toggled}

-- The number of bits set below `n`.
unfoldable pub popcount : List ℕ → ℕ → ℕ
popcount vec zero = 0
popcount vec (suc n) = popcount vec n + bit_at vec n

-- The counter tells how many of the vector's bits are set.
abbrev pub IsCounted : BitVector → Type 0
IsCounted bv = bv.count ≡ popcount bv.vec bv.size

pub popcount-le : (vec : List ℕ) (n : ℕ) → popcount vec n ≤ n
unfolding popcount
popcount-le vec zero = omega arith
popcount-le vec (suc n) = omega (arith, popcount-le vec n)

-- The number depends only on the bits below the bound.
pub popcount_ext :
    (u v : List ℕ) (n : ℕ)
    → ((j : ℕ) → j < n → bit_at u j ≡ bit_at v j)
    → popcount u n ≡ popcount v n
unfolding popcount
popcount_ext u v zero h = refl
popcount_ext u v (suc n) h =
    ap₂ ◌+◌ (popcount_ext u v n (λ j p. h j (omega arith))) (h n (omega arith))

-- If the two differ at one place below the bound, so do the numbers.
popcount_change :
    (u v : List ℕ) (i d n : ℕ)
    → i < n
    → ((j : ℕ) → bit_at v j ≡ (if i == j then d else bit_at u j))
    → popcount v n + bit_at u i ≡ popcount u n + d
unfolding popcount
popcount_change u v i d zero p h = absurd (omega arith)
popcount_change u v i d (suc n) p h = elim (ℕ_discrete i n) [
  | yes e ↦
      let same : popcount v n ≡ popcount u n =
        popcount_ext v u n (λ j q. h j ∙ rw (==_of_ne i j (λ w. omega arith))) in
      let new : bit_at v n ≡ d = h n ∙ rw (e, ==-self n) in
      let old : bit_at u i ≡ bit_at u n = ap (λ t. bit_at u t) e in sum _ _ _ _ _ _ same new old
  | no ne ↦
      let new : bit_at v n ≡ bit_at u n = h n ∙ rw (==_of_ne i n ne) in
      sum' _ _ _ _ _ _ (popcount_change u v i d n (omega arith) h) new
]
  where
    sum : (pv pu a b c e : ℕ) → pv ≡ pu → a ≡ e → b ≡ c → pv + a + b ≡ pu + c + e
    sum pv pu a b c e x y z = omega arith

    sum' : (pv pu a b c e : ℕ) → pv + b ≡ pu + e → a ≡ c → pv + a + b ≡ pu + c + e
    sum' pv pu a b c e x y = omega arith

-- Where the counter of a shaped vector is the number of its set bits, mark_bv at an index inside
-- it keeps it so if the bit was clear, and leaves it one too high if the bit was set.
pub mark_bv-count :
    (bv : BitVector) (i : ℕ)
    → IsShaped bv
    → i < bv.size
    → IsCounted bv
    → Returns
        (mark_bv bv i)
        (λ after. after.count ≡ popcount after.vec after.size + bit_at bv.vec i)
mark_bv-count bv i s h c =
    Returns-map (Toggled bv i 1) _ (mark_bv bv i) (mark_bv-Toggled bv i s h) λ after t.
      let same : popcount after.vec after.size ≡ popcount after.vec bv.size =
        ap (λ n. popcount after.vec n) t.size_kept in
      omega (
        arith,
        t.counted,
        same,
        s.small,
        popcount-le bv.vec bv.size,
        popcount_change bv.vec after.vec i 1 bv.size h t.bits,
      )

-- Where the counter of a shaped vector is the number of its set bits, unmark_bv at an index inside
-- it keeps it so if the bit was set, and leaves it one too low, modulo 2^32, if it was clear.
pub unmark_bv-count :
    (bv : BitVector) (i : ℕ)
    → IsShaped bv
    → i < bv.size
    → IsCounted bv
    → Returns
        (unmark_bv bv i)
        (λ after. add32 after.count 1 ≡ popcount after.vec after.size + bit_at bv.vec i)
unmark_bv-count bv i s h c =
    Returns-map (Toggled bv i 0) _ (unmark_bv bv i) (unmark_bv-Toggled bv i s h) λ after t.
      let same : popcount after.vec after.size ≡ popcount after.vec bv.size =
        ap (λ n. popcount after.vec n) t.size_kept in
      omega (
        arith,
        t.counted,
        same,
        s.small,
        popcount-le bv.vec bv.size,
        popcount_change bv.vec after.vec i 0 bv.size h t.bits,
      )

-- Where the counter of a shaped vector is the number of its set bits, at an index inside it
-- mark_bv keeps it so if the bit was clear and leaves it one too high if it was set, and unmark_bv
-- keeps it so if the bit was set and leaves it one too low, modulo 2^32, if it was clear.
pub mark_bv_by_op-count :
    (bv : BitVector) (i : ℕ)
    → IsShaped bv
    → i < bv.size
    → IsCounted bv
    → Returns
        (mark_bv bv i)
        (λ after. after.count ≡ popcount after.vec after.size + bit_at bv.vec i)
      × Returns
          (unmark_bv bv i)
          (λ after. add32 after.count 1 ≡ popcount after.vec after.size + bit_at bv.vec i)
mark_bv_by_op-count bv i s h c = (mark_bv-count bv i s h c, unmark_bv-count bv i s h c)
