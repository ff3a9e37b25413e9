-- ===== src/BitVector/View.antt =====
-- The bits of a vector as digits of its words, and what `is_marked` sees of them.
use cs165db.Prelude.{
  ℕ, zero, suc, ◌+◌, ◌/◌, ◌%◌, ◌^◌, ◌≤◌, ◌<◌, ◌≡◌, refl, ap, ◌∙◌, List, length, get_or, not, arith,
  ◌==◌, if◌then◌else◌, lt→ltb, length-replicate, get_or-replicate,
}
use cs165db.Bits.{bit, bit_and-one, bit-zero}
use cs165db.Word.{word}
use cs165db.Run.{done, fault, read_lem, Returns}
use cs165db.Search.{get_ceil}
use cs165db.BitVector.{BitVector, offset_of, shift_one, is_marked, create_bv}

-- The number of words that hold `size` bits.
abbrev pub words : ℕ → ℕ
words size = (size + 31) / 32

-- Bit `i` of the array: 0 or 1.
abbrev pub bit_at : List ℕ → ℕ → ℕ
bit_at vec i = bit (get_or vec (i / 32) 0) (i % 32)

-- The array has a word for each bit, and the size leaves room for the sum of `get_ceil`.
pub record IsShaped (bv : BitVector) : Type 0 where
  pub long : words bv.size ≤ length bv.vec
  pub small : bv.size + 32 ≤ word

pub get_ceil-words : (size : ℕ) → size + 32 ≤ word → get_ceil size 32 ≡ done (words size)
unfolding get_ceil
get_ceil-words size h = ap done (omega arith)

pub offset-mod : (i : ℕ) → i < word → offset_of i ≡ i % 32
offset-mod i h = omega arith

pub shift_one_lem : (k : ℕ) → k < 32 → shift_one k ≡ done (2 ^ k % word)
shift_one_lem k h = ap (λ b. if b then done (2 ^ k % word) else fault) (lt→ltb k 32 h)

-- Inside a shaped vector `is_marked` reads the bit.
pub is_marked_lem :
    (bv : BitVector) (i : ℕ)
    → IsShaped bv
    → i < bv.size
    → is_marked bv i ≡ done (bit_at bv.vec i == 1)
unfolding is_marked
is_marked_lem bv i s h =
    rw
      (
        read_lem bv.vec (i / 32) 0 (omega (arith, s.long)),
        offset-mod i (omega (arith, s.small)),
        bit_and-one,
      )
      (ap done (test (bit_at bv.vec i) (omega arith)))
  where
    test : (d : ℕ) → d < 2 → not (d == 0) ≡ (d == 1)
    test zero p = refl
    test (suc zero) p = refl
    test (suc (suc d)) p = absurd (omega arith)

-- For a size up to 2^32 - 32, create_bv returns a shaped vector of that size with no bit set and a
-- count of 0.
pub create_bv_lem :
    (size : ℕ)
    → size + 32 ≤ word
    → Returns (create_bv size) (λ bv.
      IsShaped bv × (bv.size ≡ size) × (bv.count ≡ 0) × ((i : ℕ) → i < size → bit_at bv.vec i ≡ 0))
unfolding create_bv
create_bv_lem size h =
    rw (Returns, get_ceil-words size h)
      (
        record { long = omega (arith, length-replicate {A = ℕ} (words size) 0); small = h },
        refl,
        refl,
        λ i p.
            ap (λ w. bit w (i % 32)) (get_or-replicate (words size) (i / 32) 0 0 (omega arith))
            ∙ bit-zero (i % 32),
      )
