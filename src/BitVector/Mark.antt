-- ===== src/BitVector/Mark.antt =====
-- `mark_bv` and `unmark_bv` set and clear one bit and leave the others.
use cs165db.Prelude.{
  ℕ, ◌-◌, ◌/◌, ◌%◌, ◌^◌, ◌<◌, ◌≡◌, refl, ap, ◌∙◌, List, length, get_or, bit_and, bit_or, arith,
  ◌==◌, if◌then◌else◌, length-set, get_or-set_self, get_or-set_ne, set, ==-self, ==_of_ne,
}
use native.Mathlib.Decide.{ℕ_discrete}
use cs165db.Bits.{bit, bit-bit_or, bit-bit_and, bit-pow, bit-complement, bit-lt-two}
use cs165db.Word.{word, add32, sub32}
use cs165db.Run.{done, read_lem, write_lem, Returns}
use cs165db.BitVector.{BitVector, or_word, and_not_word, mark_bv, unmark_bv, mark_bv_by_op}
use cs165db.BitVector.View.{bit_at, IsShaped, offset-mod, shift_one_lem}

-- Two indices with the same word and the same place in it are one.
pub same_place : (i j : ℕ) → i / 32 ≡ j / 32 → i % 32 ≡ j % 32 → i ≡ j
same_place i j p q = omega arith

-- A write of one word changes the bits of that word alone.
pub bit_at-set :
    (vec : List ℕ) (w v j : ℕ)
    → w < length vec
    → bit_at (set vec w v) j ≡ (if w == (j / 32) then bit v (j % 32) else bit_at vec j)
bit_at-set vec w v j h = elim (ℕ_discrete w (j / 32)) [
  | yes e ↦
      rw (e, ==-self (j / 32))
        (ap (λ x. bit x (j % 32)) (get_or-set_self vec (j / 32) v 0 (rw e at h)))
  | no n ↦
      rw (==_of_ne w (j / 32) n) (ap (λ x. bit x (j % 32)) (get_or-set_ne vec w (j / 32) v 0 n))
]

pub or_word_lem :
    (vec : List ℕ) (w m : ℕ)
    → w < length vec
    → or_word vec w m ≡ done (set vec w (bit_or (get_or vec w 0) m))
or_word_lem vec w m h = rw (read_lem vec w 0 h) (write_lem vec w (bit_or (get_or vec w 0) m) h)

pub and_not_word_lem :
    (vec : List ℕ) (w m : ℕ)
    → w < length vec
    → and_not_word vec w m ≡ done (set vec w (bit_and (get_or vec w 0) (word - 1 - m)))
and_not_word_lem vec w m h =
    rw (read_lem vec w 0 h) (write_lem vec w (bit_and (get_or vec w 0) (word - 1 - m)) h)

-- One digit of `w | (1 << a)` and of `w & ~(1 << a)`.
bit-or_pow :
    (w a b : ℕ)
    → a < 32
    → b < 32
    → bit (bit_or w (2 ^ a % word)) b ≡ (if a == b then 1 else bit w b)
bit-or_pow w a b p q =
    bit-bit_or w (2 ^ a % word) b ∙ ground (arith, bit-pow a b p q, bit-lt-two w b)

bit-and_complement :
    (w a b : ℕ)
    → a < 32
    → b < 32
    → bit (bit_and w (word - 1 - 2 ^ a % word)) b ≡ (if a == b then 0 else bit w b)
bit-and_complement w a b p q =
    bit-bit_and w (word - 1 - 2 ^ a % word) b
    ∙ ground (arith, bit-complement a b p q, bit-lt-two w b)

pick :
    (i j x b b' d : ℕ)
    → x ≡ (if (i % 32) == (j % 32) then d else b)
    → (i / 32 ≡ j / 32 → b ≡ b')
    → (if (i / 32) == (j / 32) then x else b') ≡ (if i == j then d else b')
pick i j x b b' d e f = ground arith

-- The bits after one of the two, where `v` is the word written and `d` the digit.
bit_at-set_one :
    (vec : List ℕ) (i j v d : ℕ)
    → i / 32 < length vec
    → bit v (j % 32) ≡ (if (i % 32) == (j % 32) then d else bit (get_or vec (i / 32) 0) (j % 32))
    → bit_at (set vec (i / 32) v) j ≡ (if i == j then d else bit_at vec j)
bit_at-set_one vec i j v d h e =
    bit_at-set vec (i / 32) v j h
    ∙ pick i j (bit v (j % 32)) (bit (get_or vec (i / 32) 0) (j % 32)) (bit_at vec j) d e
        (λ p. ap (λ w. bit (get_or vec w 0) (j % 32)) p)

module _ (bv : BitVector) (i : ℕ) (s : IsShaped bv) (h : i < bv.size) where
  marked_word : ℕ
  marked_word = bit_or (get_or bv.vec (i / 32) 0) (2 ^ (i % 32) % word)

  unmarked_word : ℕ
  unmarked_word = bit_and (get_or bv.vec (i / 32) 0) (word - 1 - 2 ^ (i % 32) % word)

  -- The whole effect of each operation, in one equation.
  mark_bv_lem :
      mark_bv bv i
      ≡ done (record bv { vec = set bv.vec (i / 32) marked_word; count = add32 bv.count 1 })
  unfolding mark_bv_by_op marked_word
  mark_bv_lem = rw (
    offset-mod i (omega (arith, s.small)),
    shift_one_lem (i % 32) (omega arith),
    or_word_lem bv.vec (i / 32) (2 ^ (i % 32) % word) (omega (arith, s.long)),
  )

  unmark_bv_lem :
      unmark_bv bv i
      ≡ done (record bv { vec = set bv.vec (i / 32) unmarked_word; count = sub32 bv.count 1 })
  unfolding mark_bv_by_op unmarked_word
  unmark_bv_lem = rw (
    offset-mod i (omega (arith, s.small)),
    shift_one_lem (i % 32) (omega arith),
    and_not_word_lem bv.vec (i / 32) (2 ^ (i % 32) % word) (omega (arith, s.long)),
  )

  bit_at-marked :
      (j : ℕ) → bit_at (set bv.vec (i / 32) marked_word) j ≡ (if i == j then 1 else bit_at bv.vec j)
  unfolding marked_word
  bit_at-marked j =
      bit_at-set_one bv.vec i j (bit_or (get_or bv.vec (i / 32) 0) (2 ^ (i % 32) % word)) 1
        (omega (arith, s.long))
        (bit-or_pow (get_or bv.vec (i / 32) 0) (i % 32) (j % 32) (omega arith) (omega arith))

  bit_at-unmarked :
      (j : ℕ)
      → bit_at (set bv.vec (i / 32) unmarked_word) j ≡ (if i == j then 0 else bit_at bv.vec j)
  unfolding unmarked_word
  bit_at-unmarked j =
      bit_at-set_one bv.vec i j
        (bit_and (get_or bv.vec (i / 32) 0) (word - 1 - 2 ^ (i % 32) % word)) 0
        (omega (arith, s.long))
        (bit-and_complement (get_or bv.vec (i / 32) 0) (i % 32) (j % 32) (omega arith)
          (omega arith))

-- What one call of `mark_bv` or `unmark_bv` leaves: the bit `i` is `d`, the others are as before.
pub record Toggled (bv : BitVector) (i d : ℕ) (after : BitVector) : Type 0 where
  pub shaped : IsShaped after
  pub size_kept : after.size ≡ bv.size
  pub bits : (j : ℕ) → bit_at after.vec j ≡ (if i == j then d else bit_at bv.vec j)
  pub counted : after.count ≡ (if d == 1 then add32 bv.count 1 else sub32 bv.count 1)

-- Inside a shaped vector mark_bv sets exactly its bit, keeps the shape and the size, and counts
-- one more, modulo 2^32.
pub mark_bv-Toggled :
    (bv : BitVector) (i : ℕ) → IsShaped bv → i < bv.size → Returns (mark_bv bv i) (Toggled bv i 1)
mark_bv-Toggled bv i s h =
    rw (Returns, mark_bv_lem bv i s h)
      (record {
        shaped = record {
          long = omega (arith, s.long, length-set bv.vec (i / 32) (marked_word bv i s h));
          small = s.small;
        };
        size_kept = refl;
        bits = bit_at-marked bv i s h;
        counted = refl;
      })

-- Inside a shaped vector unmark_bv clears exactly its bit, keeps the shape and the size, and
-- counts one less, modulo 2^32.
pub unmark_bv-Toggled :
    (bv : BitVector) (i : ℕ) → IsShaped bv → i < bv.size → Returns (unmark_bv bv i) (Toggled bv i 0)
unmark_bv-Toggled bv i s h =
    rw (Returns, unmark_bv_lem bv i s h)
      (record {
        shaped = record {
          long = omega (arith, s.long, length-set bv.vec (i / 32) (unmarked_word bv i s h));
          small = s.small;
        };
        size_kept = refl;
        bits = bit_at-unmarked bv i s h;
        counted = refl;
      })

-- x
pub mark_bv_by_op-Toggled :
    (bv : BitVector) (i : ℕ)
    → IsShaped bv
    → i < bv.size
    → Returns (mark_bv bv i) (Toggled bv i 1) × Returns (unmark_bv bv i) (Toggled bv i 0)
mark_bv_by_op-Toggled bv i s h = (mark_bv-Toggled bv i s h, unmark_bv-Toggled bv i s h)
