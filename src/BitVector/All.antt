-- ===== src/BitVector/All.antt =====
-- `mark_all_bv` and `unmark_all_bv`, and the words that `|=` leaves.
use cs165db.Prelude.{
  ℕ, zero, suc, ◌+◌, ◌-◌, ◌/◌, ◌%◌, ◌≤◌, ◌<◌, ◌≡◌, refl, ap, ◌∙◌, List, length, get_or, max, bit_or,
  arith, ltb, leb, ◌==◌, ◌&&◌, if◌then◌else◌, length-set, true, ==_of_ne, replicate, drop, ◌++◌,
  length-append, lt→ltb, le→ltb-false, length-replicate, length-drop, get_or-append_left,
  get_or-append_right, get_or-replicate, get_or-drop,
}
use native.Mathlib.Decide.{ℕ_discrete, dec_lt}
use cs165db.Bits.{bit, bit-bit_or, bit-ones, bit-lt-two, bit-zero}
use cs165db.Run.{Returns, Returns-bind, Returns-map}
use cs165db.BitVector.{
  BitVector, or_word, fill_words, mark_all_bv, unmark_all_bv, mark_all_bv_by_op,
}
use cs165db.BitVector.View.{words, bit_at, IsShaped, get_ceil-words}
use cs165db.BitVector.Mark.{bit_at-set, or_word_lem}

le→leb : (a b : ℕ) → a ≤ b → leb a b ≡ true
le→leb a b h = ground arith

-- `after` is `vec` with the digits of `f` ored in.
pub record Ored (vec : List ℕ) (f : ℕ → ℕ) (after : List ℕ) : Type 0 where
  pub long : length after ≡ length vec
  pub bits : (j : ℕ) → bit_at after j ≡ max (bit_at vec j) (f j)

-- One `vec[w] |= mask`.
abbrev pub one_word : ℕ → ℕ → ℕ → ℕ
one_word w mask j = if w == (j / 32) then bit mask (j % 32) else 0

pub or_word-Ored :
    (vec : List ℕ) (w mask : ℕ)
    → w < length vec
    → Returns (or_word vec w mask) (Ored vec (one_word w mask))
or_word-Ored vec w mask h =
    rw (Returns, or_word_lem vec w mask h)
      (record {
        long = length-set vec w _;
        bits = λ j.
            bit_at-set vec w (bit_or (get_or vec w 0) mask) j h ∙ digit j (ℕ_discrete w (j / 32));
      })
  where
    digit :
        (j : ℕ)
        → Dec (w ≡ j / 32)
        → (if w == (j / 32) then bit (bit_or (get_or vec w 0) mask) (j % 32) else bit_at vec j)
          ≡ max (bit_at vec j) (one_word w mask j)
    digit j (yes e) = rw (==_of_eq e) (
        bit-bit_or (get_or vec w 0) mask (j % 32)
        ∙ ap (λ t. max (bit (get_or vec t 0) (j % 32)) (bit mask (j % 32))) e)
      where
        ==_of_eq : {a b : ℕ} → a ≡ b → (a == b) ≡ true
        ==_of_eq e = ground arith
    digit j (no n) = rw (==_of_ne w (j / 32) n) (omega arith)

-- The words `from` to `from + n - 1`.
abbrev pub span : ℕ → ℕ → ℕ → ℕ
span from n j = if leb from (j / 32) && ltb (j / 32) (from + n) then 1 else 0

pub fill_words-Ored :
    (n from : ℕ) (vec : List ℕ)
    → from + n ≤ length vec
    → Returns (fill_words n from vec) (Ored vec (span from n))
unfolding fill_words
fill_words-Ored zero from vec h = record { long = refl; bits = λ j. ground arith }
fill_words-Ored (suc n) from vec h =
    Returns-bind (Ored vec (one_word from 0xffffffff)) (Ored vec (span from (suc n)))
      (or_word vec from 0xffffffff) (fill_words n (from + 1))
      (or_word-Ored vec from 0xffffffff (omega arith))
      λ v o.
        Returns-map (Ored v (span (from + 1) n)) (Ored vec (span from (suc n)))
          (fill_words n (from + 1) v) (fill_words-Ored n (from + 1) v (omega (arith, o.long)))
          λ after r. record {
            long = omega (arith, r.long, o.long);
            bits = λ j.
                joined (j / 32) (bit_at after j) (bit_at v j) (bit_at vec j) (r.bits j)
                  (o.bits j ∙ rw (bit-ones (j % 32) (omega arith)));
          }
  where
    joined :
        (w a b c : ℕ)
        → a ≡ max b (if leb (from + 1) w && ltb w (from + 1 + n) then 1 else 0)
        → b ≡ max c (if from == w then 1 else 0)
        → a ≡ max c (if leb from w && ltb w (from + suc n) then 1 else 0)
    joined w a b c p q = ground arith

-- What `mark_all_bv` and `unmark_all_bv` leave: every bit below the size is `d`.
pub record AllBits (bv : BitVector) (d : ℕ) (after : BitVector) : Type 0 where
  pub shaped : IsShaped after
  pub size_kept : after.size ≡ bv.size
  pub bits : (j : ℕ) → j < bv.size → bit_at after.vec j ≡ d
  pub counted : after.count ≡ (if d == 1 then bv.size else 0)

-- On a shaped vector mark_all_bv sets every bit below the size, keeps the shape and the size, and
-- counts the size.
pub mark_all_bv-AllBits : (bv : BitVector) → IsShaped bv → Returns (mark_all_bv bv) (AllBits bv 1)
unfolding mark_all_bv_by_op
mark_all_bv-AllBits bv s =
    rw (Returns, get_ceil-words bv.size s.small)
      (Returns-bind (Ored bv.vec (span 0 (words bv.size))) (AllBits bv 1)
        (fill_words (words bv.size) 0 bv.vec) _
        (fill_words-Ored (words bv.size) 0 bv.vec (omega (arith, s.long)))
        λ v o. record {
          shaped = record { long = omega (arith, o.long, s.long); small = s.small };
          size_kept = refl;
          bits = λ j p.
              o.bits j ∙ full (j / 32) (bit_at bv.vec j) (bit-lt-two _ (j % 32)) (omega arith);
          counted = refl;
        })
  where
    full :
        (w c : ℕ)
        → c < 2
        → w < words bv.size
        → max c (if leb 0 w && ltb w (0 + words bv.size) then 1 else 0) ≡ 1
    full w c p q = ground arith

word-cleared :
    (n : ℕ) (vec : List ℕ) (w : ℕ)
    → get_or (replicate n 0 ++ drop n vec) w 0 ≡ (if ltb w n then 0 else get_or vec w 0)
word-cleared n vec w = elim (dec_lt w n) [
  | yes p ↦ rw (lt→ltb w n p) (
      get_or-append_left (replicate n 0) (drop n vec) w 0
        (omega (arith, length-replicate {A = ℕ} n 0))
      ∙ get_or-replicate n w 0 0 p)
  | no p ↦ rw (le→ltb-false w n (omega arith)) (
      get_or-append_right (replicate n 0) (drop n vec) w (w - n) 0
        (omega (arith, length-replicate {A = ℕ} n 0))
      ∙ get_or-drop n vec (w - n) w 0 (omega arith))
]

-- On a shaped vector unmark_all_bv clears every bit below the size, keeps the shape and the size,
-- and counts none.
pub unmark_all_bv-AllBits :
    (bv : BitVector) → IsShaped bv → Returns (unmark_all_bv bv) (AllBits bv 0)
unfolding mark_all_bv_by_op
unmark_all_bv-AllBits bv s =
    rw (Returns, get_ceil-words bv.size s.small, le→leb (words bv.size) (length bv.vec) s.long)
      (record {
        shaped = record {
          long = omega (
            arith,
            s.long,
            length-append (replicate (words bv.size) 0) (drop (words bv.size) bv.vec),
            length-replicate {A = ℕ} (words bv.size) 0,
            length-drop (words bv.size) bv.vec,
          );
          small = s.small;
        };
        size_kept = refl;
        bits = λ j p.
            ap (λ w. bit w (j % 32))
              (word-cleared (words bv.size) bv.vec (j / 32)
                ∙ rw (lt→ltb (j / 32) (words bv.size) (omega arith)))
            ∙ bit-zero (j % 32);
        counted = refl;
      })

-- On a shaped vector mark_all_bv sets every bit below the size and counts the size, unmark_all_bv
-- clears every bit below the size and counts none, and both keep the shape and the size.
pub mark_all_bv_by_op-AllBits :
    (bv : BitVector)
    → IsShaped bv
    → Returns (mark_all_bv bv) (AllBits bv 1) × Returns (unmark_all_bv bv) (AllBits bv 0)
mark_all_bv_by_op-AllBits bv s = (mark_all_bv-AllBits bv s, unmark_all_bv-AllBits bv s)
