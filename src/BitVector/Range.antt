-- ===== src/BitVector/Range.antt =====
-- `mark_bv_by_range`.
use cs165db.Prelude.{
  ℕ, ◌+◌, ◌-◌, ◌*◌, ◌/◌, ◌%◌, ◌≤◌, ◌<◌, ◌≡◌, ◌≢◌, ap, ◌∙◌, Bool, List, length, max, arith, ltb, leb,
  ◌==◌, ◌&&◌, if◌then◌else◌, true, ==_of_ne,
}
use native.Mathlib.Decide.{ℕ_discrete}
use cs165db.Bits.{bit-range_mask, bit-low_mask, bit-high_mask, low_mask, high_mask, range_mask}
use cs165db.Word.{word, add32}
use cs165db.Run.{fault, Returns, Returns-bind, Returns-map, Returns-done, ◌>>=◌}
use cs165db.BitVector.{
  BitVector, or_word, fill_words, unmark_all_bv, mark_range_words, mark_bv_by_range,
}
use cs165db.BitVector.View.{words, bit_at, IsShaped, offset-mod, shift_one_lem}
use cs165db.BitVector.All.{
  Ored, one_word, span, or_word-Ored, fill_words-Ored, AllBits, unmark_all_bv-AllBits,
}

zero_max : (x : ℕ) → max 0 x ≡ x
zero_max x = omega arith

==_of_eq : {a b : ℕ} → a ≡ b → (a == b) ≡ true
==_of_eq e = ground arith

-- The bits that a call with `low` and `high` is to set.
abbrev pub in_range : ℕ → ℕ → ℕ → ℕ
in_range low high j = if leb low j && leb j high then 1 else 0

module _ (low high j : ℕ) (ordered : low ≤ high) (small : high % 32 < 31) where
  range-one_word :
      low / 32 ≡ high / 32
      → one_word (low / 32) (range_mask (low % 32) (high % 32)) j ≡ in_range low high j
  range-one_word e =
      rw (bit-range_mask (low % 32) (high % 32) (j % 32) (omega arith) small (omega arith)) (
        places (low % 32) (low / 32) (high % 32) (high / 32) (j % 32) (j / 32) (omega arith)
          (omega arith) (omega arith) e (omega arith) (omega arith) (omega arith))
    where
      places :
          (a p b q c r : ℕ)
          → a < 32
          → b < 32
          → c < 32
          → p ≡ q
          → low ≡ p * 32 + a
          → high ≡ q * 32 + b
          → j ≡ r * 32 + c
          → (if p == r then (if leb a c && leb c b then 1 else 0) else 0) ≡ in_range low high j
      places a p b q c r h1 h2 h3 e x y z = ground arith

  range-three :
      low / 32 ≢ high / 32
      → max
          (max
            (span (low / 32 + 1) (high / 32 - (low / 32 + 1)) j)
            (one_word (low / 32) (low_mask (low % 32)) j))
          (one_word (high / 32) (high_mask (high % 32)) j)
        ≡ in_range low high j
  range-three n =
      rw
        (
          bit-low_mask (low % 32) (j % 32) (omega arith) (omega arith),
          bit-high_mask (high % 32) (j % 32) small (omega arith),
        )
        (places (low / 32) (high / 32) (j / 32) (leb (low % 32) (j % 32)) (leb (j % 32) (high % 32))
          (leb low j) (leb j high) (omega arith) (leb-split low j) (leb-split j high))
    where
      leb-split :
          (u v : ℕ)
          → leb u v
            ≡ (if (u / 32) == (v / 32) then leb (u % 32) (v % 32) else ltb (u / 32) (v / 32))
      leb-split u v =
          parts (u % 32) (u / 32) (v % 32) (v / 32) (omega arith) (omega arith) (omega arith)
            (omega arith)
        where
          parts :
              (a p b q : ℕ)
              → a < 32
              → b < 32
              → u ≡ p * 32 + a
              → v ≡ q * 32 + b
              → leb u v ≡ (if p == q then leb a b else ltb p q)
          parts a p b q h k e f = ground arith

      places :
          (p q r : ℕ) (x y s t : Bool)
          → p < q
          → s ≡ (if p == r then x else ltb p r)
          → t ≡ (if r == q then y else ltb r q)
          → max
              (max
                (if leb (p + 1) r && ltb r (p + 1 + (q - (p + 1))) then 1 else 0)
                (if p == r then (if x then 1 else 0) else 0))
              (if q == r then (if y then 1 else 0) else 0)
            ≡ (if s && t then 1 else 0)
      places p q r x y s t h d e = ground arith

-- What `mark_bv_by_range` leaves: exactly the bits from `low` to `high` are set, and counted.
pub record RangeMarked (bv : BitVector) (low high : ℕ) (after : BitVector) : Type 0 where
  pub shaped : IsShaped after
  pub size_kept : after.size ≡ bv.size
  pub bits : (j : ℕ) → j < bv.size → bit_at after.vec j ≡ in_range low high j
  pub counted : after.count ≡ high - low + 1

module _ (vec : List ℕ) (low high size : ℕ) (ordered : low ≤ high) (inside : high < size)
    (long : words size ≤ length vec) (fits : size + 32 ≤ word) (small : high % 32 < 31)
    (clear : (j : ℕ) → j < size → bit_at vec j ≡ 0) where
  -- The words after the call.
  abbrev Written : List ℕ → Type 0
  Written after =
      (length after ≡ length vec) × ((j : ℕ) → j < size → bit_at after j ≡ in_range low high j)

  one_word-Written :
      low / 32 ≡ high / 32
      → Returns (or_word vec (low / 32) (range_mask (low % 32) (high % 32))) Written
  one_word-Written e =
      Returns-map (Ored vec (one_word (low / 32) (range_mask (low % 32) (high % 32)))) Written
        (or_word vec (low / 32) (range_mask (low % 32) (high % 32)))
        (or_word-Ored vec (low / 32) (range_mask (low % 32) (high % 32)) (omega arith))
        λ v o. (
          o.long,
          λ j p. o.bits j ∙ rw (clear j p, zero_max) (range-one_word low high j ordered small e),
        )

  three-Written :
      low / 32 ≢ high / 32
      → Returns
          (fill_words (high / 32 - (low / 32 + 1)) (low / 32 + 1) vec >>= λ filled.
            or_word filled (low / 32) (low_mask (low % 32)) >>= λ with_low.
            or_word with_low (high / 32) (high_mask (high % 32)))
          Written
  three-Written n =
      Returns-bind (Ored vec (span (low / 32 + 1) (high / 32 - (low / 32 + 1)))) Written
        (fill_words (high / 32 - (low / 32 + 1)) (low / 32 + 1) vec) _
        (fill_words-Ored (high / 32 - (low / 32 + 1)) (low / 32 + 1) vec (omega arith))
        λ u o.
          Returns-bind (Ored u (one_word (low / 32) (low_mask (low % 32)))) Written
            (or_word u (low / 32) (low_mask (low % 32))) _
            (or_word-Ored u (low / 32) (low_mask (low % 32)) (omega (arith, o.long)))
            λ v r.
              Returns-map (Ored v (one_word (high / 32) (high_mask (high % 32)))) Written
                (or_word v (high / 32) (high_mask (high % 32)))
                (or_word-Ored v (high / 32) (high_mask (high % 32)) (omega (arith, o.long, r.long)))
                λ w t. (
                  omega (arith, o.long, r.long, t.long),
                  λ j p.
                      t.bits j
                      ∙ rw (r.bits j, o.bits j, clear j p, zero_max)
                          (range-three low high j ordered small n),
                )

  mark_range_words-Written : Returns (mark_range_words vec low high) Written
  unfolding mark_range_words
  mark_range_words-Written =
      rw
        (
          Returns,
          offset-mod low (omega arith),
          shift_one_lem (low % 32) (omega arith),
          offset-mod high (omega arith),
          next_bit,
          shift_one_lem (high % 32 + 1) (omega arith),
        )
        (elim (ℕ_discrete (low / 32) (high / 32)) [
          | yes e ↦ rw (==_of_eq e) (one_word-Written e)
          | no n ↦ rw (==_of_ne (low / 32) (high / 32) n) (three-Written n)
        ])
    where
      next_bit : add32 (high % 32) 1 ≡ high % 32 + 1
      next_bit = omega arith

-- On a shaped vector with low ≤ high < size and high not the last place of its word,
-- mark_bv_by_range leaves exactly the bits from low to high set, and counts them.
pub mark_bv_by_range-RangeMarked :
    (bv : BitVector) (low high : ℕ)
    → IsShaped bv
    → low ≤ high
    → high < bv.size
    → high % 32 < 31
    → Returns (mark_bv_by_range bv low high) (RangeMarked bv low high)
unfolding mark_bv_by_range
mark_bv_by_range-RangeMarked bv low high s ordered inside small =
    Returns-bind (AllBits bv 0) (RangeMarked bv low high) (unmark_all_bv bv) _
      (unmark_all_bv-AllBits bv s)
      λ c a.
        Returns-bind (Written c.vec low high bv.size ordered inside (long c a) s.small small a.bits)
          (RangeMarked bv low high) (mark_range_words c.vec low high) _
          (mark_range_words-Written c.vec low high bv.size ordered inside (long c a) s.small small
            a.bits)
          λ v w. record {
            shaped = record { long = omega (arith, a.shaped.long, w.0); small = a.shaped.small };
            size_kept = a.size_kept;
            bits = w.1;
            counted = omega (arith, s.small);
          }
  where
    long : (c : BitVector) → AllBits bv 0 c → words bv.size ≤ length c.vec
    long c a =
        let e : words c.size ≡ words bv.size = ap words a.size_kept in omega (arith, a.shaped.long)

-- On a shaped vector, where low and high fit 32 bits and high is the last place of its word,
-- mark_bv_by_range shifts 1 by 32, which is undefined.
pub mark_bv_by_range-fault :
    (bv : BitVector) (low high : ℕ)
    → IsShaped bv
    → low < word
    → high < word
    → high % 32 ≡ 31
    → mark_bv_by_range bv low high ≡ fault
unfolding mark_bv_by_range mark_range_words
mark_bv_by_range-fault bv low high s l h last =
    let (c, e, a) = Returns-done (AllBits bv 0) (unmark_all_bv bv) (unmark_all_bv-AllBits bv s) in
    rw (e, offset-mod low l, shift_one_lem (low % 32) (omega arith), offset-mod high h, next_bit)
  where
    next_bit : add32 (high % 32) 1 ≡ 32
    next_bit = omega arith
