-- ===== src/Bits/Tables.antt =====
-- The digits of the masks that bit_vector.c builds, checked for every shift by evaluation.
use cs165db.Prelude.{
  ℕ, zero, suc, ◌+◌, ◌-◌, ◌/◌, ◌%◌, ◌^◌, ◌≤◌, ◌<◌, ◌≡◌, refl, Bool, true, ◌&&◌, leb, ◌==◌, ==_iff,
  if◌then◌else◌, arith,
}
use cs165db.Word.{word, sub32}

-- The digit of `x` at place `k`.
abbrev pub bit : ℕ → ℕ → ℕ
bit x k = x / 2 ^ k % 2

-- `0xffffffff - ((1 << l) - 1)`, `(1 << (h + 1)) - 1`, and the difference of the masks of a range.
abbrev pub low_mask : ℕ → ℕ
low_mask l = sub32 0xffffffff (sub32 (2 ^ l % word) 1)

abbrev pub high_mask : ℕ → ℕ
high_mask h = sub32 (2 ^ (h + 1) % word) 1

abbrev pub range_mask : ℕ → ℕ → ℕ
range_mask l h = sub32 (high_mask h) (sub32 (2 ^ l % word) 1)

-- The test holds at every place under the bound.
throughout : (ℕ → Bool) → ℕ → Bool
throughout test zero = true
throughout test (suc bound) = throughout test bound && test bound

throughout-at :
    (test : ℕ → Bool) (i bound : ℕ) → i < bound → throughout test bound ≡ true → test i ≡ true
unfolding throughout
throughout-at test i zero l e = absurd (omega arith)
throughout-at test i (suc bound) l e = ground (arith, throughout-at test i bound)

-- Two functions of two numbers that agree below the bounds.
agree : ℕ → ℕ → (ℕ → ℕ → ℕ) → (ℕ → ℕ → ℕ) → Bool
agree n m f g = throughout (λ i. throughout (λ k. f i k == g i k) m) n

agree_sound :
    (n m : ℕ) (f g : ℕ → ℕ → ℕ) (i k : ℕ) → agree n m f g ≡ true → i < n → k < m → f i k ≡ g i k
unfolding agree
agree_sound n m f g i k h p q = (==_iff _ _).0 (
    throughout-at (λ k. f i k == g i k) k m q
      (throughout-at (λ i. throughout (λ k. f i k == g i k) m) i n p h))

pow_table : agree 32 32 (λ i k. bit (2 ^ i % word) k) (λ i k. if i == k then 1 else 0) ≡ true
unfolding agree throughout
pow_table = refl

pub bit-pow : (i k : ℕ) → i < 32 → k < 32 → bit (2 ^ i % word) k ≡ (if i == k then 1 else 0)
bit-pow i k =
    agree_sound 32 32 (λ i k. bit (2 ^ i % word) k) (λ i k. if i == k then 1 else 0) i k pow_table

complement_table :
    agree 32 32 (λ i k. bit (word - 1 - 2 ^ i % word) k) (λ i k. if i == k then 0 else 1) ≡ true
unfolding agree throughout
complement_table = refl

pub bit-complement :
    (i k : ℕ) → i < 32 → k < 32 → bit (word - 1 - 2 ^ i % word) k ≡ (if i == k then 0 else 1)
bit-complement i k =
    agree_sound 32 32 (λ i k. bit (word - 1 - 2 ^ i % word) k) (λ i k. if i == k then 0 else 1) i k
      complement_table

ones_table : agree 1 32 (λ i k. bit 0xffffffff k) (λ i k. 1) ≡ true
unfolding agree throughout
ones_table = refl

pub bit-ones : (k : ℕ) → k < 32 → bit 0xffffffff k ≡ 1
bit-ones k = agree_sound 1 32 (λ i k. bit 0xffffffff k) (λ i k. 1) 0 k ones_table (omega arith)

-- The places from `l` on.
low_table : agree 32 32 (λ l k. bit (low_mask l) k) (λ l k. if leb l k then 1 else 0) ≡ true
unfolding agree throughout
low_table = refl

pub bit-low_mask : (l k : ℕ) → l < 32 → k < 32 → bit (low_mask l) k ≡ (if leb l k then 1 else 0)
bit-low_mask l k =
    agree_sound 32 32 (λ l k. bit (low_mask l) k) (λ l k. if leb l k then 1 else 0) l k low_table

-- `(1 << (h + 1)) - 1`: the places up to `h`.
high_table : agree 31 32 (λ h k. bit (high_mask h) k) (λ h k. if leb k h then 1 else 0) ≡ true
unfolding agree throughout
high_table = refl

pub bit-high_mask : (h k : ℕ) → h < 31 → k < 32 → bit (high_mask h) k ≡ (if leb k h then 1 else 0)
bit-high_mask h k =
    agree_sound 31 32 (λ h k. bit (high_mask h) k) (λ h k. if leb k h then 1 else 0) h k high_table

-- The difference of the two masks: the places from `l` to `h`.
range_table :
    throughout
      (λ h.
        agree
          (h + 1)
          32
          (λ l k. bit (range_mask l h) k)
          (λ l k. if leb l k && leb k h then 1 else 0))
      31
    ≡ true
unfolding agree throughout
range_table = refl

pub bit-range_mask :
    (l h k : ℕ)
    → l ≤ h
    → h < 31
    → k < 32
    → bit (range_mask l h) k ≡ (if leb l k && leb k h then 1 else 0)
bit-range_mask l h k p q r =
    agree_sound (h + 1) 32 (λ l k. bit (range_mask l h) k)
      (λ l k. if leb l k && leb k h then 1 else 0) l k
      (throughout-at
        (λ h.
          agree (h + 1) 32 (λ l k. bit (range_mask l h) k)
            (λ l k. if leb l k && leb k h then 1 else 0))
        h 31 q range_table)
      (omega arith) r
