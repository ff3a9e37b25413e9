-- ===== src/Bits.antt =====
-- The binary digits of a word: what C's `|`, `&`, `~` and `<<` do to each of them.
mod Tables
pub use Tables.{bit-pow, bit-complement, bit-range_mask, bit-low_mask, bit-high_mask, bit-ones}
use Prim.Native.Nat.{digits, bit_and-bitwise, bit_or-bitwise}
use native.Mathlib.Nat.{pow-succ', div-div-eq-div-mul}
use cs165db.Prelude.{
  ℕ, zero, suc, ◌+◌, ◌*◌, ◌/◌, ◌%◌, ◌^◌, ◌≤◌, ◌<◌, ◌≡◌, refl, ap, ap₂, sym, ◌∙◌, max, min, bit_and,
  bit_or, arith,
}
use Tables.{bit}
pub use Tables.{bit, low_mask, high_mask, range_mask}

bit-suc : (x k : ℕ) → bit x (suc k) ≡ bit (x / 2) k
bit-suc x k =
    ap (λ t. x / t % 2) (pow-succ' 2 k) ∙ ap (λ t. t % 2) (sym (div-div-eq-div-mul x 2 (2 ^ k)))

pub bit-lt-two : (x k : ℕ) → bit x k < 2
bit-lt-two x k = omega arith

pub bit-zero : (k : ℕ) → bit 0 k ≡ 0
bit-zero zero = refl
bit-zero (suc k) = bit-suc 0 k ∙ bit-zero k

bit_at_zero : (x : ℕ) → bit x 0 ≡ x % 2
bit_at_zero x = omega arith

low_digit : (d e : ℕ) → e < 2 → bit (d * 2 + e) 0 ≡ e
low_digit d e h = omega arith

high_digits : (d e : ℕ) → e < 2 → (d * 2 + e) / 2 ≡ d
high_digits d e h = omega arith

-- The native operations are a recursion on digits; each digit of the result is `f` of the two.
module _ (z : ℕ → ℕ) (f : ℕ → ℕ → ℕ) (f_digit : (p q : ℕ) → p < 2 → q < 2 → f p q < 2)
    (z_bit : (b k : ℕ) → bit (z b) k ≡ f 0 (bit b k)) where
  bit-digits : (n a b k : ℕ) → a ≤ n → bit (digits z f n a b) k ≡ f (bit a k) (bit b k)
  bit-digits zero zero b k h = z_bit b k ∙ ap (λ t. f t (bit b k)) (sym (bit-zero k))
  bit-digits zero (suc a) b k h = absurd (omega arith)
  bit-digits (suc n) zero b k h = z_bit b k ∙ ap (λ t. f t (bit b k)) (sym (bit-zero k))
  bit-digits (suc n) (suc a) b zero h =
      let e : f (suc a % 2) (b % 2) < 2 = f_digit (suc a % 2) (b % 2) (omega arith) (omega arith) in
      low_digit (digits z f n (suc a / 2) (b / 2)) (f (suc a % 2) (b % 2)) e
      ∙ ap₂ f (sym (bit_at_zero (suc a))) (sym (bit_at_zero b))
  bit-digits (suc n) (suc a) b (suc k) h =
      let e : f (suc a % 2) (b % 2) < 2 = f_digit (suc a % 2) (b % 2) (omega arith) (omega arith) in
      bit-suc (digits z f n (suc a / 2) (b / 2) * 2 + f (suc a % 2) (b % 2)) k
      ∙ ap (λ t. bit t k) (high_digits (digits z f n (suc a / 2) (b / 2)) (f (suc a % 2) (b % 2)) e)
      ∙ bit-digits n (suc a / 2) (b / 2) k (omega arith)
      ∙ ap₂ f (sym (bit-suc (suc a) k)) (sym (bit-suc b k))

-- `|` and `&` work digit by digit.
pub bit-bit_or : (a b k : ℕ) → bit (bit_or a b) k ≡ max (bit a k) (bit b k)
bit-bit_or a b k =
    ap (λ t. bit t k) (bit_or-bitwise a b)
    ∙ bit-digits (λ y. y) max (λ p q h l. omega arith) (λ y k. omega arith) a a b k (omega arith)

pub bit-bit_and : (a b k : ℕ) → bit (bit_and a b) k ≡ min (bit a k) (bit b k)
bit-bit_and a b k =
    ap (λ t. bit t k) (bit_and-bitwise a b)
    ∙ bit-digits (λ y. 0) min (λ p q h l. omega arith) (λ y k. bit-zero k ∙ omega arith) a a b k
        (omega arith)

digits_zero : (n a : ℕ) → digits (λ y. 0) min n a 0 ≡ 0
digits_zero zero a = refl
digits_zero (suc n) zero = refl
digits_zero (suc n) (suc a) = omega (arith, digits_zero n (suc a / 2))

-- `x & 1`
pub bit_and-one : (x : ℕ) → bit_and x 1 ≡ x % 2
bit_and-one zero = refl
bit_and-one (suc x) = bit_and-bitwise (suc x) 1 ∙ omega (arith, digits_zero x (suc x / 2))
