-- ===== src/Word.antt =====
-- `uint32_t` and `int`: bit patterns below 2 ^ 32. The signed order of two `int`s is the order of
-- their ranks, the patterns with the sign bit turned over.
use cs165db.Prelude.{ℕ, ◌+◌, ◌-◌, ◌%◌, ◌<◌, ◌≡◌, Bool, arith, ltb, leb}

abbrev pub word : ℕ
word = 0x1_0000_0000

-- The value of the sign bit.
abbrev pub half : ℕ
half = 0x8000_0000

-- `uint32_t` addition and subtraction, and those of `int` as gcc compiles them.
abbrev pub add32 : ℕ → ℕ → ℕ
add32 a b = (a + b) % word

abbrev pub sub32 : ℕ → ℕ → ℕ
sub32 a b = (a + word - b) % word

unfoldable pub rank : ℕ → ℕ
rank x = (x + half) % word

-- `a < b` and `a <= b` of two `int`s.
abbrev pub lt_int : ℕ → ℕ → Bool
lt_int a b = ltb (rank a) (rank b)

abbrev pub le_int : ℕ → ℕ → Bool
le_int a b = leb (rank a) (rank b)

-- The ranks tell patterns apart.
pub rank_injective : (a b : ℕ) → a < word → b < word → rank a ≡ rank b → a ≡ b
unfolding rank
rank_injective a b p q h = omega arith

-- The patterns of the numbers from 0 to 2 ^ 31 - 1 are in their own order.
pub rank-small : (x : ℕ) → x < half → rank x ≡ x + half
unfolding rank
rank-small x h = omega arith
