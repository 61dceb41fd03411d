-- ===== src/Word.antt =====
-- Machine words as native numbers: wrap-around and the single bits of a word.
pub mod Bitwise
pub mod Lowest
use hekaos_series.Base.{
  ℕ, zero, suc, ◌+◌, ◌-◌, ◌*◌, ◌/◌, ◌%◌, ◌^◌, ◌≤◌, ◌<◌, ◌≡◌, refl, Bool, true, false, arith, ◌==◌,
  bit_and, bit_or,
}

-- 2 ^ 32, the modulus of `uint32_t`
abbrev pub word_mod : ℕ
word_mod = 2 ^ 32

-- `a + b`, `a - b` and `a * b` on `uint32_t`
abbrev pub add32 : ℕ → ℕ → ℕ
add32 a b = (a + b) % word_mod

abbrev pub sub32 : ℕ → ℕ → ℕ
sub32 a b = (a + word_mod - b) % word_mod

abbrev pub mul32 : ℕ → ℕ → ℕ
mul32 a b = (a * b) % word_mod

-- `~x` on `uint32_t`
abbrev pub not32 : ℕ → ℕ
not32 x = word_mod - 1 - x

-- bit `k` of `x`
unfoldable pub bit : ℕ → ℕ → Bool
bit x zero = x % 2 == 1
bit x (suc k) = bit (x / 2) k

-- `w |= 1 << k` and `w &= ~(1 << k)`
abbrev pub set_bit : ℕ → ℕ → ℕ
set_bit w k = bit_or w (2 ^ k)

abbrev pub clear_bit : ℕ → ℕ → ℕ
clear_bit w k = bit_and w (not32 (2 ^ k))
