-- ===== src/Signals/Masks.antt =====
-- The bits of the signal masks.
use hekaos_series.Base.{ℕ, ◌^◌, ◌<◌, bit_and, ◌≡◌, not, ◌&&◌, ◌||◌, arith, ◌==◌}
use hekaos_series.Word.{bit, not32}
use hekaos_series.Word.Bitwise.{bit-bit_or, bit-bit_and, bit-pow, bit-complement, pow-bit_and}
use native.Mathlib.Nat.{one-le-pow}
use hekaos_series.Signals.{sig_stop_mask, sig_immutable_mask}

pub bit-stop_mask : (j : ℕ) → bit sig_stop_mask j ≡ (j == 18 || j == 19)
bit-stop_mask j = ground (arith, bit-bit_or (2 ^ 18) (2 ^ 19) j, bit-pow 18 j, bit-pow 19 j)

pub bit-immutable_mask : (j : ℕ) → bit sig_immutable_mask j ≡ (j == 8 || j == 18)
bit-immutable_mask j = ground (arith, bit-bit_or (2 ^ 8) (2 ^ 18) j, bit-pow 8 j, bit-pow 18 j)

pub is_stop_signal : (j : ℕ) → (bit_and (2 ^ j) sig_stop_mask == 0) ≡ not (j == 18 || j == 19)
is_stop_signal j = ground (arith, pow-bit_and j sig_stop_mask, bit-stop_mask j, one-le-pow j 2)

pub is_immutable : (j : ℕ) → (bit_and (2 ^ j) sig_immutable_mask == 0) ≡ not (j == 8 || j == 18)
is_immutable j =
    ground (arith, pow-bit_and j sig_immutable_mask, bit-immutable_mask j, one-le-pow j 2)

-- `w &= ~mask`
pub bit-masked :
    (w mask j : ℕ)
    → mask < 2 ^ 32
    → j < 32
    → bit (bit_and w (not32 mask)) j ≡ (bit w j && not (bit mask j))
bit-masked w mask j h hj = ground (arith, bit-bit_and w (not32 mask) j, bit-complement 32 mask j)
