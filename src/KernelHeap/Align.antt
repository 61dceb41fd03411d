-- ===== src/KernelHeap/Align.antt =====
-- `ALIGN8`: a mask of the low bits rounds a size up to a multiple of 8.
use hekaos_series.Base.{ℕ, ◌+◌, ◌*◌, ◌/◌, ◌%◌, ◌^◌, ◌<◌, bit_and, ◌≡◌, ◌∙◌, arith}
use hekaos_series.Word.Bitwise.{bit_and_digit, bit_and-mask}
use hekaos_series.KernelHeap.{align8}

low_bits : (x : ℕ) → x < 2 ^ 32 → bit_and x 0xffff_fff8 ≡ x / 8 * 8
low_bits x lt = omega (
  arith,
  bit_and_digit x 0xffff_fff8,
  bit_and_digit (x / 2) 0x7fff_fffc,
  bit_and_digit (x / 2 / 2) 0x3fff_fffe,
  bit_and-mask (x / 2 / 2 / 2) 29,
)

pub align8-up : (n : ℕ) → n + 7 < 2 ^ 32 → align8 n ≡ (n + 7) / 8 * 8
unfolding align8
align8-up n lt = low_bits ((n + 7) % 2 ^ 32) (omega arith) ∙ omega arith
