-- ===== src/Word/Lowest.antt =====
-- The lowest set bit of a word, by the arithmetic that the signal code uses: `x & (~x + 1)`, and the
-- shifts that count its position.
use native.Mathlib.Nat.{two-pow-succ}
use hekaos_series.Base.{
  ℕ, zero, suc, ◌-◌, ◌/◌, ◌%◌, ◌^◌, ◌<◌, ◌≡◌, ap, true, false, inl, inr, Bool-cases, bit_and, ◌==◌,
  if◌then◌else◌, arith,
}
use hekaos_series.Word.{bit}
use hekaos_series.Word.Bitwise.{bit_and_digit, bit_and-le}

-- The least `k < n` with bit `k` of `x` set; `n` if there is none.
pub lowest : ℕ → ℕ → ℕ
lowest zero x = 0
lowest (suc n) x = if x % 2 == 1 then 0 else suc (lowest n (x / 2))

-- A word and its complement share no bit.
bit_and-complement : (n x : ℕ) → x < 2 ^ n → bit_and x (2 ^ n - 1 - x) ≡ 0
bit_and-complement zero x h = omega (arith, bit_and-le x x (2 ^ 0 - 1 - x))
bit_and-complement (suc n) x h =
    let halved : (2 ^ suc n - 1 - x) / 2 ≡ 2 ^ n - 1 - x / 2 = omega (arith, two-pow-succ n) in
    omega (
      arith,
      bit_and_digit x (2 ^ suc n - 1 - x),
      ap (bit_and (x / 2)) halved,
      bit_and-complement n (x / 2),
      two-pow-succ n,
    )

-- `x & -x` is the lowest set bit.
pub bit_and-negated : (n x : ℕ) → x < 2 ^ n → 0 < x → bit_and x (2 ^ n - x) ≡ 2 ^ lowest n x
unfolding lowest
bit_and-negated zero x h p = absurd (omega arith)
bit_and-negated (suc n) x h p = elim (Bool-cases (x % 2 == 1)) [
  | inl odd ↦
      let halved : (2 ^ suc n - x) / 2 ≡ 2 ^ n - 1 - x / 2 = ground (arith, two-pow-succ n) in
      rw odd (
        ground (
          arith,
          bit_and_digit x (2 ^ suc n - x),
          ap (bit_and (x / 2)) halved,
          bit_and-complement n (x / 2),
          two-pow-succ n,
        ))
  | inr even ↦
      let halved : (2 ^ suc n - x) / 2 ≡ 2 ^ n - x / 2 = ground (arith, two-pow-succ n) in
      rw even (
        ground (
          arith,
          bit_and_digit x (2 ^ suc n - x),
          ap (bit_and (x / 2)) halved,
          bit_and-negated n (x / 2),
          two-pow-succ n,
          two-pow-succ (lowest n (x / 2)),
        ))
]

-- It is set, it is in range, and every bit below it is clear.
pub lowest-lt : (n x : ℕ) → x < 2 ^ n → 0 < x → lowest n x < n
unfolding lowest
lowest-lt zero x h p = absurd (omega arith)
lowest-lt (suc n) x h p = ground (arith, lowest-lt n (x / 2), two-pow-succ n)

pub bit-lowest : (n x : ℕ) → x < 2 ^ n → 0 < x → bit x (lowest n x) ≡ true
unfolding lowest bit
bit-lowest zero x h p = absurd (omega arith)
bit-lowest (suc n) x h p = elim (Bool-cases (x % 2 == 1)) [
  | inl odd ↦ rw odd odd
  | inr even ↦ rw even (bit-lowest n (x / 2) (omega (arith, two-pow-succ n)) (ground arith))
]

pub bit-below_lowest : (n x k : ℕ) → k < lowest n x → bit x k ≡ false
unfolding lowest bit
bit-below_lowest zero x k h = absurd (omega arith)
bit-below_lowest (suc n) x zero h = elim (Bool-cases (x % 2 == 1)) [
  | inl odd ↦ absurd (ground arith)
  | inr even ↦ even
]
bit-below_lowest (suc n) x (suc k) h = bit-below_lowest n (x / 2) k (ground arith)
