-- ===== src/Word/Bitwise.antt =====
-- The bits of `&`, `|`, `~` and of the masks that the kernel builds from them.
use Prim.Native.Nat.{digits, bit_and-bitwise, bit_or-bitwise}
use native.Mathlib.Nat.{
  two-pow-succ, one-le-pow, mod-lt, mod-eq_of_lt, div-add-mod, mul-add-mod_self_left,
}
use hekaos_series.Base.{
  ℕ, zero, suc, ◌+◌, ◌-◌, ◌*◌, ◌/◌, ◌%◌, ◌^◌, ◌≤◌, ◌<◌, ◌≡◌, ◌∙◌, refl, ap, true, false, not, ◌&&◌,
  ◌||◌, min, max, bit_and, bit_or, ◌==◌, if◌then◌else◌, arith,
}
use hekaos_series.Word.{bit, set_bit, clear_bit, not32}

-- Two bounds on the rounds of the digit recursion, both large enough, give the same number.
rounds_agree :
    (g : ℕ → ℕ) (op : ℕ → ℕ → ℕ) (x y m n : ℕ)
    → x ≤ m
    → x ≤ n
    → digits g op m x y ≡ digits g op n x y
rounds_agree g op zero y zero zero le le' = refl
rounds_agree g op zero y zero (suc n) le le' = refl
rounds_agree g op zero y (suc m) zero le le' = refl
rounds_agree g op zero y (suc m) (suc n) le le' = refl
rounds_agree g op (suc x) y zero n le le' = absurd (omega arith)
rounds_agree g op (suc x) y (suc m) zero le le' = absurd (omega arith)
rounds_agree g op (suc x) y (suc m) (suc n) le le' =
    let half = suc x / 2 in
    ap (λ t. t * 2 + op (suc x % 2) (y % 2))
      (rounds_agree g op half (y / 2) m n (omega arith) (omega arith))

zero-bit_and : (y : ℕ) → bit_and 0 y ≡ 0
zero-bit_and y = bit_and-bitwise 0 y

zero-bit_or : (y : ℕ) → bit_or 0 y ≡ y
zero-bit_or y = bit_or-bitwise 0 y

pub bit_and_digit : (x y : ℕ) → bit_and x y ≡ min (x % 2) (y % 2) + 2 * bit_and (x / 2) (y / 2)
bit_and_digit zero y = omega (arith, zero-bit_and (y / 2), zero-bit_and y)
bit_and_digit (suc x) y =
    let half = suc x / 2 in
    let same = rounds_agree (λ t. 0) min half (y / 2) x half (omega arith) (omega arith) in
    omega (arith, same, bit_and-bitwise half (y / 2), bit_and-bitwise (suc x) y)

pub bit_or_digit : (x y : ℕ) → bit_or x y ≡ max (x % 2) (y % 2) + 2 * bit_or (x / 2) (y / 2)
bit_or_digit zero y = omega (arith, zero-bit_or (y / 2), zero-bit_or y)
bit_or_digit (suc x) y =
    let half = suc x / 2 in
    let same = rounds_agree (λ t. t) max half (y / 2) x half (omega arith) (omega arith) in
    omega (arith, same, bit_or-bitwise half (y / 2), bit_or-bitwise (suc x) y)

pub bit_and-halves :
    (a b : ℕ)
    → (bit_and a b / 2 ≡ bit_and (a / 2) (b / 2)) × (bit_and a b % 2 ≡ min (a % 2) (b % 2))
bit_and-halves a b = omega (arith, bit_and_digit a b)

pub bit_or-halves :
    (a b : ℕ) → (bit_or a b / 2 ≡ bit_or (a / 2) (b / 2)) × (bit_or a b % 2 ≡ max (a % 2) (b % 2))
bit_or-halves a b = omega (arith, bit_or_digit a b)

pub bit-bit_and : (a b k : ℕ) → bit (bit_and a b) k ≡ (bit a k && bit b k)
unfolding bit
bit-bit_and a b zero = ground (arith, bit_and-halves a b)
bit-bit_and a b (suc k) = rw ((bit_and-halves a b).0) (bit-bit_and (a / 2) (b / 2) k)

pub bit-bit_or : (a b k : ℕ) → bit (bit_or a b) k ≡ (bit a k || bit b k)
unfolding bit
bit-bit_or a b zero = ground (arith, bit_or-halves a b)
bit-bit_or a b (suc k) = rw ((bit_or-halves a b).0) (bit-bit_or (a / 2) (b / 2) k)

pow-half : (j : ℕ) → 2 ^ suc j / 2 ≡ 2 ^ j
pow-half j = omega (arith, two-pow-succ j)

pub bit-zero : (k : ℕ) → bit 0 k ≡ false
unfolding bit
bit-zero zero = refl
bit-zero (suc k) = bit-zero k

pub bit_and-zero : (x : ℕ) → bit_and x 0 ≡ 0
bit_and-zero x = below x x (omega arith)
  where
    below : (n x : ℕ) → x ≤ n → bit_and x 0 ≡ 0
    below n zero h = zero-bit_and 0
    below zero (suc x) h = absurd (omega arith)
    below (suc n) (suc x) h =
        let rest = below n (suc x / 2) (omega arith) in omega (arith, rest, bit_and_digit (suc x) 0)

-- `1 << j` has the one bit `j`.
pub bit-pow : (j k : ℕ) → bit (2 ^ j) k ≡ (j == k)
unfolding bit
bit-pow zero zero = refl
bit-pow zero (suc k) = ground (arith, bit-zero k)
bit-pow (suc j) zero = ground (arith, two-pow-succ j)
bit-pow (suc j) (suc k) = rw (pow-half j) (ground (arith, bit-pow j k))

-- A word below `2 ^ n` has no bit from `n` on.
pub bit-of_lt : (n x k : ℕ) → x < 2 ^ n → n ≤ k → bit x k ≡ false
unfolding bit
bit-of_lt zero zero k h g = bit-zero k
bit-of_lt zero (suc x) k h g = absurd (omega arith)
bit-of_lt (suc n) x zero h g = absurd (omega arith)
bit-of_lt (suc n) x (suc k) h g =
    bit-of_lt n (x / 2) k (omega (arith, two-pow-succ n)) (omega arith)

-- `~x` within `n` bits turns each of them.
pub bit-complement : (n x k : ℕ) → x < 2 ^ n → k < n → bit (2 ^ n - 1 - x) k ≡ not (bit x k)
unfolding bit
bit-complement zero x k h g = absurd (omega arith)
bit-complement (suc n) x zero h g = ground (arith, two-pow-succ n)
bit-complement (suc n) x (suc k) h g =
    let halved : (2 ^ suc n - 1 - x) / 2 ≡ 2 ^ n - 1 - x / 2 = omega (arith, two-pow-succ n) in
    rw halved (bit-complement n (x / 2) k (omega (arith, two-pow-succ n)) (omega arith))

-- `2 ^ n - 1` has all `n` bits.
pub bit-mask : (n k : ℕ) → k < n → bit (2 ^ n - 1) k ≡ true
unfolding bit
bit-mask zero k h = absurd (omega arith)
bit-mask (suc n) zero h = ground (arith, two-pow-succ n, one-le-pow n 2)
bit-mask (suc n) (suc k) h =
    let halved : (2 ^ suc n - 1) / 2 ≡ 2 ^ n - 1 = omega (arith, two-pow-succ n) in
    rw halved (bit-mask n k (omega arith))

-- A test of one bit: `w & (1 << k)` is `1 << k` or 0.
pub bit_and-pow : (w k : ℕ) → bit_and w (2 ^ k) ≡ (if bit w k then 2 ^ k else 0)
unfolding bit
bit_and-pow w zero = ground (arith, bit_and_digit w 1, bit_and-zero (w / 2))
bit_and-pow w (suc k) = ground (
  arith,
  bit_and_digit w (2 ^ suc k),
  pow-half k,
  two-pow-succ k,
  bit_and-pow (w / 2) k,
  one-le-pow k 2,
)

-- and with the operands the other way round
pub pow-bit_and : (k w : ℕ) → bit_and (2 ^ k) w ≡ (if bit w k then 2 ^ k else 0)
unfolding bit
pow-bit_and zero w = ground (arith, bit_and_digit 1 w, zero-bit_and (w / 2))
pow-bit_and (suc k) w = ground (
  arith,
  bit_and_digit (2 ^ suc k) w,
  pow-half k,
  two-pow-succ k,
  pow-bit_and k (w / 2),
  one-le-pow k 2,
)

mod-pow_step : (w k : ℕ) → w % 2 ^ suc k ≡ (w / 2 % 2 ^ k) * 2 + w % 2
mod-pow_step w k =
    let q = w / 2 / 2 ^ k in
    let s = (w / 2 % 2 ^ k) * 2 + w % 2 in
    let small : w / 2 % 2 ^ k < 2 ^ k = mod-lt (w / 2) (one-le-pow k 2 (omega arith)) in
    let fits : s < 2 ^ suc k = omega (arith, two-pow-succ k, small) in
    let whole : w ≡ 2 ^ suc k * q + s =
      omega (arith, div-add-mod (w / 2) (2 ^ k), ap (λ (t : ℕ). t * q) (two-pow-succ k)) in
    ap (λ t. t % 2 ^ suc k) whole ∙ mul-add-mod_self_left (2 ^ suc k) q s ∙ mod-eq_of_lt fits

-- A mask of `k` ones keeps the remainder.
pub bit_and-mask : (w k : ℕ) → bit_and w (2 ^ k - 1) ≡ w % 2 ^ k
bit_and-mask w zero = omega (arith, bit_and-zero w)
bit_and-mask w (suc k) =
    let halved : (2 ^ suc k - 1) / 2 ≡ 2 ^ k - 1 = omega (arith, two-pow-succ k) in
    omega (
      arith,
      bit_and_digit w (2 ^ suc k - 1),
      ap (bit_and (w / 2)) halved,
      bit_and-mask (w / 2) k,
      mod-pow_step w k,
      two-pow-succ k,
      one-le-pow k 2,
    )

pub pow-lt : (n k : ℕ) → k < n → 2 ^ k < 2 ^ n
pow-lt zero k h = absurd (omega arith)
pow-lt (suc n) zero h = omega (arith, two-pow-succ n, one-le-pow n 2)
pow-lt (suc n) (suc k) h = omega (arith, two-pow-succ n, two-pow-succ k, pow-lt n k)

pub bit_or-lt : (n a b : ℕ) → a < 2 ^ n → b < 2 ^ n → bit_or a b < 2 ^ n
bit_or-lt zero zero zero p q = omega (arith, zero-bit_or 0)
bit_or-lt zero (suc a) b p q = absurd (omega arith)
bit_or-lt zero zero (suc b) p q = absurd (omega arith)
bit_or-lt (suc n) a b p q = omega (
  arith,
  two-pow-succ n,
  bit_or_digit a b,
  bit_or-lt n (a / 2) (b / 2) (omega (arith, two-pow-succ n)) (omega (arith, two-pow-succ n)),
)

pub bit_and-le : (n a b : ℕ) → a ≤ n → bit_and a b ≤ a
bit_and-le n zero b h = omega (arith, zero-bit_and b)
bit_and-le zero (suc a) b h = absurd (omega arith)
bit_and-le (suc n) (suc a) b h =
    omega (arith, bit_and_digit (suc a) b, bit_and-le n (suc a / 2) (b / 2) (omega arith))

-- Two words of `n` bits with the same bits are equal.
pub eq_of_bits : (n a b : ℕ) → a < 2 ^ n → b < 2 ^ n → ((k : ℕ) → k < n → bit a k ≡ bit b k) → a ≡ b
unfolding bit
eq_of_bits zero a b p q same = omega arith
eq_of_bits (suc n) a b p q same =
    let low : (a % 2 == 1) ≡ (b % 2 == 1) = same 0 (omega arith) in
    let high : a / 2 ≡ b / 2 =
      eq_of_bits n (a / 2) (b / 2) (omega (arith, two-pow-succ n)) (omega (arith, two-pow-succ n))
        (λ k h. same (suc k) (omega arith)) in
    ground (arith, low, high)

-- `w |= 1 << k` turns on bit `k` and no other.
pub bit-set_bit : (w k j : ℕ) → bit (set_bit w k) j ≡ (if k == j then true else bit w j)
bit-set_bit w k j = ground (arith, bit-bit_or w (2 ^ k) j, bit-pow k j)

-- `w &= ~(1 << k)` turns off bit `k` and no other of the 32.
pub bit-clear_bit :
    (w k j : ℕ) → k < 32 → j < 32 → bit (clear_bit w k) j ≡ (if k == j then false else bit w j)
bit-clear_bit w k j hk hj =
    ground (
      arith,
      bit-bit_and w (not32 (2 ^ k)) j,
      bit-complement 32 (2 ^ k) j,
      pow-lt 32 k,
      bit-pow k j,
    )
