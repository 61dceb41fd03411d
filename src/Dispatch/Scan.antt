-- ===== src/Dispatch/Scan.antt =====
-- The bit arithmetic of the dispatch loop, for a mask of one bit.
use hekaos_series.Base.{
  ℕ, zero, suc, ◌+◌, ◌-◌, ◌/◌, ◌^◌, ◌<◌, ◌≡◌, sym, ◌∙◌, true, false, ◌||◌, Option, some, ◌∷◌, arith,
  ◌==◌, if◌then◌else◌, not-not,
}
use native.Mathlib.Nat.{two-pow-succ, one-le-pow}
use hekaos_series.Word.{bit, not32, add32}
use hekaos_series.Word.Bitwise.{eq_of_bits, bit-zero}
use hekaos_series.Word.Lowest.{lowest, bit_and-negated, bit-lowest, bit-below_lowest}
use hekaos_series.Signals.{sig_ign, sig_dfl, sigkill, sigstop, discard, sigmask}
use hekaos_series.Signals.Masks.{is_immutable}
use hekaos_series.Tasks.{Ptr, Kernel}
use hekaos_series.Dispatch.{count_shifts, signum_of, deliver, lowest_bit, sig_default_action}

count_shifts-pow : (n j signum : ℕ) → j < n → count_shifts n (2 ^ j / 2) signum ≡ signum + j
unfolding count_shifts
count_shifts-pow zero j signum h = absurd (omega arith)
count_shifts-pow (suc n) zero signum h = omega arith
count_shifts-pow (suc n) (suc j) signum h =
    let halved : 2 ^ suc j / 2 ≡ 2 ^ j = omega (arith, two-pow-succ j) in
    rw halved (ground (arith, count_shifts-pow n j (signum + 1), one-le-pow j 2))

-- Bit `j` is signal `j + 1`.
pub signum_of-pow : (j : ℕ) → j < 32 → signum_of (2 ^ j) ≡ j + 1
unfolding signum_of
signum_of-pow j h = omega (arith, count_shifts-pow 32 j 1 h)

-- `pending & (~pending + 1)` is the lowest set bit.
pub lowest_bit-pow : (w : ℕ) → w < 2 ^ 32 → 0 < w → lowest_bit w ≡ 2 ^ lowest 32 w
lowest_bit-pow w h p =
    let negated : add32 (not32 w) 1 ≡ 2 ^ 32 - w = omega arith in
    rw negated (bit_and-negated 32 w h p)

-- The lowest set bit is the one below which all are clear.
pub lowest_unique :
    (w j : ℕ)
    → w < 2 ^ 32
    → 0 < w
    → bit w j ≡ true
    → ((i : ℕ) → i < j → bit w i ≡ false)
    → lowest 32 w ≡ j
lowest_unique w j h p set clear =
    let at_lowest = bit-lowest 32 w h p in
    let not_above : ¬ (j < lowest 32 w) = λ lt. ground (arith, bit-below_lowest 32 w j lt) in
    let not_below : ¬ (lowest 32 w < j) = λ lt. ground (arith, clear (lowest 32 w) lt) in
    omega arith

pub zero_of_clear : (w : ℕ) → w < 2 ^ 32 → ((i : ℕ) → i < 32 → bit w i ≡ false) → w ≡ 0
zero_of_clear w h clear = eq_of_bits 32 w 0 h (omega arith) (λ i hi. clear i hi ∙ sym (bit-zero i))

-- What the loop does for one pending signal, by its number: SIGKILL and SIGSTOP always take the
-- default action; an ignored signal is dropped; a user handler is left for the return to user mode;
-- a kernel handler runs. All but a signal left for the user are no longer pending.
unfoldable pub serve : ℕ → Ptr → ℕ → Kernel → Option Kernel
serve fuel t signum k =
    let cleared = discard t (sigmask signum) k in
    let handler = k.handlers t signum in
    if signum == sigkill || signum == sigstop
    then sig_default_action fuel t signum cleared
    else if handler == sig_ign
    then some cleared
    else if handler == sig_dfl
    then sig_default_action fuel t signum cleared
    else if k.is_userspace t
    then some k
    else some (record cleared { ran = (handler, signum) ∷ cleared.ran })

pub deliver-serve :
    (fuel t j : ℕ) (k : Kernel) → j < 32 → deliver fuel t (2 ^ j) k ≡ serve fuel t (j + 1) k
unfolding deliver serve
deliver-serve fuel t j k h =
    let same : j + 1 - 1 ≡ j = omega arith in
    let kill : (j + 1 == sigkill) ≡ (j == 8) = ground arith in
    let stop : (j + 1 == sigstop) ≡ (j == 18) = ground arith in
    rw (signum_of-pow j h, same, is_immutable j, kill, stop, not-not (j == 8 || j == 18))
