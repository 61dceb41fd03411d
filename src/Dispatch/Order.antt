-- ===== src/Dispatch/Order.antt =====
-- `kernel_signal_dispatch` as a walk over the signals in ascending order.
use hekaos_series.Base.{
  ℕ, zero, suc, ◌+◌, ◌^◌, ◌≤◌, ◌<◌, bit_and, ◌≡◌, refl, sym, ap, ◌∙◌, inl, inr, Bool, true, false,
  not, ◌&&◌, ◌||◌, Option, some, arith, ◌==◌, if◌then◌else◌, Bool-cases, Option-cases, ◌>>=◌,
}
use hekaos_series.Word.{bit, not32}
use hekaos_series.Word.Bitwise.{bit-pow, bit-zero, pow-lt, bit_and-le}
use hekaos_series.Tasks.{Ptr, Kernel, TaskState}
use hekaos_series.Signals.{is_zombie, is_stopped}
use hekaos_series.Signals.Masks.{bit-masked}
use hekaos_series.Dispatch.{dispatch_loop, kernel_signal_dispatch, lowest_bit}
use hekaos_series.Dispatch.Scan.{lowest_bit-pow, lowest_unique, zero_of_clear, serve, deliver-serve}

-- The task has ended or is stopped.
abbrev pub is_out : TaskState → Bool
is_out s = is_zombie s || is_stopped s

-- Signals `j + 1`, `j + 2`, ..., of `n` signals: each that is in the set `w` is served in turn, until
-- the task is out.
unfoldable pub drain : ℕ → Ptr → ℕ → ℕ → ℕ → Kernel → Option Kernel
drain fuel t w zero j k = some k
drain fuel t w (suc n) j k =
    let served = serve fuel t (j + 1) k >>= drain fuel t w n (j + 1) in
    let passed = drain fuel t w n (j + 1) k in
    if is_out (k.state t) then some k else (if bit w j then served else passed)

module _ (fuel : ℕ) (t : Ptr) where
  drain-congr :
      (n j v w : ℕ) (k : Kernel)
      → ((i : ℕ) → j ≤ i → i < j + n → bit v i ≡ bit w i)
      → drain fuel t v n j k ≡ drain fuel t w n j k
  unfolding drain
  drain-congr zero j v w k same = refl
  drain-congr (suc n) j v w k same =
      let later =
        λ (i : ℕ) (lo : j + 1 ≤ i) (hi : i < j + 1 + n). same i (omega arith) (omega arith) in
      rw (same j (omega arith) (omega arith), drain-congr n (j + 1) v w k later)
        (elim (Option-cases (serve fuel t (j + 1) k)) [
          | inl stuck ↦ rw stuck
          | inr (k', done) ↦ rw (done, drain-congr n (j + 1) v w k' later)
        ])

  drain-clear :
      (n j w : ℕ) (k : Kernel)
      → ((i : ℕ) → j ≤ i → i < j + n → bit w i ≡ false)
      → drain fuel t w n j k ≡ some k
  unfolding drain
  drain-clear zero j w k clear = refl
  drain-clear (suc n) j w k clear =
      rw
        (
          clear j (omega arith) (omega arith),
          drain-clear n (j + 1) w k (λ i lo hi. clear i (omega arith) (omega arith)),
        )
        (ground arith)

  pub drain_out :
      (n j w : ℕ) (k : Kernel) → is_out (k.state t) ≡ true → drain fuel t w n j k ≡ some k
  unfolding drain
  drain_out zero j w k out = refl
  drain_out (suc n) j w k out = rw out

  pub drain_skip :
      (n j w : ℕ) (k : Kernel)
      → bit w j ≡ false
      → drain fuel t w (suc n) j k ≡ drain fuel t w n (j + 1) k
  unfolding drain
  drain_skip n j w k skip = elim (Bool-cases (is_out (k.state t))) [
    | inl out ↦ rw (out, drain_out n (j + 1) w k out)
    | inr alive ↦ rw (alive, skip)
  ]

  -- The set without its lowest signal.
  clear_lowest :
      (w j i : ℕ) → j < 32 → i < 32 → bit (bit_and w (not32 (2 ^ j))) i ≡ (bit w i && not (j == i))
  clear_lowest w j i hj hi = ground (arith, bit-masked w (2 ^ j) i, pow-lt 32 j, bit-pow j i)

  pos_of_bit : (w j : ℕ) → bit w j ≡ true → 0 < w
  pos_of_bit zero j set = let off = bit-zero j in cc
  pos_of_bit (suc w) j set = omega arith

  dispatch_loop-empty :
      (n j : ℕ) (k : Kernel) → dispatch_loop fuel (suc n) t 0 k ≡ drain fuel t 0 zero j k
  unfolding dispatch_loop drain
  dispatch_loop-empty n j k = refl

  drain-serve :
      (m n j w w' : ℕ) (k : Kernel)
      → bit w j ≡ true
      → ((k' : Kernel) → dispatch_loop fuel n t w' k' ≡ drain fuel t w m (j + 1) k')
      → (if is_out (k.state t)
          then some k
          else (serve fuel t (j + 1) k >>= dispatch_loop fuel n t w'))
        ≡ drain fuel t w (suc m) j k
  unfolding drain
  drain-serve m n j w w' k set rest = elim (Option-cases (serve fuel t (j + 1) k)) [
    | inl stuck ↦ rw (set, stuck)
    | inr (k', done) ↦ rw (set, done, rest k')
  ]

  -- One round, for the lowest signal `j + 1` of the set.
  dispatch_loop_step :
      (n j w : ℕ) (k : Kernel)
      → j < 32
      → w < 2 ^ 32
      → bit w j ≡ true
      → ((i : ℕ) → i < j → bit w i ≡ false)
      → dispatch_loop fuel (suc n) t w k ≡ (
          if is_out (k.state t)
          then some k
          else (serve fuel t (j + 1) k >>= dispatch_loop fuel n t (bit_and w (not32 (2 ^ j)))))
  unfolding dispatch_loop
  dispatch_loop_step n j w k hj h set clear =
      let pos : 0 < w = pos_of_bit w j set in
      let nonzero : (w == 0) ≡ false = ground arith in
      let mask : lowest_bit w ≡ 2 ^ j =
        lowest_bit-pow w h pos ∙ ap (λ i. 2 ^ i) (lowest_unique w j h pos set clear) in
      rw (nonzero, mask, deliver-serve fuel t j k hj)

  dispatch_loop-drain :
      (m n j w : ℕ) (k : Kernel)
      → j + m ≡ 32
      → m < n
      → w < 2 ^ 32
      → ((i : ℕ) → i < j → bit w i ≡ false)
      → dispatch_loop fuel n t w k ≡ drain fuel t w m j k
  dispatch_loop-drain m zero j w k e enough h clear = absurd (omega arith)
  dispatch_loop-drain zero (suc n) j w k e enough h clear =
      let empty : w ≡ 0 = zero_of_clear w h (λ i hi. clear i (omega arith)) in
      rw empty (dispatch_loop-empty n j k)
  dispatch_loop-drain (suc m) (suc n) j w k e enough h clear = elim (Bool-cases (bit w j)) [
    | inr skip ↦
        dispatch_loop-drain m (suc n) (j + 1) w k (omega arith) (omega arith) h (λ i hi.
          elim (Bool-cases (i == j)) [
            | inl here ↦ let same : i ≡ j = ground arith in rw same skip
            | inr below ↦ clear i (ground arith)
          ])
        ∙ sym (drain_skip m j w k skip)
    | inl set ↦
        let w' = bit_and w (not32 (2 ^ j)) in
        let small : w' < 2 ^ 32 = omega (arith, bit_and-le w w (not32 (2 ^ j))) in
        let cleared : (i : ℕ) → i < j + 1 → bit w' i ≡ false =
          λ i hi. ground (arith, clear_lowest w j i, clear i) in
        let rest = λ (k' : Kernel).
          dispatch_loop-drain m n (j + 1) w' k' (omega arith) (omega arith) small cleared
          ∙ drain-congr m (j + 1) w' w k' (λ i lo hi. ground (arith, clear_lowest w j i)) in
        rw (dispatch_loop_step n j w k (omega arith) h set clear)
          (drain-serve m n j w w' k set rest)
  ]

-- `kernel_signal_dispatch` ends within 33 rounds of its loop, and serves the signals that were pending
-- when it started in ascending order, until the task is a zombie or stopped.
pub kernel_signal_dispatch-drain :
    (fuel t : ℕ) (k : Kernel)
    → k.pending t < 2 ^ 32
    → kernel_signal_dispatch fuel t k ≡ drain fuel t (k.pending t) 32 0 k
unfolding kernel_signal_dispatch
kernel_signal_dispatch-drain fuel t k h =
    dispatch_loop-drain fuel t 32 33 0 (k.pending t) k (omega arith) (omega arith) h
      (λ i hi. absurd (omega arith))
