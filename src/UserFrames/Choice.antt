-- ===== src/UserFrames/Choice.antt =====
-- Which signal `signal_check_and_deliver` delivers.
use hekaos_series.Base.{
  ℕ, zero, suc, ◌+◌, ◌-◌, ◌^◌, ◌≤◌, ◌<◌, bit_and, ◌≡◌, refl, ap, ◌∙◌, inl, inr, Bool, true, false,
  not, ◌&&◌, ◌||◌, some, arith, ◌==◌, if◌then◌else◌, Bool-cases,
}
use hekaos_series.Word.{bit, not32}
use hekaos_series.Word.Bitwise.{bit-pow, pow-lt, bit_and-le, bit-zero}
use hekaos_series.Tasks.{Kernel}
use hekaos_series.Signals.{discard, sigmask, sig_dfl, sig_ign}
use hekaos_series.Signals.Masks.{is_immutable, bit-masked}
use hekaos_series.Dispatch.{lowest_bit}
use hekaos_series.Dispatch.Scan.{signum_of-pow, lowest_bit-pow, lowest_unique, zero_of_clear}
use hekaos_series.UserFrames.{
  TrapFrame, SigFrame, setup_user_sigframe, user_loop, signal_check_and_deliver,
}

-- Signal `j + 1` has a handler of the program's own.
abbrev pub is_handled : Kernel → ℕ → Bool
is_handled k j =
    let handler = k.handlers k.current_task (j + 1) in
    not (j == 8 || j == 18) && not (handler == sig_dfl || handler == sig_ign)

-- What becomes of the kernel, the frame and the stack if the lowest handled signal of the set `w`, from
-- bit `j` on, is delivered; nothing if there is none.
unfoldable pub choose :
    ℕ → ℕ → ℕ → TrapFrame → (ℕ → SigFrame) → Kernel → Kernel × TrapFrame × (ℕ → SigFrame)
choose zero j w frame stack k = (k, frame, stack)
choose (suc n) j w frame stack k =
    let rest = choose n (j + 1) w frame stack k in
    let (frame', stack') =
      setup_user_sigframe frame stack (j + 1) (k.handlers k.current_task (j + 1)) in
    if bit w j && is_handled k j
    then (discard k.current_task (sigmask (j + 1)) k, frame', stack')
    else rest

module _ (frame : TrapFrame) (stack : ℕ → SigFrame) (k : Kernel) where
  choose-congr :
      (n j v w : ℕ)
      → ((i : ℕ) → j ≤ i → i < j + n → bit v i ≡ bit w i)
      → choose n j v frame stack k ≡ choose n j w frame stack k
  unfolding choose
  choose-congr zero j v w same = refl
  choose-congr (suc n) j v w same =
      rw
        (
          same j (omega arith) (omega arith),
          choose-congr n (j + 1) v w (λ i lo hi. same i (omega arith) (omega arith)),
        )
        refl

  cleared_bit :
      (w j i : ℕ) → j < 32 → i < 32 → bit (bit_and w (not32 (2 ^ j))) i ≡ (bit w i && not (j == i))
  cleared_bit w j i hj hi = ground (arith, bit-masked w (2 ^ j) i, pow-lt 32 j, bit-pow j i)

  -- one round of the loop, for the lowest bit `j`
  user_loop_round :
      (n j w : ℕ)
      → j < 32
      → w < 2 ^ 32
      → bit w j ≡ true
      → ((i : ℕ) → i < j → bit w i ≡ false)
      → user_loop (suc n) w frame stack k ≡ (
          if is_handled k j
          then (let (frame', stack') =
                setup_user_sigframe frame stack (j + 1) (k.handlers k.current_task (j + 1)) in
              some (discard k.current_task (sigmask (j + 1)) k, frame', stack'))
          else user_loop n (bit_and w (not32 (2 ^ j))) frame stack k)
  unfolding user_loop
  user_loop_round n j w hj h set clear =
      let pos : 0 < w = ground (arith, bit-zero j) in
      let nonzero : (w == 0) ≡ false = ground arith in
      let mask : lowest_bit w ≡ 2 ^ j =
        lowest_bit-pow w h pos ∙ ap (λ i. 2 ^ i) (lowest_unique w j h pos set clear) in
      let back : j + 1 - 1 ≡ j = omega arith in
      rw (nonzero, mask, signum_of-pow j hj, back, is_immutable j) (ground arith)

  user_loop-choose :
      (m n j w : ℕ)
      → j + m ≡ 32
      → m < n
      → w < 2 ^ 32
      → ((i : ℕ) → i < j → bit w i ≡ false)
      → user_loop n w frame stack k ≡ some (choose m j w frame stack k)
  unfolding user_loop choose
  user_loop-choose m zero j w e enough h clear = absurd (omega arith)
  user_loop-choose zero (suc n) j w e enough h clear =
      let empty : w ≡ 0 = zero_of_clear w h (λ i hi. clear i (omega arith)) in rw empty refl
  user_loop-choose (suc m) (suc n) j w e enough h clear = elim (Bool-cases (bit w j)) [
    | inr off ↦ rw off (
        user_loop-choose m (suc n) (j + 1) w (omega arith) (omega arith) h (λ i hi.
          elim (Bool-cases (i == j)) [
            | inl here ↦ let same : i ≡ j = ground arith in rw same off
            | inr below ↦ clear i (ground arith)
          ]))
    | inl set ↦
        let w' = bit_and w (not32 (2 ^ j)) in
        let small : w' < 2 ^ 32 = omega (arith, bit_and-le w w (not32 (2 ^ j))) in
        let cleared : (i : ℕ) → i < j + 1 → bit w' i ≡ false =
          λ i hi. ground (arith, cleared_bit w j i, clear i) in
        let rest =
          user_loop-choose m n (j + 1) w' (omega arith) (omega arith) small cleared
          ∙ ap some (choose-congr m (j + 1) w' w (λ i lo hi. ground (arith, cleared_bit w j i))) in
        user_loop_round n j w (omega arith) h set clear ∙ elim (Bool-cases (is_handled k j)) [
          | inl mine ↦ rw (set, mine) refl
          | inr not_mine ↦ rw (set, not_mine) rest
        ]
  ]

-- `signal_check_and_deliver` ends within 33 rounds. On the way to kernel mode it changes nothing; on
-- the way to user mode it delivers the lowest pending signal with a handler of the program's own other
-- than SIGKILL and SIGSTOP, that one signal is no longer pending, and nothing changes if there is none.
pub signal_check_and_deliver-choose :
    (frame : TrapFrame) (stack : ℕ → SigFrame) (k : Kernel)
    → k.pending k.current_task < 2 ^ 32
    → signal_check_and_deliver frame stack k
      ≡ some (
          if bit_and frame.cs 3 == 3
          then choose 32 0 (k.pending k.current_task) frame stack k
          else (k, frame, stack))
unfolding signal_check_and_deliver
signal_check_and_deliver-choose frame stack k h = elim (Bool-cases (bit_and frame.cs 3 == 3)) [
  | inr kernel ↦ rw kernel refl
  | inl user ↦ rw user (
      user_loop-choose frame stack k 32 33 0 (k.pending k.current_task) (omega arith) (omega arith)
        h (λ i hi. absurd (omega arith)))
]
