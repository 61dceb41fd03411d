-- ===== src/Signals/Send.antt =====
-- `kernel_signal_send` and `kernel_signal_register`, on every signal number and task state.
use hekaos_series.Base.{
  ℕ, zero, suc, ◌+◌, ◌-◌, ◌^◌, ◌<◌, bit_and, bit_or, ◌≡◌, ◌≢◌, Bool, false, not, ◌&&◌, ◌||◌, arith,
  ◌==◌, if◌then◌else◌, refl, ◌⊎◌, inl, inr, true, ltb, Bool-cases,
}
use hekaos_series.Word.{bit, not32}
use hekaos_series.Word.Bitwise.{bit-bit_or, bit-pow}
use hekaos_series.Tasks.{Ptr, Kernel, TaskState, runnable, blocked, stopped}
use hekaos_series.Signals.{
  sigcont, sigstop, sigtstp, sigkill, sigmask, sig_stop_mask, out_of_range, kernel_signal_send,
  kernel_signal_register,
}
use hekaos_series.Signals.Masks.{bit-stop_mask, is_stop_signal, is_immutable, bit-masked}

-- Sending `s` discards a pending `d`: SIGCONT discards stop signals, and they discard SIGCONT.
abbrev pub cancels : ℕ → ℕ → Bool
cancels s d =
    (s == sigcont && (d == sigstop || d == sigtstp))
    || ((s == sigstop || s == sigtstp) && d == sigcont)

-- The state of a task to which `s` was sent.
abbrev pub woken_state : TaskState → ℕ → TaskState
woken_state blocked s = runnable
woken_state stopped s = if s == sigcont || s == sigkill then runnable else stopped
woken_state other s = other

-- What `kernel_signal_send` does to the task `t`: signal `s` is pending, the signals that it
-- cancels are not, the other signals stay as they were, and the state is `woken_state`. No other
-- task and no other field changes.
pub record Sent (t s : ℕ) (k k' : Kernel) : Type 0 where
  pub signals :
      (j : ℕ)
      → j < 32
      → bit (k'.pending t) j ≡ ((j + 1 == s) || (bit (k.pending t) j && not (cancels s (j + 1))))
  pub state : k'.state t ≡ woken_state (k.state t) s
  pub other_signals : (u : Ptr) → u ≢ t → k'.pending u ≡ k.pending u
  pub other_states : (u : Ptr) → u ≢ t → k'.state u ≡ k.state u
  pub rest : k' ≡ record k { pending = k'.pending; state = k'.state }

-- The set of pending signals after a send, as the code computes it.
abbrev pending_after : ℕ → ℕ → ℕ
pending_after s w =
    bit_or
      (if s == sigcont
        then bit_and w (not32 sig_stop_mask)
        else (if not (bit_and (sigmask s) sig_stop_mask == 0)
            then bit_and w (not32 (sigmask sigcont))
            else w))
      (sigmask s)

bit-pending_after :
    (s w j : ℕ)
    → 0 < s
    → s < 32
    → j < 32
    → bit (pending_after s w) j ≡ ((j + 1 == s) || (bit w j && not (cancels s (j + 1))))
bit-pending_after zero w j pos hs hj = absurd (omega arith)
bit-pending_after (suc s) w j pos hs hj =
    let e : suc s - 1 ≡ s = omega arith in
    rw e (
      ground (
        arith,
        is_stop_signal s,
        bit-bit_or (bit_and w (not32 sig_stop_mask)) (2 ^ s) j,
        bit-bit_or (bit_and w (not32 (2 ^ 17))) (2 ^ s) j,
        bit-bit_or w (2 ^ s) j,
        bit-masked w sig_stop_mask j,
        bit-masked w (2 ^ 17) j,
        bit-stop_mask j,
        bit-pow s j,
        bit-pow 17 j,
      ))

pub kernel_signal_send-Sent :
    (t s : ℕ) (k : Kernel) → 0 < s → s < 32 → Sent t s k (kernel_signal_send t s k)
unfolding kernel_signal_send
kernel_signal_send-Sent t s k pos hs =
    let fine : out_of_range s ≡ false = ground arith in
    rw fine (record {
      signals = λ j hj. ground (arith, bit-pending_after s (k.pending t) j);
      state = ground arith;
      other_signals = λ u ne. ground arith;
      other_states = λ u ne. ground arith;
      rest = ground arith;
    })

-- For every 32-bit `int`: `kernel_signal_send` changes nothing if the number is no signal, and
-- otherwise makes it pending, drops what it cancels and wakes the task, as `Sent` says.
pub kernel_signal_send-cases :
    (t s : ℕ) (k : Kernel)
    → s < 2 ^ 32
    → ((out_of_range s ≡ true) × (kernel_signal_send t s k ≡ k))
      ⊎ ((0 < s) × (s < 32) × Sent t s k (kernel_signal_send t s k))
unfolding kernel_signal_send
kernel_signal_send-cases t s k small = elim (Bool-cases (out_of_range s)) [
  | inl bad ↦ inl (bad, rw bad)
  | inr good ↦
      let pos : 0 < s = ground arith in
      let low : s < 32 = ground arith in inr (pos, low, kernel_signal_send-Sent t s k pos low)
]

-- `kernel_signal_register` accepts it.
abbrev pub is_catchable : ℕ → Bool
is_catchable s = ltb 0 s && ltb s 32 && not (s == sigkill || s == sigstop)

-- `kernel_signal_register` sets the one handler that it is asked to set if the signal exists and is
-- neither SIGKILL nor SIGSTOP; otherwise, and for every other task and signal, no handler changes.
pub handlers-kernel_signal_register :
    (t s h u j : ℕ) (k : Kernel)
    → s < 2 ^ 32
    → (kernel_signal_register t s h k).handlers u j
      ≡ (if is_catchable s && t == u && s == j then h else k.handlers u j)
unfolding kernel_signal_register
handlers-kernel_signal_register t zero h u j k small = refl
handlers-kernel_signal_register t (suc s) h u j k small =
    let e : suc s - 1 ≡ s = omega arith in rw e (ground (arith, is_immutable s))
