-- ===== src/Syscalls/Permission.antt =====
-- `sys_kill`: whom a task may signal.
use hekaos_series.Base.{
  ℕ, ◌^◌, ◌<◌, ◌≡◌, refl, ◌≢◌, inl, inr, true, false, not, ◌||◌, Option, some, List, arith, leb,
  ◌==◌, Bool-cases, ◌>>=◌, length,
}
use hekaos_series.Tasks.{Ptr, null, Kernel}
use hekaos_series.Tasks.Chain.{Chain}
use hekaos_series.Tasks.Find.{first_with, find_pid-first_with}
use hekaos_series.Signals.{nsig, kernel_signal_send}
use hekaos_series.Signals.Send.{kernel_signal_send-Sent}
use hekaos_series.Dispatch.{kernel_signal_dispatch}
use hekaos_series.Syscalls.{failure, allowed, kill_target, sys_kill}

-- What `sys_kill` does to the kernel `k` for a signal number and a target, as the manual says it.
pub record Verdict (fuel target signum : ℕ) (k : Kernel) (out : Option (ℕ × Kernel)) : Type 0 where
  pub refused :
      (leb nsig signum || (target == null || not (allowed k target))) ≡ true
      → out ≡ some (failure, k)
  pub probed : (target == null || not (allowed k target)) ≡ false → signum ≡ 0 → out ≡ some (0, k)
  pub sent :
      (target == null || not (allowed k target)) ≡ false
      → 0 < signum
      → signum < nsig
      → target ≢ k.current_task
      → out ≡ some (0, kernel_signal_send target signum k)
  pub served :
      (target == null || not (allowed k target)) ≡ false
      → 0 < signum
      → signum < nsig
      → target ≡ k.current_task
      → out ≡ (
          kernel_signal_dispatch fuel target (kernel_signal_send target signum k) >>= λ k'.
          some (0, k'))

-- Given a 32-bit signal number, the null-terminated task list `xs` and more rounds than it has tasks:
-- `sys_kill` fails and changes nothing if the number is no signal, no task has the pid, or the caller
-- is neither root nor of the target's uid or euid; the signal 0 then changes nothing; any other signal
-- is sent to the first task with the pid, and served at once if that is the caller.
pub sys_kill-Verdict :
    (fuel pid signum : ℕ) (k : Kernel) (xs : List Ptr)
    → signum < 2 ^ 32
    → Chain k.next k.task_list_head xs
    → length xs < fuel
    → Verdict fuel (first_with pid k xs) signum k (sys_kill fuel pid signum k)
unfolding sys_kill kill_target
sys_kill-Verdict fuel pid signum k xs small chain enough =
    let found = find_pid-first_with fuel k.task_list_head pid k xs chain enough in
    let target = first_with pid k xs in
    rw found (record {
      refused = λ bad. ground arith;
      probed = λ good e. ground arith;
      sent = λ good pos low other. ground arith;
      served = λ good pos low self. ground arith;
    })

-- Given a 32-bit signal number, the null-terminated task list `xs` and more rounds than it has tasks,
-- and unless the first task with the pid is the caller itself: `sys_kill` returns, and each task that
-- the caller may not signal keeps its state and its pending signals.
pub sys_kill-isolated :
    (fuel pid signum u : ℕ) (k : Kernel) (xs : List Ptr)
    → signum < 2 ^ 32
    → Chain k.next k.task_list_head xs
    → length xs < fuel
    → first_with pid k xs ≢ k.current_task
    → allowed k u ≡ false
    → (r : ℕ) × (k' : Kernel) × (sys_kill fuel pid signum k ≡ some (r, k'))
      × (k'.state u ≡ k.state u)
      × (k'.pending u ≡ k.pending u)
sys_kill-isolated fuel pid signum u k xs small chain enough other out =
    let v = sys_kill-Verdict fuel pid signum k xs small chain enough in
    let target = first_with pid k xs in
    elim (Bool-cases (leb nsig signum || (target == null || not (allowed k target)))) [
      | inl bad ↦ (failure, k, v.refused bad, refl, refl)
      | inr good ↦
          let good' : (target == null || not (allowed k target)) ≡ false = ground arith in
          let low : signum < nsig = ground arith in
          elim (Bool-cases (signum == 0)) [
            | inl probe ↦ (0, k, v.probed good' (ground arith), refl, refl)
            | inr real ↦
                let pos : 0 < signum = ground arith in
                let sent = kernel_signal_send-Sent target signum k pos low in
                let ne : u ≢ target =
                  λ e. let same : allowed k target ≡ false = rw (← e) out in ground arith in
                (
                  0,
                  kernel_signal_send target signum k,
                  v.sent good' pos low other,
                  sent.other_states u ne,
                  sent.other_signals u ne,
                )
          ]
    ]
