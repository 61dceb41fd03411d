-- ===== src/SelfTest.antt =====
-- `signal_test` of src/signal.c, the boot-time test of signal delivery. `none` is a `kpanic`, or a
-- loop that has not ended. The test's task is a local variable, at the address `t`; the recording
-- handlers are at the addresses `count` and `order`, and what they record is read from `ran`.
pub mod Passes
mod Tests
use hekaos_series.Base.{
  ℕ, ◌+◌, bit_and, Bool, true, false, not, ◌&&◌, Option, List, [], ◌∷◌, ◌==◌, if◌then◌else◌, expect,
  ◌>>=◌, update,
}
use hekaos_series.Tasks.{Ptr, null, Kernel, TaskState, runnable, running, blocked, zombie, stopped}
use hekaos_series.Signals.{
  sigmask, sigusr1, sigusr2, sigterm, sigchld, sigkill, sigint, sigstop, sigcont, sigfpe, sigill,
  sigsegv, sigbus, sig_ign, sig_dfl, nsig, sig_stop_mask, is_zombie, is_stopped,
  signal_from_exception, kernel_signal_register, kernel_signal_send,
}
use hekaos_series.Sched.{is_runnable}
use hekaos_series.Dispatch.{kernel_signal_dispatch}

-- `memset (&t, 0, sizeof (t))`, with no call recorded
pub zeroed : Ptr → Kernel → Kernel
zeroed t k = record k {
  state = update k.state t runnable;
  pid = update k.pid t 0;
  parent = update k.parent t null;
  children = update k.children t null;
  sibling = update k.sibling t null;
  kstack = update k.kstack t 0;
  next = update k.next t null;
  quantum = update k.quantum t 0;
  time_left = update k.time_left t 0;
  exit_code = update k.exit_code t 0;
  uid = update k.uid t 0;
  euid = update k.euid t 0;
  pending = update k.pending t 0;
  handlers = update k.handlers t (λ j. 0);
  is_userspace = update k.is_userspace t false;
  ran = [];
}

-- the signals with which `handler` was called, latest first
abbrev pub calls_of : ℕ → List (ℕ × ℕ) → List ℕ
calls_of handler [] = []
calls_of handler (c ∷ cs) =
    if c.0 == handler then c.1 ∷ calls_of handler cs else calls_of handler cs

-- the list is of the one element `n`
abbrev pub is_only : ℕ → List ℕ → Bool
is_only n (x ∷ []) = x == n
is_only n _ = false

abbrev pub is_pair : ℕ → ℕ → List ℕ → Bool
is_pair m n (x ∷ y ∷ []) = x == m && y == n
is_pair m n _ = false

abbrev pub is_empty : List ℕ → Bool
is_empty [] = true
is_empty _ = false

pub registered_fires : ℕ → Ptr → Kernel → Option Kernel
registered_fires count t k =
    let k1 = kernel_signal_send t sigusr1 (kernel_signal_register t sigusr1 count (zeroed t k)) in
    do
      k2 ← expect (not (bit_and (k1.pending t) (sigmask sigusr1) == 0)) k1
      k3 ← kernel_signal_dispatch 1 t k2
      k4 ← expect (is_only sigusr1 (calls_of count k3.ran)) k3
      expect (k4.pending t == 0) k4

pub ignored_discards : ℕ → Ptr → Kernel → Option Kernel
ignored_discards count t k = do
  let k1 = kernel_signal_send t sigusr1 (kernel_signal_register t sigusr1 sig_ign (zeroed t k))
  k2 ← kernel_signal_dispatch 1 t k1
  k3 ← expect (is_empty (calls_of count k2.ran)) k2
  expect (not (is_zombie (k3.state t))) k3

pub default_terminates : Ptr → Kernel → Option Kernel
default_terminates t k = do
  k1 ← kernel_signal_dispatch 1 t (kernel_signal_send t sigterm (zeroed t k))
  expect (is_zombie (k1.state t) && k1.exit_code t == 128 + sigterm) k1

pub default_ignores : Ptr → Kernel → Option Kernel
default_ignores t k = do
  k1 ← kernel_signal_dispatch 1 t (kernel_signal_send t sigchld (zeroed t k))
  expect (not (is_zombie (k1.state t))) k1

pub kill_is_immutable : ℕ → Ptr → Kernel → Option Kernel
kill_is_immutable count t k = do
  let k1 = kernel_signal_register t sigkill count (zeroed t k)
  k2 ← expect (k1.handlers t sigkill == sig_dfl) k1
  k3 ← kernel_signal_dispatch 1 t (kernel_signal_send t sigkill k2)
  k4 ← expect (is_empty (calls_of count k3.ran)) k3
  expect (is_zombie (k4.state t) && k4.exit_code t == 128 + sigkill) k4

pub range_is_guarded : ℕ → Ptr → Kernel → Option Kernel
range_is_guarded count t k =
    let k1 = kernel_signal_register t nsig count (kernel_signal_register t 0 count (zeroed t k)) in
    let k2 = kernel_signal_send t nsig (kernel_signal_send t 0 k1) in expect (k2.pending t == 0) k2

pub lowest_comes_first : ℕ → Ptr → Kernel → Option Kernel
lowest_comes_first order t k = do
  let k1 =
      kernel_signal_register t sigusr1 order (kernel_signal_register t sigint order (zeroed t k))
  k2 ← kernel_signal_dispatch 1 t (kernel_signal_send t sigint (kernel_signal_send t sigusr1 k1))
  expect (is_pair sigusr1 sigint (calls_of order k2.ran)) k2

abbrev pub exceptions_map : Bool
exceptions_map =
    signal_from_exception 0 == sigfpe
    && (signal_from_exception 6 == sigill
        && (signal_from_exception 13 == sigsegv
            && (signal_from_exception 14 == sigsegv
                && (signal_from_exception 17 == sigbus && signal_from_exception 99 == 0))))

pub stop_and_continue : Ptr → Kernel → Option Kernel
stop_and_continue t k = do
  k1 ← kernel_signal_dispatch 1 t (kernel_signal_send t sigstop (zeroed t k))
  k2 ← expect (is_stopped (k1.state t)) k1
  k3 ← kernel_signal_dispatch 1 t (kernel_signal_send t sigterm k2)
  k4 ← expect (is_stopped (k3.state t) && not (bit_and (k3.pending t) (sigmask sigterm) == 0)) k3
  let k5 = kernel_signal_send t sigcont k4
  expect (is_runnable (k5.state t) && bit_and (k5.pending t) sig_stop_mask == 0) k5

pub signal_test : ℕ → ℕ → Ptr → Kernel → Option Kernel
signal_test count order t k = do
  k1 ← registered_fires count t k
  k2 ← ignored_discards count t k1
  k3 ← default_terminates t k2
  k4 ← default_ignores t k3
  k5 ← kill_is_immutable count t k4
  k6 ← range_is_guarded count t k5
  k7 ← lowest_comes_first order t k6
  k8 ← expect exceptions_map k7
  stop_and_continue t k8
