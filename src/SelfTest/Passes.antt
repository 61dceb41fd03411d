-- ===== src/SelfTest/Passes.antt =====
-- `signal_test` passes, and leaves the other tasks alone. The test's local task and its two recording
-- handlers are given addresses.
use hekaos_series.Base.{ℕ, false, ◌==◌, ◌≡◌, refl, Option, some, arith, expect, ◌>>=◌}
use hekaos_series.Tasks.Others.{SameBut, SameBut-trans}
use hekaos_series.Tasks.{Ptr, Kernel}
use hekaos_series.Signals.{kernel_signal_register, kernel_signal_send, signal_from_exception}
use hekaos_series.Exit.{do_exit, reparent_all, reaper_of, notify_reaper, become_zombie}
use hekaos_series.Dispatch.{
  kernel_signal_dispatch, dispatch_loop, deliver, sig_default_action, signum_of, count_shifts,
}
use hekaos_series.SelfTest.{
  zeroed, exceptions_map, registered_fires, ignored_discards, default_terminates, default_ignores,
  kill_is_immutable, range_is_guarded, lowest_comes_first, stop_and_continue, signal_test,
}

-- on the stack of the boot code
abbrev pub local_task : Ptr
local_task = 0xc011_e000

abbrev pub count_handler : ℕ
count_handler = 0xc010_1000

abbrev pub order_handler : ℕ
order_handler = 0xc010_1040

-- The step ends without a panic.
Passes : Kernel → Option Kernel → Type 0
Passes k o = (k' : Kernel) × (o ≡ some k') × SameBut local_task k k'

Passes-bind :
    (k : Kernel) (o : Option Kernel) (f : Kernel → Option Kernel)
    → Passes k o
    → ((j : Kernel) → Passes j (f j))
    → Passes k (o >>= f)
unfolding Passes
Passes-bind k o f (j, e, p) next =
    let (k', e', q) = next j in (k', rw e e', SameBut-trans local_task k j k' p q)

registered_fires-Passes : (k : Kernel) → Passes k (registered_fires count_handler local_task k)
unfolding Passes registered_fires zeroed kernel_signal_register kernel_signal_send
    kernel_signal_dispatch dispatch_loop deliver sig_default_action signum_of count_shifts do_exit
    reparent_all reaper_of notify_reaper become_zombie
registered_fires-Passes k = (
  _,
  refl,
  record {
    others = λ u ne. let other : (local_task == u) ≡ false = ground (arith, ne) in rw other refl;
    globals = refl;
  },
)

ignored_discards-Passes : (k : Kernel) → Passes k (ignored_discards count_handler local_task k)
unfolding Passes ignored_discards zeroed kernel_signal_register kernel_signal_send
    kernel_signal_dispatch dispatch_loop deliver sig_default_action signum_of count_shifts do_exit
    reparent_all reaper_of notify_reaper become_zombie
ignored_discards-Passes k = (
  _,
  refl,
  record {
    others = λ u ne. let other : (local_task == u) ≡ false = ground (arith, ne) in rw other refl;
    globals = refl;
  },
)

default_terminates-Passes : (k : Kernel) → Passes k (default_terminates local_task k)
unfolding Passes default_terminates zeroed kernel_signal_register kernel_signal_send
    kernel_signal_dispatch dispatch_loop deliver sig_default_action signum_of count_shifts do_exit
    reparent_all reaper_of notify_reaper become_zombie
default_terminates-Passes k = (
  _,
  refl,
  record {
    others = λ u ne. let other : (local_task == u) ≡ false = ground (arith, ne) in rw other refl;
    globals = refl;
  },
)

default_ignores-Passes : (k : Kernel) → Passes k (default_ignores local_task k)
unfolding Passes default_ignores zeroed kernel_signal_register kernel_signal_send
    kernel_signal_dispatch dispatch_loop deliver sig_default_action signum_of count_shifts do_exit
    reparent_all reaper_of notify_reaper become_zombie
default_ignores-Passes k = (
  _,
  refl,
  record {
    others = λ u ne. let other : (local_task == u) ≡ false = ground (arith, ne) in rw other refl;
    globals = refl;
  },
)

kill_is_immutable-Passes : (k : Kernel) → Passes k (kill_is_immutable count_handler local_task k)
unfolding Passes kill_is_immutable zeroed kernel_signal_register kernel_signal_send
    kernel_signal_dispatch dispatch_loop deliver sig_default_action signum_of count_shifts do_exit
    reparent_all reaper_of notify_reaper become_zombie
kill_is_immutable-Passes k = (
  _,
  refl,
  record {
    others = λ u ne. let other : (local_task == u) ≡ false = ground (arith, ne) in rw other refl;
    globals = refl;
  },
)

range_is_guarded-Passes : (k : Kernel) → Passes k (range_is_guarded count_handler local_task k)
unfolding Passes range_is_guarded zeroed kernel_signal_register kernel_signal_send
    kernel_signal_dispatch dispatch_loop deliver sig_default_action signum_of count_shifts do_exit
    reparent_all reaper_of notify_reaper become_zombie
range_is_guarded-Passes k = (
  _,
  refl,
  record {
    others = λ u ne. let other : (local_task == u) ≡ false = ground (arith, ne) in rw other refl;
    globals = refl;
  },
)

lowest_comes_first-Passes : (k : Kernel) → Passes k (lowest_comes_first order_handler local_task k)
unfolding Passes lowest_comes_first zeroed kernel_signal_register kernel_signal_send
    kernel_signal_dispatch dispatch_loop deliver sig_default_action signum_of count_shifts do_exit
    reparent_all reaper_of notify_reaper become_zombie
lowest_comes_first-Passes k = (
  _,
  refl,
  record {
    others = λ u ne. let other : (local_task == u) ≡ false = ground (arith, ne) in rw other refl;
    globals = refl;
  },
)

stop_and_continue-Passes : (k : Kernel) → Passes k (stop_and_continue local_task k)
unfolding Passes stop_and_continue zeroed kernel_signal_register kernel_signal_send
    kernel_signal_dispatch dispatch_loop deliver sig_default_action signum_of count_shifts do_exit
    reparent_all reaper_of notify_reaper become_zombie
stop_and_continue-Passes k = (
  _,
  refl,
  record {
    others = λ u ne. let other : (local_task == u) ≡ false = ground (arith, ne) in rw other refl;
    globals = refl;
  },
)

exceptions-Passes : (k : Kernel) → Passes k (expect exceptions_map k)
unfolding Passes signal_from_exception
exceptions-Passes k = (k, refl, record { others = λ u ne. refl; globals = refl })

-- `signal_test`, with its local task and its handlers at the addresses given above, ends without a
-- panic, whatever the task table, and leaves all the fields of every other task, the task list, the
-- current task and the other globals as they were.
pub signal_test-SameBut :
    (k : Kernel)
    → (k' : Kernel) × (signal_test count_handler order_handler local_task k ≡ some k')
      × SameBut local_task k k'
unfolding Passes signal_test
signal_test-SameBut k = Passes-bind k _ _ (registered_fires-Passes k) (λ k1.
    Passes-bind k1 _ _ (ignored_discards-Passes k1) (λ k2.
      Passes-bind k2 _ _ (default_terminates-Passes k2) (λ k3.
        Passes-bind k3 _ _ (default_ignores-Passes k3) (λ k4.
          Passes-bind k4 _ _ (kill_is_immutable-Passes k4) (λ k5.
            Passes-bind k5 _ _ (range_is_guarded-Passes k5) (λ k6.
              Passes-bind k6 _ _ (lowest_comes_first-Passes k6) (λ k7.
                Passes-bind k7 _ _ (exceptions-Passes k7) (λ k8. stop_and_continue-Passes k8))))))))
