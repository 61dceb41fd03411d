-- ===== src/Dispatch/Tests.antt =====
-- The theorems on signal delivery at a concrete task table.
use hekaos_series.Base.{◌≡◌, refl, some, [], ◌∷◌, arith}
use hekaos_series.Word.{bit}
use hekaos_series.Samples.{signalled}
use hekaos_series.Tasks.{Kernel, zombie}
use hekaos_series.Tasks.Chain.{has}
use hekaos_series.Exit.{reaper_of}
use hekaos_series.Exit.Reparent.{Family}
use hekaos_series.Dispatch.{kernel_signal_dispatch}
use hekaos_series.Dispatch.Order.{drain, kernel_signal_dispatch-drain}
use hekaos_series.Dispatch.Kill.{kernel_signal_dispatch-kill}

shell_Family : Family 2 (reaper_of signalled) (3 ∷ 4 ∷ []) (2 ∷ []) signalled
unfolding reaper_of has
shell_Family = record {
  not_null = omega arith;
  other = omega arith;
  source = (refl, omega arith, (refl, omega arith, refl));
  target = (refl, omega arith, refl);
  apart = λ a h. ground arith;
  up = λ a h. ground arith;
}

kernel_signal_dispatch-drain_example :
    kernel_signal_dispatch 3 2 signalled ≡ drain 3 2 0x300 32 0 signalled
kernel_signal_dispatch-drain_example = kernel_signal_dispatch-drain 3 2 signalled (omega arith)

kernel_signal_dispatch-kill_example :
    (k' : Kernel) × (kernel_signal_dispatch 3 2 signalled ≡ some k') × (k'.state 2 ≡ zombie)
unfolding bit
kernel_signal_dispatch-kill_example =
    kernel_signal_dispatch-kill 3 2 (3 ∷ 4 ∷ []) (2 ∷ []) (omega arith) signalled (omega arith) refl
      refl shell_Family
