-- ===== src/Signals/Tests.antt =====
-- The signal theorems at a concrete task table.
use hekaos_series.Base.{◌<◌, ◌≡◌, refl, ◌⊎◌, true, arith}
use hekaos_series.Samples.{family}
use hekaos_series.Tasks.{runnable}
use hekaos_series.Signals.{out_of_range, kernel_signal_send, sigcont, sigusr1}
use hekaos_series.Signals.Send.{Sent, kernel_signal_send-cases}

wakes_blocked : (kernel_signal_send 4 sigusr1 family).state 4 ≡ runnable
unfolding kernel_signal_send
wakes_blocked = refl

kernel_signal_send-cases_example :
    ((out_of_range sigcont ≡ true) × (kernel_signal_send 4 sigcont family ≡ family))
    ⊎ ((0 < sigcont) × (sigcont < 32) × Sent 4 sigcont family (kernel_signal_send 4 sigcont family))
kernel_signal_send-cases_example = kernel_signal_send-cases 4 sigcont family (omega arith)
