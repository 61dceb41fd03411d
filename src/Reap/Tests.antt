-- ===== src/Reap/Tests.antt =====
-- The theorem on waits at a shell whose second child ends during its second halt: the SIGCHLD wakes it.
use hekaos_series.Base.{◌≡◌, refl, inl, true, some, [], ◌∷◌, arith, ◌==◌, if◌then◌else◌, update}
use hekaos_series.Exit.{become_zombie}
use hekaos_series.Tasks.{Kernel, blocked}
use hekaos_series.Tasks.Chain.{has}
use hekaos_series.Signals.{set_state, kernel_signal_send, job_control}
use hekaos_series.Samples.{family}
use hekaos_series.Reap.{sys_wait}
use hekaos_series.Reap.Unlink.{Reaped}
use hekaos_series.Reap.Wait.{
  Woken, up, halted, Slept, awake, asleep, Ended, Alive, sys_wait-returns,
}

-- task 3 runs to the end of its quantum; then task 4 runs and ends
abbrev others : Kernel → Kernel
others k =
    if k.time_left 3 == 0
    then become_zombie 4 k
    else record k { time_left = update k.time_left 3 0 }

abbrev later : Kernel
later = others (others (set_state 2 blocked family))

family-Alive : Alive family (3 ∷ 4 ∷ [])
unfolding has
family-Alive a mem = ground (arith, mem)

later-Alive : Alive later (3 ∷ [])
unfolding has become_zombie kernel_signal_send job_control
later-Alive a mem = ground (arith, mem)

queued_four : has 4 (1 ∷ 2 ∷ 3 ∷ 4 ∷ []) ≡ true
unfolding has
queued_four = refl

later-Ended : Ended 9 4 (3 ∷ []) [] (1 ∷ 2 ∷ 3 ∷ 4 ∷ []) later
unfolding become_zombie kernel_signal_send job_control
later-Ended = record {
  children = (refl, omega arith, (refl, omega arith, refl));
  alive = later-Alive;
  ended = refl;
  child = refl;
  some_task = omega arith;
  queue = (refl, omega arith, (refl, omega arith, (refl, omega arith, (refl, omega arith, refl))));
  queued = queued_four;
  few = omega arith;
  few_queued = omega arith;
}

woken : Woken others 2 (set_state 2 blocked family) later
unfolding become_zombie kernel_signal_send job_control
woken =
    halted 1 (set_state 2 blocked family) later refl
      (halted 0 (others (set_state 2 blocked family)) later refl (up later refl))

slept : Slept 9 3 others 1 family later
slept =
    asleep 0 2 family later later (3 ∷ 4 ∷ []) (refl, omega arith, (refl, omega arith, refl))
      family-Alive (omega arith) woken (omega arith) (awake later)

sys_wait-returns_example :
    (k' : Kernel) × (sys_wait 9 3 2 0x0900_0000 others family ≡ some (3, some 0, k'))
    × Reaped 4 (3 ∷ 4 ∷ []) (1 ∷ 2 ∷ 3 ∷ 4 ∷ []) later k'
unfolding become_zombie kernel_signal_send
sys_wait-returns_example =
    sys_wait-returns 9 3 1 0x0900_0000 others 4 (3 ∷ []) [] (1 ∷ 2 ∷ 3 ∷ 4 ∷ []) family later
      (inl (omega arith)) slept later-Ended
