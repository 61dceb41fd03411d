-- ===== src/Sched/Tests.antt =====
-- The scheduler's theorems at a concrete task table.
use hekaos_series.Base.{◌≡◌, refl, ◌≢◌, ◌⊎◌, true, false, some, [], ◌∷◌, arith}
use hekaos_series.Samples.{family, machine}
use hekaos_series.Tasks.Chain.{Chain}
use hekaos_series.Sched.{Machine, pick_next_task, after_signals}
use hekaos_series.Sched.Pick.{first_eligible, pick_next_task-first_eligible}
use hekaos_series.Sched.Switch.{Kept, OnCpu, Others, turn, is_due, after_signals-OnCpu}

family_Chain : Chain family.next family.task_list_head (1 ∷ 2 ∷ 3 ∷ 4 ∷ [])
family_Chain =
    (refl, omega arith, (refl, omega arith, (refl, omega arith, (refl, omega arith, refl))))

machine_Others : Others machine.kernel
machine_Others = λ u ne. ground arith

pick_next_task-first_eligible_example :
    pick_next_task 4 family ≡ some (first_eligible family (3 ∷ 4 ∷ 1 ∷ 2 ∷ []))
pick_next_task-first_eligible_example =
    pick_next_task-first_eligible 4 family (1 ∷ []) (3 ∷ 4 ∷ []) family_Chain (omega arith)

after_signals-OnCpu_example :
    (m' : Machine) × (after_signals 9 machine ≡ some m')
    × ((((is_due machine.kernel ≡ false) ⊎ (turn machine.kernel (1 ∷ []) (3 ∷ 4 ∷ []) ≡ 2))
          × Kept machine m')
        ⊎ ((is_due machine.kernel ≡ true)
            × (turn machine.kernel (1 ∷ []) (3 ∷ 4 ∷ []) ≢ 2)
            × OnCpu (turn machine.kernel (1 ∷ []) (3 ∷ 4 ∷ [])) m'))
after_signals-OnCpu_example =
    after_signals-OnCpu 9 machine (1 ∷ []) (3 ∷ 4 ∷ []) family_Chain (omega arith) machine_Others
