-- ===== src/Tasks/Tests.antt =====
-- The task list's theorems at a concrete task table.
use hekaos_series.Base.{◌≡◌, refl, some, [], ◌∷◌, arith}
use hekaos_series.Samples.{family}
use hekaos_series.Tasks.{Kernel, task_remove_child}
use hekaos_series.Tasks.Chain.{has}
use hekaos_series.Tasks.Remove.{Removed, task_remove_child-Removed}

task_remove_child-Removed_example :
    (k' : Kernel) × (task_remove_child 2 2 4 family ≡ some k') × Removed 2 4 (3 ∷ 4 ∷ []) family k'
unfolding has
task_remove_child-Removed_example =
    task_remove_child-Removed 2 2 4 (3 ∷ 4 ∷ []) family
      (refl, omega arith, (refl, omega arith, refl)) refl (omega arith)
