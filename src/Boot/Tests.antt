-- ===== src/Boot/Tests.antt =====
-- The theorem on the boot-time task test at two fresh descriptors.
use hekaos_series.Base.{◌≡◌, refl, some, arith, ◌==◌, if◌then◌else◌}
use hekaos_series.Samples.{family}
use hekaos_series.Tasks.{Kernel, running, blocked}
use hekaos_series.Boot.{task_init, task_test}
use hekaos_series.Boot.Passes.{Initial, task_test-task_init}

-- `init_task` is at 9 and `kthreadd_task` at 10
abbrev booting : Kernel
booting = record family {
  state = λ i. if i == 9 then running else blocked;
  pid = λ i. if i == 10 then 2 else 0;
  children = λ i. 0;
  kthreadd_task = 10;
}

booting-Initial : Initial booting
booting-Initial = record {
  init_pid = refl;
  init_state = refl;
  kthreadd_pid = refl;
  kthreadd_there = omega arith;
  apart = omega arith;
  childless = refl;
}

task_test-task_init_example :
    let (pgdir, k') = task_init 0x0010_0000 booting in task_test 2 pgdir k' ≡ some k'
task_test-task_init_example =
    task_test-task_init 2 0x0010_0000 booting (omega arith) (omega arith) booting-Initial
