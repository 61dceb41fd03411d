-- ===== src/Fork/Tests.antt =====
-- The theorems on forks at a shell with two children.
use hekaos_series.Base.{ℕ, ◌<◌, ◌||◌, ◌==◌, ◌%◌, ◌≡◌, refl, true, false, arith}
use hekaos_series.Fork.{Process, task_fork, zero_mm}
use hekaos_series.Syscalls.{failure}
use hekaos_series.Samples.{family}
use hekaos_series.Fork.Fails.{Kept, stack_page, task_fork-fails}

-- the trap frame is at the end of the shell's kernel stack
abbrev shell : Process
shell = record {
  kernel = family;
  tf = λ i. 0;
  esp = λ i. 0;
  mm = λ i. zero_mm;
  memory = λ a. a % 256;
  mapped = λ va. va == 0xc000_4000 || va == 0xc000_5000;
}

fresh_stack : (p : ℕ) → p < 2 → shell.mapped (stack_page 4 p) ≡ false
fresh_stack p lt = ground arith

task_fork-fails_example :
    ((task_fork (λ va. true) (λ pid. 0x0010_0000) (λ pid. false) 5 0xc000_5fb4 shell).0 ≡ failure)
    × Kept 5 shell
        (task_fork (λ va. true) (λ pid. 0x0010_0000) (λ pid. false) 5 0xc000_5fb4 shell).1
task_fork-fails_example =
    task_fork-fails (λ va. true) (λ pid. 0x0010_0000) (λ pid. false) 5 0xc000_5fb4 shell fresh_stack
      refl
