-- ===== src/Boot/Passes.antt =====
-- The boot-time test of the task table passes.
use hekaos_series.Base.{
  ℕ, zero, suc, ◌≤◌, ◌≡◌, refl, ◌≢◌, true, false, ◌&&◌, some, arith, ◌==◌, ==_refl,
}
use hekaos_series.Tasks.{Ptr, null, Kernel, running, task_add_child}
use hekaos_series.Sched.{is_running}
use hekaos_series.Boot.{task_init, has_child, task_test}

-- The two descriptors as src/task.c initialises them, before any task exists.
pub record Initial (k : Kernel) : Type 0 where
  pub init_pid : k.pid k.init_task ≡ 0
  pub init_state : k.state k.init_task ≡ running
  pub kthreadd_pid : k.pid k.kthreadd_task ≡ 2
  pub kthreadd_there : k.kthreadd_task ≢ null
  pub apart : k.kthreadd_task ≢ k.init_task
  pub childless : k.children k.init_task ≡ null

has_child-first :
    (n : ℕ) (c : Ptr) (sibling : Ptr → Ptr)
    → c ≢ null
    → sibling c ≡ null
    → has_child (suc (suc n)) c c sibling ≡ some true
unfolding has_child
has_child-first n c sibling there last =
    let inner : (c == null) ≡ false = ground arith in rw (last, inner, ==_refl c) refl

-- The checks of `task_test`, each for itself.
record Checked (k : Kernel) : Type 0 where
  init_task : (k.pid k.init_task == 0 && is_running (k.state k.init_task)) ≡ true
  list : (k.task_list_head == k.init_task && k.current_task == k.init_task) ≡ true
  kthreadd : (k.pid k.kthreadd_task == 2 && k.parent k.kthreadd_task == k.init_task) ≡ true
  first : k.children k.init_task ≡ k.kthreadd_task
  last : k.sibling k.kthreadd_task ≡ null
  counter : (k.task_counter == 2) ≡ true

task_init-Checked : (cr3 : ℕ) (k : Kernel) → Initial k → Checked (task_init cr3 k).1
unfolding task_init task_add_child
task_init-Checked cr3 k h = record {
  init_task = rw (h.init_pid, h.init_state) refl;
  list = ground arith;
  kthreadd = ground (arith, h.kthreadd_pid);
  first = ground arith;
  last = ground (arith, h.childless);
  counter = refl;
}

task_test-Checked :
    (n pgdir : ℕ) (k : Kernel)
    → pgdir ≢ 0
    → k.kthreadd_task ≢ null
    → Checked k
    → task_test (suc (suc n)) pgdir k ≡ some k
unfolding task_test
task_test-Checked n pgdir k loaded there c =
    let has_cr3 : (pgdir == 0) ≡ false = ground arith in
    let found = has_child-first n k.kthreadd_task k.sibling there c.last in
    rw (c.init_task, c.list, has_cr3, c.kthreadd, c.first, found, c.counter) refl

-- After `task_init` on the statically initialised descriptors, with a page directory loaded, `task_test`
-- ends without a panic, within two rounds of its loop over the children, and changes nothing.
pub task_test-task_init :
    (fuel cr3 : ℕ) (k : Kernel)
    → 2 ≤ fuel
    → cr3 ≢ 0
    → Initial k
    → let (pgdir, k') = task_init cr3 k in task_test fuel pgdir k' ≡ some k'
unfolding task_init task_add_child
task_test-task_init zero cr3 k enough loaded h = absurd (omega arith)
task_test-task_init (suc zero) cr3 k enough loaded h = absurd (omega arith)
task_test-task_init (suc (suc n)) cr3 k enough loaded h =
    task_test-Checked n cr3 (task_init cr3 k).1 loaded h.kthreadd_there (task_init-Checked cr3 k h)
