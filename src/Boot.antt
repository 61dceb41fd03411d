-- ===== src/Boot.antt =====
-- `task_init` and its boot-time test `task_test` of src/task.c. `cr3` is the value of the register that
-- `task_init` stores as the page directory of `init_task`; `none` is a `kpanic`, or a loop that has not
-- ended.
pub mod Passes
mod Tests
use hekaos_series.Base.{
  ℕ, zero, suc, Option, none, some, Bool, true, false, not, ◌&&◌, ◌||◌, ◌==◌, if◌then◌else◌, expect,
  ◌>>=◌, ◌+◌, ◌-◌, ◌*◌, ◌/◌, ◌%◌, ◌^◌, ◌≤◌, ◌<◌, min, max, bit_and, bit_or, ◌≡◌, refl, sym, ap, ◌∙◌,
  ◌≢◌, ◌↔◌, ◌⊎◌, inl, inr, List, [], ◌∷◌, ◌++◌, arith, ltb, leb, Bool-cases, ==_refl, not-not,
  Option-cases, update_self, update, length, length-append,
}
use hekaos_series.Tasks.{Ptr, null, Kernel, task_add_child}
use hekaos_series.Sched.{is_running}

-- the page directory of `init_task`, and the kernel
unfoldable pub task_init : ℕ → Kernel → ℕ × Kernel
task_init cr3 k =
    let k1 = record k { task_list_head = k.init_task; current_task = k.init_task } in
    let k2 = task_add_child k1.init_task k1.kthreadd_task k1 in
    (cr3, record k2 { task_counter = 2 })

-- `task_for_each_child (&init_task, c)`, for whether `child` is among them
unfoldable pub has_child : ℕ → Ptr → Ptr → (Ptr → Ptr) → Option Bool
has_child zero c child sibling = none
has_child (suc n) c child sibling =
    let rest = has_child n (sibling c) child sibling in
    let found = rest >>= λ more. some (c == child || more) in
    if c == null then some false else found

unfoldable pub task_test : ℕ → ℕ → Kernel → Option Kernel
task_test fuel pgdir k = do
  k1 ← expect (k.pid k.init_task == 0 && is_running (k.state k.init_task)) k
  k2 ← expect (k.task_list_head == k.init_task && k.current_task == k.init_task) k1
  k3 ← expect (not (pgdir == 0)) k2
  k4 ← expect (k.pid k.kthreadd_task == 2 && k.parent k.kthreadd_task == k.init_task) k3
  found ← has_child fuel (k.children k.init_task) k.kthreadd_task k.sibling
  k5 ← expect found k4
  expect (k.task_counter == 2) k5
