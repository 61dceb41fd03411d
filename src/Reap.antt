-- ===== src/Reap.antt =====
-- `task_reap` of src/task.c and `sys_wait` of src/cpu/syscall.c: how a parent collects a child that
-- has ended. `none` is a loop that has not ended within the rounds that it was given. What the other
-- tasks do while the processor is halted is an argument of `sys_wait`. The release of the buffers, of
-- the page directory and of the descriptor is left out.
pub mod Unlink
pub mod Wait
mod Tests
use hekaos_series.Base.{
  ℕ, zero, suc, ◌+◌, ◌-◌, ◌*◌, ◌/◌, ◌%◌, ◌^◌, ◌≤◌, ◌<◌, min, max, bit_and, bit_or, ◌≡◌, refl, sym,
  ap, ◌∙◌, ◌≢◌, ◌↔◌, ◌⊎◌, inl, inr, Bool, true, false, not, ◌&&◌, ◌||◌, Option, none, some, List,
  [], ◌∷◌, ◌++◌, arith, ltb, leb, ◌==◌, if◌then◌else◌, Bool-cases, ==_refl, not-not, Option-cases,
  update_self, expect, ◌>>=◌, update, length, length-append,
}
use hekaos_series.Word.{add32}
use hekaos_series.Tasks.{
  Ptr, null, Kernel, TaskState, runnable, running, blocked, zombie, stopped, find_before,
  task_remove_child,
}
use hekaos_series.Sched.{kstack_pages}
use hekaos_series.Signals.{set_state, is_zombie, is_blocked}
use hekaos_series.Syscalls.{failure}

-- `unlink from the scheduler list`
unfoldable pub unlink_task : ℕ → Ptr → Kernel → Option Kernel
unlink_task fuel t k =
    let bypassed = find_before fuel k.task_list_head t k.next >>= λ prev.
    some (if prev == null then k else record k { next = update k.next prev (k.next t) }) in
    if k.task_list_head == t then some (record k { task_list_head = k.next t }) else bypassed

-- the addresses that the `free_page` loop goes through, from page `p` on
unfoldable pub stack_pages : ℕ → ℕ → ℕ → List ℕ
stack_pages zero p base = []
stack_pages (suc n) p base = add32 base (p * 4096) ∷ stack_pages n (p + 1) base

-- the kernel, and the pages of the kernel stack that are given back
unfoldable pub task_reap : ℕ → Ptr → Kernel → Option (Kernel × List ℕ)
task_reap fuel t k = do
  k1 ← if k.parent t == null then some k else task_remove_child fuel (k.parent t) t k
  k2 ← unlink_task fuel t k1
  some (k2, if k2.kstack t == null then [] else stack_pages kstack_pages 0 (k2.kstack t))

-- `task_for_each_child (current_task, c)`: the first that is a ZOMBIE; null if there is none
unfoldable pub first_zombie : ℕ → Ptr → Kernel → Option Ptr
first_zombie zero c k = none
first_zombie (suc n) c k =
    let rest = first_zombie n (k.sibling c) k in
    if c == null then some null else if is_zombie (k.state c) then some c else rest

-- what a wait that returns leaves: the result, the status that it stores at `wstatus`, the kernel
abbrev pub Waited : Type 0
Waited = ℕ × Option ℕ × Kernel

-- `while (current_task->state == TASK_BLOCKED)`: during each halt the others make `meanwhile`
unfoldable pub halt_blocked : ℕ → (Kernel → Kernel) → Kernel → Option Kernel
halt_blocked zero meanwhile k = none
halt_blocked (suc n) meanwhile k =
    let rest = halt_blocked n meanwhile (meanwhile k) in
    if is_blocked (k.state k.current_task) then rest else some k

-- the `while (1)` of `sys_wait`; a caller that is BLOCKED goes on when it is not any more
unfoldable pub wait_loop : ℕ → ℕ → ℕ → Ptr → (Kernel → Kernel) → Kernel → Option Waited
wait_loop fuel halts zero wstatus meanwhile k = none
wait_loop fuel halts (suc n) wstatus meanwhile k =
    first_zombie fuel (k.children k.current_task) k >>= λ z.
    (let sleep =
        halt_blocked halts meanwhile (set_state k.current_task blocked k)
        >>= wait_loop fuel halts n wstatus meanwhile in
      let reap = task_reap fuel z k >>= λ (k', pages).
      some (k.pid z, if wstatus == null then none else some (k.exit_code z), k') in
      if z == null then sleep else reap)

unfoldable pub sys_wait : ℕ → ℕ → ℕ → Ptr → (Kernel → Kernel) → Kernel → Option Waited
sys_wait fuel halts rounds wstatus meanwhile k =
    let waited = wait_loop fuel halts rounds wstatus meanwhile k in
    if k.children k.current_task == null && not (k.current_task == k.init_proc)
    then some (failure, none, k)
    else waited
