-- ===== src/Tasks.antt =====
-- The task table of include/task.h and src/task.c: every `struct task` of the kernel, and the
-- globals that point into it. A descriptor is an address, and each of its fields is a function of
-- the address, so a write of one field leaves the others alone. 0 is the null pointer.
pub mod Chain
pub mod Find
pub mod Others
pub mod Remove
pub mod Tree
mod Tests
use hekaos_series.Base.{
  ℕ, zero, suc, ◌-◌, Bool, ◌||◌, Option, none, some, List, leb, ◌==◌, if◌then◌else◌, ◌>>=◌, update,
}
use hekaos_series.Word.{add32, sub32}

-- `enum task_state`
pub data TaskState : Type 0 where
  runnable running blocked zombie stopped : TaskState

abbrev pub Ptr : Type 0
Ptr = ℕ

abbrev pub null : Ptr
null = 0

-- `ran` records each call of a kernel signal handler, as the handler's address and its argument,
-- latest first.
pub record Kernel : Type 0 where
  pub state : Ptr → TaskState
  pub pid : Ptr → ℕ
  pub parent : Ptr → Ptr
  pub children : Ptr → Ptr
  pub sibling : Ptr → Ptr
  pub kstack : Ptr → ℕ
  pub next : Ptr → Ptr
  pub quantum : Ptr → ℕ
  pub time_left : Ptr → ℕ
  pub exit_code : Ptr → ℕ
  pub uid : Ptr → ℕ
  pub euid : Ptr → ℕ
  pub pending : Ptr → ℕ
  pub handlers : Ptr → ℕ → ℕ
  pub is_userspace : Ptr → Bool
  pub task_counter : ℕ
  pub task_list_head : Ptr
  pub current_task : Ptr
  pub init_proc : Ptr
  pub init_task : Ptr
  pub kthreadd_task : Ptr
  pub ran : List (ℕ × ℕ)

unfoldable pub task_add_child : Ptr → Ptr → Kernel → Kernel
task_add_child parent child k =
    let k1 = record k { parent = update k.parent child parent } in
    let k2 = record k1 { sibling = update k1.sibling child (k1.children parent) } in
    record k2 { children = update k2.children parent child }

-- `while (cur != NULL && cur->sibling != child) cur = cur->sibling;`
unfoldable pub find_before : ℕ → Ptr → Ptr → (Ptr → Ptr) → Option Ptr
find_before zero cur child sibling = none
find_before (suc n) cur child sibling =
    let rest = find_before n (sibling cur) child sibling in
    if cur == null || sibling cur == child then some cur else rest

-- The two branches of `task_remove_child`, then the writes that close it.
pub unlink_child : ℕ → Ptr → Ptr → Kernel → Option Kernel
unlink_child fuel parent child k =
    if k.children parent == child
    then some (record k { children = update k.children parent (k.sibling child) })
    else do
      cur ← find_before fuel (k.children parent) child k.sibling
      some
          (if cur == null then k else record k { sibling = update k.sibling cur (k.sibling child) })

pub detach : Ptr → Kernel → Kernel
detach child k = record k {
  sibling = update k.sibling child null;
  parent = update k.parent child null;
}

pub task_remove_child : ℕ → Ptr → Ptr → Kernel → Option Kernel
task_remove_child fuel parent child k = do
  k' ← unlink_child fuel parent child k
  some (detach child k')

pub task_reparent : ℕ → Ptr → Ptr → Kernel → Option Kernel
task_reparent fuel task new_parent k = do
  k' ← if k.parent task == null then some k else task_remove_child fuel (k.parent task) task k
  some (task_add_child new_parent task k')

-- `pid_alloc` and `pid_release`; the table holds `MAX_PROC` tasks
abbrev pub max_proc : ℕ
max_proc = 128

unfoldable pub pid_alloc : Kernel → Option ℕ × Kernel
pid_alloc k =
    if leb (max_proc - 1) k.task_counter
    then (none, k)
    else (some (add32 k.task_counter 1), record k { task_counter = add32 k.task_counter 1 })

unfoldable pub pid_release : Kernel → Kernel
pid_release k = record k { task_counter = sub32 k.task_counter 1 }

-- the search of `sys_kill`, `task_dump_log` and `task_feed` for a pid; null if there is none
unfoldable pub find_pid : ℕ → Ptr → ℕ → Kernel → Option Ptr
find_pid zero t pid k = none
find_pid (suc n) t pid k =
    let rest = find_pid n (k.next t) pid k in
    if t == null then some null else if k.pid t == pid then some t else rest
