-- ===== src/Exit.antt =====
-- `do_exit` of src/task.c: how a task ends. Its children go to the init process, its parent gets
-- SIGCHLD. Each loop takes the rounds it may run; `none` is a loop that has not ended by then.
pub mod Reparent
pub mod Orphans
pub mod Hang
mod Tests
use hekaos_series.Base.{
  ℕ, zero, suc, not, ◌&&◌, Option, none, some, ◌==◌, if◌then◌else◌, ◌>>=◌, update,
}
use hekaos_series.Tasks.{Ptr, null, Kernel, zombie, task_reparent}
use hekaos_series.Signals.{sigchld, set_state, kernel_signal_send}

-- `while (t->children != NULL) task_reparent (t->children, reaper);`
unfoldable pub reparent_all : ℕ → ℕ → Ptr → Ptr → Kernel → Option Kernel
reparent_all fuel zero t reaper k = none
reparent_all fuel (suc n) t reaper k =
    let rest = task_reparent fuel (k.children t) reaper k >>= reparent_all fuel n t reaper in
    if k.children t == null then some k else rest

-- `init_proc ? init_proc : &init_task`
unfoldable pub reaper_of : Kernel → Ptr
reaper_of k = if k.init_proc == null then k.init_task else k.init_proc

-- the SIGCHLD for the process that inherits the children
unfoldable pub notify_reaper : Ptr → Kernel → Kernel
notify_reaper t k =
    if not (k.children t == null) && not (reaper_of k == t)
    then kernel_signal_send (reaper_of k) sigchld k
    else k

-- the end of `do_exit`: ZOMBIE, and SIGCHLD for the parent
unfoldable pub become_zombie : Ptr → Kernel → Kernel
become_zombie t k =
    let k1 = set_state t zombie k in
    if k1.parent t == null then k1 else kernel_signal_send (k1.parent t) sigchld k1

unfoldable pub do_exit : ℕ → Ptr → ℕ → Kernel → Option Kernel
do_exit fuel t code k = do
  let k1 = notify_reaper t (record k { exit_code = update k.exit_code t code })
  k2 ← reparent_all fuel fuel t (reaper_of k) k1
  some (become_zombie t k2)
