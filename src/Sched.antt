-- ===== src/Sched.antt =====
-- The round-robin scheduler of src/sched.c. `none` is a loop that has not ended within the rounds
-- that it was given.
pub mod Ring
pub mod Pick
pub mod Switch
mod Tests
use hekaos_series.Base.{
  ℕ, zero, suc, ◌+◌, ◌*◌, Bool, true, false, not, ◌&&◌, ◌||◌, Option, none, some, ltb, ◌==◌,
  if◌then◌else◌, ◌>>=◌, update,
}
use hekaos_series.Word.{add32, sub32, mul32}
use hekaos_series.Tasks.{Ptr, null, Kernel, TaskState, runnable, running, blocked, zombie, stopped}
use hekaos_series.Signals.{set_state, is_blocked}
use hekaos_series.Dispatch.{kernel_signal_dispatch}

abbrev pub is_runnable : TaskState → Bool
is_runnable runnable = true
is_runnable _ = false

abbrev pub is_running : TaskState → Bool
is_running running = true
is_running _ = false

-- `t->next ? t->next : task_list_head`
pub after : Kernel → Ptr → Ptr
after k t = if k.next t == null then k.task_list_head else k.next t

abbrev pub is_eligible : Kernel → Ptr → Bool
is_eligible k t = not (t == k.current_task) && is_runnable (k.state t)

-- the `while (1)` of `pick_next_task`
pub pick_loop : ℕ → Ptr → Ptr → Kernel → Option Ptr
pick_loop zero t start k = none
pick_loop (suc n) t start k =
    let rest = pick_loop n (after k t) start k in
    if is_eligible k t then some t else if after k t == start then some k.current_task else rest

pub pick_next_task : ℕ → Kernel → Option Ptr
pick_next_task fuel k = let first = after k k.current_task in pick_loop fuel first first k

-- `PAGE_SIZE`, `KSTACK_PAGES`, `LAP_BLOCK_TRIGGER`, `LAP_UNBLOCK_TRIGGER`
abbrev pub page_size : ℕ
page_size = 4096

abbrev pub kstack_pages : ℕ
kstack_pages = 2

abbrev pub lap_block_trigger : ℕ
lap_block_trigger = 3

abbrev pub lap_unblock_trigger : ℕ
lap_unblock_trigger = lap_block_trigger + 1

-- The task table with the scheduler's own variables; `esp0` is the field of the TSS.
pub record Machine : Type 0 where
  pub kernel : Kernel
  pub need_resched : ℕ
  pub next_task : Ptr
  pub lap_anchor : Ptr
  pub lap_num : ℕ
  pub blocked_marker : Bool
  pub unblocked_marker : Bool
  pub esp0 : ℕ

-- the search loop of `maybe_block_faulty_target`; `found` is null at first
pub find_faulty : ℕ → Ptr → Ptr → Ptr → Ptr → Kernel → Option Ptr
find_faulty zero t found next anchor k = none
find_faulty (suc n) t found next anchor k =
    let skip =
      t == next
      || (t == anchor || k.pid t == 0)
      || not (is_runnable (k.state t) || is_running (k.state t)) in
    let better = found == null || ltb (k.pid found) (k.pid t) in
    let rest = find_faulty n (k.next t) (if not skip && better then t else found) next anchor k in
    if t == null then some found else rest

pub maybe_block_faulty_target : ℕ → Ptr → Machine → Option Machine
maybe_block_faulty_target fuel next m =
    if m.blocked_marker || not (m.lap_num == lap_block_trigger) then some m else do
      target ← find_faulty fuel m.kernel.task_list_head null next m.lap_anchor m.kernel
      some (
          if target == null
          then m
          else record m { kernel = set_state target blocked m.kernel; blocked_marker = true })

-- the loop of `maybe_unblock_faulty_target`
pub unblock_from : ℕ → Ptr → Kernel → Option Kernel
unblock_from zero t k = none
unblock_from (suc n) t k =
    let k' = if is_blocked (k.state t) then set_state t runnable k else k in
    let rest = unblock_from n (k.next t) k' in if t == null then some k else rest

pub maybe_unblock_faulty_target : ℕ → Machine → Option Machine
maybe_unblock_faulty_target fuel m =
    if m.unblocked_marker || not (m.lap_num == lap_unblock_trigger) then some m else do
      k ← unblock_from fuel m.kernel.task_list_head m.kernel
      some (record m { kernel = k; unblocked_marker = true })

-- the end of `schedule`: the lap count
pub count_lap : ℕ → Ptr → Machine → Option Machine
count_lap fuel next m =
    if m.lap_anchor == null
    then some (record m { lap_anchor = next })
    else if next == m.lap_anchor
    then (do
      m1 ← maybe_block_faulty_target fuel next (record m { lap_num = add32 m.lap_num 1 })
      maybe_unblock_faulty_target fuel m1)
    else some m

-- the switch itself, once `next` is another task than the current one
pub switch_to : Ptr → Machine → Machine
switch_to next m =
    let k = m.kernel in
    let k1 =
      if is_running (k.state k.current_task) then set_state k.current_task runnable k else k in
    record m {
      kernel = set_state next running k1;
      esp0 =
          if k1.is_userspace next
          then add32 (k1.kstack next) (kstack_pages * page_size)
          else m.esp0;
      next_task = next;
      need_resched = 1;
    }

-- from the refill of `time_left` on
pub reschedule : ℕ → Machine → Option Machine
reschedule fuel m = do
  let k = m.kernel
  let k1 = record k { time_left = update k.time_left k.current_task (k.quantum k.current_task) }
  next ← pick_next_task fuel k1
  if next == k1.current_task
      then some (record m { kernel = k1 })
      else count_lap fuel next (switch_to next (record m { kernel = k1 }))

-- `--current_task->time_left`
abbrev pub tick : Kernel → Kernel
tick k = record k {
  time_left = update k.time_left k.current_task (sub32 (k.time_left k.current_task) 1);
}

-- the tests of `schedule` after the pending signals were served
pub after_signals : ℕ → Machine → Option Machine
after_signals fuel m =
    let k = m.kernel in
    let ticked = record m { kernel = tick k } in
    if not (is_running (k.state k.current_task))
    then reschedule fuel m
    else if ltb 0 ((tick k).time_left k.current_task)
    then some ticked
    else reschedule fuel ticked

pub schedule : ℕ → Machine → Option Machine
schedule fuel m = do
  let k = m.kernel
  k1 ←
      if k.pending k.current_task == 0 then some k else kernel_signal_dispatch fuel k.current_task k
  after_signals fuel (record m { kernel = k1 })
