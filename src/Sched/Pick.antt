-- ===== src/Sched/Pick.antt =====
-- `pick_next_task`: the first runnable task in the rotation behind the current one.
use hekaos_series.Base.{
  ℕ, zero, suc, ◌≤◌, ◌<◌, ◌≡◌, ap, false, some, List, [], ◌∷◌, ◌++◌, arith, ◌==◌, if◌then◌else◌,
  length,
}
use hekaos_series.Tasks.{Ptr, Kernel}
use hekaos_series.Tasks.Chain.{has, Chain}
use hekaos_series.Sched.{after, is_eligible, pick_loop, pick_next_task}
use hekaos_series.Sched.Ring.{Walk, rotation, Round-trip}

-- The first of `xs` that is runnable and not the current task; the current task if there is none.
unfoldable pub first_eligible : Kernel → List Ptr → Ptr
first_eligible k [] = k.current_task
first_eligible k (x ∷ xs) = if is_eligible k x then x else first_eligible k xs

pick_loop-first_eligible :
    (n : ℕ) (k : Kernel) (t start : Ptr) (xs : List Ptr)
    → length xs < n
    → Walk (after k) (after k t) xs start
    → has start xs ≡ false
    → pick_loop n t start k ≡ some (first_eligible k (t ∷ xs))
unfolding pick_loop first_eligible has
pick_loop-first_eligible zero k t start xs enough w once = absurd (omega arith)
pick_loop-first_eligible (suc n) k t start [] enough w once = ground arith
pick_loop-first_eligible (suc n) k t start (x ∷ xs) enough (e, w) once =
    let rest = pick_loop-first_eligible n k x start xs (omega arith) w (ground arith) in
    let on : (after k t == start) ≡ false = ground arith in rw on (rw e (ground (arith, rest)))

-- If the task list is the null-terminated chain of `before`, the current task and `behind`,
-- `pick_next_task` ends within as many rounds as the list has tasks, and returns the first task that is
-- runnable and not the current one, in the order `behind`, then `before`; the current task if no
-- other is runnable.
pub pick_next_task-first_eligible :
    (fuel : ℕ) (k : Kernel) (before behind : List Ptr)
    → Chain k.next k.task_list_head (before ++ k.current_task ∷ behind)
    → length (rotation before k.current_task behind) ≤ fuel
    → pick_next_task fuel k ≡ some (first_eligible k (rotation before k.current_task behind))
unfolding pick_next_task
pick_next_task-first_eligible fuel k before behind chain enough =
    let r = Round-trip k k.current_task before behind chain in
    let size : length r.rest < fuel = omega (arith, ap length r.whole) in
    rw r.whole (
      pick_loop-first_eligible fuel k (after k k.current_task) (after k k.current_task) r.rest size
        r.walk r.once)
