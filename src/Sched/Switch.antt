-- ===== src/Sched/Switch.antt =====
-- The end of `schedule`: which task is RUNNING after it, and that its walks of the task list end.
use hekaos_series.Base.{
  ℕ, zero, suc, ◌+◌, ◌≤◌, ◌<◌, ◌≡◌, refl, ap, ◌∙◌, ◌≢◌, ◌⊎◌, inl, inr, Bool, true, false, not, ◌&&◌,
  ◌||◌, some, List, [], ◌∷◌, ◌++◌, arith, ltb, ◌==◌, if◌then◌else◌, Bool-cases, update_self, update,
  length, length-append,
}
use hekaos_series.Tasks.{Ptr, null, Kernel, runnable, blocked}
use hekaos_series.Tasks.Chain.{Chain}
use hekaos_series.Signals.{set_state, is_blocked}
use hekaos_series.Sched.{
  is_runnable, is_running, Machine, find_faulty, maybe_block_faulty_target, lap_block_trigger,
  lap_unblock_trigger, unblock_from, maybe_unblock_faulty_target, count_lap, switch_to, reschedule,
  after_signals, tick, pick_next_task,
}
use hekaos_series.Word.{add32, sub32}
use hekaos_series.Sched.Ring.{rotation}
use hekaos_series.Sched.Pick.{first_eligible, pick_next_task-first_eligible}

-- `found` may be blocked: it is not the next task.
abbrev is_spared : Ptr → Ptr → Bool
is_spared next found = found == null || not (found == next)

find_faulty-is_spared :
    (n : ℕ) (t found next anchor : Ptr) (k : Kernel) (xs : List Ptr)
    → Chain k.next t xs
    → length xs < n
    → is_spared next found ≡ true
    → (r : Ptr) × (find_faulty n t found next anchor k ≡ some r) × (is_spared next r ≡ true)
unfolding find_faulty
find_faulty-is_spared zero t found next anchor k xs c enough spared = absurd (omega arith)
find_faulty-is_spared (suc n) t found next anchor k [] c enough spared =
    (found, ground arith, spared)
find_faulty-is_spared (suc n) t found next anchor k (x ∷ xs) (e, nx, c) enough spared =
    let inner : (t == null) ≡ false = ground arith in
    let skip =
      t == next
      || (t == anchor || k.pid t == 0)
      || not (is_runnable (k.state t) || is_running (k.state t)) in
    let better = found == null || ltb (k.pid found) (k.pid t) in
    let c' : Chain k.next (k.next t) xs = rw (← e) at c in
    let spared' : is_spared next (if not skip && better then t else found) ≡ true = ground arith in
    rw inner (
      find_faulty-is_spared n (k.next t) (if not skip && better then t else found) next anchor k xs
        c' (omega arith) spared')

-- The tasks that are RUNNING, and the task list, are those of `k`.
record SameRunning (k k' : Kernel) : Type 0 where
  running : (u : Ptr) → is_running (k'.state u) ≡ is_running (k.state u)
  rest : k' ≡ record k { state = k'.state }

unblock_from-SameRunning :
    (n : ℕ) (t : Ptr) (k : Kernel) (xs : List Ptr)
    → Chain k.next t xs
    → length xs < n
    → (k' : Kernel) × (unblock_from n t k ≡ some k') × SameRunning k k'
unfolding unblock_from
unblock_from-SameRunning zero t k xs c enough = absurd (omega arith)
unblock_from-SameRunning (suc n) t k [] c enough =
    (k, ground arith, record { running = λ u. refl; rest = refl })
unblock_from-SameRunning (suc n) t k (x ∷ xs) (e, nx, c) enough =
    let inner : (t == null) ≡ false = ground arith in
    let c' : Chain k.next (k.next t) xs = rw (← e) at c in
    elim (Bool-cases (is_blocked (k.state t))) [
      | inl asleep ↦
          let woken = set_state t runnable k in
          let (k', done, same) = unblock_from-SameRunning n (k.next t) woken xs c' (omega arith) in
          (
            k',
            rw (inner, asleep) done,
            record { running = λ u. ground (arith, same.running u); rest = same.rest },
          )
      | inr awake ↦
          let (k', done, same) = unblock_from-SameRunning n (k.next t) k xs c' (omega arith) in
          (k', rw (inner, awake) done, same)
    ]

-- `next` is RUNNING and nothing else is; it is the task to be switched to.
pub record OnCpu (next : Ptr) (m : Machine) : Type 0 where
  pub running : (u : Ptr) → is_running (m.kernel.state u) ≡ (next == u)
  pub target : m.next_task ≡ next
  pub asked : m.need_resched ≡ 1

maybe_block_faulty_target-OnCpu :
    (fuel : ℕ) (next : Ptr) (m : Machine) (xs : List Ptr)
    → Chain m.kernel.next m.kernel.task_list_head xs
    → length xs < fuel
    → OnCpu next m
    → (m' : Machine) × (maybe_block_faulty_target fuel next m ≡ some m')
      × OnCpu next m'
      × Chain m'.kernel.next m'.kernel.task_list_head xs
unfolding maybe_block_faulty_target
maybe_block_faulty_target-OnCpu fuel next m xs c enough on =
    elim (Bool-cases (m.blocked_marker || not (m.lap_num == lap_block_trigger))) [
      | inl past ↦ (m, rw past refl, on, c)
      | inr due ↦
          let (r, found, spared) =
            find_faulty-is_spared fuel m.kernel.task_list_head null next m.lap_anchor m.kernel xs c
              enough refl in
          elim (Bool-cases (r == null)) [
            | inl nobody ↦ (m, rw (due, found, nobody) refl, on, c)
            | inr faulty ↦ (
              record m { kernel = set_state r blocked m.kernel; blocked_marker = true },
              rw (due, found, faulty) refl,
              record {
                running = λ u. ground (arith, on.running u);
                target = on.target;
                asked = on.asked;
              },
              c,
            )
          ]
    ]

maybe_unblock_faulty_target-OnCpu :
    (fuel : ℕ) (next : Ptr) (m : Machine) (xs : List Ptr)
    → Chain m.kernel.next m.kernel.task_list_head xs
    → length xs < fuel
    → OnCpu next m
    → (m' : Machine) × (maybe_unblock_faulty_target fuel m ≡ some m') × OnCpu next m'
unfolding maybe_unblock_faulty_target
maybe_unblock_faulty_target-OnCpu fuel next m xs c enough on =
    elim (Bool-cases (m.unblocked_marker || not (m.lap_num == lap_unblock_trigger))) [
      | inl past ↦ (m, rw past refl, on)
      | inr due ↦
          let (k, done, same) =
            unblock_from-SameRunning fuel m.kernel.task_list_head m.kernel xs c enough in
          (
            record m { kernel = k; unblocked_marker = true },
            rw (due, done) refl,
            record {
              running = λ u. same.running u ∙ on.running u;
              target = on.target;
              asked = on.asked;
            },
          )
    ]

count_lap-OnCpu :
    (fuel : ℕ) (next : Ptr) (m : Machine) (xs : List Ptr)
    → Chain m.kernel.next m.kernel.task_list_head xs
    → length xs < fuel
    → OnCpu next m
    → (m' : Machine) × (count_lap fuel next m ≡ some m') × OnCpu next m'
unfolding count_lap
count_lap-OnCpu fuel next m xs c enough on = elim (Bool-cases (m.lap_anchor == null)) [
  | inl first ↦ (
    record m { lap_anchor = next },
    rw first refl,
    record { running = on.running; target = on.target; asked = on.asked },
  )
  | inr armed ↦ elim (Bool-cases (next == m.lap_anchor)) [
    | inr between ↦ (m, rw (armed, between) refl, on)
    | inl lap ↦
        let counted = record m { lap_num = add32 m.lap_num 1 } in
        let (m1, blocks, on1, c1) =
          maybe_block_faulty_target-OnCpu fuel next counted xs c enough
            (record { running = on.running; target = on.target; asked = on.asked }) in
        let (m2, unblocks, on2) = maybe_unblock_faulty_target-OnCpu fuel next m1 xs c1 enough on1 in
        (m2, rw (armed, lap, blocks) unblocks, on2)
  ]
]

-- No task but the current one is RUNNING.
abbrev pub Others : Kernel → Type 0
Others k = (u : Ptr) → u ≢ k.current_task → is_running (k.state u) ≡ false

switch_to-OnCpu :
    (next : Ptr) (m : Machine) (xs : List Ptr)
    → next ≢ m.kernel.current_task
    → Others m.kernel
    → Chain m.kernel.next m.kernel.task_list_head xs
    → OnCpu next (switch_to next m)
      × Chain (switch_to next m).kernel.next (switch_to next m).kernel.task_list_head xs
unfolding switch_to
switch_to-OnCpu next m xs ne others c =
    elim (Bool-cases (is_running (m.kernel.state m.kernel.current_task))) [
      | inl on ↦
          rw on (record { running = λ u. ground (arith, others u); target = refl; asked = refl }, c)
      | inr off ↦
          rw off
            (record { running = λ u. ground (arith, others u); target = refl; asked = refl }, c)
    ]

first_eligible-time_left :
    (k : Kernel) (f : Ptr → ℕ) (xs : List Ptr)
    → first_eligible (record k { time_left = f }) xs ≡ first_eligible k xs
unfolding first_eligible
first_eligible-time_left k f [] = refl
first_eligible-time_left k f (x ∷ xs) = rw (first_eligible-time_left k f xs) refl

-- No switch: every task keeps its state.
pub record Kept (m m' : Machine) : Type 0 where
  pub states : m'.kernel.state ≡ m.kernel.state
  pub target : m'.next_task ≡ m.next_task
  pub asked : m'.need_resched ≡ m.need_resched

-- the task whose turn it is
abbrev pub turn : Kernel → List Ptr → List Ptr → Ptr
turn k before behind = first_eligible k (rotation before k.current_task behind)

-- the current task may not go on
abbrev pub is_due : Kernel → Bool
is_due k = not (is_running (k.state k.current_task)) || sub32 (k.time_left k.current_task) 1 == 0

module _ (fuel : ℕ) (m : Machine) (before behind : List Ptr)
    (chain : Chain m.kernel.next m.kernel.task_list_head (before ++ m.kernel.current_task ∷ behind))
    (enough : length before + (length behind + 1) < fuel) (others : Others m.kernel) where
  rotation-length : length (rotation before m.kernel.current_task behind) ≤ fuel
  rotation-length = omega (
    arith,
    length-append behind (before ++ m.kernel.current_task ∷ []),
    length-append before (m.kernel.current_task ∷ []),
  )

  reschedule-OnCpu :
      (f : Ptr → ℕ)
      → let ticked = record m { kernel = record m.kernel { time_left = f } } in
        (m' : Machine) × (reschedule fuel ticked ≡ some m')
        × (((turn m.kernel before behind ≡ m.kernel.current_task) × Kept m m')
            ⊎ ((turn m.kernel before behind ≢ m.kernel.current_task)
                × OnCpu (turn m.kernel before behind) m'))
  unfolding reschedule
  reschedule-OnCpu f =
      let k = m.kernel in
      let g = update f k.current_task (k.quantum k.current_task) in
      let k1 = record k { time_left = g } in
      let next = first_eligible k (rotation before k.current_task behind) in
      let picked : pick_next_task fuel k1 ≡ some next =
        pick_next_task-first_eligible fuel k1 before behind chain rotation-length
        ∙ ap some (first_eligible-time_left k g (rotation before k.current_task behind)) in
      elim (Bool-cases (next == k.current_task)) [
        | inl alone ↦ (
          record m { kernel = k1 },
          rw (picked, alone) refl,
          inl (ground arith, record { states = refl; target = refl; asked = refl }),
        )
        | inr other ↦
            let xs = before ++ k.current_task ∷ behind in
            let m1 = record m { kernel = k1 } in
            let ne : next ≢ k.current_task = ground arith in
            let (on, c) = switch_to-OnCpu next m1 xs ne others chain in
            let size : length xs < fuel =
              omega (arith, length-append before (k.current_task ∷ behind)) in
            let (m', done, on') = count_lap-OnCpu fuel next (switch_to next m1) xs c size on in
            (m', rw (picked, other) done, inr (ne, on'))
      ]

  Outcome : Machine → Type 0
  Outcome m' =
      (((is_due m.kernel ≡ false) ⊎ (turn m.kernel before behind ≡ m.kernel.current_task))
        × Kept m m')
      ⊎ ((is_due m.kernel ≡ true)
          × (turn m.kernel before behind ≢ m.kernel.current_task)
          × OnCpu (turn m.kernel before behind) m')

  due-Outcome :
      (m' : Machine)
      → is_due m.kernel ≡ true
      → ((turn m.kernel before behind ≡ m.kernel.current_task) × Kept m m')
        ⊎ ((turn m.kernel before behind ≢ m.kernel.current_task)
            × OnCpu (turn m.kernel before behind) m')
      → Outcome m'
  unfolding Outcome
  due-Outcome m' due (inl (alone, kept)) = inl (inr alone, kept)
  due-Outcome m' due (inr (other, on)) = inr (due, other, on)

  -- The task list is the chain of `before`, the current task and `behind`, no task but the current one
  -- is RUNNING, and the fuel exceeds the number of tasks. Then what `schedule` does after the signals
  -- ends. If the current task is RUNNING and has time left, or no other task is runnable, every task
  -- keeps its state and no switch is asked for. Otherwise a switch to `turn` is asked for, and `turn`
  -- is the one RUNNING task, whatever the lap count has blocked or woken.
  pub after_signals-OnCpu :
      (m' : Machine) × (after_signals fuel m ≡ some m')
      × ((((is_due m.kernel ≡ false) ⊎ (turn m.kernel before behind ≡ m.kernel.current_task))
            × Kept m m')
          ⊎ ((is_due m.kernel ≡ true)
              × (turn m.kernel before behind ≢ m.kernel.current_task)
              × OnCpu (turn m.kernel before behind) m'))
  unfolding after_signals Outcome
  after_signals-OnCpu =
      let k = m.kernel in
      let left = sub32 (k.time_left k.current_task) 1 in
      let used : update k.time_left k.current_task left k.current_task ≡ left =
        update_self k.time_left k.current_task left in
      elim (Bool-cases (is_running (k.state k.current_task))) [
        | inr off ↦
            let (m', done, r) = reschedule-OnCpu k.time_left in
            (m', rw off done, due-Outcome m' (rw off refl) r)
        | inl on ↦ elim (Bool-cases (ltb 0 left)) [
          | inl more ↦ (
            record m { kernel = tick k },
            rw (on, used, more) refl,
            inl (inl (ground arith), record { states = refl; target = refl; asked = refl }),
          )
          | inr over ↦
              let (m', done, r) = reschedule-OnCpu (update k.time_left k.current_task left) in
              (m', rw (on, used, over) done, due-Outcome m' (ground arith) r)
        ]
      ]
