-- ===== src/Reap/Wait.antt =====
-- `sys_wait` collects the first child that has ended, and sleeps while there is none.
use hekaos_series.Base.{
  ℕ, zero, suc, ◌≤◌, ◌<◌, ◌≡◌, refl, ◌≢◌, ◌⊎◌, true, false, not, ◌&&◌, none, some, List, [], ◌∷◌,
  ◌++◌, arith, ◌==◌, if◌then◌else◌, length, length-append,
}
use hekaos_series.Tasks.{Ptr, null, Kernel, blocked}
use hekaos_series.Tasks.Chain.{has, Chain}
use hekaos_series.Signals.{set_state, is_zombie, is_blocked}
use hekaos_series.Reap.{first_zombie, halt_blocked, wait_loop, sys_wait}
use hekaos_series.Reap.Unlink.{Reaped, task_reap-Reaped}

-- No task of the list has ended.
abbrev pub Alive : Kernel → List Ptr → Type 0
Alive k cs = (a : Ptr) → has a cs ≡ true → is_zombie (k.state a) ≡ false

first_zombie-none :
    (fuel : ℕ) (p : Ptr) (cs : List Ptr) (k : Kernel)
    → Chain k.sibling p cs
    → Alive k cs
    → length cs < fuel
    → first_zombie fuel p k ≡ some null
unfolding first_zombie has
first_zombie-none zero p cs k c alive enough = absurd (omega arith)
first_zombie-none (suc n) p [] k c alive enough = ground (arith, c)
first_zombie-none (suc n) p (x ∷ xs) k (e, ne, c) alive enough =
    let rest =
      first_zombie-none n (k.sibling x) xs k c (λ a h. alive a (ground (arith, h))) (omega arith) in
    let there : (x == null) ≡ false = ground (arith, ne) in
    rw (e, there, alive x (ground arith)) rest

first_zombie-first :
    (fuel : ℕ) (p z : Ptr) (fs bs : List Ptr) (k : Kernel)
    → Chain k.sibling p (fs ++ z ∷ bs)
    → Alive k fs
    → is_zombie (k.state z) ≡ true
    → length fs < fuel
    → first_zombie fuel p k ≡ some z
unfolding first_zombie has
first_zombie-first zero p z fs bs k c alive ended enough = absurd (omega arith)
first_zombie-first (suc n) p z [] bs k (e, ne, c) alive ended enough =
    let there : (z == null) ≡ false = ground (arith, ne) in rw (e, there, ended) refl
first_zombie-first (suc n) p z (x ∷ fs) bs k (e, ne, c) alive ended enough =
    let rest =
      first_zombie-first n (k.sibling x) z fs bs k c (λ a h. alive a (ground (arith, h))) ended
        (omega arith) in
    let there : (x == null) ≡ false = ground (arith, ne) in
    rw (e, there, alive x (ground arith)) rest

-- From `k` on the caller is BLOCKED for `n` halts, during which the others run; then, in `k'`, it is
-- not BLOCKED any more.
pub data Woken (meanwhile : Kernel → Kernel) : ℕ → Kernel → Kernel → Type 0 where
  up : (k : Kernel) → is_blocked (k.state k.current_task) ≡ false → Woken meanwhile 0 k k
  halted :
      (n : ℕ) (k k' : Kernel)
      → is_blocked (k.state k.current_task) ≡ true
      → Woken meanwhile n (meanwhile k) k'
      → Woken meanwhile (suc n) k k'

halt_blocked-Woken :
    (meanwhile : Kernel → Kernel) (halts n : ℕ) (k k' : Kernel)
    → Woken meanwhile n k k'
    → n < halts
    → halt_blocked halts meanwhile k ≡ some k'
unfolding halt_blocked
halt_blocked-Woken meanwhile zero n k k' w enough = absurd (omega arith)
halt_blocked-Woken meanwhile (suc h) n k k' (up j awake) enough = rw awake refl
halt_blocked-Woken meanwhile (suc h) n k k' (halted m j j' asleep_yet w) enough =
    rw asleep_yet (halt_blocked-Woken meanwhile h m (meanwhile j) j' w (omega arith))

-- The caller has slept `n` times, from `k` to `k'`: it had no child that had ended, was BLOCKED, and
-- the other tasks ran until it was woken.
pub data Slept (fuel halts : ℕ) (meanwhile : Kernel → Kernel) : ℕ → Kernel → Kernel → Type 0 where
  awake : (k : Kernel) → Slept fuel halts meanwhile 0 k k
  asleep :
      (n m : ℕ) (k k1 k' : Kernel) (cs : List Ptr)
      → Chain k.sibling (k.children k.current_task) cs
      → Alive k cs
      → length cs < fuel
      → Woken meanwhile m (set_state k.current_task blocked k) k1
      → m < halts
      → Slept fuel halts meanwhile n k1 k'
      → Slept fuel halts meanwhile (suc n) k k'

-- The child `z` of the running task has ended, and none before it in the list of children has.
pub record Ended (fuel : ℕ) (z : Ptr) (fs bs ts : List Ptr) (k : Kernel) : Type 0 where
  pub children : Chain k.sibling (k.children k.current_task) (fs ++ z ∷ bs)
  pub alive : Alive k fs
  pub ended : is_zombie (k.state z) ≡ true
  pub child : k.parent z ≡ k.current_task
  pub some_task : k.current_task ≢ null
  pub queue : Chain k.next k.task_list_head ts
  pub queued : has z ts ≡ true
  pub few : length (fs ++ z ∷ bs) ≤ fuel
  pub few_queued : length ts ≤ fuel

has-middle : (z : Ptr) (fs bs : List Ptr) → has z (fs ++ z ∷ bs) ≡ true
unfolding has
has-middle z [] bs = ground arith
has-middle z (x ∷ fs) bs = ground (arith, has-middle z fs bs)

not-null :
    (f : Ptr → Ptr) (p z : Ptr) (fs bs : List Ptr) → Chain f p (fs ++ z ∷ bs) → (z == null) ≡ false
not-null f p z [] bs (e, ne, c) = ground (arith, ne)
not-null f p z (x ∷ fs) bs (e, ne, c) = not-null f (f x) z fs bs c

wait_loop-now :
    (fuel halts n : ℕ) (wstatus : Ptr) (meanwhile : Kernel → Kernel) (z : Ptr) (fs bs ts : List Ptr)
    (k : Kernel)
    → Ended fuel z fs bs ts k
    → (k' : Kernel) × (wait_loop fuel halts (suc n) wstatus meanwhile k
        ≡ some (k.pid z, if wstatus == null then none else some (k.exit_code z), k'))
      × Reaped z (fs ++ z ∷ bs) ts k k'
unfolding wait_loop
wait_loop-now fuel halts n wstatus meanwhile z fs bs ts k en =
    let found =
      first_zombie-first fuel (k.children k.current_task) z fs bs k en.children en.alive en.ended
        (omega (arith, en.few, length-append fs (z ∷ bs))) in
    let up : k.parent z ≢ null = rw en.child en.some_task in
    let at : Chain k.sibling (k.children (k.parent z)) (fs ++ z ∷ bs) = rw en.child en.children in
    let (k', reaps, r) =
      task_reap-Reaped fuel z (fs ++ z ∷ bs) ts k up at (has-middle z fs bs) en.queue en.queued
        en.few en.few_queued in
    let there : (z == null) ≡ false =
      not-null k.sibling (k.children k.current_task) z fs bs en.children in
    (k', rw (found, there, reaps) refl, r)

wait_loop-Slept :
    (fuel halts : ℕ) (wstatus : Ptr) (meanwhile : Kernel → Kernel) (z : Ptr) (fs bs ts : List Ptr)
    (n : ℕ) (k k1 : Kernel)
    → Slept fuel halts meanwhile n k k1
    → Ended fuel z fs bs ts k1
    → (k' : Kernel) × (wait_loop fuel halts (suc n) wstatus meanwhile k
        ≡ some (k1.pid z, if wstatus == null then none else some (k1.exit_code z), k'))
      × Reaped z (fs ++ z ∷ bs) ts k1 k'
unfolding wait_loop
wait_loop-Slept fuel halts wstatus meanwhile z fs bs ts n k k1 (awake h) en =
    wait_loop-now fuel halts 0 wstatus meanwhile z fs bs ts h en
wait_loop-Slept fuel halts wstatus meanwhile z fs bs ts n k k1
      (asleep m halt h h1 h' cs c alive enough woken few sl) en =
    let none_yet = first_zombie-none fuel (h.children h.current_task) cs h c alive enough in
    let wakes =
      halt_blocked-Woken meanwhile halts halt (set_state h.current_task blocked h) h1 woken few in
    let (k', waits, r) = wait_loop-Slept fuel halts wstatus meanwhile z fs bs ts m h1 h' sl en in
    (k', rw (none_yet, wakes) waits, r)

-- A caller that has a child, or is the init process, and sleeps `n` times, each time until it is
-- not BLOCKED any more, until a child has ended returns, with `n + 1` rounds and more rounds of the
-- sleep than a sleep has halts: the pid of the first such child in its list, with the exit code
-- when a place for it was given, and that child is reaped. The child has the caller for its parent
-- and stands in the list of tasks, and neither that list nor the list of children is longer than
-- the fuel; while the caller sleeps, the list of children is shorter.
pub sys_wait-returns :
    (fuel halts n : ℕ) (wstatus : Ptr) (meanwhile : Kernel → Kernel) (z : Ptr) (fs bs ts : List Ptr)
    (k k1 : Kernel)
    → (k.children k.current_task ≢ null) ⊎ (k.current_task ≡ k.init_proc)
    → Slept fuel halts meanwhile n k k1
    → Ended fuel z fs bs ts k1
    → (k' : Kernel) × (sys_wait fuel halts (suc n) wstatus meanwhile k
        ≡ some (k1.pid z, if wstatus == null then none else some (k1.exit_code z), k'))
      × Reaped z (fs ++ z ∷ bs) ts k1 k'
unfolding sys_wait
sys_wait-returns fuel halts n wstatus meanwhile z fs bs ts k k1 may sl en =
    let (k', waits, r) = wait_loop-Slept fuel halts wstatus meanwhile z fs bs ts n k k1 sl en in
    let test : (k.children k.current_task == null && not (k.current_task == k.init_proc)) ≡ false =
      ground (arith, may) in
    (k', rw test waits, r)
