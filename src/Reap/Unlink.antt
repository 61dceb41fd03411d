-- ===== src/Reap/Unlink.antt =====
-- `task_reap` takes the task off both of its lists.
use mathlib.Core.Path.{subst}
use hekaos_series.Base.{
  ℕ, zero, suc, ◌≤◌, ◌≡◌, refl, sym, ap, ◌∙◌, ◌≢◌, inl, inr, true, false, some, List, [], ◌∷◌,
  arith, ◌==◌, if◌then◌else◌, Bool-cases, ==_refl, update, length,
}
use hekaos_series.Tasks.{Ptr, null, Kernel, find_before}
use hekaos_series.Tasks.Chain.{has, Chain, Chain-update, Chain-head_fresh, erase}
use hekaos_series.Tasks.Remove.{task_remove_child-Removed}
use hekaos_series.Sched.{kstack_pages}
use hekaos_series.Reap.{unlink_task, task_reap, stack_pages}

erase-fresh : (a b : Ptr) (xs : List Ptr) → has a xs ≡ false → has a (erase b xs) ≡ false
unfolding has erase
erase-fresh a b [] out = refl
erase-fresh a b (x ∷ xs) out = ground (arith, out, erase-fresh a b xs)

-- The walk stops at the node `b` before `p`; with the link of `b` past `p`, the chain goes on
-- without `p`.
find_before-erase :
    (fuel : ℕ) (f : Ptr → Ptr) (q p x : Ptr) (xs : List Ptr)
    → Chain f q (x ∷ xs)
    → has p xs ≡ true
    → length xs ≤ fuel
    → (b : Ptr) × (find_before fuel q p f ≡ some b)
      × (has b (x ∷ xs) ≡ true)
      × (b ≢ null)
      × Chain (update f b (f p)) q (x ∷ erase p xs)
unfolding find_before has erase
find_before-erase fuel f q p x [] c mem enough = absurd (ground (arith, mem))
find_before-erase zero f q p x (y ∷ ys) c mem enough = absurd (omega arith)
find_before-erase (suc n) f q p x (y ∷ ys) (e, ne, (ey, ny, c)) mem enough =
    let fresh = Chain-head_fresh f q x (y ∷ ys) (e, ne, (ey, ny, c)) in
    let there : (x == null) ≡ false = ground (arith, ne) in
    elim (Bool-cases (p == y)) [
      | inl here ↦
          let same : p ≡ y = ground (arith, here) in
          let stop : (f x == p) ≡ true = ground (arith, ey, same) in
          let link : update f x (f p) x ≡ f p = ground arith in
          (
            x,
            rw (e, there, stop) refl,
            ground arith,
            ne,
            rw here (
              e,
              ne,
              rw link (
                  subst (λ a. Chain (update f x (f a)) (f a) ys) (sym same)
                    (Chain-update f x (f y) (f y) ys (ground (arith, fresh)) c)),
            ),
          )
      | inr later ↦
          let go : (f x == p) ≡ false = ground (arith, ey, later) in
          let (b, walk, mem', nb, c') =
            find_before-erase n f (f x) p y ys (ey, ny, c) (ground (arith, mem, later))
              (omega arith) in
          let away : (b == x) ≡ false = elim (Bool-cases (b == x)) [
            | inl z ↦
                let same : b ≡ x = ground (arith, z) in
                absurd (ground (arith, rw same at mem', fresh))
            | inr z ↦ z
          ] in
          (b, rw (e, there, go) walk, ground (arith, mem'), nb, rw later (e, ne, rw away c'))
    ]

-- The chain of the scheduler's list loses the task, and nothing else of the kernel changes.
pub unlink_task-erase :
    (fuel : ℕ) (t : Ptr) (ts : List Ptr) (k : Kernel)
    → Chain k.next k.task_list_head ts
    → has t ts ≡ true
    → length ts ≤ fuel
    → (k' : Kernel) × (unlink_task fuel t k ≡ some k')
      × Chain k'.next k'.task_list_head (erase t ts)
      × (k' ≡ record k { next = k'.next; task_list_head = k'.task_list_head })
unfolding unlink_task has erase
unlink_task-erase fuel t [] k c mem enough = absurd (ground (arith, mem))
unlink_task-erase fuel t (x ∷ xs) k (e, ne, c) mem enough = elim (Bool-cases (t == x)) [
  | inl first ↦
      let same : t ≡ x = ground (arith, first) in
      (record k { task_list_head = k.next x }, rw (e, same, ==_refl x) refl, rw first c, refl)
  | inr later ↦
      let (b, walk, mem', nb, c') =
        find_before-erase fuel k.next k.task_list_head t x xs (e, ne, c)
          (ground (arith, mem, later)) (omega arith) in
      let some_b : (b == null) ≡ false = ground (arith, nb) in
      let other : (k.task_list_head == t) ≡ false = ground (arith, e, later) in
      (
        record k { next = update k.next b (k.next t) },
        rw (other, walk, some_b) refl,
        rw later c',
        refl,
      )
]

-- What a reaped task leaves: its parent's list of children and the scheduler's list without it, no
-- parent, and every other field of the kernel as it was.
pub record Reaped (t : Ptr) (cs ts : List Ptr) (k k' : Kernel) : Type 0 where
  pub children : Chain k'.sibling (k'.children (k.parent t)) (erase t cs)
  pub queue : Chain k'.next k'.task_list_head (erase t ts)
  pub parent : k'.parent ≡ update k.parent t null
  pub others : (q : Ptr) → q ≢ k.parent t → k'.children q ≡ k.children q
  pub state : k'.state ≡ k.state
  pub pid : k'.pid ≡ k.pid
  pub current : k'.current_task ≡ k.current_task
  pub counter : k'.task_counter ≡ k.task_counter

-- A task that is among its parent's children and in the scheduler's list is taken off both, the
-- others keep their order, and the pages of its kernel stack are given back.
pub task_reap-Reaped :
    (fuel : ℕ) (t : Ptr) (cs ts : List Ptr) (k : Kernel)
    → k.parent t ≢ null
    → Chain k.sibling (k.children (k.parent t)) cs
    → has t cs ≡ true
    → Chain k.next k.task_list_head ts
    → has t ts ≡ true
    → length cs ≤ fuel
    → length ts ≤ fuel
    → (k' : Kernel) × (task_reap fuel t k
        ≡ some (k', if k.kstack t == null then [] else stack_pages kstack_pages 0 (k.kstack t)))
      × Reaped t cs ts k k'
unfolding task_reap
task_reap-Reaped fuel t cs ts k up c mem d mem' enough enough' =
    let (k1, removes, r) = task_remove_child-Removed fuel (k.parent t) t cs k c mem enough in
    let there : (k.parent t == null) ≡ false = ground (arith, up) in
    let d1 : Chain k1.next k1.task_list_head ts = rw (r.rest) d in
    let (k2, unlinks, queue, rest) = unlink_task-erase fuel t ts k1 d1 mem' enough' in
    let stack : k2.kstack ≡ k.kstack = ap (λ h. h.kstack) rest ∙ ap (λ h. h.kstack) r.rest in
    (
      k2,
      rw (there, removes, unlinks, stack) refl,
      record {
        children = rw rest r.chain;
        queue = queue;
        parent = ap (λ h. h.parent) rest ∙ r.orphan;
        others = λ q nq. ap (λ h. h.children q) rest ∙ r.heads q nq;
        state = ap (λ h. h.state) rest ∙ ap (λ h. h.state) r.rest;
        pid = ap (λ h. h.pid) rest ∙ ap (λ h. h.pid) r.rest;
        current = ap (λ h. h.current_task) rest ∙ ap (λ h. h.current_task) r.rest;
        counter = ap (λ h. h.task_counter) rest ∙ ap (λ h. h.task_counter) r.rest;
      },
    )
