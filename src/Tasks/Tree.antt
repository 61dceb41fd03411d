-- ===== src/Tasks/Tree.antt =====
-- `task_reparent` of a first child, the step of the loop in `do_exit`.
use hekaos_series.Base.{
  ℕ, ◌≡◌, refl, ◌≢◌, true, false, some, List, ◌∷◌, arith, ◌==◌, if◌then◌else◌, ==_refl, update,
}
use hekaos_series.Tasks.{
  Ptr, null, Kernel, task_add_child, unlink_child, detach, task_remove_child, task_reparent,
}
use hekaos_series.Tasks.Chain.{has, Chain, Chain-frame, Chain-head_fresh}

-- No address is on both lists.
abbrev pub Disjoint : List Ptr → List Ptr → Type 0
Disjoint xs ys = (a : Ptr) → has a xs ≡ true → has a ys ≡ false

-- The kernel after the first child `x` of `t` was handed to `reaper`.
pub moved : Ptr → Ptr → Ptr → Kernel → Kernel
moved t x reaper k =
    task_add_child reaper x (detach x (record k { children = update k.children t (k.sibling x) }))

pub task_reparent-moved :
    (fuel : ℕ) (t x reaper : Ptr) (k : Kernel)
    → k.children t ≡ x
    → k.parent x ≡ t
    → t ≢ null
    → task_reparent fuel x reaper k ≡ some (moved t x reaper k)
unfolding task_reparent task_remove_child unlink_child moved
task_reparent-moved fuel t x reaper k first up nt =
    let root : (t == null) ≡ false = ground arith in rw up (rw root (rw first (rw (==_refl x))))

-- `x` leaves the head of one list of children for the head of the other; nothing else moves.
pub record Moved (t x reaper : Ptr) (xs ys : List Ptr) (k k' : Kernel) : Type 0 where
  pub source : Chain k'.sibling (k'.children t) xs
  pub target : Chain k'.sibling (k'.children reaper) (x ∷ ys)
  pub parents : (a : Ptr) → k'.parent a ≡ (if x == a then reaper else k.parent a)
  pub heads : (q : Ptr) → q ≢ t → q ≢ reaper → k'.children q ≡ k.children q
  pub rest : k' ≡ record k { sibling = k'.sibling; parent = k'.parent; children = k'.children }

pub moved-Moved :
    (t x reaper : Ptr) (xs ys : List Ptr) (k : Kernel)
    → Chain k.sibling (k.children t) (x ∷ xs)
    → Chain k.sibling (k.children reaper) ys
    → Disjoint (x ∷ xs) ys
    → t ≢ reaper
    → Moved t x reaper xs ys k (moved t x reaper k)
unfolding moved detach task_add_child has
moved-Moved t x reaper xs ys k (e, nx, c) d apart other =
    let out = Chain-head_fresh k.sibling (k.children t) x xs (e, nx, c) in
    let out' : has x ys ≡ false = apart x (ground arith) in
    let s' = (moved t x reaper k).sibling in
    let keep : (a : Ptr) → x ≢ a → s' a ≡ k.sibling a = λ a ne. ground arith in
    let at_source : (moved t x reaper k).children t ≡ k.sibling x = ground arith in
    let at_target : (moved t x reaper k).children reaper ≡ x = ground arith in
    let at_x : s' x ≡ k.children reaper = ground arith in
    record {
      source = rw at_source (Chain-frame k.sibling s' (k.sibling x) xs (λ a h. ground arith) c);
      target = (
        at_target,
        nx,
        rw at_x (Chain-frame k.sibling s' (k.children reaper) ys (λ a h. ground arith) d),
      );
      parents = λ a. ground arith;
      heads = λ q ne ne'. ground arith;
      rest = refl;
    }

-- Handed to its own parent, the first child is the first child again.
pub moved_self :
    (t x : Ptr) (k : Kernel) → ((moved t x t k).children t ≡ x) × ((moved t x t k).parent x ≡ t)
unfolding moved detach task_add_child
moved_self t x k = ground arith
