-- ===== src/Exit/Reparent.antt =====
-- The loop of `do_exit` that hands the children over.
use mathlib.Core.List.{reverse_aux}
use hekaos_series.Base.{
  ℕ, zero, suc, ◌<◌, ◌≡◌, refl, ap, ◌∙◌, ◌≢◌, true, false, some, List, [], ◌∷◌, arith, ◌==◌,
  if◌then◌else◌, length,
}
use hekaos_series.Tasks.{Ptr, null, Kernel}
use hekaos_series.Tasks.Chain.{has, Chain, Chain-head_fresh}
use hekaos_series.Tasks.Tree.{Disjoint, moved, task_reparent-moved, moved-Moved}
use hekaos_series.Exit.{reparent_all}

-- `t` has the children `xs` and `reaper` has `ys`.
pub record Family (t reaper : Ptr) (xs ys : List Ptr) (k : Kernel) : Type 0 where
  pub not_null : t ≢ null
  pub other : t ≢ reaper
  pub source : Chain k.sibling (k.children t) xs
  pub target : Chain k.sibling (k.children reaper) ys
  pub apart : Disjoint xs ys
  pub up : (a : Ptr) → has a xs ≡ true → k.parent a ≡ t

-- All of `xs` have become children of `reaper`, the last first, before `ys`; nothing else changes.
pub record HandedOver (t reaper : Ptr) (xs ys : List Ptr) (k k' : Kernel) : Type 0 where
  pub childless : k'.children t ≡ null
  pub target : Chain k'.sibling (k'.children reaper) (reverse_aux xs ys)
  pub parents : (a : Ptr) → k'.parent a ≡ (if has a xs then reaper else k.parent a)
  pub heads : (q : Ptr) → q ≢ t → q ≢ reaper → k'.children q ≡ k.children q
  pub rest : k' ≡ record k { sibling = k'.sibling; parent = k'.parent; children = k'.children }

Family-moved :
    (t reaper x : Ptr) (xs ys : List Ptr) (k : Kernel)
    → Family t reaper (x ∷ xs) ys k
    → Family t reaper xs (x ∷ ys) (moved t x reaper k)
unfolding has
Family-moved t reaper x xs ys k f =
    let m = moved-Moved t x reaper xs ys k f.source f.target f.apart f.other in
    let out = Chain-head_fresh k.sibling (k.children t) x xs f.source in
    record {
      not_null = f.not_null;
      other = f.other;
      source = m.source;
      target = m.target;
      apart = λ a h. ground (arith, f.apart a);
      up = λ a h. ground (arith, m.parents a, f.up a);
    }

HandedOver-cons :
    (t reaper x : Ptr) (xs ys : List Ptr) (k k' : Kernel)
    → Family t reaper (x ∷ xs) ys k
    → HandedOver t reaper xs (x ∷ ys) (moved t x reaper k) k'
    → HandedOver t reaper (x ∷ xs) ys k k'
unfolding has
HandedOver-cons t reaper x xs ys k k' f h =
    let m = moved-Moved t x reaper xs ys k f.source f.target f.apart f.other in
    let tree_of = λ (j : Kernel). record j {
      sibling = k'.sibling;
      parent = k'.parent;
      children = k'.children;
    } in
    record {
      childless = h.childless;
      target = h.target;
      parents = λ a. ground (arith, h.parents a, m.parents a);
      heads = λ q ne ne'. h.heads q ne ne' ∙ m.heads q ne ne';
      rest = h.rest ∙ ap tree_of m.rest;
    }

-- The loop ends after one round for each child and a last test.
pub reparent_all-HandedOver :
    (fuel n : ℕ) (t reaper : Ptr) (xs ys : List Ptr) (k : Kernel)
    → length xs < n
    → Family t reaper xs ys k
    → (k' : Kernel) × (reparent_all fuel n t reaper k ≡ some k') × HandedOver t reaper xs ys k k'
unfolding reparent_all has
reparent_all-HandedOver fuel zero t reaper xs ys k enough f = absurd (omega arith)
reparent_all-HandedOver fuel (suc n) t reaper [] ys k enough f =
    let done : k.children t ≡ null = f.source in
    (
      k,
      rw done,
      record {
        childless = done;
        target = f.target;
        parents = λ a. refl;
        heads = λ q ne ne'. refl;
        rest = refl;
      },
    )
reparent_all-HandedOver fuel (suc n) t reaper (x ∷ xs) ys k enough f =
    let first : k.children t ≡ x = f.source.0 in
    let more : (x == null) ≡ false = ground (arith, f.source.1) in
    let step = task_reparent-moved fuel t x reaper k first (f.up x (ground arith)) f.not_null in
    let (k', done, h) =
      reparent_all-HandedOver fuel n t reaper xs (x ∷ ys) (moved t x reaper k) (omega arith)
        (Family-moved t reaper x xs ys k f) in
    (k', rw first (rw more (rw step done)), HandedOver-cons t reaper x xs ys k k' f h)
