-- ===== src/Sched/Ring.antt =====
-- The task list walked as a ring: from one task round to the same task again.
use hekaos_series.Base.{◌≡◌, refl, sym, false, ◌||◌, List, [], ◌∷◌, ◌++◌, arith, ◌==◌, ap}
use mathlib.Core.List.{append_assoc}
use mathlib.Core.Path.{subst}
use hekaos_series.Tasks.{Ptr, null, Kernel}
use hekaos_series.Tasks.Chain.{has, Chain, Chain-head_fresh}
use hekaos_series.Sched.{after}

-- From `t` the steps `f` lead through `xs`, and the next step is to `e`.
abbrev pub Walk : (Ptr → Ptr) → Ptr → List Ptr → Ptr → Type 0
Walk f t [] e = t ≡ e
Walk f t (x ∷ xs) e = (t ≡ x) × Walk f (f x) xs e

Walk-append :
    (f : Ptr → Ptr) (a b c : Ptr) (xs ys : List Ptr)
    → Walk f a xs b
    → Walk f b ys c
    → Walk f a (xs ++ ys) c
Walk-append f a b c [] ys e w = rw e w
Walk-append f a b c (x ∷ xs) ys (e, v) w = (e, Walk-append f (f x) b c xs ys v w)

-- The whole list, and then the head again.
Chain-Walk :
    (k : Kernel) (p x : Ptr) (xs : List Ptr)
    → Chain k.next p (x ∷ xs)
    → Walk (after k) p (x ∷ xs) k.task_list_head
unfolding after
Chain-Walk k p x [] (e, nx, last) = (e, rw last)
Chain-Walk k p x (y ∷ ys) (e, nx, c) =
    let inner : (k.next x == null) ≡ false = ground (arith, c.0, c.1) in
    (e, rw inner (Chain-Walk k (k.next x) y ys c))

-- The part of the list before `q`.
segment-Walk :
    (k : Kernel) (p q : Ptr) (xs ys : List Ptr)
    → Chain k.next p (xs ++ q ∷ ys)
    → Walk (after k) p xs q
unfolding after
segment-Walk k p q [] ys (e, nq, c) = e
segment-Walk k p q (x ∷ []) ys (e, nx, c) = (e, ground (arith, c.0, c.1))
segment-Walk k p q (x ∷ y ∷ xs) ys (e, nx, c) =
    let inner : (k.next x == null) ≡ false = ground (arith, c.0, c.1) in
    (e, rw inner (segment-Walk k (k.next x) q (y ∷ xs) ys c))

has-append : (a : Ptr) (xs ys : List Ptr) → has a (xs ++ ys) ≡ (has a xs || has a ys)
unfolding has
has-append a [] ys = refl
has-append a (x ∷ xs) ys = ground (arith, has-append a xs ys)

Chain-suffix :
    (f : Ptr → Ptr) (p : Ptr) (xs ys : List Ptr) → Chain f p (xs ++ ys) → (q : Ptr) × Chain f q ys
Chain-suffix f p [] ys c = (p, c)
Chain-suffix f p (x ∷ xs) ys (e, nx, c) = Chain-suffix f (f x) xs ys c

not-mem_before :
    (f : Ptr → Ptr) (p q : Ptr) (xs ys : List Ptr) → Chain f p (xs ++ q ∷ ys) → has q xs ≡ false
unfolding has
not-mem_before f p q [] ys c = refl
not-mem_before f p q (x ∷ xs) ys (e, nx, c) =
    let out = Chain-head_fresh f p x (xs ++ q ∷ ys) (e, nx, c) in
    ground (arith, not-mem_before f (f x) q xs ys c, has-append x xs (q ∷ ys))

-- The tasks in the order in which the scheduler looks at them: those behind the current one `c`, then
-- the list from its head up to and with `c`.
abbrev pub rotation : List Ptr → Ptr → List Ptr → List Ptr
rotation before c behind = behind ++ (before ++ c ∷ [])

-- The walk that starts behind `c` goes through `rotation` and comes back to its start, which it does
-- not meet on the way.
pub record Round (k : Kernel) (start : Ptr) (xs : List Ptr) : Type 0 where
  pub rest : List Ptr
  pub whole : xs ≡ start ∷ rest
  pub walk : Walk (after k) (after k start) rest start
  pub once : has start rest ≡ false

Round-of_Chain :
    (k : Kernel) (x : Ptr) (xs : List Ptr)
    → Chain k.next k.task_list_head (x ∷ xs)
    → Round k k.task_list_head (x ∷ xs)
Round-of_Chain k x xs (e, nx, c) = record {
  rest = xs;
  whole = ap (λ (y : Ptr). y ∷ xs) (sym e);
  walk =
      subst (λ (y : Ptr). Walk (after k) (after k y) xs k.task_list_head) (sym e)
        (Chain-Walk k k.task_list_head x xs (e, nx, c)).1;
  once =
      subst (λ (y : Ptr). has y xs ≡ false) (sym e)
        (Chain-head_fresh k.next k.task_list_head x xs (e, nx, c));
}

after_last :
    (k : Kernel) (c : Ptr) (before : List Ptr)
    → Chain k.next k.task_list_head (before ++ c ∷ [])
    → after k c ≡ k.task_list_head
unfolding after
after_last k c before chain =
    let (q, (e, nc, last)) = Chain-suffix k.next k.task_list_head before (c ∷ []) chain in rw last

after_inner :
    (k : Kernel) (c q : Ptr) (before behind : List Ptr)
    → Chain k.next k.task_list_head (before ++ c ∷ q ∷ behind)
    → (after k c ≡ q) × (k.next c ≡ q) × Chain k.next q (q ∷ behind)
unfolding after
after_inner k c q before behind chain =
    let (p, (e, nc, (e', nq, rest))) =
      Chain-suffix k.next k.task_list_head before (c ∷ q ∷ behind) chain in
    (ground (arith, e', nq), e', (refl, nq, rest))

Round-last :
    (k : Kernel) (c : Ptr) (before : List Ptr)
    → Chain k.next k.task_list_head (before ++ c ∷ [])
    → Round k (after k c) (rotation before c [])
Round-last k c [] chain = rw (after_last k c [] chain) (Round-of_Chain k c [] chain)
Round-last k c (x ∷ xs) chain =
    rw (after_last k c (x ∷ xs) chain) (Round-of_Chain k x (xs ++ c ∷ []) chain)

Round-inner :
    (k : Kernel) (c q : Ptr) (before behind : List Ptr)
    → Chain k.next k.task_list_head (before ++ c ∷ q ∷ behind)
    → Round k (after k c) (rotation before c (q ∷ behind))
Round-inner k c q before behind chain =
    let (e, link, tail) = after_inner k c q before behind chain in
    let h = k.task_list_head in
    let assoc : before ++ c ∷ q ∷ behind ≡ (before ++ c ∷ []) ++ q ∷ behind =
      sym (append_assoc before (c ∷ []) (q ∷ behind)) in
    let chain' : Chain k.next h ((before ++ c ∷ []) ++ q ∷ behind) = rw assoc at chain in
    let fresh = Chain-head_fresh k.next q q behind tail in
    let fresh' = not-mem_before k.next h q (before ++ c ∷ []) behind chain' in
    let home : Walk (after k) h (before ++ c ∷ []) q =
      Walk-append (after k) h c q before (c ∷ []) (segment-Walk k h c before (q ∷ behind) chain)
        (refl, e) in
    rw e (record {
      rest = behind ++ (before ++ c ∷ []);
      whole = refl;
      walk =
          Walk-append (after k) (after k q) h q behind (before ++ c ∷ [])
            (Chain-Walk k q q behind tail).1 home;
      once = rw (has-append q behind (before ++ c ∷ []), fresh, fresh');
    })

-- From the task behind the current one the walk goes once round the list.
pub Round-trip :
    (k : Kernel) (c : Ptr) (before behind : List Ptr)
    → Chain k.next k.task_list_head (before ++ c ∷ behind)
    → Round k (after k c) (rotation before c behind)
Round-trip k c before [] chain = Round-last k c before chain
Round-trip k c before (q ∷ behind) chain = Round-inner k c q before behind chain
