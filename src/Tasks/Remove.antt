-- ===== src/Tasks/Remove.antt =====
-- `task_remove_child` on the list of children: the child goes, the others keep their order.
use hekaos_series.Base.{
  ℕ, zero, suc, ◌≤◌, ◌<◌, ◌≡◌, refl, ◌≢◌, inl, inr, true, false, some, List, [], ◌∷◌, arith, ◌==◌,
  Bool-cases, update, length, ==_refl,
}
use hekaos_series.Tasks.{Ptr, null, Kernel, find_before, unlink_child, detach, task_remove_child}
use hekaos_series.Tasks.Chain.{has, Chain, Chain-update, Chain-head_fresh, erase}

-- The `sibling` fields after the removal of `child` behind `before`.
abbrev pub bypass : (Ptr → Ptr) → Ptr → Ptr → Ptr → Ptr
bypass sibling before child = update (update sibling before (sibling child)) child null

-- The walk from `x` stops at the node before `child`.
record Before (s : Ptr → Ptr) (x child : Ptr) (xs : List Ptr) (b : Ptr) : Type 0 where
  member : has b (x ∷ xs) ≡ true
  not_null : b ≢ null
  chain : Chain (bypass s b child) x (x ∷ erase child xs)

Before-here :
    (s : Ptr → Ptr) (x child : Ptr) (ys : List Ptr)
    → x ≢ null
    → Chain s (s x) (child ∷ ys)
    → has x (child ∷ ys) ≡ false
    → Before s x child (child ∷ ys) x
unfolding has erase
Before-here s x child ys nx (e, nc, c) out =
    let child_out : has child ys ≡ false = Chain-head_fresh s (s x) child ys (e, nc, c) in
    let passed : bypass s x child x ≡ s child = ground arith in
    let spared : Chain (bypass s x child) (s child) ys =
      Chain-update (update s x (s child)) child null (s child) ys child_out
        (Chain-update s x (s child) (s child) ys (ground arith) c) in
    record {
      member = ground arith;
      not_null = nx;
      chain = (refl, nx, ground (arith, rw (← passed) at spared));
    }

Before-later :
    (s : Ptr → Ptr) (x y child : Ptr) (ys : List Ptr) (b : Ptr)
    → x ≢ null
    → s x ≡ y
    → y ≢ child
    → has x (y ∷ ys) ≡ false
    → has child ys ≡ true
    → Before s y child ys b
    → Before s x child (y ∷ ys) b
unfolding has erase
Before-later s x y child ys b nx e other out inside w =
    let skip : (child == y) ≡ false = ground arith in
    let kept : bypass s b child x ≡ y = ground (arith, w.member) in
    record {
      member = ground (arith, w.member);
      not_null = w.not_null;
      chain = rw skip (refl, nx, (kept, w.chain.1, w.chain.2));
    }

find_before-Before :
    (n : ℕ) (s : Ptr → Ptr) (x child : Ptr) (xs : List Ptr)
    → x ≢ null
    → Chain s (s x) xs
    → has x xs ≡ false
    → has child xs ≡ true
    → length xs < n
    → (b : Ptr) × (find_before n x child s ≡ some b) × Before s x child xs b
unfolding find_before has
find_before-Before zero s x child xs nx c out h fuel = absurd (omega arith)
find_before-Before (suc n) s x child [] nx c out h fuel = cc
find_before-Before (suc n) s x child (y ∷ ys) nx (e, ny, c) out h fuel =
    elim (Bool-cases (y == child)) [
      | inl hit ↦
          let same : child ≡ y = ground arith in
          (x, ground arith, rw same (Before-here s x y ys nx (e, ny, c) out))
      | inr miss ↦
          let y_out : has y ys ≡ false = Chain-head_fresh s (s x) y ys (e, ny, c) in
          let (b, found, w) =
            find_before-Before n s y child ys ny c y_out (ground arith) (omega arith) in
          (
            b,
            ground (arith, found),
            Before-later s x y child ys b nx e (ground arith) out (ground arith) w,
          )
    ]

-- What the removal leaves: the children are the old ones without `child`, in their order, which is
-- itself an orphan with no sibling; nothing changes outside of the old list but the head.
pub record Removed (parent child : Ptr) (xs : List Ptr) (k k' : Kernel) : Type 0 where
  pub chain : Chain k'.sibling (k'.children parent) (erase child xs)
  pub orphan : k'.parent ≡ update k.parent child null
  pub alone : k'.sibling child ≡ null
  pub others : (a : Ptr) → has a xs ≡ false → k'.sibling a ≡ k.sibling a
  pub heads : (q : Ptr) → q ≢ parent → k'.children q ≡ k.children q
  pub rest : k' ≡ record k { sibling = k'.sibling; parent = k'.parent; children = k'.children }

remove_head :
    (fuel : ℕ) (parent child : Ptr) (xs : List Ptr) (k : Kernel)
    → Chain k.sibling (k.children parent) (child ∷ xs)
    → (k' : Kernel) × (task_remove_child fuel parent child k ≡ some k')
      × Removed parent child (child ∷ xs) k k'
unfolding task_remove_child unlink_child detach has erase
remove_head fuel parent child xs k (e, nc, c) =
    let k' = detach child (record k { children = update k.children parent (k.sibling child) }) in
    let head : (k.children parent == child) ≡ true = ground arith in
    let out = Chain-head_fresh k.sibling (k.children parent) child xs (e, nc, c) in
    (
      k',
      rw head,
      record {
        chain =
            rw (==_refl child, ==_refl parent)
              (Chain-update k.sibling child null (k.sibling child) xs out c);
        orphan = refl;
        alone = ground arith;
        others = λ a h. ground arith;
        heads = λ q h. ground arith;
        rest = refl;
      },
    )

remove_later :
    (fuel : ℕ) (parent child x : Ptr) (xs : List Ptr) (k : Kernel)
    → Chain k.sibling (k.children parent) (x ∷ xs)
    → has child xs ≡ true
    → length xs < fuel
    → (k' : Kernel) × (task_remove_child fuel parent child k ≡ some k')
      × Removed parent child (x ∷ xs) k k'
unfolding task_remove_child unlink_child detach has erase
remove_later fuel parent child x xs k (e, nx, c) h enough =
    let out = Chain-head_fresh k.sibling (k.children parent) x xs (e, nx, c) in
    let head : (k.children parent == child) ≡ false = ground arith in
    let (b, found, w) = find_before-Before fuel k.sibling x child xs nx c out h enough in
    let link : (b == null) ≡ false = ground (arith, w.not_null) in
    let skip : (child == x) ≡ false = ground arith in
    let k' = detach child (record k { sibling = update k.sibling b (k.sibling child) }) in
    (
      k',
      rw head (rw e (rw found (rw link))),
      record {
        chain = rw (skip, e) w.chain;
        orphan = refl;
        alone = ground arith;
        others = λ a o. ground (arith, w.member);
        heads = λ q h. refl;
        rest = refl;
      },
    )

-- `task_remove_child`, given a child of `parent`, ends within as many rounds as `parent` has
-- children, and removes exactly that child: the others keep their order, the child has no parent and
-- no sibling, and nothing outside of the list changes but its head.
pub task_remove_child-Removed :
    (fuel : ℕ) (parent child : Ptr) (xs : List Ptr) (k : Kernel)
    → Chain k.sibling (k.children parent) xs
    → has child xs ≡ true
    → length xs ≤ fuel
    → (k' : Kernel) × (task_remove_child fuel parent child k ≡ some k')
      × Removed parent child xs k k'
unfolding has
task_remove_child-Removed fuel parent child [] k c h enough = cc
task_remove_child-Removed fuel parent child (x ∷ xs) k c h enough = elim (Bool-cases (child == x)) [
  | inl first ↦ let same : child ≡ x = ground arith in rw same (remove_head fuel parent x xs k c)
  | inr later ↦ remove_later fuel parent child x xs k c (ground arith) (omega arith)
]
