-- ===== src/KernelHeap/Release.antt =====
-- What `kmem_free` makes of the list of blocks: the freed block joins its free neighbours.
use hekaos_series.Base.{
  ℕ, suc, ◌+◌, ◌^◌, ◌≤◌, ◌<◌, ◌≡◌, refl, sym, ◌⊎◌, inl, inr, Bool, true, false, List, [], ◌∷◌,
  arith, ◌==◌, if◌then◌else◌, Bool-cases, update,
}
use mathlib.Core.Path.{subst}
use hekaos_series.Word.{add32}
use hekaos_series.Tasks.{Ptr, null}
use hekaos_series.KernelHeap.{Heap, merge, merge_next, merge_prev}
use hekaos_series.KernelHeap.Tiles.{Block, Tiles, Same, Tiles-le, Tiles-Same, Same-refl}
use hekaos_series.KernelHeap.Allocate.{Tiles-relink, Tiles-start}

-- The heap once the block at `b`, of `t` bytes, is part of the block at `a`, of `s` bytes.
abbrev joined : Ptr → Ptr → ℕ → Heap → Heap
joined a b n h = record h {
  size = update h.size a n;
  next = update h.next a (h.next b);
  prev = if h.next b == null then h.prev else update h.prev (h.next b) a;
}

merge-joined :
    (h : Heap) (a s t : ℕ)
    → a + 16 + s + 16 + t < 2 ^ 32
    → h.size a ≡ s
    → h.size (a + 16 + s) ≡ t
    → merge a (a + 16 + s) h ≡ joined a (a + 16 + s) (s + 16 + t) h
unfolding merge
merge-joined h a s t hi es et =
    let sum : add32 s (add32 16 t) ≡ s + 16 + t = omega arith in
    elim (Bool-cases (h.next (a + 16 + s) == null)) [
      | inl z ↦ rw (es, et, sum, z) refl
      | inr z ↦ rw (es, et, sum, z) refl
    ]

joined-Same :
    (h : Heap) (a s t n lo hi : ℕ)
    → (hi ≤ a) ⊎ (a + 16 + s + 16 + t < lo)
    → (h.next (a + 16 + s) ≡ null) ⊎ (h.next (a + 16 + s) ≡ a + 16 + s + 16 + t)
    → Same lo hi h (joined a (a + 16 + s) n h)
joined-Same h a s t n lo hi away (inl z) = rw z (record {
  size = λ y l u. ground arith;
  used = λ y l u. refl;
  next = λ y l u. ground arith;
  prev = λ y l u. refl;
})
joined-Same h a s t n lo hi away (inr z) = rw z (record {
  size = λ y l u. ground arith;
  used = λ y l u. refl;
  next = λ y l u. ground arith;
  prev = λ y l u. ground arith;
})

pub merge-Tiles :
    (h : Heap) (prev a s t e : ℕ) (u v : Bool) (bs : List Block)
    → 0 < a
    → e < 2 ^ 32
    → Tiles h prev a a ((s, u) ∷ (t, v) ∷ bs) e
    → Tiles (merge a (a + 16 + s) h) prev a a ((s + 16 + t, u) ∷ bs) e
      × Same 0 a h (merge a (a + 16 + s) h)
merge-Tiles h prev a s t e u v bs pos hi ((tp, ts, tu, tv), ((np, ns, nu, nv), r)) =
    let b = a + 16 + s in
    let start = Tiles-start h b (h.next b) (b + 16 + t) e bs r in
    let bound = Tiles-le h b (h.next b) (b + 16 + t) e bs r in
    let h' = joined a b (s + 16 + t) h in
    let end : a + 16 + (s + 16 + t) ≡ b + 16 + t = omega arith in
    let link : update h.next a (h.next b) a ≡ h.next b = ground arith in
    let rest : Tiles h' a (h.next b) (b + 16 + t) bs e =
      Tiles-relink h h' b a (h.next b) (b + 16 + t) e bs r
        (joined-Same h a s t (s + 16 + t) (suc (b + 16 + t)) e (inr (omega arith)) start)
        (ground arith) refl (ground arith) (ground (arith, start)) (omega arith) in
    subst (λ h1. Tiles h1 prev a a ((s + 16 + t, u) ∷ bs) e × Same 0 a h h1)
      (sym (merge-joined h a s t (omega arith) ts ns))
      (
        ((refl, ground arith, tu, ground (arith, start, tv)), rw (link, end) rest),
        joined-Same h a s t (s + 16 + t) 0 a (inl (omega arith)) start,
      )

-- A free block of `s` bytes in front of `bs`, joined with a free block that follows.
unfoldable pub join : ℕ → List Block → List Block
join s [] = (s, false) ∷ []
join s ((t, true) ∷ bs) = (s, false) ∷ (t, true) ∷ bs
join s ((t, false) ∷ bs) = (s + 16 + t, false) ∷ bs

-- The list once the block of `s` bytes between `L` and `R` is free.
unfoldable pub release : List Block → ℕ → List Block → List Block
release [] s R = join s R
release ((t, u) ∷ []) s R = if u then (t, u) ∷ join s R else join t (join s R)
release ((t, u) ∷ c ∷ L) s R = (t, u) ∷ release (c ∷ L) s R

-- the bytes that the blocks and their headers take up
unfoldable pub span : List Block → ℕ
span [] = 0
span ((s, u) ∷ bs) = 16 + s + span bs

pub merge_next-join :
    (h : Heap) (prev a s e : ℕ) (bs : List Block)
    → 0 < a
    → e < 2 ^ 32
    → Tiles h prev a a ((s, false) ∷ bs) e
    → Tiles (merge_next a h) prev a a (join s bs) e × Same 0 a h (merge_next a h)
unfolding merge_next join
merge_next-join h prev a s e [] pos hi t =
    subst (λ h1. Tiles h1 prev a a ((s, false) ∷ []) e × Same 0 a h h1) (sym (rw t.1.0 refl))
      (t, Same-refl 0 a h)
merge_next-join h prev a s e ((t, true) ∷ bs) pos hi (q, ((np, ns, nu, nv), r)) =
    let same : merge_next a h ≡ h = rw (np, nu) (ground arith) in
    subst (λ h1. Tiles h1 prev a a ((s, false) ∷ (t, true) ∷ bs) e × Same 0 a h h1) (sym same)
      ((q, ((np, ns, nu, nv), r)), Same-refl 0 a h)
merge_next-join h prev a s e ((t, false) ∷ bs) pos hi (q, ((np, ns, nu, nv), r)) =
    let test : (a + 16 + s == null) ≡ false = ground arith in
    let same : merge_next a h ≡ merge a (a + 16 + s) h = rw (np, nu, test) refl in
    subst (λ h1. Tiles h1 prev a a ((s + 16 + t, false) ∷ bs) e × Same 0 a h h1) (sym same)
      (merge-Tiles h prev a s t e false false bs pos hi (q, ((np, ns, nu, nv), r)))

-- The block behind one of `t` bytes, given back to it if that is free.
pub merge_prev-join :
    (h : Heap) (prev a t e : ℕ) (u : Bool) (bs : List Block) (s : ℕ)
    → 0 < a
    → e < 2 ^ 32
    → Tiles h prev a a ((t, u) ∷ (s, false) ∷ bs) e
    → Tiles
        (merge_prev (a + 16 + t) h)
        prev
        a
        a
        (if u then (t, u) ∷ (s, false) ∷ bs else (t + 16 + s, false) ∷ bs)
        e
      × Same 0 a h (merge_prev (a + 16 + t) h)
unfolding merge_prev join
merge_prev-join h prev a t e true bs s pos hi ((tp, ts, tu, tv), ((np, ns, nu, nv), r)) =
    let same : merge_prev (a + 16 + t) h ≡ h = rw (nv, tu) (ground arith) in
    subst (λ h1. Tiles h1 prev a a ((t, true) ∷ (s, false) ∷ bs) e × Same 0 a h h1) (sym same)
      (((tp, ts, tu, tv), ((np, ns, nu, nv), r)), Same-refl 0 a h)
merge_prev-join h prev a t e false bs s pos hi ((tp, ts, tu, tv), ((np, ns, nu, nv), r)) =
    let test : (a == null) ≡ false = ground arith in
    let same : merge_prev (a + 16 + t) h ≡ merge a (a + 16 + t) h = rw (nv, tu, test) refl in
    subst (λ h1. Tiles h1 prev a a ((t + 16 + s, false) ∷ bs) e × Same 0 a h h1) (sym same)
      (merge-Tiles h prev a t s e false false bs pos hi ((tp, ts, tu, tv), ((np, ns, nu, nv), r)))

-- what `kmem_free` does to the block at `blk`
abbrev pub freed : Ptr → Heap → Heap
freed blk h = merge_prev blk (merge_next blk (record h { used = update h.used blk false }))

pub join-cons :
    (s : ℕ) (bs : List Block) → (s' : ℕ) × (R : List Block) × (join s bs ≡ (s', false) ∷ R)
unfolding join
join-cons s [] = (s, [], refl)
join-cons s ((t, true) ∷ bs) = (s, (t, true) ∷ bs, refl)
join-cons s ((t, false) ∷ bs) = (s + 16 + t, bs, refl)

pub unmark-Same :
    (h : Heap) (blk lo hi : ℕ)
    → (hi ≤ blk) ⊎ (blk < lo)
    → Same lo hi h (record h { used = update h.used blk false })
unmark-Same h blk lo hi away = record {
  size = λ y l u. refl;
  used = λ y l u. ground arith;
  next = λ y l u. refl;
  prev = λ y l u. refl;
}

pub unmark-Tiles :
    (h : Heap) (prev p a s e : ℕ) (u : Bool) (bs : List Block)
    → Tiles h prev p a ((s, u) ∷ bs) e
    → Tiles (record h { used = update h.used a false }) prev p a ((s, false) ∷ bs) e
unmark-Tiles h prev p a s e u bs ((tp, ts, tu, tv), t) = (
  (tp, ts, ground arith, tv),
  Tiles-Same h (record h { used = update h.used a false }) a (h.next a) (a + 16 + s) e (suc a) bs
      (omega arith) (unmark-Same h a (suc a) e (inr (omega arith))) t,
)

merge-globals :
    (a b : Ptr) (h : Heap) → ((merge a b h).head ≡ h.head) × ((merge a b h).heap_end ≡ h.heap_end)
unfolding merge
merge-globals a b h = elim (Bool-cases (h.next b == null)) [
  | inl z ↦ ground arith
  | inr z ↦ ground arith
]

pub merge_next-globals :
    (blk : Ptr) (h : Heap)
    → ((merge_next blk h).head ≡ h.head) × ((merge_next blk h).heap_end ≡ h.heap_end)
unfolding merge_next
merge_next-globals blk h = ground (arith, merge-globals blk (h.next blk) h)

pub merge_prev-globals :
    (blk : Ptr) (h : Heap)
    → ((merge_prev blk h).head ≡ h.head) × ((merge_prev blk h).heap_end ≡ h.heap_end)
unfolding merge_prev
merge_prev-globals blk h = ground (arith, merge-globals (h.prev blk) blk h)
