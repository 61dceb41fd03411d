-- ===== src/KernelHeap/Allocate.antt =====
-- The first-fit allocation of `kmem_alloc` on the list of blocks.
use hekaos_series.Base.{
  ℕ, suc, ◌+◌, ◌-◌, ◌^◌, ◌≤◌, ◌<◌, ◌≡◌, refl, sym, ap, ◌∙◌, ◌⊎◌, inl, inr, true, false, not, ◌&&◌,
  List, [], ◌∷◌, arith, leb, ◌==◌, if◌then◌else◌, Bool-cases, update,
}
use mathlib.Core.Path.{subst}
use hekaos_series.Word.{add32, sub32}
use hekaos_series.Tasks.{null}
use hekaos_series.KernelHeap.{Heap, split, take_block}
use hekaos_series.KernelHeap.Tiles.{Block, Tiles, Same, Tiles-le, Tiles-Same, fit_at}

-- A chain that keeps its headers but for the link back of the first one.
pub Tiles-relink :
    (h h' : Heap) (prev prev' p a e : ℕ) (bs : List Block)
    → Tiles h prev p a bs e
    → Same (suc a) e h h'
    → h'.size a ≡ h.size a
    → h'.used a ≡ h.used a
    → h'.next a ≡ h.next a
    → (p ≡ null ⊎ (h'.prev p ≡ prev'))
    → 0 < a
    → Tiles h' prev' p a bs e
Tiles-relink h h' prev prev' p a e [] t same es eu en ep pos = t
Tiles-relink h h' prev prev' p a e ((s, u) ∷ bs) ((tp, ts, tu, tv), t) same es eu en ep pos = (
  (
    tp,
    es ∙ ts,
    eu ∙ tu,
    elim ep [ inl z ↦ absurd (omega (arith)) | inr z ↦ sym (ap h'.prev tp) ∙ z ],
  ),
  rw en (Tiles-Same h h' a (h.next a) (a + 16 + s) e (suc a) bs (omega arith) same t),
)

pub Tiles-start :
    (h : Heap) (prev p a e : ℕ) (bs : List Block) → Tiles h prev p a bs e → (p ≡ null) ⊎ (p ≡ a)
Tiles-start h prev p a e [] t = inl t.0
Tiles-start h prev p a e ((s, u) ∷ bs) t = inr t.0.0

-- what becomes of a free block of `s` bytes that `n` are taken of
unfoldable pub cut : ℕ → ℕ → List Block → List Block
cut n s bs = if leb (n + 24) s then (n, true) ∷ (s - n - 16, false) ∷ bs else (s, true) ∷ bs

-- The heap once a block at `a` is split: the two headers, and the link back of the next block.
abbrev halves : ℕ → ℕ → ℕ → Heap → Heap
halves n a s h = record h {
  size = update (update h.size (a + 16 + n) (s - n - 16)) a n;
  used = update (update h.used (a + 16 + n) false) a true;
  next = update (update h.next (a + 16 + n) (h.next a)) a (a + 16 + n);
  prev =
      if h.next a == null
      then update h.prev (a + 16 + n) a
      else update (update h.prev (a + 16 + n) a) (h.next a) (a + 16 + n);
}

take_block-halves :
    (h : Heap) (n a s : ℕ)
    → 16 ≤ a
    → a + 16 + s < 2 ^ 32
    → n + 24 ≤ s
    → h.size a ≡ s
    → (take_block a n h).1 ≡ halves n a s h
unfolding take_block split
take_block-halves h n a s lo hi fits es =
    let tail : add32 (add32 a 16) n ≡ a + 16 + n = omega arith in
    let word : add32 n 24 ≡ n + 24 = omega arith in
    let part : sub32 (sub32 s n) 16 ≡ s - n - 16 = omega arith in
    let test : leb (n + 24) s ≡ true = ground arith in
    let away : ((a + 16 + n) == a) ≡ false = ground arith in
    elim (Bool-cases (h.next a == null)) [
      | inl z ↦ rw (tail, es, word, part, test, away, z) refl
      | inr z ↦ rw (tail, es, word, part, test, away, z) refl
    ]

halves-Same :
    (h : Heap) (n a s lo hi : ℕ)
    → n + 16 ≤ s
    → hi ≤ a ⊎ (a + 16 + s < lo)
    → (h.next a ≡ null) ⊎ (h.next a ≡ a + 16 + s)
    → Same lo hi h (halves n a s h)
halves-Same h n a s lo hi fits away (inl z) = rw z (record {
  size = λ y l u. ground arith;
  used = λ y l u. ground arith;
  next = λ y l u. ground arith;
  prev = λ y l u. ground arith;
})
halves-Same h n a s lo hi fits away (inr z) = rw z (record {
  size = λ y l u. ground arith;
  used = λ y l u. ground arith;
  next = λ y l u. ground arith;
  prev = λ y l u. ground arith;
})

halves-Tiles :
    (h : Heap) (n prev a s e : ℕ) (bs : List Block)
    → 0 < a
    → n + 16 ≤ s
    → h.prev a ≡ prev
    → Tiles h a (h.next a) (a + 16 + s) bs e
    → Tiles (halves n a s h) prev a a ((n, true) ∷ (s - n - 16, false) ∷ bs) e
halves-Tiles h n prev a s e bs pos fits tv t =
    let start = Tiles-start h a (h.next a) (a + 16 + s) e bs t in
    let end : a + 16 + n + 16 + (s - n - 16) ≡ a + 16 + s = omega arith in
    let link : update (update h.next (a + 16 + n) (h.next a)) a (a + 16 + n) (a + 16 + n)
        ≡ h.next a =
      ground arith in
    let rest : Tiles (halves n a s h) (a + 16 + n) (h.next a) (a + 16 + s) bs e =
      Tiles-relink h (halves n a s h) a (a + 16 + n) (h.next a) (a + 16 + s) e bs t
        (halves-Same h n a s (suc (a + 16 + s)) e fits (inr (omega arith)) start) (ground arith)
        (ground arith) (ground arith) (ground (arith, start)) (omega arith) in
    (
      (refl, ground arith, ground arith, ground (arith, start, tv)),
      ((ground arith, ground arith, ground arith, ground (arith, start)), rw (link, end) rest),
    )

pub take_block-split :
    (h : Heap) (n prev a s e : ℕ) (bs : List Block)
    → 16 ≤ a
    → e < 2 ^ 32
    → n + 24 ≤ s
    → Tiles h prev a a ((s, false) ∷ bs) e
    → Tiles (take_block a n h).1 prev a a ((n, true) ∷ (s - n - 16, false) ∷ bs) e
      × Same 0 a h (take_block a n h).1
take_block-split h n prev a s e bs lo hi fits ((tp, ts, tu, tv), t) =
    let start = Tiles-start h a (h.next a) (a + 16 + s) e bs t in
    let bound = Tiles-le h a (h.next a) (a + 16 + s) e bs t in
    let same = take_block-halves h n a s lo (omega arith) fits ts in
    subst (λ h'. Tiles h' prev a a ((n, true) ∷ (s - n - 16, false) ∷ bs) e × Same 0 a h h')
      (sym same)
      (
        halves-Tiles h n prev a s e bs (omega arith) (omega arith) tv t,
        halves-Same h n a s 0 a (omega arith) (inl (omega arith)) start,
      )

pub take_block-whole :
    (h : Heap) (n prev a s e : ℕ) (bs : List Block)
    → 16 ≤ a
    → e < 2 ^ 32
    → n ≤ s
    → s < n + 24
    → Tiles h prev a a ((s, false) ∷ bs) e
    → Tiles (take_block a n h).1 prev a a ((s, true) ∷ bs) e × Same 0 a h (take_block a n h).1
unfolding take_block split
take_block-whole h n prev a s e bs lo hi fits small ((tp, ts, tu, tv), t) =
    let bound = Tiles-le h a (h.next a) (a + 16 + s) e bs t in
    let word : add32 n 24 ≡ n + 24 = omega arith in
    let test : leb (n + 24) s ≡ false = ground arith in
    let h' : Heap = record h { used = update h.used a true } in
    let same : (take_block a n h).1 ≡ h' = rw (ts, word, test) refl in
    let below : Same 0 a h h' = record {
      size = λ y l u. refl;
      used = λ y l u. ground arith;
      next = λ y l u. refl;
      prev = λ y l u. refl;
    } in
    let above : Same (suc a) e h h' = record {
      size = λ y l u. refl;
      used = λ y l u. ground arith;
      next = λ y l u. refl;
      prev = λ y l u. refl;
    } in
    subst (λ h1. Tiles h1 prev a a ((s, true) ∷ bs) e × Same 0 a h h1) (sym same)
      (
        (
          (refl, ts, ground arith, tv),
          Tiles-Same h h' a (h.next a) (a + 16 + s) e (suc a) bs (omega arith) above t,
        ),
        below,
      )

pub take_block-cut :
    (h : Heap) (n prev a s e : ℕ) (bs : List Block)
    → 16 ≤ a
    → e < 2 ^ 32
    → n ≤ s
    → Tiles h prev a a ((s, false) ∷ bs) e
    → Tiles (take_block a n h).1 prev a a (cut n s bs) e × Same 0 a h (take_block a n h).1
unfolding cut
take_block-cut h n prev a s e bs lo hi fits t = elim (Bool-cases (leb (n + 24) s)) [
  | inl z ↦ rw z (take_block-split h n prev a s e bs lo hi (ground (arith, z)) t)
  | inr z ↦ rw z (take_block-whole h n prev a s e bs lo hi fits (ground (arith, z)) t)
]

-- The list once the first free block of at least `n` bytes is taken.
unfoldable pub allocate : ℕ → List Block → List Block
allocate n [] = []
allocate n ((s, u) ∷ bs) = if not u && leb n s then cut n s bs else (s, u) ∷ allocate n bs

pub fit_at-le : (n a : ℕ) (bs : List Block) → 0 < fit_at n a bs → a ≤ fit_at n a bs
unfolding fit_at
fit_at-le n a [] pos = absurd (omega arith)
fit_at-le n a ((s, u) ∷ bs) pos = elim (Bool-cases (not u && leb n s)) [
  | inl z ↦ rw z (omega arith)
  | inr z ↦
      let pos' : 0 < fit_at n (a + 16 + s) bs = rw z at pos in
      rw z (omega (arith, fit_at-le n (a + 16 + s) bs pos'))
]

-- The block that first fit finds is taken of the list, and no header before it changes.
pub take_block-allocate :
    (h : Heap) (n prev p a e : ℕ) (bs : List Block)
    → 16 ≤ a
    → e < 2 ^ 32
    → 0 < fit_at n a bs
    → Tiles h prev p a bs e
    → Tiles (take_block (fit_at n a bs) n h).1 prev p a (allocate n bs) e
      × Same 0 (fit_at n a bs) h (take_block (fit_at n a bs) n h).1
unfolding fit_at allocate
take_block-allocate h n prev p a e [] lo hi found t = absurd (omega arith)
take_block-allocate h n prev p a e ((s, u) ∷ bs) lo hi found ((tp, ts, tu, tv), t) =
    elim (Bool-cases (not u && leb n s)) [
      | inl z ↦
          let free : u ≡ false = ground (arith, z) in
          rw (z, tp)
            (take_block-cut h n prev a s e bs lo hi (ground (arith, z))
              ((refl, ts, tu ∙ free, tv), t))
      | inr z ↦
          let pos : 0 < fit_at n (a + 16 + s) bs = rw z at found in
          let q = fit_at n (a + 16 + s) bs in
          let far : a + 16 + s ≤ q = fit_at-le n (a + 16 + s) bs pos in
          let (t', same) =
            take_block-allocate h n a (h.next a) (a + 16 + s) e bs (omega arith) hi pos t in
          let in_front : a < q = omega arith in
          rw z (
            (
              (
                tp,
                same.size a (omega arith) in_front ∙ ts,
                same.used a (omega arith) in_front ∙ tu,
                same.prev a (omega arith) in_front ∙ tv,
              ),
              rw (same.next a (omega arith) in_front) t',
            ),
            same,
          )
    ]
