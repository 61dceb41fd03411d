-- ===== src/KernelHeap/Calls.antt =====
-- `kmem_alloc` on a heap that is laid out well.
use hekaos_series.KernelHeap.Grow.{grown}
use hekaos_series.Base.{
  ℕ, suc, ◌+◌, ◌*◌, ◌/◌, ◌%◌, ◌^◌, ◌≤◌, ◌<◌, ◌≡◌, refl, sym, ap, ◌∙◌, ◌⊎◌, inl, inr, Bool, true,
  false, some, List, [], ◌∷◌, arith, leb, ◌==◌, Bool-cases, length,
}
use hekaos_series.KernelHeap.{Heap, kmem_alloc, take_block, split, alloc_grown, heap_base}
use hekaos_series.KernelHeap.Tiles.{Block, Tiles, Tiles-le, fit_at, find_fit-fit_at}
use hekaos_series.KernelHeap.Allocate.{cut, allocate, take_block-allocate}
use hekaos_series.KernelHeap.Lists.{allocate-spaced, allocate-aligned}
use hekaos_series.KernelHeap.Valid.{
  IsValid, CanGrow, growth, growth_bounds, grown-fit_at, kmem_heap_grow-IsValid,
}
use hekaos_series.KernelHeap.Align.{align8-up}
use hekaos_series.Tasks.{null}
use hekaos_series.Word.{add32}

-- a size rounded up to a multiple of 8
abbrev pub round8 : ℕ → ℕ
round8 n = (n + 7) / 8 * 8

take_block-globals :
    (q n : ℕ) (h : Heap)
    → ((take_block q n h).1.head ≡ h.head)
      × ((take_block q n h).1.heap_end ≡ h.heap_end)
      × ((take_block q n h).0 ≡ add32 q 16)
unfolding take_block split
take_block-globals q n h = elim (Bool-cases (leb (add32 n 24) (h.size q))) [
  | inl z ↦ rw z (ground arith)
  | inr z ↦ rw z (refl, refl, refl)
]

allocate_present : (n : ℕ) (bs : List Block) → 0 < length bs → 0 < length (allocate n bs)
unfolding allocate cut
allocate_present n [] some_block = some_block
allocate_present n ((s, u) ∷ bs) some_block = ground arith

-- A fit lies inside the list.
fit_at-lt :
    (h : Heap) (n prev p a e : ℕ) (bs : List Block)
    → 0 < fit_at n a bs
    → Tiles h prev p a bs e
    → (fit_at n a bs + 16 ≤ e) × (a ≤ fit_at n a bs)
unfolding fit_at
fit_at-lt h n prev p a e [] found t = absurd (omega arith)
fit_at-lt h n prev p a e ((s, u) ∷ bs) found (q, r) =
    let bound = Tiles-le h a (h.next a) (a + 16 + s) e bs r in
    ground (arith, fit_at-lt h n a (h.next a) (a + 16 + s) e bs)

take_block-IsValid :
    (h : Heap) (n : ℕ) (bs : List Block)
    → IsValid h bs
    → n % 8 ≡ 0
    → 0 < fit_at n heap_base bs
    → IsValid (take_block (fit_at n heap_base bs) n h).1 (allocate n bs)
      × ((take_block (fit_at n heap_base bs) n h).0 ≡ fit_at n heap_base bs + 16)
take_block-IsValid h n bs v multiple found =
    let q = fit_at n heap_base bs in
    let h' = (take_block q n h).1 in
    let (head, end, at) = take_block-globals q n h in
    let (t, same) =
      take_block-allocate h n null h.head heap_base h.heap_end bs (omega arith)
        (omega (arith, v.inside)) found v.tiles in
    let (inside, above) = fit_at-lt h n null h.head heap_base h.heap_end bs found v.tiles in
    (
      record {
        tiles = rw (head, end) t;
        inside = rw end v.inside;
        apart = allocate-spaced n true bs v.apart;
        multiple = allocate-aligned n bs multiple v.multiple;
        present = allocate_present n bs v.present;
      },
      at ∙ omega (arith, v.inside),
    )

-- where the list has a free block of the rounded size
abbrev pub Fits : ℕ → List Block → Type 0
Fits n bs = 0 < fit_at (round8 n) heap_base bs

-- When a free block is large enough, the first such block is taken.
pub kmem_alloc-Fits :
    (page : ℕ → Bool) (fuel n : ℕ) (h : Heap) (bs : List Block)
    → IsValid h bs
    → 0 < n
    → n + 7 < 2 ^ 32
    → Fits n bs
    → length bs < fuel
    → (h' : Heap) × (kmem_alloc page fuel n h ≡ some (fit_at (round8 n) heap_base bs + 16, h'))
      × IsValid h' (allocate (round8 n) bs)
unfolding kmem_alloc
kmem_alloc-Fits page fuel n h bs v pos small fit enough =
    let q = fit_at (round8 n) heap_base bs in
    let walk =
      find_fit-fit_at fuel (round8 n) h null h.head heap_base h.heap_end bs (omega arith) enough
        v.tiles in
    let (v', at) = take_block-IsValid h (round8 n) bs v (omega arith) fit in
    let pair : take_block q (round8 n) h ≡ (q + 16, (take_block q (round8 n) h).1) =
      rw (sym at) refl in
    let ask : (n == 0) ≡ false = ground arith in
    let there : (q == null) ≡ false = ground (arith, fit) in
    ((take_block q (round8 n) h).1, rw (align8-up n small, walk, ask, there) (ap some pair), v')

length-grown : (t : ℕ) (bs : List Block) → length (grown t bs) ≤ suc (length bs)
unfolding grown
length-grown t [] = omega arith
length-grown t ((s, true) ∷ []) = omega arith
length-grown t ((s, false) ∷ []) = omega arith
length-grown t (b ∷ d ∷ bs) = omega (arith, length-grown t (d ∷ bs))

-- When no free block is large enough, the heap grows, and the first block that is large enough then
-- is taken.
pub kmem_alloc-grows :
    (page : ℕ → Bool) (fuel n : ℕ) (h : Heap) (b : Block) (bs : List Block)
    → IsValid h (b ∷ bs)
    → 0 < n
    → n + 7 < 2 ^ 31
    → fit_at (round8 n) heap_base (b ∷ bs) ≡ null
    → CanGrow page (round8 n) h
    → length (b ∷ bs) + 1 < fuel
    → let more = grown (growth (round8 n)) (b ∷ bs) in
      Fits n more
      × ((h' : Heap) × (kmem_alloc page fuel n h ≡ some (fit_at (round8 n) heap_base more + 16, h'))
          × IsValid h' (allocate (round8 n) more))
unfolding kmem_alloc alloc_grown
kmem_alloc-grows page fuel n h b bs v pos small full can enough =
    let m = round8 n in
    let more = grown (growth m) (b ∷ bs) in
    let walk =
      find_fit-fit_at fuel m h null h.head heap_base h.heap_end (b ∷ bs) (omega arith) (omega arith)
        v.tiles in
    let (h1, grows, v1, end) =
      kmem_heap_grow-IsValid page fuel m h b bs v can (omega arith) (omega arith) in
    let (needs, most, pages) = growth_bounds m (omega arith) in
    let fit = grown-fit_at (growth m) m heap_base (b ∷ bs) needs (omega arith) in
    let q = fit_at m heap_base more in
    let walk1 =
      find_fit-fit_at fuel m h1 null h1.head heap_base h1.heap_end more (omega arith)
        (omega (arith, length-grown (growth m) (b ∷ bs))) v1.tiles in
    let (v', at) = take_block-IsValid h1 m more v1 (omega arith) fit in
    let pair : take_block q m h1 ≡ (q + 16, (take_block q m h1).1) = rw (sym at) refl in
    let ask : (n == 0) ≡ false = ground arith in
    let there : (q == null) ≡ false = ground (arith, fit) in
    (
      fit,
      (
        (take_block q m h1).1,
        rw (align8-up n (omega arith), walk, full, ask, grows, walk1, there) (ap some pair),
        v',
      ),
    )

-- On a heap that is laid out well, a call for `n` bytes, not 0 and below `2 ^ 31` when rounded up to a
-- multiple of 8, that finds a large enough free block or can grow the heap, always succeeds. It
-- searches the blocks as they are, or with the new pages behind them if none fits; the first free
-- block that fits is marked used, what it has beyond the rounded size and a header becomes a free
-- block of its own if that is 8 bytes or more, and the result is the address behind its header. The
-- heap stays laid out well.
pub kmem_alloc-allocate :
    (page : ℕ → Bool) (fuel n : ℕ) (h : Heap) (b : Block) (bs : List Block)
    → IsValid h (b ∷ bs)
    → 0 < n
    → n + 7 < 2 ^ 31
    → Fits n (b ∷ bs) ⊎ CanGrow page (round8 n) h
    → length (b ∷ bs) + 1 < fuel
    → (more : List Block) × (h' : Heap) × ((Fits n (b ∷ bs) × (more ≡ b ∷ bs))
        ⊎ ((fit_at (round8 n) heap_base (b ∷ bs) ≡ null)
            × (more ≡ grown (growth (round8 n)) (b ∷ bs))))
      × Fits n more
      × (kmem_alloc page fuel n h ≡ some (fit_at (round8 n) heap_base more + 16, h'))
      × IsValid h' (allocate (round8 n) more)
kmem_alloc-allocate page fuel n h b bs v pos small room enough =
    elim (Bool-cases (fit_at (round8 n) heap_base (b ∷ bs) == null)) [
      | inr fits ↦
          let fit : Fits n (b ∷ bs) = ground (arith, fits) in
          let (h', allocs, v') =
            kmem_alloc-Fits page fuel n h (b ∷ bs) v pos (omega arith) fit (omega arith) in
          (b ∷ bs, h', inl (fit, refl), fit, allocs, v')
      | inl full ↦
          let none_fits : fit_at (round8 n) heap_base (b ∷ bs) ≡ null = ground (arith, full) in
          let can : CanGrow page (round8 n) h = elim room [
            | inl fit ↦ absurd (omega (arith, fit, none_fits))
            | inr c ↦ c
          ] in
          let (fit, (h', allocs, v')) =
            kmem_alloc-grows page fuel n h b bs v pos small none_fits can enough in
          (grown (growth (round8 n)) (b ∷ bs), h', inr (none_fits, refl), fit, allocs, v')
    ]
