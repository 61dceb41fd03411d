-- ===== src/KernelHeap/Valid.antt =====
-- A heap that is laid out well, and that the growth of the heap keeps it so.
use hekaos_series.Base.{
  ℕ, zero, suc, ◌+◌, ◌*◌, ◌%◌, ◌^◌, ◌≤◌, ◌<◌, ◌≡◌, refl, ◌≢◌, inl, inr, Bool, true, false, not,
  ◌&&◌, some, List, [], ◌∷◌, arith, ltb, ◌==◌, Bool-cases, length,
}
use hekaos_series.Word.{add32, mul32}
use hekaos_series.Tasks.{null}
use hekaos_series.KernelHeap.{
  Heap, kmem_heap_grow, pages_for, map_pages, extend, heap_base, heap_max,
}
use hekaos_series.KernelHeap.Tiles.{Block, Tiles, Tiles-le, fit_at, last_at, find_last-last_at}
use hekaos_series.KernelHeap.Grow.{grown, extend-grown}
use hekaos_series.KernelHeap.Lists.{spaced, coalesced, aligned}

-- The blocks lie one behind the other from the start of the heap to its end, no two free ones are
-- neighbours, and every size is a multiple of 8.
pub record IsValid (h : Heap) (bs : List Block) : Type 0 where
  pub tiles : Tiles h null h.head heap_base bs h.heap_end
  pub inside : h.heap_end ≤ heap_max
  pub apart : coalesced bs ≡ true
  pub multiple : aligned bs ≡ true
  pub present : 0 < length bs

grown-spaced :
    (t : ℕ) (p : Bool) (b : Block) (bs : List Block)
    → spaced p (b ∷ bs) ≡ true
    → spaced p (grown t (b ∷ bs)) ≡ true
unfolding grown spaced
grown-spaced t p (s, true) [] c = ground (arith, c)
grown-spaced t p (s, false) [] c = ground (arith, c)
grown-spaced t p (s, u) (d ∷ bs) c = ground (arith, c, grown-spaced t u d bs)

grown-aligned :
    (t : ℕ) (bs : List Block) → t % 8 ≡ 0 → 16 ≤ t → aligned bs ≡ true → aligned (grown t bs) ≡ true
unfolding grown aligned
grown-aligned t [] m room c = ground arith
grown-aligned t ((s, true) ∷ []) m room c = ground (arith, c)
grown-aligned t ((s, false) ∷ []) m room c = ground (arith, c)
grown-aligned t ((s, u) ∷ d ∷ bs) m room c = ground (arith, c, grown-aligned t (d ∷ bs) m room)

grown_present : (t : ℕ) (bs : List Block) → 0 < length (grown t bs)
unfolding grown
grown_present t [] = omega arith
grown_present t ((s, true) ∷ []) = omega arith
grown_present t ((s, false) ∷ []) = omega arith
grown_present t (b ∷ d ∷ bs) = omega arith

-- The new space is one free block, of at least `n` bytes.
pub grown-fit_at : (t n a : ℕ) (bs : List Block) → n + 16 ≤ t → 0 < a → 0 < fit_at n a (grown t bs)
unfolding grown fit_at
grown-fit_at t n a [] room pos = ground arith
grown-fit_at t n a ((s, true) ∷ []) room pos = ground arith
grown-fit_at t n a ((s, false) ∷ []) room pos = ground arith
grown-fit_at t n a ((s, u) ∷ d ∷ bs) room pos =
    ground (arith, grown-fit_at t n (a + 16 + s) (d ∷ bs) room)

map_pages_lem :
    (n i e : ℕ) (page : ℕ → Bool)
    → e + (i + n) * 4096 < 2 ^ 32
    → ((y : ℕ) → e ≤ y → y < e + (i + n) * 4096 → page y ≡ true)
    → map_pages n i e page ≡ true
unfolding map_pages
map_pages_lem zero i e page hi ok = refl
map_pages_lem (suc n) i e page hi ok =
    let here : add32 e (mul32 i 4096) ≡ e + i * 4096 = omega arith in
    let far : e + (i + 1 + n) * 4096 ≡ e + (i + suc n) * 4096 = omega arith in
    let rest = map_pages_lem n (i + 1) e page (omega (arith)) (λ y l u. ok y l (omega arith)) in
    rw (here, ok (e + i * 4096) (omega arith) (omega arith)) rest

-- the bytes that a growth for `n` bytes adds
abbrev pub growth : ℕ → ℕ
growth n = pages_for n * 4096

pub growth_bounds :
    (n : ℕ) → n < 2 ^ 31 → (n + 16 ≤ growth n) × (growth n < n + 4112) × (0 < pages_for n)
unfolding pages_for
growth_bounds n small = ground arith

-- The pages behind the heap, as far as `n` bytes need them, can be mapped and lie in its range.
pub record CanGrow (page : ℕ → Bool) (n : ℕ) (h : Heap) : Type 0 where
  pub room : h.heap_end + growth n ≤ heap_max
  pub mapped : (y : ℕ) → h.heap_end ≤ y → y < h.heap_end + growth n → page y ≡ true

extend-globals :
    (a t : ℕ) (h : Heap)
    → a ≢ null
    → (extend a t h).head ≡ h.head × ((extend a t h).heap_end ≡ h.heap_end)
unfolding extend
extend-globals a t h some_block =
    let test : (a == null) ≡ false = ground (arith, some_block) in
    elim (Bool-cases (not (h.used a) && add32 (add32 a 16) (h.size a) == h.heap_end)) [
      | inl z ↦ rw (test, z) (refl, refl)
      | inr z ↦ rw (test, z) (refl, refl)
    ]

last_at_some : (last a : ℕ) (b : Block) (bs : List Block) → 0 < a → 0 < last_at last a (b ∷ bs)
unfolding last_at
last_at_some last a (s, u) [] pos = pos
last_at_some last a (s, u) (c ∷ bs) pos = last_at_some a (a + 16 + s) c bs (omega arith)

-- The heap grows behind its last block, and stays laid out well.
pub kmem_heap_grow-IsValid :
    (page : ℕ → Bool) (fuel n : ℕ) (h : Heap) (b : Block) (bs : List Block)
    → IsValid h (b ∷ bs)
    → CanGrow page n h
    → n < 2 ^ 31
    → length (b ∷ bs) < fuel
    → (h' : Heap) × (kmem_heap_grow page fuel n h ≡ some h')
      × IsValid h' (grown (growth n) (b ∷ bs))
      × (h'.heap_end ≡ h.heap_end + growth n)
unfolding kmem_heap_grow
kmem_heap_grow-IsValid page fuel n h b bs v can small enough =
    let (needs, most, pages) = growth_bounds n small in
    let low = Tiles-le h null h.head heap_base h.heap_end (b ∷ bs) v.tiles in
    let total : mul32 (pages_for n) 4096 ≡ growth n = omega (arith, can.room) in
    let end : add32 h.heap_end (growth n) ≡ h.heap_end + growth n = omega (arith, can.room) in
    let fits : ltb heap_max (h.heap_end + growth n) ≡ false = ground (arith, can.room) in
    let maps =
      map_pages_lem (pages_for n) 0 h.heap_end page (omega (arith, can.room))
        (λ y l u. can.mapped y l (omega arith)) in
    let last = last_at null heap_base (b ∷ bs) in
    let walk =
      find_last-last_at fuel h null h.head heap_base h.heap_end null (b ∷ bs) (omega arith) enough
        v.tiles in
    let (t, same) =
      extend-grown h null h.head heap_base h.heap_end (growth n) null b bs (omega arith)
        (omega arith) (omega (arith, can.room)) refl v.tiles in
    let (head, end') =
      extend-globals last (growth n) h
        (λ z. absurd (omega (arith, z, last_at_some null heap_base b bs (omega arith)))) in
    let h' : Heap = record (extend last (growth n) h) { heap_end = h.heap_end + growth n } in
    let result : kmem_heap_grow page fuel n h ≡ some h' =
      rw (total, end, fits, maps, walk, end', end) refl in
    (
      h',
      result,
      record {
        tiles = rw head t;
        inside = can.room;
        apart = grown-spaced (growth n) true b bs v.apart;
        multiple = grown-aligned (growth n) (b ∷ bs) (omega arith) (omega arith) v.multiple;
        present = grown_present (growth n) (b ∷ bs);
      },
      refl,
    )
