-- ===== src/KernelHeap/Undo.antt =====
-- `kmem_free` on a heap that is laid out well, and after `kmem_alloc`.
use hekaos_series.Base.{
  ℕ, ◌+◌, ◌^◌, ◌<◌, ◌≡◌, Bool, true, false, some, List, [], ◌∷◌, ◌++◌, arith, length,
}
use hekaos_series.KernelHeap.{Heap, kmem_free, kmem_alloc, heap_base}
use hekaos_series.KernelHeap.Tiles.{Block, fit_at}
use hekaos_series.KernelHeap.Release.{join, release, span}
use hekaos_series.KernelHeap.Lists.{
  taken, allocate-taken, release-allocate, release-coalesced, release-aligned,
}
use hekaos_series.KernelHeap.Valid.{IsValid}
use hekaos_series.KernelHeap.Free.{kmem_free-release}
use hekaos_series.KernelHeap.Calls.{Fits, round8, kmem_alloc-Fits}

join_present : (s : ℕ) (R : List Block) → 0 < length (join s R)
unfolding join
join_present s [] = omega arith
join_present s ((t, true) ∷ R) = omega arith
join_present s ((t, false) ∷ R) = omega arith

release_present : (L : List Block) (s : ℕ) (R : List Block) → 0 < length (release L s R)
unfolding release
release_present [] s R = join_present s R
release_present ((t, true) ∷ []) s R = omega arith
release_present ((t, false) ∷ []) s R = join_present t (join s R)
release_present (b ∷ c ∷ L) s R = omega arith

-- `kmem_free` of the block behind `L`, which is in use, on a heap that is laid out well, never fails:
-- the block becomes free and joins a free block behind it and a free last block of `L`, the other
-- blocks stay as they are, and the heap stays laid out well.
pub kmem_free-IsValid :
    (h : Heap) (s : ℕ) (L R : List Block)
    → IsValid h (L ++ (s, true) ∷ R)
    → (h' : Heap) × (kmem_free (heap_base + span L + 16) h ≡ some h') × IsValid h' (release L s R)
kmem_free-IsValid h s L R v =
    let (h', frees, t, head, end) =
      kmem_free-release h h.head heap_base s h.heap_end L R (omega arith) (omega (arith, v.inside))
        v.tiles in
    (
      h',
      frees,
      record {
        tiles = rw (head, end) t;
        inside = rw end v.inside;
        apart = release-coalesced L s R v.apart;
        multiple = release-aligned L s true R v.multiple;
        present = release_present L s R;
      },
    )

-- On a heap that is laid out well and has a free block for `n` bytes, not 0 and rounded up without
-- overflow, `kmem_alloc` and then `kmem_free` of its result succeed, and the blocks are as before.
pub kmem_free-kmem_alloc :
    (page : ℕ → Bool) (fuel n : ℕ) (h : Heap) (bs : List Block)
    → IsValid h bs
    → 0 < n
    → n + 7 < 2 ^ 32
    → Fits n bs
    → length bs < fuel
    → (h1 h2 : Heap) × (p : ℕ) × (kmem_alloc page fuel n h ≡ some (p, h1))
      × (kmem_free p h1 ≡ some h2)
      × IsValid h2 bs
kmem_free-kmem_alloc page fuel n h bs v pos small fit enough =
    let m = round8 n in
    let (L, k, R) = taken m bs in
    let (h1, allocs, v1) = kmem_alloc-Fits page fuel n h bs v pos small fit enough in
    let (split_list, at, least, most) = allocate-taken m heap_base bs fit in
    let (h2, frees, v2) = kmem_free-IsValid h1 k L R (rw split_list at v1) in
    (
      h1,
      h2,
      fit_at m heap_base bs + 16,
      allocs,
      rw at frees,
      rw (release-allocate m heap_base true bs fit v.apart) at v2,
    )
