-- ===== src/KernelHeap/Init.antt =====
-- `kmem_dyn_alloc_init` makes a heap of one free block.
use hekaos_series.KernelHeap.Lists.{spaced, aligned}
use hekaos_series.Base.{
  ℕ, zero, suc, ◌+◌, ◌<◌, ◌≡◌, refl, Bool, true, false, some, [], ◌∷◌, arith, update,
}
use hekaos_series.KernelHeap.{
  Heap, kmem_heap_grow, pages_for, map_pages, extend, find_last, kmem_dyn_alloc_init, heap_base,
}
use hekaos_series.KernelHeap.Valid.{IsValid}
use hekaos_series.Tasks.{null}

-- When the first page can be mapped, the heap is one free block of a page, less the header.
pub kmem_dyn_alloc_init-IsValid :
    (page : ℕ → Bool) (fuel : ℕ) (h : Heap)
    → page heap_base ≡ true
    → 0 < fuel
    → (h' : Heap) × (kmem_dyn_alloc_init page fuel h ≡ some h') × IsValid h' ((4080, false) ∷ [])
unfolding kmem_dyn_alloc_init kmem_heap_grow pages_for map_pages find_last extend spaced aligned
kmem_dyn_alloc_init-IsValid page zero h ok enough = absurd (omega arith)
kmem_dyn_alloc_init-IsValid page (suc f) h ok enough =
    let a : ℕ = heap_base in
    let h' : Heap = record h {
      size = update h.size a 4080;
      used = update h.used a false;
      next = update h.next a null;
      prev = update h.prev a null;
      head = a;
      heap_end = a + 4096;
    } in
    (
      h',
      rw ok refl,
      record {
        tiles = ((refl, refl, refl, refl), (refl, refl));
        inside = omega arith;
        apart = refl;
        multiple = refl;
        present = omega arith;
      },
    )
