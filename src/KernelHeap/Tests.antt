-- ===== src/KernelHeap/Tests.antt =====
-- The theorems on the kernel heap at a heap of one page with three blocks.
use hekaos_series.Base.{
  ℕ, ◌+◌, ◌*◌, ◌≡◌, refl, ◌⊎◌, inl, true, false, ◌||◌, some, List, [], ◌∷◌, arith, ◌==◌,
  if◌then◌else◌, length,
}
use hekaos_series.Tasks.{null}
use hekaos_series.KernelHeap.{Heap, kmem_free, kmem_alloc, kmem_dyn_alloc_query, heap_base}
use hekaos_series.KernelHeap.Tiles.{Block, fit_at}
use hekaos_series.KernelHeap.Release.{release, span}
use hekaos_series.KernelHeap.Allocate.{allocate}
use hekaos_series.KernelHeap.Grow.{grown}
use hekaos_series.KernelHeap.Lists.{spaced, aligned}
use hekaos_series.KernelHeap.Valid.{IsValid, growth}
use hekaos_series.KernelHeap.Calls.{Fits, round8, kmem_alloc-allocate}
use hekaos_series.KernelHeap.Undo.{kmem_free-IsValid, kmem_free-kmem_alloc}
use hekaos_series.KernelHeap.Query.{totals, count, bytes, kmem_dyn_alloc_query-totals}

-- blocks of 104, 16 and 3928 bytes, the last one free
abbrev three : Heap
three = record {
  size = λ i. if i == heap_base then 104 else if i == heap_base + 120 then 16 else 3928;
  used = λ i. i == heap_base || i == heap_base + 120;
  next = λ i.
      if i == heap_base
      then heap_base + 120
      else if i == heap_base + 120
      then heap_base + 152
      else null;
  prev = λ i.
      if i == heap_base + 120
      then heap_base
      else if i == heap_base + 152
      then heap_base + 120
      else null;
  head = heap_base;
  heap_end = heap_base + 4096;
}

abbrev blocks : List Block
blocks = (104, true) ∷ (16, true) ∷ (3928, false) ∷ []

three-IsValid : IsValid three blocks
unfolding spaced aligned
three-IsValid = record {
  tiles = (
    (refl, refl, refl, refl),
    ((refl, refl, refl, refl), ((refl, refl, refl, refl), (refl, refl))),
  );
  inside = omega arith;
  apart = refl;
  multiple = refl;
  present = omega arith;
}

fits : Fits 100 blocks
unfolding fit_at
fits = omega arith

kmem_alloc-allocate_example :
    (more : List Block) × (h' : Heap) × ((Fits 100 blocks × (more ≡ blocks))
      ⊎ ((fit_at (round8 100) heap_base blocks ≡ null)
          × (more ≡ grown (growth (round8 100)) blocks)))
    × Fits 100 more
    × (kmem_alloc (λ y. true) 9 100 three ≡ some (fit_at (round8 100) heap_base more + 16, h'))
    × IsValid h' (allocate (round8 100) more)
kmem_alloc-allocate_example =
    kmem_alloc-allocate (λ y. true) 9 100 three (104, true) ((16, true) ∷ (3928, false) ∷ [])
      three-IsValid (omega arith) (omega arith) (inl fits) (omega arith)

kmem_free-IsValid_example :
    (h' : Heap) × (kmem_free (heap_base + span ((104, true) ∷ []) + 16) three ≡ some h')
    × IsValid h' (release ((104, true) ∷ []) 16 ((3928, false) ∷ []))
kmem_free-IsValid_example =
    kmem_free-IsValid three 16 ((104, true) ∷ []) ((3928, false) ∷ []) three-IsValid

kmem_free-kmem_alloc_example :
    (h1 h2 : Heap) × (p : ℕ) × (kmem_alloc (λ y. true) 9 100 three ≡ some (p, h1))
    × (kmem_free p h1 ≡ some h2)
    × IsValid h2 blocks
kmem_free-kmem_alloc_example =
    kmem_free-kmem_alloc (λ y. true) 9 100 three blocks three-IsValid (omega arith) (omega arith)
      fits (omega arith)

kmem_dyn_alloc_query-totals_example :
    (kmem_dyn_alloc_query 9 three ≡ some (totals three blocks))
    × (count true blocks + count false blocks ≡ length blocks)
    × (heap_base + bytes true blocks + bytes false blocks + 16 * length blocks ≡ three.heap_end)
kmem_dyn_alloc_query-totals_example =
    kmem_dyn_alloc_query-totals 9 three blocks three-IsValid (omega arith)
