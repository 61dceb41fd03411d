-- ===== src/KernelHeap.antt =====
-- The byte-granular kernel heap of src/memory/kmem_dyn_alloc.c: a doubly linked list of blocks that
-- lie one behind the other. The fields of a block header are functions of its address. `page` tells
-- of each virtual address whether `alloc_page` succeeds there; `none` is a `kpanic`, or a loop that
-- has not ended within the rounds that it was given.
pub mod Align
pub mod Allocate
pub mod Calls
pub mod Free
pub mod Grow
pub mod Init
pub mod Lists
pub mod Query
pub mod Undo
pub mod Valid
pub mod Release
pub mod Tiles
mod Tests
use hekaos_series.Base.{
  ℕ, zero, suc, ◌+◌, ◌-◌, ◌*◌, ◌/◌, ◌%◌, ◌^◌, ◌≤◌, ◌<◌, min, max, bit_and, bit_or, ◌≡◌, refl, sym,
  ap, ◌∙◌, ◌≢◌, ◌↔◌, ◌⊎◌, inl, inr, Bool, true, false, not, ◌&&◌, ◌||◌, Option, none, some, List,
  [], ◌∷◌, ◌++◌, arith, ltb, leb, ◌==◌, if◌then◌else◌, Bool-cases, ==_refl, not-not, Option-cases,
  update_self, expect, ◌>>=◌, update, length, length-append,
}
use hekaos_series.Word.{add32, sub32, mul32, not32}
use hekaos_series.Tasks.{Ptr, null}

pub record Heap : Type 0 where
  pub size : Ptr → ℕ
  pub used : Ptr → Bool
  pub next : Ptr → Ptr
  pub prev : Ptr → Ptr
  pub head : Ptr
  pub heap_end : ℕ

-- `KHEAP_VIRT_BASE`, `KHEAP_VIRT_MAX`
abbrev pub heap_base : ℕ
heap_base = 0xc000_0000

abbrev pub heap_max : ℕ
heap_max = 0xcfff_ffff

-- `sizeof (kmem_block_t)`, `BLOCK_MIN`
abbrev pub header_size : ℕ
header_size = 16

abbrev pub block_min : ℕ
block_min = header_size + 8

-- `ALIGN8`
unfoldable pub align8 : ℕ → ℕ
align8 size = bit_and (add32 size 7) (not32 7)

-- `for (i = ...; i < pages; i++)`: `alloc_page` at each page, a failure being a `kpanic`
unfoldable pub map_pages : ℕ → ℕ → ℕ → (ℕ → Bool) → Bool
map_pages zero i heap_end page = true
map_pages (suc n) i heap_end page =
    page (add32 heap_end (mul32 i 4096)) && map_pages n (i + 1) heap_end page

-- the walk to the last block
unfoldable pub find_last : ℕ → Ptr → Ptr → Heap → Option Ptr
find_last zero last cur h = none
find_last (suc n) last cur h =
    let rest = find_last n cur (h.next cur) h in if cur == null then some last else rest

-- the new pages as part of the last block, or as a block of their own
unfoldable pub extend : Ptr → ℕ → Heap → Heap
extend last total h =
    if not (last == null)
      && (not (h.used last) && add32 (add32 last header_size) (h.size last) == h.heap_end)
    then record h { size = update h.size last (add32 (h.size last) total) }
    else (let blk = h.heap_end in
        let h1 = record h {
          size = update h.size blk (sub32 total header_size);
          used = update h.used blk false;
          next = update h.next blk null;
          prev = update h.prev blk last;
        } in
        if last == null
        then record h1 { head = blk }
        else record h1 { next = update h1.next last blk })

unfoldable pub pages_for : ℕ → ℕ
pages_for nbytes =
    let pages = sub32 (add32 (add32 nbytes header_size) 4096) 1 / 4096 in
    if pages == 0 then 1 else pages

unfoldable pub kmem_heap_grow : (ℕ → Bool) → ℕ → ℕ → Heap → Option Heap
kmem_heap_grow page fuel nbytes h = do
  let pages = pages_for nbytes
  let total = mul32 pages 4096
  h1 ← expect (not (ltb heap_max (add32 h.heap_end total))) h
  h2 ← expect (map_pages pages 0 h1.heap_end page) h1
  last ← find_last fuel null h2.head h2
  let h3 = extend last total h2
  some (record h3 { heap_end = add32 h3.heap_end total })

unfoldable pub kmem_dyn_alloc_init : (ℕ → Bool) → ℕ → Heap → Option Heap
kmem_dyn_alloc_init page fuel h =
    kmem_heap_grow page fuel 0 (record h { head = null; heap_end = heap_base })

unfoldable pub kmem_brk : (ℕ → Bool) → ℕ → ℕ → Heap → Option (ℕ × Heap)
kmem_brk page fuel nbytes h =
    let grown = kmem_heap_grow page fuel nbytes h >>= λ h'. some (h'.heap_end, h') in
    if nbytes == 0 then some (h.heap_end, h) else grown

-- the first-fit walk of `kmem_alloc`
unfoldable pub find_fit : ℕ → ℕ → Ptr → Heap → Option Ptr
find_fit zero size blk h = none
find_fit (suc n) size blk h =
    let rest = find_fit n size (h.next blk) h in
    if blk == null
    then some null
    else if not (h.used blk) && leb size (h.size blk)
    then some blk
    else rest

-- `if (blk->size >= size + BLOCK_MIN)`
unfoldable pub split : Ptr → ℕ → Heap → Heap
split blk size h =
    let tail = add32 (add32 blk header_size) size in
    let h1 = record h {
      size = update h.size tail (sub32 (sub32 (h.size blk) size) header_size);
      used = update h.used tail false;
      next = update h.next tail (h.next blk);
      prev = update h.prev tail blk;
    } in
    let h2 =
      if h1.next blk == null then h1 else record h1 { prev = update h1.prev (h1.next blk) tail } in
    if leb (add32 size block_min) (h.size blk)
    then record h2 { next = update h2.next blk tail; size = update h2.size blk size }
    else h

-- the end of `kmem_alloc`, once a block is found
unfoldable pub take_block : Ptr → ℕ → Heap → Ptr × Heap
take_block blk size h =
    let h1 = split blk size h in
    (add32 blk header_size, record h1 { used = update h1.used blk true })

-- the second search, behind a growth
unfoldable pub alloc_grown : (ℕ → Bool) → ℕ → ℕ → Heap → Option (Ptr × Heap)
alloc_grown page fuel size h = do
  h1 ← kmem_heap_grow page fuel size h
  blk ← find_fit fuel size h1.head h1
  h2 ← expect (not (blk == null)) h1
  some (take_block blk size h2)

unfoldable pub kmem_alloc : (ℕ → Bool) → ℕ → ℕ → Heap → Option (Ptr × Heap)
kmem_alloc page fuel size0 h =
    let size = align8 size0 in
    let found = find_fit fuel size h.head h >>= λ blk.
    (let grown = alloc_grown page fuel size h in
      if blk == null then grown else some (take_block blk size h)) in
    if size0 == 0 then some (null, h) else found

-- `b`, which follows `a`, becomes part of `a`
unfoldable pub merge : Ptr → Ptr → Heap → Heap
merge a b h =
    let h1 = record h {
      size = update h.size a (add32 (h.size a) (add32 header_size (h.size b)));
    } in
    let h2 = record h1 { next = update h1.next a (h1.next b) } in
    if h1.next b == null then h2 else record h2 { prev = update h2.prev (h1.next b) a }

unfoldable pub merge_next : Ptr → Heap → Heap
merge_next blk h =
    if not (h.next blk == null) && not (h.used (h.next blk)) then merge blk (h.next blk) h else h

unfoldable pub merge_prev : Ptr → Heap → Heap
merge_prev blk h =
    if not (h.prev blk == null) && not (h.used (h.prev blk)) then merge (h.prev blk) blk h else h

unfoldable pub kmem_free : Ptr → Heap → Option Heap
kmem_free addr h =
    let blk = sub32 addr header_size in
    let freed = record h { used = update h.used blk false } in
    if addr == null
    then some h
    else if not (h.used blk)
    then none
    else some (merge_prev blk (merge_next blk freed))

unfoldable pub kmem_size : Ptr → Heap → ℕ
kmem_size addr h = if addr == null then 0 else h.size (sub32 addr header_size)

-- `kmem_stats_t`
pub record Stats : Type 0 where
  pub end_address : ℕ
  pub total_blocks : ℕ
  pub used_blocks : ℕ
  pub free_blocks : ℕ
  pub used_bytes : ℕ
  pub free_bytes : ℕ

-- the loop of `kmem_dyn_alloc_query`
unfoldable pub query_from : ℕ → Ptr → Stats → Heap → Option Stats
query_from zero blk s h = none
query_from (suc n) blk s h =
    let counted = record s { total_blocks = add32 s.total_blocks 1 } in
    let s' =
      if h.used blk
      then record counted {
        used_blocks = add32 s.used_blocks 1;
        used_bytes = add32 s.used_bytes (h.size blk);
      }
      else record counted {
        free_blocks = add32 s.free_blocks 1;
        free_bytes = add32 s.free_bytes (h.size blk);
      } in
    let rest = query_from n (h.next blk) s' h in if blk == null then some s else rest

unfoldable pub kmem_dyn_alloc_query : ℕ → Heap → Option Stats
kmem_dyn_alloc_query fuel h =
    query_from fuel h.head
      (record {
        end_address = h.heap_end;
        total_blocks = 0;
        used_blocks = 0;
        free_blocks = 0;
        used_bytes = 0;
        free_bytes = 0;
      })
      h
