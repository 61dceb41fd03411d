-- ===== src/ChunkPool.antt =====
-- The chunk pool of src/memory/kmalloc.c: six caches of chunks of one size each, cut from pages with
-- a header. `link` is the first word of a free chunk. `page` tells of each virtual address whether
-- `alloc_page` succeeds there; `none` is a `kpanic`, a read behind the array of caches, or a loop that
-- has not ended within the rounds that it was given.
pub mod Refill
pub mod Purge
mod Tests
use hekaos_series.Base.{
  ℕ, zero, suc, ◌+◌, ◌-◌, ◌*◌, ◌/◌, ◌%◌, ◌^◌, ◌≤◌, ◌<◌, min, max, bit_and, bit_or, ◌≡◌, refl, sym,
  ap, ◌∙◌, ◌≢◌, ◌↔◌, ◌⊎◌, inl, inr, Bool, true, false, not, ◌&&◌, ◌||◌, Option, none, some, List,
  [], ◌∷◌, ◌++◌, arith, ltb, leb, ◌==◌, if◌then◌else◌, Bool-cases, ==_refl, not-not, Option-cases,
  update_self, expect, ◌>>=◌, update, length, length-append,
}
use hekaos_series.Word.{add32, sub32, not32}
use hekaos_series.Tasks.{Ptr, null}

-- `obj_size` and `free_list` of each cache; `hdr_size`, `free_count` and `total_count` of each page.
pub record Pool : Type 0 where
  pub obj_size : ℕ → ℕ
  pub free_list : ℕ → Ptr
  pub link : Ptr → Ptr
  pub hdr_size : Ptr → ℕ
  pub free_count : Ptr → ℕ
  pub total_count : Ptr → ℕ
  pub cpool_vptr : Ptr
  pub cpool_page_count : ℕ
  pub cpool_used_count : ℕ

-- `KCPOOL_VIRT_BASE`, `KCPOOL_VIRT_MAX`, `KMEM_CACHE_COUNT`, `KMEM_CACHE_256`
abbrev pub kcpool_virt_base : ℕ
kcpool_virt_base = 0xd000_0000

abbrev pub kcpool_virt_max : ℕ
kcpool_virt_max = 0xeeff_ffff

abbrev pub kmem_cache_count : ℕ
kmem_cache_count = 6

abbrev pub kmem_cache_256 : ℕ
kmem_cache_256 = 256

-- `CPOOL_HDR_SIZE`, `CPOOL_DATA_SIZE`
abbrev pub cpool_hdr_size : ℕ
cpool_hdr_size = 8

abbrev pub cpool_data_size : ℕ
cpool_data_size = 4096 - cpool_hdr_size

-- `cache_sizes`: 8, 16, 32, 64, 128, 256
abbrev pub cache_sizes : ℕ → ℕ
cache_sizes i = 8 * 2 ^ i

-- `(uintptr_t)addr & ~(uintptr_t)0xFFF`
abbrev pub page_of : Ptr → Ptr
page_of addr = bit_and addr (not32 0xfff)

-- `none` is -1
unfoldable pub cache_index : ℕ → ℕ → ℕ → Pool → Option ℕ
cache_index zero i size p = none
cache_index (suc n) i size p =
    let rest = cache_index n (i + 1) size p in if leb size (p.obj_size i) then some i else rest

unfoldable pub cache_index_exact : ℕ → ℕ → ℕ → Pool → Option ℕ
cache_index_exact zero i size p = none
cache_index_exact (suc n) i size p =
    let rest = cache_index_exact n (i + 1) size p in if p.obj_size i == size then some i else rest

-- `for (i = 0; i < n; i++)`: each of the `n` chunks from `obj` on leads to the next
unfoldable pub link_chunks : ℕ → Ptr → ℕ → (Ptr → Ptr) → Ptr → Ptr
link_chunks zero obj size link = link
link_chunks (suc n) obj size link =
    link_chunks n (add32 obj size) size (update link obj (if n == 0 then null else add32 obj size))

unfoldable pub cpool_refill : (ℕ → Bool) → ℕ → Pool → Option Pool
cpool_refill page idx p = do
  p1 ← expect (not (ltb kcpool_virt_max (add32 p.cpool_vptr 4096))) p
  p2 ← expect (page p1.cpool_vptr) p1
  let size = p2.obj_size idx
  let n = cpool_data_size / size
  let vptr = p2.cpool_vptr
  some (record p2 {
    hdr_size = update p2.hdr_size vptr size;
    free_count = update p2.free_count vptr (n % 2 ^ 16);
    total_count = update p2.total_count vptr (n % 2 ^ 16);
    link = link_chunks n (add32 vptr cpool_hdr_size) size p2.link;
    free_list = update p2.free_list idx (add32 vptr cpool_hdr_size);
    cpool_vptr = add32 vptr 4096;
    cpool_page_count = add32 p2.cpool_page_count 1;
  })

-- the loop of `kmalloc_init`
unfoldable pub init_caches : ℕ → ℕ → Pool → Pool
init_caches zero i p = p
init_caches (suc n) i p = init_caches n (i + 1) (record p {
  obj_size = update p.obj_size i (cache_sizes i);
  free_list = update p.free_list i null;
})

abbrev pub kmalloc_init : Pool → Pool
kmalloc_init p =
    init_caches kmem_cache_count 0
      (record p { cpool_vptr = kcpool_virt_base; cpool_page_count = 0; cpool_used_count = 0 })

-- the end of `kmalloc`: the first chunk of the list
unfoldable pub pop_chunk : ℕ → Pool → Ptr × Pool
pop_chunk idx p =
    let chunk = p.free_list idx in
    let hdr = page_of chunk in
    (
      chunk,
      record p {
        free_list = update p.free_list idx (p.link chunk);
        free_count = update p.free_count hdr ((p.free_count hdr + (2 ^ 16 - 1)) % 2 ^ 16);
        cpool_used_count = add32 p.cpool_used_count 1;
      },
    )

unfoldable pub kmalloc : (ℕ → Bool) → ℕ → Pool → Option (Ptr × Pool)
kmalloc page size p =
    let served = cache_index kmem_cache_count 0 size p >>= λ idx.
    ((if p.free_list idx == null then cpool_refill page idx p else some p) >>= λ p1.
    some (pop_chunk idx p1)) in
    if size == 0 then some (null, p) else if ltb kmem_cache_256 size then none else served

-- `while (*cur != NULL)`, where `cur` is the list's head, `none`, or the link of a chunk
abbrev pub at_cur : ℕ → Option Ptr → Pool → Ptr
at_cur idx none p = p.free_list idx
at_cur idx (some c) p = p.link c

abbrev pub set_cur : ℕ → Option Ptr → Ptr → Pool → Pool
set_cur idx none v p = record p { free_list = update p.free_list idx v }
set_cur idx (some c) v p = record p { link = update p.link c v }

unfoldable pub purge_page : ℕ → ℕ → Option Ptr → Ptr → Pool → Option Pool
purge_page zero idx cur base p = none
purge_page (suc n) idx cur base p =
    let x = at_cur idx cur p in
    let inside = page_of x == base in
    let rest =
      purge_page n idx (if inside then cur else some x) base
        (if inside then set_cur idx cur (p.link x) p else p) in
    if x == null then some p else rest

-- `kfree`, once the cache is found: the chunk goes to the list, and an empty page goes back
unfoldable pub push_chunk : ℕ → ℕ → Ptr → Pool → Option Pool
push_chunk fuel idx addr p =
    let hdr = page_of addr in
    let p1 : Pool = record p {
      link = update p.link addr (p.free_list idx);
      free_list = update p.free_list idx addr;
      free_count = update p.free_count hdr ((p.free_count hdr + 1) % 2 ^ 16);
      cpool_used_count = sub32 p.cpool_used_count 1;
    } in
    let returned = purge_page fuel idx none hdr p1 >>= λ p2.
    some (record p2 { cpool_page_count = sub32 p2.cpool_page_count 1 }) in
    if p1.free_count hdr == p1.total_count hdr then returned else some p1

unfoldable pub kfree : ℕ → Ptr → Pool → Option Pool
kfree fuel addr p =
    let freed = cache_index_exact kmem_cache_count 0 (p.hdr_size (page_of addr)) p >>= λ idx.
    push_chunk fuel idx addr p in
    if addr == null then some p else freed

unfoldable pub ksize : Ptr → Pool → ℕ
ksize addr p = if addr == null then 0 else p.hdr_size (page_of addr)

-- `kmalloc_stats_t`
pub record PoolStats : Type 0 where
  pub pool_pages : ℕ
  pub used_objects : ℕ
  pub free_objects : ℕ

unfoldable pub count_chunks : ℕ → Ptr → ℕ → Pool → Option ℕ
count_chunks zero c n p = none
count_chunks (suc k) c n p =
    let rest = count_chunks k (p.link c) (add32 n 1) p in if c == null then some n else rest

unfoldable pub count_caches : ℕ → ℕ → ℕ → ℕ → Pool → Option ℕ
count_caches fuel zero i n p = some n
count_caches fuel (suc k) i n p =
    count_chunks fuel (p.free_list i) n p >>= λ m. count_caches fuel k (i + 1) m p

unfoldable pub kmalloc_query : ℕ → Pool → Option PoolStats
kmalloc_query fuel p = count_caches fuel kmem_cache_count 0 0 p >>= λ n. some (record {
  pool_pages = p.cpool_page_count;
  used_objects = p.cpool_used_count;
  free_objects = n;
})
