-- ===== src/Vmalloc.antt =====
-- The zone of whole pages of src/memory/vmalloc.c: a bitmap with a bit for each virtual page, and a
-- list of the regions that are handed out. What `kmalloc` returned for the region's descriptor is an
-- argument of `vmalloc`, and `page` tells of each virtual address whether `alloc_page` succeeds
-- there; `none` is a `kpanic`, or a walk that has not ended within the rounds that it was given.
pub mod FirstFit
pub mod Regions
pub mod Runs
mod Tests
use hekaos_series.Base.{
  ℕ, zero, suc, ◌+◌, ◌-◌, ◌*◌, ◌/◌, ◌%◌, ◌^◌, ◌≤◌, ◌<◌, min, max, bit_and, bit_or, ◌≡◌, refl, sym,
  ap, ◌∙◌, ◌≢◌, ◌↔◌, ◌⊎◌, inl, inr, Bool, true, false, not, ◌&&◌, ◌||◌, Option, none, some, List,
  [], ◌∷◌, ◌++◌, arith, ltb, leb, ◌==◌, if◌then◌else◌, Bool-cases, ==_refl, not-not, Option-cases,
  update_self, expect, ◌>>=◌, update, length, length-append,
}
use hekaos_series.Word.{add32, sub32, mul32, bit, set_bit, clear_bit}
use hekaos_series.Tasks.{Ptr, null}

-- `start`, `npages` and `next` are the fields of a `struct vmalloc_region`.
pub record Zone : Type 0 where
  pub bitmap : ℕ → ℕ
  pub start : Ptr → ℕ
  pub npages : Ptr → ℕ
  pub next : Ptr → Ptr
  pub region_list : Ptr

-- `VMALLOC_BASE`, `VMALLOC_MAX`
abbrev pub vmalloc_base : ℕ
vmalloc_base = 0xf000_0000

abbrev pub vmalloc_max : ℕ
vmalloc_max = 0xffbf_ffff

-- `VMALLOC_PAGES`, `BITMAP_WORDS`
abbrev pub vmalloc_pages : ℕ
vmalloc_pages = (vmalloc_max - vmalloc_base + 1) / 4096

abbrev pub bitmap_words : ℕ
bitmap_words = (vmalloc_pages + 31) / 32

abbrev pub bitmap_set : ℕ → Zone → Zone
bitmap_set idx z = record z {
  bitmap = update z.bitmap (idx / 32) (set_bit (z.bitmap (idx / 32)) (idx % 32));
}

abbrev pub bitmap_clear : ℕ → Zone → Zone
bitmap_clear idx z = record z {
  bitmap = update z.bitmap (idx / 32) (clear_bit (z.bitmap (idx / 32)) (idx % 32));
}

abbrev pub bitmap_test : ℕ → Zone → Bool
bitmap_test idx z = bit (z.bitmap (idx / 32)) (idx % 32)

-- the loop of `vmalloc_init`
unfoldable pub clear_words : ℕ → ℕ → Zone → Zone
clear_words zero i z = z
clear_words (suc n) i z = clear_words n (i + 1) (record z { bitmap = update z.bitmap i 0 })

abbrev pub vmalloc_init : Zone → Zone
vmalloc_init z = clear_words bitmap_words 0 z

-- The search has found a run of free pages, or goes on with `run` and `start`.
pub data Search : Type 0 where
  found : ℕ → Search
  go_on : ℕ → ℕ → Search

-- `for (b = ...; b < 32; b++)` in word `w`
unfoldable pub scan_bits : ℕ → ℕ → ℕ → ℕ → ℕ → ℕ → Zone → Search
scan_bits zero w b npages run start z = go_on run start
scan_bits (suc k) w b npages run start z =
    let i = w * 32 + b in
    let used = bit (z.bitmap w) b in
    let start1 = if used then start else if run == 0 then i else start in
    let run1 = if used then 0 else add32 run 1 in
    let rest = scan_bits k w (b + 1) npages run1 start1 z in
    if leb vmalloc_pages i
    then go_on run start
    else if not used && run1 == npages
    then found start1
    else rest

-- one round of `for (w = ...; w < BITMAP_WORDS; w++)`
unfoldable pub scan_word : ℕ → ℕ → ℕ → ℕ → Zone → Search
scan_word w npages run start z =
    let bits = scan_bits 32 w 0 npages run start z in
    if z.bitmap w == 0xffff_ffff then go_on 0 start else bits

unfoldable pub scan_words : ℕ → ℕ → ℕ → ℕ → ℕ → Zone → Option ℕ
scan_words zero w npages run start z = none
scan_words (suc k) w npages run start z = elim (scan_word w npages run start z) [
  | found s ↦ some s
  | go_on run1 start1 ↦ scan_words k (w + 1) npages run1 start1 z
]

abbrev pub find_run : ℕ → Zone → Option ℕ
find_run npages z = scan_words bitmap_words 0 npages 0 0 z

-- the address of page `j` of the zone
abbrev pub page_address : ℕ → ℕ
page_address j = add32 vmalloc_base (mul32 j 4096)

-- `for (j = ...; j < start + npages; j++)`
unfoldable pub map_run : ℕ → ℕ → (ℕ → Bool) → Zone → Option Zone
map_run zero j page z = some z
map_run (suc n) j page z = do
  z1 ← expect (page (page_address j)) z
  map_run n (j + 1) page (bitmap_set j z1)

-- the record of the new region, in front of the others
abbrev pub add_region : Ptr → ℕ → ℕ → Zone → Zone
add_region region start npages z = record z {
  start = update z.start region start;
  npages = update z.npages region npages;
  next = update z.next region z.region_list;
  region_list = region;
}

unfoldable pub vmalloc : (ℕ → Bool) → Ptr → ℕ → Zone → Option (Ptr × Zone)
vmalloc page region npages z =
    if npages == 0
    then some (null, z)
    else if region == null
    then some (null, z)
    else elim (find_run npages z) [
      | none ↦ some (null, z)
      | some start ↦
          (map_run npages start page z >>= λ z1.
          some (page_address start, add_region region start npages z1))
    ]

-- the walk of `vfree` to the region that starts at page `idx`
unfoldable pub find_region : ℕ → Ptr → Ptr → ℕ → Zone → Option (Ptr × Ptr)
find_region zero prev cur idx z = none
find_region (suc n) prev cur idx z =
    let rest = find_region n cur (z.next cur) idx z in
    if cur == null then some (prev, null) else if z.start cur == idx then some (prev, cur) else rest

abbrev pub unlink_region : Ptr → Ptr → Zone → Zone
unlink_region prev cur z =
    if prev == null
    then record z { region_list = z.next cur }
    else record z { next = update z.next prev (z.next cur) }

-- `for (i = ...; i < npages; i++)`: `free_page` and `bitmap_clear`
unfoldable pub clear_run : ℕ → ℕ → Zone → Zone
clear_run zero j z = z
clear_run (suc n) j z = clear_run n (j + 1) (bitmap_clear j z)

unfoldable pub vfree : ℕ → Ptr → Zone → Option Zone
vfree fuel addr z =
    let idx = sub32 addr vmalloc_base / 4096 in
    let freed = find_region fuel null z.region_list idx z >>= λ (prev, cur).
    (if cur == null
      then none
      else some (clear_run (z.npages cur) idx (unlink_region prev cur z))) in
    if addr == null
    then some z
    else if ltb addr vmalloc_base || leb vmalloc_max addr
    then none
    else freed

-- the loop of `vbrk`
unfoldable pub first_free : ℕ → ℕ → Zone → ℕ
first_free zero i z = vmalloc_max
first_free (suc n) i z =
    let rest = first_free n (i + 1) z in if not (bitmap_test i z) then page_address i else rest

abbrev pub vbrk : Zone → ℕ
vbrk z = first_free vmalloc_pages 0 z

-- `vmalloc_stats_t`
pub record Usage : Type 0 where
  pub used_pages : ℕ
  pub total_pages : ℕ
  pub region_count : ℕ

unfoldable pub count_used : ℕ → ℕ → ℕ → Zone → ℕ
count_used zero i n z = n
count_used (suc k) i n z = count_used k (i + 1) (if bitmap_test i z then add32 n 1 else n) z

unfoldable pub count_regions : ℕ → Ptr → ℕ → Zone → Option ℕ
count_regions zero p n z = none
count_regions (suc k) p n z =
    let rest = count_regions k (z.next p) (add32 n 1) z in if p == null then some n else rest

unfoldable pub vmalloc_query : ℕ → Zone → Option Usage
vmalloc_query fuel z = count_regions fuel z.region_list 0 z >>= λ n. some (record {
  used_pages = count_used vmalloc_pages 0 0 z;
  total_pages = vmalloc_pages;
  region_count = n;
})
