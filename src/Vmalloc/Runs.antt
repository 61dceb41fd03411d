-- ===== src/Vmalloc/Runs.antt =====
-- What `vmalloc` writes: the bits of a run of pages, and the region in front of the others.
use hekaos_series.Base.{
  ℕ, zero, suc, ◌+◌, ◌/◌, ◌%◌, ◌≤◌, ◌<◌, ◌≡◌, refl, sym, ◌≢◌, ◌⊎◌, inl, inr, Bool, true, false,
  ◌&&◌, Option, none, some, arith, ltb, leb, ◌==◌, if◌then◌else◌, Bool-cases, update,
}
use hekaos_series.Word.Bitwise.{bit-set_bit, bit-clear_bit}
use hekaos_series.Tasks.{null}
use hekaos_series.Vmalloc.{
  Zone, find_run, bitmap_test, bitmap_set, bitmap_clear, vmalloc_pages, page_address, map_run,
  clear_run, add_region, vmalloc,
}
use hekaos_series.Vmalloc.FirstFit.{Answer, FirstRun, NoRun, find_run-FirstRun}

-- whether page `k` is one of the `n` pages from `j` on
abbrev pub within : ℕ → ℕ → ℕ → Bool
within n j k = leb j k && ltb k (j + n)

-- The bits of `n` pages from `j` on become `v`, and nothing else changes.
pub record Marks (v : Bool) (n j : ℕ) (z z' : Zone) : Type 0 where
  pub bits : (k : ℕ) → bitmap_test k z' ≡ (if within n j k then v else bitmap_test k z)
  pub start : z'.start ≡ z.start
  pub npages : z'.npages ≡ z.npages
  pub next : z'.next ≡ z.next
  pub region_list : z'.region_list ≡ z.region_list

pub test-set :
    (z : Zone) (i k : ℕ)
    → bitmap_test k (bitmap_set i z) ≡ (if i == k then true else bitmap_test k z)
test-set z i k = elim (Bool-cases (i / 32 == k / 32)) [
  | inl same ↦
      let eq : i / 32 ≡ k / 32 = ground (arith, same) in
      rw (same, bit-set_bit (z.bitmap (i / 32)) (i % 32) (k % 32)) (rw (sym eq) (ground arith))
  | inr other ↦ rw other (ground (arith, other))
]

pub test-clear :
    (z : Zone) (i k : ℕ)
    → bitmap_test k (bitmap_clear i z) ≡ (if i == k then false else bitmap_test k z)
test-clear z i k = elim (Bool-cases (i / 32 == k / 32)) [
  | inl same ↦
      let eq : i / 32 ≡ k / 32 = ground (arith, same) in
      rw (same, bit-clear_bit (z.bitmap (i / 32)) (i % 32) (k % 32) (omega arith) (omega arith))
        (rw (sym eq) (ground arith))
  | inr other ↦ rw other (ground (arith, other))
]

pub map_run-Marks :
    (n j : ℕ) (page : ℕ → Bool) (z : Zone)
    → ((k : ℕ) → j ≤ k → k < j + n → page (page_address k) ≡ true)
    → (z' : Zone) × (map_run n j page z ≡ some z') × Marks true n j z z'
unfolding map_run
map_run-Marks zero j page z ok = (
  z,
  refl,
  record { bits = λ k. ground arith; start = refl; npages = refl; next = refl; region_list = refl },
)
map_run-Marks (suc n) j page z ok =
    let (z', runs, m) =
      map_run-Marks n (j + 1) page (bitmap_set j z) (λ k lo hi. ok k (omega arith) (omega arith)) in
    (
      z',
      rw (ok j (omega arith) (omega arith)) runs,
      record {
        bits = λ k. ground (arith, m.bits k, test-set z j k);
        start = m.start;
        npages = m.npages;
        next = m.next;
        region_list = m.region_list;
      },
    )

pub clear_run-Marks : (n j : ℕ) (z : Zone) → Marks false n j z (clear_run n j z)
unfolding clear_run
clear_run-Marks zero j z = record {
  bits = λ k. ground arith;
  start = refl;
  npages = refl;
  next = refl;
  region_list = refl;
}
clear_run-Marks (suc n) j z =
    let m = clear_run-Marks n (j + 1) (bitmap_clear j z) in
    record {
      bits = λ k. ground (arith, m.bits k, test-clear z j k);
      start = m.start;
      npages = m.npages;
      next = m.next;
      region_list = m.region_list;
    }

-- The pages of the zone can be mapped.
abbrev pub Mappable : (ℕ → Bool) → Type 0
Mappable page = (k : ℕ) → k < vmalloc_pages → page (page_address k) ≡ true

-- `s` is the first page of the first run, its pages are marked, and the region stands in front.
pub record Given (region n s : ℕ) (z z' : Zone) : Type 0 where
  pub run : FirstRun z n s
  pub bits : (k : ℕ) → bitmap_test k z' ≡ (if within n s k then true else bitmap_test k z)
  pub start : z'.start ≡ update z.start region s
  pub npages : z'.npages ≡ update z.npages region n
  pub next : z'.next ≡ update z.next region z.region_list
  pub region_list : z'.region_list ≡ region

Given-run :
    (page : ℕ → Bool) (region n : ℕ) (z : Zone) (o : Option ℕ)
    → Mappable page
    → 0 < n
    → region ≢ null
    → find_run n z ≡ o
    → Answer z n o
    → ((s : ℕ) × (z' : Zone) × (vmalloc page region n z ≡ some (page_address s, z'))
        × Given region n s z z')
      ⊎ (vmalloc page region n z ≡ some (null, z)) × NoRun z n vmalloc_pages
unfolding vmalloc
Given-run page region n z none ok pos some_region search ans =
    let ask : (n == 0) ≡ false = ground arith in
    let there : (region == null) ≡ false = ground (arith, some_region) in
    inr (rw (ask, there, search) refl, ans)
Given-run page region n z (some s) ok pos some_region search ans =
    let ask : (n == 0) ≡ false = ground arith in
    let there : (region == null) ≡ false = ground (arith, some_region) in
    let (z1, maps, m) = map_run-Marks n s page z (λ k lo hi. ok k (omega (arith, ans.inside))) in
    inl (
      s,
      add_region region s n z1,
      rw (ask, there, search, maps) refl,
      record {
        run = ans;
        bits = m.bits;
        start = rw m.start refl;
        npages = rw m.npages refl;
        next = rw (m.next, m.region_list) refl;
        region_list = refl;
      },
    )

-- When `kmalloc` gave a descriptor and the pages of the zone can be mapped, a call for one page or
-- more returns the address of the first run of free pages that is long enough, marks its pages and
-- no other, and puts the region in front of the list; or every such run holds a page in use, and
-- the call returns null and changes nothing.
pub vmalloc-Given :
    (page : ℕ → Bool) (region n : ℕ) (z : Zone)
    → Mappable page
    → 0 < n
    → region ≢ null
    → ((s : ℕ) × (z' : Zone) × (vmalloc page region n z ≡ some (page_address s, z'))
        × Given region n s z z')
      ⊎ (vmalloc page region n z ≡ some (null, z)) × NoRun z n vmalloc_pages
vmalloc-Given page region n z ok pos some_region =
    Given-run page region n z (find_run n z) ok pos some_region refl (find_run-FirstRun z n pos)
