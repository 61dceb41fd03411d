-- ===== src/Vmalloc/Tests.antt =====
-- The theorems on the page zone at an empty zone and at one with two regions.
use hekaos_series.Base.{ℕ, ◌≡◌, refl, ◌⊎◌, true, false, some, [], ◌∷◌, arith, ◌==◌, if◌then◌else◌}
use hekaos_series.Tasks.{Ptr, null}
use hekaos_series.Tasks.Chain.{has, Chain, erase}
use hekaos_series.Vmalloc.{Zone, bitmap_test, vmalloc_pages, page_address, vfree, vmalloc}
use hekaos_series.Vmalloc.FirstFit.{NoRun}
use hekaos_series.Vmalloc.Runs.{within, Given, vmalloc-Given}
use hekaos_series.Vmalloc.Regions.{Regions, vfree-Regions, vfree-vmalloc}

abbrev empty : Zone
empty = record {
  bitmap = λ i. 0;
  start = λ i. 0;
  npages = λ i. 0;
  next = λ i. null;
  region_list = null;
}

-- page 0 at 16, and pages 1 and 2 at 32, in front
abbrev two_regions : Zone
two_regions = record {
  bitmap = λ i. if i == 0 then 7 else 0;
  start = λ i. if i == 32 then 1 else 0;
  npages = λ i. if i == 32 then 2 else 1;
  next = λ i. if i == 32 then 16 else null;
  region_list = 32;
}

two_regions-Regions : Regions two_regions (32 ∷ 16 ∷ [])
unfolding has
two_regions-Regions = record {
  chain = (refl, omega arith, (refl, omega arith, refl));
  distinct = λ p q hp hq e. ground (arith, hp, hq, e);
}

in_list : has 16 (32 ∷ 16 ∷ []) ≡ true
unfolding has
in_list = refl

fresh : has 48 (32 ∷ 16 ∷ []) ≡ false
unfolding has
fresh = refl

vmalloc-Given_example :
    ((s : ℕ) × (z' : Zone) × (vmalloc (λ y. true) 48 3 empty ≡ some (page_address s, z'))
      × Given 48 3 s empty z')
    ⊎ (vmalloc (λ y. true) 48 3 empty ≡ some (null, empty)) × NoRun empty 3 vmalloc_pages
vmalloc-Given_example =
    vmalloc-Given (λ y. true) 48 3 empty (λ k lt. refl) (omega arith) (omega arith)

vfree-Regions_example :
    (z' : Zone) × (vfree 9 (page_address (two_regions.start 16)) two_regions ≡ some z')
    × Regions z' (erase 16 (32 ∷ 16 ∷ []))
    × (z'.start ≡ two_regions.start)
    × (z'.npages ≡ two_regions.npages)
    × ((k : ℕ)
        → bitmap_test k z' ≡ (
            if within (two_regions.npages 16) (two_regions.start 16) k
            then false
            else bitmap_test k two_regions))
vfree-Regions_example =
    vfree-Regions 9 two_regions 16 (32 ∷ 16 ∷ []) two_regions-Regions in_list (omega arith)
      (omega arith)

vfree-vmalloc_example :
    ((addr : Ptr) × (z1 z2 : Zone) × (vmalloc (λ y. true) 48 3 two_regions ≡ some (addr, z1))
      × (vfree 9 addr z1 ≡ some z2)
      × ((k : ℕ) → bitmap_test k z2 ≡ bitmap_test k two_regions)
      × Chain z2.next z2.region_list (32 ∷ 16 ∷ []))
    ⊎ (vmalloc (λ y. true) 48 3 two_regions ≡ some (null, two_regions))
vfree-vmalloc_example =
    vfree-vmalloc (λ y. true) 9 48 3 two_regions (32 ∷ 16 ∷ []) (λ k lt. refl) (omega arith)
      (omega arith) (refl, omega arith, (refl, omega arith, refl)) fresh (omega arith)
