-- ===== src/Vmalloc/Regions.antt =====
-- `vfree` takes a region out of the list wherever it stands, and gives its pages back.
use mathlib.Core.Path.{subst}
use hekaos_series.Word.{sub32}
use hekaos_series.Vmalloc.Runs.{within, clear_run-Marks, Mappable, vmalloc-Given}
use hekaos_series.Base.{
  ℕ, zero, suc, ◌+◌, ◌*◌, ◌/◌, ◌<◌, ◌≡◌, refl, sym, ◌∙◌, ◌≢◌, ◌⊎◌, inl, inr, Bool, true, false,
  some, List, [], ◌∷◌, arith, ltb, leb, ◌==◌, if◌then◌else◌, Bool-cases, ==_refl, update_self,
  update, length,
}
use hekaos_series.Tasks.{Ptr, null}
use hekaos_series.Tasks.Chain.{has, Chain, Chain-update, Chain-head_fresh, erase, not-mem_null}
use hekaos_series.Vmalloc.{
  Zone, bitmap_test, vmalloc_pages, vmalloc_base, vmalloc_max, page_address, clear_run, find_region,
  unlink_region, vfree, vmalloc,
}

has-erase : (a b : Ptr) (xs : List Ptr) → has a xs ≡ false → has a (erase b xs) ≡ false
unfolding has erase
has-erase a b [] out = refl
has-erase a b (x ∷ xs) out = ground (arith, out, has-erase a b xs)

-- Where the walk stops: at `p` itself, or behind the node `b`, and the list without `p`.
abbrev Stops : (Ptr → Ptr) → Ptr → Ptr → Ptr → Ptr → List Ptr → Type 0
Stops f prev b cur p ps =
    (b ≡ prev) × (cur ≡ p) × Chain f (f p) (erase p ps)
    ⊎ (has b ps ≡ true) × (b ≢ null) × Chain (update f b (f p)) cur (erase p ps)

Stops-cons :
    (f : Ptr → Ptr) (prev b cur x p : Ptr) (xs : List Ptr)
    → cur ≡ x
    → x ≢ null
    → has x xs ≡ false
    → (p == x) ≡ false
    → Stops f x b (f x) p xs
    → Stops f prev b cur p (x ∷ xs)
unfolding has erase
Stops-cons f prev b cur x p xs e ne fresh other (inl (at, eq, tail)) =
    let link : update f b (f p) x ≡ f p = ground (arith, at) in
    let rest = Chain-update f x (f p) (f p) (erase p xs) (has-erase x p xs fresh) tail in
    inr (
      ground (arith, at),
      rw at ne,
      rw other
          (e, ne, rw link (subst (λ y. Chain (update f y (f p)) (f p) (erase p xs)) (sym at) rest)),
    )
Stops-cons f prev b cur x p xs e ne fresh other (inr (inside, some_b, tail)) =
    let away : (b == x) ≡ false = elim (Bool-cases (b == x)) [
      | inl y ↦
          let same : b ≡ x = ground (arith, y) in absurd (ground (arith, rw same at inside, fresh))
      | inr y ↦ y
    ] in
    inr (ground (arith, inside), some_b, rw (other, away) (e, ne, tail))

find_region-Stops :
    (fuel : ℕ) (z : Zone) (prev cur p : Ptr) (ps : List Ptr)
    → Chain z.next cur ps
    → has p ps ≡ true
    → ((q : Ptr) → has q ps ≡ true → z.start q ≡ z.start p → q ≡ p)
    → length ps < fuel
    → (b : Ptr) × (find_region fuel prev cur (z.start p) z ≡ some (b, p))
      × Stops z.next prev b cur p ps
unfolding find_region has erase
find_region-Stops zero z prev cur p ps c mem only enough = absurd (omega arith)
find_region-Stops (suc n) z prev cur p [] c mem only enough = absurd (ground (arith, mem))
find_region-Stops (suc n) z prev cur p (x ∷ xs) (e, ne, c) mem only enough =
    let there : (x == null) ≡ false = ground (arith, ne) in
    elim (Bool-cases (p == x)) [
      | inl here ↦
          let same : p ≡ x = ground (arith, here) in
          let hit : (z.start x == z.start x) ≡ true = ground arith in
          (prev, rw (e, there, same, hit) refl, inl (refl, e ∙ sym same, rw (here, same) c))
      | inr later ↦
          let pass : (z.start x == z.start p) ≡ false = elim (Bool-cases (z.start x == z.start p)) [
            | inl y ↦ absurd (ground (arith, later, only x (ground arith) (ground (arith, y))))
            | inr y ↦ y
          ] in
          let (b, walk, stop) =
            find_region-Stops n z x (z.next x) p xs c (ground (arith, mem, later))
              (λ q h. only q (ground (arith, h))) (omega arith) in
          let fresh = Chain-head_fresh z.next cur x xs (e, ne, c) in
          (b, rw (e, there, pass) walk, Stops-cons z.next prev b cur x p xs e ne fresh later stop)
    ]

-- The region list is a chain through `ps`, and no two of its regions start at the same page.
pub record Regions (z : Zone) (ps : List Ptr) : Type 0 where
  pub chain : Chain z.next z.region_list ps
  pub distinct : (p q : Ptr) → has p ps ≡ true → has q ps ≡ true → z.start p ≡ z.start q → p ≡ q

has-erase_back : (a b : Ptr) (xs : List Ptr) → has a (erase b xs) ≡ true → has a xs ≡ true
unfolding has erase
has-erase_back a b [] mem = mem
has-erase_back a b (x ∷ xs) mem = ground (arith, mem, has-erase_back a b xs)

unlink_region-Chain :
    (z : Zone) (b p : Ptr) (ps : List Ptr)
    → Stops z.next null b z.region_list p ps
    → Chain (unlink_region b p z).next (unlink_region b p z).region_list (erase p ps)
      × ((unlink_region b p z).start ≡ z.start)
      × ((unlink_region b p z).npages ≡ z.npages)
      × ((unlink_region b p z).bitmap ≡ z.bitmap)
unlink_region-Chain z b p ps (inl (at, eq, tail)) =
    let test : (b == null) ≡ true = ground (arith, at) in rw test (tail, refl, refl, refl)
unlink_region-Chain z b p ps (inr (inside, some_b, chain)) =
    let test : (b == null) ≡ false = ground (arith, some_b) in rw test (chain, refl, refl, refl)

-- `vfree` at the address of a region, wherever it stands in the list, never fails: the region alone
-- leaves the list, the bits of its pages alone are cleared, and no size or first page changes.
pub vfree-Regions :
    (fuel : ℕ) (z : Zone) (p : Ptr) (ps : List Ptr)
    → Regions z ps
    → has p ps ≡ true
    → z.start p < vmalloc_pages
    → length ps < fuel
    → (z' : Zone) × (vfree fuel (page_address (z.start p)) z ≡ some z')
      × Regions z' (erase p ps)
      × (z'.start ≡ z.start)
      × (z'.npages ≡ z.npages)
      × ((k : ℕ)
          → bitmap_test k z'
            ≡ (if within (z.npages p) (z.start p) k then false else bitmap_test k z))
unfolding vfree
vfree-Regions fuel z p ps r mem inside enough =
    let at : page_address (z.start p) ≡ vmalloc_base + z.start p * 4096 = omega arith in
    let idx : sub32 (vmalloc_base + z.start p * 4096) vmalloc_base / 4096 ≡ z.start p =
      omega arith in
    let some_addr : (vmalloc_base + z.start p * 4096 == null) ≡ false = ground arith in
    let low : ltb (vmalloc_base + z.start p * 4096) vmalloc_base ≡ false = ground arith in
    let high : leb vmalloc_max (vmalloc_base + z.start p * 4096) ≡ false = ground arith in
    let (b, walk, stop) =
      find_region-Stops fuel z null z.region_list p ps r.chain mem (λ q h e. r.distinct q p h mem e)
        enough in
    let some_p : (p == null) ≡ false = elim (Bool-cases (p == null)) [
      | inl y ↦
          let same : p ≡ null = ground (arith, y) in
          absurd (ground (arith, rw same at mem, not-mem_null z.next z.region_list ps r.chain))
      | inr y ↦ y
    ] in
    let z1 = unlink_region b p z in
    let m = clear_run-Marks (z.npages p) (z.start p) z1 in
    let z' = clear_run (z.npages p) (z.start p) z1 in
    let (chain, start, npages, bitmap) = unlink_region-Chain z b p ps stop in
    let starts : z'.start ≡ z.start = m.start ∙ start in
    (
      z',
      rw (at, idx, some_addr, low, high, walk, some_p) refl,
      record {
        chain =
            rw (m.region_list)
              (subst (λ f. Chain f z1.region_list (erase p ps)) (sym m.next) chain);
        distinct = λ q1 q2 h1 h2 e.
            r.distinct q1 q2 (has-erase_back q1 p ps h1) (has-erase_back q2 p ps h2)
              (rw starts at e);
      },
      starts,
      m.npages ∙ npages,
      λ k. m.bits k ∙ rw bitmap refl,
    )

-- When `kmalloc` gave a descriptor that no region of the list uses and the pages of the zone can be
-- mapped, a call for one page or more that does not return null can be undone: `vfree` of its
-- result does not fail, every bit of the bitmap is as before, and so is the list of regions.
pub vfree-vmalloc :
    (page : ℕ → Bool) (fuel region n : ℕ) (z : Zone) (ps : List Ptr)
    → Mappable page
    → 0 < n
    → region ≢ null
    → Chain z.next z.region_list ps
    → has region ps ≡ false
    → 0 < fuel
    → ((addr : Ptr) × (z1 z2 : Zone) × (vmalloc page region n z ≡ some (addr, z1))
        × (vfree fuel addr z1 ≡ some z2)
        × ((k : ℕ) → bitmap_test k z2 ≡ bitmap_test k z)
        × Chain z2.next z2.region_list ps)
      ⊎ (vmalloc page region n z ≡ some (null, z))
unfolding vfree find_region
vfree-vmalloc page zero region n z ps ok pos some_region c out enough = absurd (omega arith)
vfree-vmalloc page (suc f) region n z ps ok pos some_region c out enough =
    elim (vmalloc-Given page region n z ok pos some_region) [
      | inr (full, run) ↦ inr full
      | inl (s, z1, allocs, g) ↦
          let inside : s < vmalloc_pages = omega (arith, g.run.inside) in
          let there : (region == null) ≡ false = ground (arith, some_region) in
          let at : page_address s ≡ vmalloc_base + s * 4096 = omega arith in
          let idx : sub32 (vmalloc_base + s * 4096) vmalloc_base / 4096 ≡ s = omega arith in
          let some_addr : (vmalloc_base + s * 4096 == null) ≡ false = ground arith in
          let low : ltb (vmalloc_base + s * 4096) vmalloc_base ≡ false = ground arith in
          let high : leb vmalloc_max (vmalloc_base + s * 4096) ≡ false = ground arith in
          let first : z1.start region ≡ s = rw g.start (update_self z.start region s) in
          let size : z1.npages region ≡ n = rw g.npages (update_self z.npages region n) in
          let behind : z1.next region ≡ z.region_list =
            rw g.next (update_self z.next region z.region_list) in
          let z2 : Zone = clear_run n s (record z1 { region_list = z1.next region }) in
          let m = clear_run-Marks n s (record z1 { region_list = z1.next region }) in
          inl (
            page_address s,
            z1,
            z2,
            allocs,
            rw (at, idx, some_addr, low, high, g.region_list, there, first, ==_refl s, size, there)
                refl,
            λ k. ground (arith, m.bits k, g.bits k, g.run.free k),
            subst (λ q. Chain z2.next q ps) (sym (m.region_list ∙ behind))
                (subst (λ f. Chain f z.region_list ps) (sym (m.next ∙ g.next))
                  (Chain-update z.next region z.region_list z.region_list ps out c)),
          )
    ]
