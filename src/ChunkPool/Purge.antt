-- ===== src/ChunkPool/Purge.antt =====
-- A chunk that is freed goes to the front of its cache's list; when its page is free as a whole,
-- every chunk of the page leaves the list.
use hekaos_series.Word.{sub32}
use hekaos_series.Base.{
  ℕ, zero, suc, ◌+◌, ◌%◌, ◌^◌, ◌<◌, ◌≡◌, refl, ap, ◌∙◌, ◌≢◌, inl, inr, Bool, false, none, some,
  List, [], ◌∷◌, arith, ◌==◌, if◌then◌else◌, Bool-cases, update_self, update, length, true, ==_refl,
}
use hekaos_series.Tasks.{Ptr, null}
use hekaos_series.Tasks.Chain.{has, Chain, Chain-update, Chain-head_fresh}
use hekaos_series.ChunkPool.{
  Pool, page_of, purge_page, push_chunk, cache_index_exact, kmem_cache_count, kfree,
}

-- the chunks that do not lie in the page at `base`
unfoldable pub outside : Ptr → List Ptr → List Ptr
outside base [] = []
outside base (x ∷ xs) = if page_of x == base then outside base xs else x ∷ outside base xs

-- The walk behind the chunk `c` changes no list's head, and no link but that of `c` and of `xs`.
record Behind (c base : Ptr) (xs : List Ptr) (p p' : Pool) : Type 0 where
  chain : Chain p'.link (p'.link c) (outside base xs)
  links : (a : Ptr) → has a xs ≡ false → a ≢ c → p'.link a ≡ p.link a
  heads : p'.free_list ≡ p.free_list
  pages : p'.cpool_page_count ≡ p.cpool_page_count
  counts : p'.free_count ≡ p.free_count

purge_page-Behind :
    (fuel idx : ℕ) (c base : Ptr) (xs : List Ptr) (p : Pool)
    → Chain p.link (p.link c) xs
    → has c xs ≡ false
    → length xs < fuel
    → (p' : Pool) × (purge_page fuel idx (some c) base p ≡ some p') × Behind c base xs p p'
unfolding purge_page has outside
purge_page-Behind zero idx c base xs p ch out enough = absurd (omega arith)
purge_page-Behind (suc n) idx c base [] p ch out enough = (
  p,
  rw ch refl,
  record { chain = ch; links = λ a h ne. refl; heads = refl; pages = refl; counts = refl },
)
purge_page-Behind (suc n) idx c base (x ∷ xs) p (e, ne, ch) out enough =
    let there : (x == null) ≡ false = ground (arith, ne) in
    elim (Bool-cases (page_of x == base)) [
      | inl inside ↦
          let p1 : Pool = record p { link = update p.link c (p.link x) } in
          let at : p1.link c ≡ p.link x = update_self p.link c (p.link x) in
          let ch1 : Chain p1.link (p1.link c) xs =
            rw at (Chain-update p.link c (p.link x) (p.link x) xs (ground (arith, out)) ch) in
          let (p', goes, b) =
            purge_page-Behind n idx c base xs p1 ch1 (ground (arith, out)) (omega arith) in
          (
            p',
            rw (e, there, inside) goes,
            record {
              chain = rw inside b.chain;
              links = λ a h na. ground (arith, b.links a, h, na);
              heads = b.heads;
              pages = b.pages;
              counts = b.counts;
            },
          )
      | inr other ↦
          let fresh = Chain-head_fresh p.link (p.link c) x xs (e, ne, ch) in
          let (p', goes, b) = purge_page-Behind n idx x base xs p ch fresh (omega arith) in
          let same : p'.link c ≡ p.link c =
            b.links c (ground (arith, out)) (λ z. absurd (ground (arith, out, z))) in
          (
            p',
            rw (e, there, other) goes,
            record {
              chain = rw other (same ∙ e, ne, b.chain);
              links = λ a h na. b.links a (ground (arith, h)) (λ z. absurd (ground (arith, h, z)));
              heads = b.heads;
              pages = b.pages;
              counts = b.counts;
            },
          )
    ]

purge_page-outside :
    (fuel idx : ℕ) (base : Ptr) (xs : List Ptr) (p : Pool)
    → Chain p.link (p.free_list idx) xs
    → length xs < fuel
    → (p' : Pool) × (purge_page fuel idx none base p ≡ some p')
      × Chain p'.link (p'.free_list idx) (outside base xs)
      × ((j : ℕ) → j ≢ idx → p'.free_list j ≡ p.free_list j)
      × (p'.cpool_page_count ≡ p.cpool_page_count)
      × (p'.free_count ≡ p.free_count)
unfolding purge_page has outside
purge_page-outside zero idx base xs p ch enough = absurd (omega arith)
purge_page-outside (suc n) idx base [] p ch enough = (p, rw ch refl, ch, λ j ne. refl, refl, refl)
purge_page-outside (suc n) idx base (x ∷ xs) p (e, ne, ch) enough =
    let there : (x == null) ≡ false = ground (arith, ne) in
    elim (Bool-cases (page_of x == base)) [
      | inl inside ↦
          let p1 : Pool = record p { free_list = update p.free_list idx (p.link x) } in
          let ch1 : Chain p1.link (p1.free_list idx) xs =
            rw (update_self p.free_list idx (p.link x)) ch in
          let (p', goes, c', heads, pages, counts) =
            purge_page-outside n idx base xs p1 ch1 (omega arith) in
          (
            p',
            rw (e, there, inside) goes,
            rw inside c',
            λ j nj. ground (arith, heads j, nj),
            pages,
            counts,
          )
      | inr other ↦
          let fresh = Chain-head_fresh p.link (p.free_list idx) x xs (e, ne, ch) in
          let (p', goes, b) = purge_page-Behind n idx x base xs p ch fresh (omega arith) in
          let same : p'.free_list idx ≡ p.free_list idx = ap (λ f. f idx) b.heads in
          (
            p',
            rw (e, there, other) goes,
            rw other (same ∙ e, ne, b.chain),
            λ j nj. ap (λ f. f j) b.heads,
            b.pages,
            b.counts,
          )
    ]

-- how many of the chunks lie in the page at `base`
unfoldable pub in_page : Ptr → List Ptr → ℕ
in_page base [] = 0
in_page base (x ∷ xs) = (if page_of x == base then 1 else 0) + in_page base xs

-- With `addr`, all the chunks of its page are free.
abbrev pub is_all_free : Ptr → List Ptr → Pool → Bool
is_all_free addr cs p = in_page (page_of addr) (addr ∷ cs) == p.total_count (page_of addr)

-- `kfree` of a chunk that is not free, in a page whose header names the cache `idx` and counts the
-- chunks of the page in that cache's list, which are not all of the page: the chunk goes to the front
-- of the list; if all the chunks of its page are then free, exactly the chunks of that page leave the
-- list, the others keep their order, and the pool has a page less. The header counts the chunk. The
-- list is shorter than the fuel by at least two, and a page has fewer than `2 ^ 16` chunks.
pub kfree-outside :
    (fuel idx : ℕ) (addr : Ptr) (cs : List Ptr) (p : Pool)
    → addr ≢ null
    → cache_index_exact kmem_cache_count 0 (p.hdr_size (page_of addr)) p ≡ some idx
    → Chain p.link (p.free_list idx) cs
    → has addr cs ≡ false
    → p.free_count (page_of addr) ≡ in_page (page_of addr) cs
    → p.free_count (page_of addr) < p.total_count (page_of addr)
    → p.total_count (page_of addr) < 2 ^ 16
    → length cs + 1 < fuel
    → (p' : Pool) × (kfree fuel addr p ≡ some p')
      × Chain p'.link
          (p'.free_list idx)
          (if is_all_free addr cs p then outside (page_of addr) (addr ∷ cs) else addr ∷ cs)
      × (p'.cpool_page_count
          ≡ (if is_all_free addr cs p then sub32 p.cpool_page_count 1 else p.cpool_page_count))
      × (p'.free_count (page_of addr) ≡ in_page (page_of addr) (addr ∷ cs))
unfolding kfree push_chunk in_page
kfree-outside fuel idx addr cs p some_addr found ch out counted partial sized enough =
    let hdr = page_of addr in
    let n = (p.free_count hdr + 1) % 2 ^ 16 in
    let p1 : Pool = record p {
      link = update p.link addr (p.free_list idx);
      free_list = update p.free_list idx addr;
      free_count = update p.free_count hdr n;
      cpool_used_count = sub32 p.cpool_used_count 1;
    } in
    let there : (addr == null) ≡ false = ground (arith, some_addr) in
    let self : (page_of addr == page_of addr) ≡ true = ==_refl (page_of addr) in
    let count : n ≡ 1 + in_page hdr cs = omega (arith, counted, partial, sized) in
    let now : update p.free_count hdr n hdr ≡ n = update_self p.free_count hdr n in
    let ch1 : Chain p1.link (p1.free_list idx) (addr ∷ cs) = (
      update_self p.free_list idx addr,
      some_addr,
      rw (update_self p.link addr (p.free_list idx))
          (Chain-update p.link addr (p.free_list idx) (p.free_list idx) cs out ch),
    ) in
    elim (Bool-cases (1 + in_page hdr cs == p.total_count hdr)) [
      | inr part ↦
          let header_part : (n == p.total_count hdr) ≡ false = rw count part in
          (
            p1,
            rw (found, there, now, header_part) refl,
            rw (self, part) ch1,
            rw (self, part) refl,
            rw self count,
          )
      | inl full ↦
          let header_full : (n == p.total_count hdr) ≡ true = rw count full in
          let (p2, goes, c2, heads, pages, counts) =
            purge_page-outside fuel idx hdr (addr ∷ cs) p1 ch1 (omega arith) in
          (
            record p2 { cpool_page_count = sub32 p2.cpool_page_count 1 },
            rw (found, there, now, header_full, goes) refl,
            rw (self, full) c2,
            rw (self, full, pages) refl,
            rw self (ap (λ f. f hdr) counts ∙ now ∙ count),
          )
    ]
