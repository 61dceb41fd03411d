-- ===== src/ChunkPool/Tests.antt =====
-- The theorems on the chunk pool at a pool with one page of 256-byte chunks, all but one of them free.
use hekaos_series.Base.{
  ◌+◌, ltb, ◌≡◌, refl, true, false, some, List, [], ◌∷◌, arith, ◌==◌, if◌then◌else◌,
}
use hekaos_series.Tasks.{Ptr, null}
use hekaos_series.Word.{sub32}
use hekaos_series.Tasks.Chain.{has, Chain}
use hekaos_series.ChunkPool.{
  Pool, page_of, cache_sizes, kmem_cache_count, kmalloc, kfree, cache_index_exact,
}
use hekaos_series.ChunkPool.Refill.{class, supply, kmalloc-class}
use hekaos_series.ChunkPool.Purge.{outside, in_page, is_all_free, kfree-outside}

abbrev pool : Pool
pool = record {
  obj_size = cache_sizes;
  free_list = λ i. if i == 5 then 0xd000_0108 else null;
  link = λ a. if ltb a 0xd000_0e08 then a + 256 else null;
  hdr_size = λ a. if a == 0xd000_0000 then 256 else 0;
  free_count = λ a. 14;
  total_count = λ a. 15;
  cpool_vptr = 0xd000_1000;
  cpool_page_count = 1;
  cpool_used_count = 1;
}

sixteen_empty : Chain pool.link (pool.free_list (class 12)) []
unfolding class
sixteen_empty = refl

kmalloc-class_example :
    (c : Ptr) × (rest : List Ptr) × (p' : Pool) × (supply (cache_sizes (class 12)) 0xd000_1000 []
      ≡ c ∷ rest)
    × (kmalloc (λ y. true) 12 pool ≡ some (c, p'))
    × Chain p'.link (p'.free_list (class 12)) rest
kmalloc-class_example =
    kmalloc-class (λ y. true) 12 pool [] (λ i lt. refl) (omega arith) (omega arith) sixteen_empty
      refl (omega arith)

listed : cache_index_exact kmem_cache_count 0 (pool.hdr_size (page_of 0xd000_0008)) pool ≡ some 5
unfolding cache_index_exact
listed = refl

abbrev free_chunks : List Ptr
free_chunks =
    0xd000_0108 ∷ 0xd000_0208 ∷ 0xd000_0308 ∷ 0xd000_0408 ∷ 0xd000_0508 ∷ 0xd000_0608 ∷ 0xd000_0708
    ∷ 0xd000_0808 ∷ 0xd000_0908 ∷ 0xd000_0a08 ∷ 0xd000_0b08 ∷ 0xd000_0c08 ∷ 0xd000_0d08
    ∷ 0xd000_0e08 ∷ []

free_chunks-Chain : Chain pool.link (pool.free_list 5) free_chunks
free_chunks-Chain = (
  refl,
  omega arith,
  (
    refl,
    omega arith,
    (
      refl,
      omega arith,
      (
        refl,
        omega arith,
        (
          refl,
          omega arith,
          (
            refl,
            omega arith,
            (
              refl,
              omega arith,
              (
                refl,
                omega arith,
                (
                  refl,
                  omega arith,
                  (
                    refl,
                    omega arith,
                    (
                      refl,
                      omega arith,
                      (refl, omega arith, (refl, omega arith, (refl, omega arith, refl))),
                    ),
                  ),
                ),
              ),
            ),
          ),
        ),
      ),
    ),
  ),
)

in_use : has 0xd000_0008 free_chunks ≡ false
unfolding has
in_use = refl

counted : pool.free_count (page_of 0xd000_0008) ≡ in_page (page_of 0xd000_0008) free_chunks
unfolding in_page
counted = refl

kfree-outside_example :
    (p' : Pool) × (kfree 99 0xd000_0008 pool ≡ some p')
    × Chain p'.link (p'.free_list 5) (
        if is_all_free 0xd000_0008 free_chunks pool
        then outside (page_of 0xd000_0008) (0xd000_0008 ∷ free_chunks)
        else 0xd000_0008 ∷ free_chunks)
    × (p'.cpool_page_count ≡ (
        if is_all_free 0xd000_0008 free_chunks pool
        then sub32 pool.cpool_page_count 1
        else pool.cpool_page_count))
    × (p'.free_count (page_of 0xd000_0008)
        ≡ in_page (page_of 0xd000_0008) (0xd000_0008 ∷ free_chunks))
kfree-outside_example =
    kfree-outside 99 5 0xd000_0008 free_chunks pool (omega arith) listed free_chunks-Chain in_use
      counted (omega arith) (omega arith) (omega arith)
