-- ===== src/ChunkPool/Refill.antt =====
-- `kmalloc` serves a size from the smallest cache that has room for it, and refills an empty one.
use native.Mathlib.Nat.{one-le-pow}
use hekaos_series.Base.{
  ℕ, zero, suc, ◌+◌, ◌/◌, ◌%◌, ◌^◌, ◌≤◌, ◌<◌, ◌≡◌, refl, sym, ap, ◌∙◌, Bool, true, false, some,
  List, [], ◌∷◌, arith, ltb, leb, ◌==◌, if◌then◌else◌, update_self, update,
}
use mathlib.Core.Path.{subst}
use hekaos_series.Word.{add32}
use hekaos_series.Tasks.{Ptr, null}
use hekaos_series.Tasks.Chain.{Chain}
use hekaos_series.ChunkPool.{
  Pool, cache_sizes, cache_index, kmem_cache_count, kmem_cache_256, link_chunks, cpool_refill,
  pop_chunk, kmalloc, cpool_data_size, kcpool_virt_max,
}

-- `n` chunks of `size` bytes from `obj` on, and the bytes that they take up
unfoldable pub chunks : ℕ → Ptr → ℕ → List Ptr
chunks zero obj size = []
chunks (suc n) obj size = obj ∷ chunks n (obj + size) size

unfoldable pub extent : ℕ → ℕ → ℕ
extent zero size = 0
extent (suc n) size = size + extent n size

link_chunks-below :
    (n : ℕ) (obj size a : ℕ) (link : Ptr → Ptr)
    → a < obj
    → obj + extent n size < 2 ^ 32
    → link_chunks n obj size link a ≡ link a
unfolding link_chunks extent
link_chunks-below zero obj size a link lt hi = refl
link_chunks-below (suc n) obj size a link lt hi =
    let next : add32 obj size ≡ obj + size = omega arith in
    rw next (
      link_chunks-below n (obj + size) size a
        (update link obj (if n == 0 then null else obj + size)) (omega arith) (omega arith)
      ∙ ground arith)

link_chunks-Chain :
    (n : ℕ) (obj size : ℕ) (link : Ptr → Ptr)
    → 0 < obj
    → 0 < size
    → obj + extent (suc n) size < 2 ^ 32
    → Chain (link_chunks (suc n) obj size link) obj (chunks (suc n) obj size)
unfolding link_chunks extent chunks
link_chunks-Chain zero obj size link pos room hi = (refl, omega arith, ground arith)
link_chunks-Chain (suc n) obj size link pos room hi =
    let next : add32 obj size ≡ obj + size = omega arith in
    let l1 = update link obj (obj + size) in
    let rest = link_chunks-Chain n (obj + size) size l1 (omega arith) room (omega arith) in
    let here : link_chunks (suc n) (obj + size) size l1 obj ≡ obj + size =
      link_chunks-below (suc n) (obj + size) size obj l1 (omega arith) (omega arith)
      ∙ ground arith in
    let more : (suc n == 0) ≡ false = ground arith in
    let step : link_chunks (suc (suc n)) obj size link ≡ link_chunks (suc n) (obj + size) size l1 =
      rw (more, next) refl in
    subst (λ f. Chain f obj (chunks (suc (suc n)) obj size)) (sym step)
      (
        refl,
        omega arith,
        subst
            (λ q.
              Chain (link_chunks (suc n) (obj + size) size l1) q (chunks (suc n) (obj + size) size))
            (sym here) rest,
      )

-- The chunks of a page, behind its header; each cache has at least one, and they fit.
abbrev pub page_chunks : Ptr → ℕ → List Ptr
page_chunks base size = chunks (cpool_data_size / size) (base + 8) size

extent_fits :
    (i : ℕ)
    → i < 6
    → (extent (cpool_data_size / cache_sizes i) (cache_sizes i) ≤ 4088)
      × ((m : ℕ) × (cpool_data_size / cache_sizes i ≡ suc m))
unfolding extent
extent_fits zero lt = (omega arith, (510, refl))
extent_fits (suc zero) lt = (omega arith, (254, refl))
extent_fits (suc (suc zero)) lt = (omega arith, (126, refl))
extent_fits (suc (suc (suc zero))) lt = (omega arith, (62, refl))
extent_fits (suc (suc (suc (suc zero)))) lt = (omega arith, (30, refl))
extent_fits (suc (suc (suc (suc (suc zero))))) lt = (omega arith, (14, refl))
extent_fits (suc (suc (suc (suc (suc (suc i)))))) lt = absurd (omega arith)

-- The caches have their sizes, 8 times a power of two.
abbrev pub Sized : Pool → Type 0
Sized p = (i : ℕ) → i < kmem_cache_count → p.obj_size i ≡ cache_sizes i

-- the smallest cache with room for `size` bytes
unfoldable pub class : ℕ → ℕ
class size =
    if leb size 8
    then 0
    else if leb size 16
    then 1
    else if leb size 32
    then 2
    else if leb size 64
    then 3
    else if leb size 128
    then 4
    else 5

cache_index-class :
    (size : ℕ) (p : Pool)
    → Sized p
    → size ≤ 256
    → cache_index kmem_cache_count 0 size p ≡ some (class size)
unfolding cache_index class
cache_index-class size p sized small = ground (
  arith,
  sized 0 (omega arith),
  sized 1 (omega arith),
  sized 2 (omega arith),
  sized 3 (omega arith),
  sized 4 (omega arith),
  sized 5 (omega arith),
)

class-lt : (size : ℕ) → class size < 6
unfolding class
class-lt size = ground arith

-- what a cache's list `cs` has to serve from: its chunks, or those of a new page if it is empty
unfoldable pub supply : ℕ → Ptr → List Ptr → List Ptr
supply size base [] = page_chunks base size
supply size base (c ∷ cs) = c ∷ cs

page_chunks-first :
    (m base size : ℕ)
    → cpool_data_size / size ≡ suc m
    → page_chunks base size ≡ (base + 8) ∷ chunks m (base + 8 + size) size
unfolding chunks
page_chunks-first m base size count = rw count refl

kmalloc-serve :
    (page : ℕ → Bool) (size : ℕ) (p p1 : Pool)
    → Sized p
    → 0 < size
    → size ≤ 256
    → (if p.free_list (class size) == null then cpool_refill page (class size) p else some p)
      ≡ some p1
    → kmalloc page size p ≡ some (pop_chunk (class size) p1)
unfolding kmalloc
kmalloc-serve page size p p1 sized pos small ready =
    let asks : (size == 0) ≡ false = ground arith in
    let fits : ltb kmem_cache_256 size ≡ false = ground arith in
    rw (cache_index-class size p sized small, asks, fits, ready) refl

pop_chunk-Chain :
    (i c : ℕ) (cs : List Ptr) (p : Pool)
    → Chain p.link (p.free_list i) (c ∷ cs)
    → (pop_chunk i p ≡ (c, (pop_chunk i p).1))
      × Chain (pop_chunk i p).1.link ((pop_chunk i p).1.free_list i) cs
unfolding pop_chunk
pop_chunk-Chain i c cs p (e, ne, ch) = (
  ap (λ q. (q, (pop_chunk i p).1)) e,
  rw (update_self p.free_list i (p.link (p.free_list i)), e) ch,
)

cpool_refill-Chain :
    (page : ℕ → Bool) (i : ℕ) (p : Pool)
    → Sized p
    → i < 6
    → page p.cpool_vptr ≡ true
    → p.cpool_vptr + 4096 ≤ kcpool_virt_max
    → (p1 : Pool) × (cpool_refill page i p ≡ some p1)
      × Chain p1.link (p1.free_list i) (page_chunks p.cpool_vptr (cache_sizes i))
unfolding cpool_refill
cpool_refill-Chain page i p sized lt ok room =
    let (fits, (m, count)) = extent_fits i lt in
    let n = cpool_data_size / cache_sizes i in
    let size = cache_sizes i in
    let vptr = p.cpool_vptr in
    let first : add32 vptr 8 ≡ vptr + 8 = omega (arith, room) in
    let limit : ltb kcpool_virt_max (add32 vptr 4096) ≡ false = ground (arith, room) in
    let some_size : 0 < size = omega (arith, one-le-pow i 2) in
    let chain : Chain (link_chunks n (vptr + 8) size p.link) (vptr + 8) (chunks n (vptr + 8) size) =
      rw count (
        link_chunks-Chain m (vptr + 8) size p.link (omega arith) some_size
          (omega (arith, room, rw count at fits))) in
    let p1 : Pool = record p {
      hdr_size = update p.hdr_size vptr size;
      free_count = update p.free_count vptr (n % 2 ^ 16);
      total_count = update p.total_count vptr (n % 2 ^ 16);
      link = link_chunks n (vptr + 8) size p.link;
      free_list = update p.free_list i (vptr + 8);
      cpool_vptr = add32 vptr 4096;
      cpool_page_count = add32 p.cpool_page_count 1;
    } in
    (p1, rw (limit, ok, sized i lt, first) refl, rw (update_self p.free_list i (vptr + 8)) chain)

-- For a size of 1 to 256 bytes, when the caches have their sizes and a page can be mapped at the
-- pool's end, below its limit: `kmalloc` serves it from the smallest cache that has room for it.
-- The result is the first chunk of that cache's list, or of the chunks of the new page, one behind
-- the other after its header; the others stay, in order.
pub kmalloc-class :
    (page : ℕ → Bool) (size : ℕ) (p : Pool) (cs : List Ptr)
    → Sized p
    → 0 < size
    → size ≤ 256
    → Chain p.link (p.free_list (class size)) cs
    → page p.cpool_vptr ≡ true
    → p.cpool_vptr + 4096 ≤ kcpool_virt_max
    → (c : Ptr) × (rest : List Ptr) × (p' : Pool) × (supply
          (cache_sizes (class size))
          p.cpool_vptr
          cs
        ≡ c ∷ rest)
      × (kmalloc page size p ≡ some (c, p'))
      × Chain p'.link (p'.free_list (class size)) rest
unfolding supply
kmalloc-class page size p (c ∷ cs) sized pos small ch ok room =
    let i = class size in
    let there : (p.free_list i == null) ≡ false = ground (arith, ch.0, ch.1) in
    let (pair, rest) = pop_chunk-Chain i c cs p ch in
    (
      c,
      cs,
      (pop_chunk i p).1,
      refl,
      kmalloc-serve page size p p sized pos small (rw there refl) ∙ ap some pair,
      rest,
    )
kmalloc-class page size p [] sized pos small ch ok room =
    let i = class size in
    let (p1, refills, chain) = cpool_refill-Chain page i p sized (class-lt size) ok room in
    let (fits, (m, count)) = extent_fits i (class-lt size) in
    let c = p.cpool_vptr + 8 in
    let rest = chunks m (c + cache_sizes i) (cache_sizes i) in
    let listed : page_chunks p.cpool_vptr (cache_sizes i) ≡ c ∷ rest =
      page_chunks-first m p.cpool_vptr (cache_sizes i) count in
    let (pair, tail) =
      pop_chunk-Chain i c rest p1 (subst (λ l. Chain p1.link (p1.free_list i) l) listed chain) in
    (
      c,
      rest,
      (pop_chunk i p1).1,
      listed,
      kmalloc-serve page size p p1 sized pos small (rw (ch) refills) ∙ ap some pair,
      tail,
    )
