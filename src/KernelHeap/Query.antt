-- ===== src/KernelHeap/Query.antt =====
-- What `kmem_dyn_alloc_query` and `kmem_size` report of the blocks.
use hekaos_series.Base.{
  ℕ, zero, suc, ◌+◌, ◌*◌, ◌^◌, ◌≤◌, ◌<◌, ◌≡◌, refl, Bool, true, false, not, ◌&&◌, ◌||◌, some, List,
  [], ◌∷◌, arith, ◌==◌, if◌then◌else◌, length,
}
use hekaos_series.KernelHeap.{Heap, Stats, query_from, kmem_dyn_alloc_query, heap_base}
use hekaos_series.KernelHeap.Tiles.{Block, Tiles, Tiles-le}
use hekaos_series.KernelHeap.Valid.{IsValid}
use hekaos_series.Tasks.{null}
use hekaos_series.Word.{add32}

-- The totals of a list of blocks: how many, the used and the free ones, and their bytes.
unfoldable pub count : Bool → List Block → ℕ
count w [] = 0
count w ((s, u) ∷ bs) = if (u && w) || (not u && not w) then 1 + count w bs else count w bs

unfoldable pub bytes : Bool → List Block → ℕ
bytes w [] = 0
bytes w ((s, u) ∷ bs) = if (u && w) || (not u && not w) then s + bytes w bs else bytes w bs

-- what the statistics `s` become over the blocks `bs`
abbrev pub added : Stats → List Block → Stats
added s bs = record {
  end_address = s.end_address;
  total_blocks = s.total_blocks + length bs;
  used_blocks = s.used_blocks + count true bs;
  free_blocks = s.free_blocks + count false bs;
  used_bytes = s.used_bytes + bytes true bs;
  free_bytes = s.free_bytes + bytes false bs;
}

-- Each statistic is at most the distance to the end, and the sums do not wrap.
record Small (s : Stats) (a : ℕ) : Type 0 where
  total : s.total_blocks ≤ a
  used : s.used_blocks ≤ a
  free : s.free_blocks ≤ a
  used_b : s.used_bytes ≤ a
  free_b : s.free_bytes ≤ a

query_from_lem :
    (fuel : ℕ) (st : Stats) (h : Heap) (prev p a e : ℕ) (bs : List Block)
    → 0 < a
    → e < 2 ^ 32
    → Small st a
    → length bs < fuel
    → Tiles h prev p a bs e
    → query_from fuel p st h ≡ some (added st bs)
unfolding query_from count bytes
query_from_lem zero st h prev p a e bs pos hi sm enough t = absurd (omega arith)
query_from_lem (suc f) st h prev p a e [] pos hi sm enough t =
    let e1 : st.total_blocks + 0 ≡ st.total_blocks = omega arith in
    let e2 : st.used_blocks + 0 ≡ st.used_blocks = omega arith in
    let e3 : st.free_blocks + 0 ≡ st.free_blocks = omega arith in
    let e4 : st.used_bytes + 0 ≡ st.used_bytes = omega arith in
    let e5 : st.free_bytes + 0 ≡ st.free_bytes = omega arith in rw (t.0, e1, e2, e3, e4, e5) refl
query_from_lem (suc f) st h prev p a e ((s, true) ∷ bs) pos hi sm enough ((tp, ts, tu, tv), t) =
    let bound = Tiles-le h a (h.next a) (a + 16 + s) e bs t in
    let test : (a == null) ≡ false = ground arith in
    let st' : Stats = record st {
      total_blocks = st.total_blocks + 1;
      used_blocks = st.used_blocks + 1;
      used_bytes = st.used_bytes + s;
    } in
    let rest =
      query_from_lem f st' h a (h.next a) (a + 16 + s) e bs (omega arith) hi
        (record {
          total = omega (arith, sm.total);
          used = omega (arith, sm.used);
          free = omega (arith, sm.free);
          used_b = omega (arith, sm.used_b);
          free_b = omega (arith, sm.free_b);
        })
        (omega arith) t in
    let e1 : add32 st.total_blocks 1 ≡ st.total_blocks + 1 = omega (arith, sm.total) in
    let e2 : add32 st.used_blocks 1 ≡ st.used_blocks + 1 = omega (arith, sm.used) in
    let e3 : add32 st.used_bytes s ≡ st.used_bytes + s = omega (arith, sm.used_b) in
    let f1 : st.total_blocks + suc (length bs) ≡ st.total_blocks + 1 + length bs = omega arith in
    let f2 : st.used_blocks + (1 + count true bs) ≡ st.used_blocks + 1 + count true bs =
      omega arith in
    let f3 : st.used_bytes + (s + bytes true bs) ≡ st.used_bytes + s + bytes true bs =
      omega arith in
    rw (tp, test, tu, ts, e1, e2, e3, f1, f2, f3) rest
query_from_lem (suc f) st h prev p a e ((s, false) ∷ bs) pos hi sm enough ((tp, ts, tu, tv), t) =
    let bound = Tiles-le h a (h.next a) (a + 16 + s) e bs t in
    let test : (a == null) ≡ false = ground arith in
    let st' : Stats = record st {
      total_blocks = st.total_blocks + 1;
      free_blocks = st.free_blocks + 1;
      free_bytes = st.free_bytes + s;
    } in
    let rest =
      query_from_lem f st' h a (h.next a) (a + 16 + s) e bs (omega arith) hi
        (record {
          total = omega (arith, sm.total);
          used = omega (arith, sm.used);
          free = omega (arith, sm.free);
          used_b = omega (arith, sm.used_b);
          free_b = omega (arith, sm.free_b);
        })
        (omega arith) t in
    let e1 : add32 st.total_blocks 1 ≡ st.total_blocks + 1 = omega (arith, sm.total) in
    let e2 : add32 st.free_blocks 1 ≡ st.free_blocks + 1 = omega (arith, sm.free) in
    let e3 : add32 st.free_bytes s ≡ st.free_bytes + s = omega (arith, sm.free_b) in
    let f1 : st.total_blocks + suc (length bs) ≡ st.total_blocks + 1 + length bs = omega arith in
    let f2 : st.free_blocks + (1 + count false bs) ≡ st.free_blocks + 1 + count false bs =
      omega arith in
    let f3 : st.free_bytes + (s + bytes false bs) ≡ st.free_bytes + s + bytes false bs =
      omega arith in
    rw (tp, test, tu, ts, e1, e2, e3, f1, f2, f3) rest

-- The bytes of the blocks and a header for each make up the whole heap.
count-bytes-whole :
    (h : Heap) (prev p a e : ℕ) (bs : List Block)
    → Tiles h prev p a bs e
    → a + bytes true bs + bytes false bs + 16 * (count true bs + count false bs) ≡ e
unfolding count bytes
count-bytes-whole h prev p a e [] t = omega (arith, t.1)
count-bytes-whole h prev p a e ((s, true) ∷ bs) t =
    omega (arith, count-bytes-whole h a (h.next a) (a + 16 + s) e bs t.1)
count-bytes-whole h prev p a e ((s, false) ∷ bs) t =
    omega (arith, count-bytes-whole h a (h.next a) (a + 16 + s) e bs t.1)

count-all : (bs : List Block) → count true bs + count false bs ≡ length bs
unfolding count
count-all [] = refl
count-all ((s, true) ∷ bs) = omega (arith, count-all bs)
count-all ((s, false) ∷ bs) = omega (arith, count-all bs)

-- what `kmem_dyn_alloc_query` reports of the blocks `bs`
abbrev pub totals : Heap → List Block → Stats
totals h bs = record {
  end_address = h.heap_end;
  total_blocks = length bs;
  used_blocks = count true bs;
  free_blocks = count false bs;
  used_bytes = bytes true bs;
  free_bytes = bytes false bs;
}

-- On a heap that is laid out well the query returns, with rounds for each block and one more: the
-- counts and the byte sums of the used and of the free blocks; all the blocks are counted, and the
-- reported bytes with 16 for each block are the whole heap.
pub kmem_dyn_alloc_query-totals :
    (fuel : ℕ) (h : Heap) (bs : List Block)
    → IsValid h bs
    → length bs < fuel
    → (kmem_dyn_alloc_query fuel h ≡ some (totals h bs))
      × (count true bs + count false bs ≡ length bs)
      × (heap_base + bytes true bs + bytes false bs + 16 * length bs ≡ h.heap_end)
unfolding kmem_dyn_alloc_query
kmem_dyn_alloc_query-totals fuel h bs v enough =
    let all = count-all bs in
    let whole = count-bytes-whole h null h.head heap_base h.heap_end bs v.tiles in
    let z : (n : ℕ) → 0 + n ≡ n = λ n. omega arith in
    let result =
      query_from_lem fuel
        (record {
          end_address = h.heap_end;
          total_blocks = 0;
          used_blocks = 0;
          free_blocks = 0;
          used_bytes = 0;
          free_bytes = 0;
        })
        h null h.head heap_base h.heap_end bs (omega arith) (omega (arith, v.inside))
        (record {
          total = omega arith;
          used = omega arith;
          free = omega arith;
          used_b = omega arith;
          free_b = omega arith;
        })
        enough v.tiles in
    (
      rw
          (
            z (length bs),
            z (count true bs),
            z (count false bs),
            z (bytes true bs),
            z (bytes false bs),
          )
          at result,
      all,
      omega (arith, all, whole),
    )
