-- ===== src/KernelHeap/Free.antt =====
-- `kmem_free` of a block anywhere in the list.
use hekaos_series.Base.{
  ℕ, ◌+◌, ◌^◌, ◌≤◌, ◌<◌, ◌≡◌, refl, ◌∙◌, inl, inr, Bool, true, false, some, List, [], ◌∷◌, ◌++◌,
  arith, ◌==◌, Bool-cases, update,
}
use mathlib.Core.Path.{subst}
use hekaos_series.Word.{sub32}
use hekaos_series.Tasks.{Ptr, null}
use hekaos_series.KernelHeap.{Heap, merge_next, merge_prev, kmem_free, header_size}
use hekaos_series.KernelHeap.Tiles.{
  Block, Tiles, Same, Tiles-le, Tiles-cons, Same-trans, Same-below,
}
use hekaos_series.KernelHeap.Release.{
  join, release, span, merge_next-join, merge_prev-join, merge_next-globals, merge_prev-globals,
  freed, join-cons, unmark-Same, unmark-Tiles,
}

freed-first :
    (h : Heap) (p a s e : ℕ) (u : Bool) (R : List Block)
    → 0 < a
    → e < 2 ^ 32
    → Tiles h null p a ((s, u) ∷ R) e
    → Tiles (freed a h) null p a (join s R) e
unfolding merge_prev
freed-first h p a s e u R pos hi t =
    let marked = unmark-Tiles h null p a s e u R t in
    let h1 : Heap = record h { used = update h.used a false } in
    let pa : p ≡ a = t.0.0 in
    let (t2, same) = merge_next-join h1 null a s e R pos hi (rw pa at marked) in
    let (s', R', cons) = join-cons s R in
    let t3 : Tiles (merge_next a h1) null a a ((s', false) ∷ R') e = rw cons at t2 in
    rw (pa, t3.0.3) t2

freed-second :
    (h : Heap) (prev p a t s e : ℕ) (u v : Bool) (R : List Block)
    → 0 < a
    → e < 2 ^ 32
    → Tiles h prev p a ((t, u) ∷ (s, v) ∷ R) e
    → Tiles (freed (a + 16 + t) h) prev p a (release ((t, u) ∷ []) s R) e
      × Same 0 a h (freed (a + 16 + t) h)
unfolding release join
freed-second h prev p a t s e u v R pos hi (q, r) =
    let b = a + 16 + t in
    let h1 : Heap = record h { used = update h.used b false } in
    let marked = unmark-Tiles h a (h.next a) b s e v R r in
    let (t2, same) = merge_next-join h1 a b s e R (omega arith) hi (rw (r.0.0) at marked) in
    let h2 = merge_next b h1 in
    let same2 : Same 0 b h h2 =
      Same-trans 0 b h h1 h2 (unmark-Same h b 0 b (inl (omega arith))) same in
    let (s', R', cons) = join-cons s R in
    let low : a < b = omega arith in
    let t3 : Tiles h2 prev a a ((t, u) ∷ (s', false) ∷ R') e = (
      (
        refl,
        same2.size a (omega arith) low ∙ q.1,
        same2.used a (omega arith) low ∙ q.2,
        same2.prev a (omega arith) low ∙ q.3,
      ),
      rw (same2.next a (omega arith) low, r.0.0) (rw cons at t2),
    ) in
    let (t4, same3) = merge_prev-join h2 prev a t e u R' s' pos hi t3 in
    let whole : Same 0 a h (freed b h) =
      Same-trans 0 a h h2 (freed b h) (Same-below 0 a b h h2 (omega arith) same2) same3 in
    elim (Bool-cases u) [
      | inl z ↦ (rw (q.0, z, cons) (rw z at t4), whole)
      | inr z ↦ (rw (q.0, z, cons) (rw z at t4), whole)
    ]

freed-later :
    (h : Heap) (prev p a s e : ℕ) (v : Bool) (c : Block) (L R : List Block)
    → 0 < a
    → e < 2 ^ 32
    → Tiles h prev p a ((c ∷ L) ++ (s, v) ∷ R) e
    → Tiles (freed (a + span (c ∷ L)) h) prev p a (release (c ∷ L) s R) e
      × Same 0 a h (freed (a + span (c ∷ L)) h)
unfolding span release
freed-later h prev p a s e v (t, u) [] R pos hi til =
    let here : a + (16 + t + 0) ≡ a + 16 + t = omega arith in
    rw here (freed-second h prev p a t s e u v R pos hi til)
freed-later h prev p a s e v (t, u) (d ∷ L) R pos hi (q, r) =
    let here : a + 16 + t + span (d ∷ L) ≡ a + (16 + t + span (d ∷ L)) = omega arith in
    let b = a + 16 + t in
    let h' = freed (b + span (d ∷ L)) h in
    let (r', same) = freed-later h a (h.next a) b s e v d L R (omega arith) hi r in
    let low : a < b = omega arith in
    subst
      (λ y. Tiles (freed y h) prev p a ((t, u) ∷ release (d ∷ L) s R) e × Same 0 a h (freed y h))
      here
      (
        Tiles-cons h h' prev p a t u e (release (d ∷ L) s R) q same r',
        Same-below 0 a b h h' (omega arith) same,
      )

freed-any :
    (h : Heap) (p a s e : ℕ) (v : Bool) (L R : List Block)
    → 0 < a
    → e < 2 ^ 32
    → Tiles h null p a (L ++ (s, v) ∷ R) e
    → Tiles (freed (a + span L) h) null p a (release L s R) e
unfolding span release
freed-any h p a s e v [] R pos hi t =
    let here : a ≡ a + 0 = omega arith in
    subst (λ y. Tiles (freed y h) null p a (join s R) e) here (freed-first h p a s e v R pos hi t)
freed-any h p a s e v (c ∷ L) R pos hi t = (freed-later h null p a s e v c L R pos hi t).0

-- the mark of a block in the midst of the list, and that its header lies below the end
pub Tiles-at :
    (h : Heap) (prev p a s e : ℕ) (u : Bool) (L R : List Block)
    → Tiles h prev p a (L ++ (s, u) ∷ R) e
    → (h.used (a + span L) ≡ u) × (a + span L + 16 + s ≤ e)
unfolding span
Tiles-at h prev p a s e u [] R (q, r) =
    let bound = Tiles-le h a (h.next a) (a + 16 + s) e R r in
    let here : a + 0 ≡ a = omega arith in (rw here (q.2), omega arith)
Tiles-at h prev p a s e u ((t, v) ∷ L) R (q, r) =
    let here : a + (16 + t + span L) ≡ a + 16 + t + span L = omega arith in
    rw here (Tiles-at h a (h.next a) (a + 16 + t) s e u L R r)

freed-globals :
    (blk : Ptr) (h : Heap) → ((freed blk h).head ≡ h.head) × ((freed blk h).heap_end ≡ h.heap_end)
freed-globals blk h =
    let h1 : Heap = record h { used = update h.used blk false } in
    let h2 = merge_next blk h1 in
    let (head, end) = merge_next-globals blk h1 in
    let (head', end') = merge_prev-globals blk h2 in (head' ∙ head, end' ∙ end)

-- `kmem_free` of a block in use never fails, and the block joins the free ones beside it.
pub kmem_free-release :
    (h : Heap) (p a s e : ℕ) (L R : List Block)
    → 0 < a
    → e < 2 ^ 32
    → Tiles h null p a (L ++ (s, true) ∷ R) e
    → (h' : Heap) × (kmem_free (a + span L + header_size) h ≡ some h')
      × Tiles h' null p a (release L s R) e
      × (h'.head ≡ h.head)
      × (h'.heap_end ≡ h.heap_end)
unfolding kmem_free release span
kmem_free-release h p a s e L R pos hi t =
    let (used, bound) = Tiles-at h null p a s e true L R t in
    let blk = a + span L in
    let here : sub32 (blk + header_size) header_size ≡ blk = omega arith in
    let test : (blk + header_size == null) ≡ false = ground arith in
    (
      freed blk h,
      rw (here, test, used) refl,
      freed-any h p a s e true L R pos hi t,
      (freed-globals blk h).0,
      (freed-globals blk h).1,
    )
