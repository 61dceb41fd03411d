-- ===== src/KernelHeap/Grow.antt =====
-- `kmem_heap_grow`: the new pages join a free last block, or become a block of their own.
use hekaos_series.Base.{
  ℕ, ◌+◌, ◌-◌, ◌^◌, ◌≤◌, ◌<◌, ◌≡◌, refl, sym, true, false, List, [], ◌∷◌, arith, ◌==◌, update,
}
use mathlib.Core.Path.{subst}
use hekaos_series.Word.{add32, sub32}
use hekaos_series.Tasks.{Ptr, null}
use hekaos_series.KernelHeap.{Heap, extend}
use hekaos_series.KernelHeap.Tiles.{Block, Tiles, Same, Tiles-cons, Same-below, last_at}

-- The list once `t` bytes are added behind it.
unfoldable pub grown : ℕ → List Block → List Block
grown t [] = (t - 16, false) ∷ []
grown t ((s, true) ∷ []) = (s, true) ∷ (t - 16, false) ∷ []
grown t ((s, false) ∷ []) = (s + t, false) ∷ []
grown t (b ∷ c ∷ bs) = b ∷ grown t (c ∷ bs)

extend-free :
    (h : Heap) (prev a s e t : ℕ)
    → 0 < a
    → e + t < 2 ^ 32
    → h.heap_end ≡ e
    → Tiles h prev a a ((s, false) ∷ []) e
    → Tiles (extend a t h) prev a a ((s + t, false) ∷ []) (e + t) × Same 0 a h (extend a t h)
unfolding extend
extend-free h prev a s e t pos hi end ((tp, ts, tu, tv), (z, at)) =
    let here : add32 (add32 a 16) s ≡ e = omega arith in
    let sum : add32 s t ≡ s + t = omega arith in
    let h' : Heap = record h { size = update h.size a (s + t) } in
    let same : extend a t h ≡ h' = rw (ts, tu, end, here, sum) (ground arith) in
    subst (λ h1. Tiles h1 prev a a ((s + t, false) ∷ []) (e + t) × Same 0 a h h1) (sym same)
      (
        ((refl, ground arith, tu, tv), (z, omega arith)),
        record {
          size = λ y l u. ground arith;
          used = λ y l u. refl;
          next = λ y l u. refl;
          prev = λ y l u. refl;
        },
      )

-- a new block at the end `e`, behind the one at `a`
abbrev appended : Ptr → ℕ → ℕ → Heap → Heap
appended a e n h = record h {
  size = update h.size e n;
  used = update h.used e false;
  next = update (update h.next e null) a e;
  prev = update h.prev e a;
}

extend-used :
    (h : Heap) (prev a s e t : ℕ)
    → 0 < a
    → 16 ≤ t
    → e + t < 2 ^ 32
    → h.heap_end ≡ e
    → Tiles h prev a a ((s, true) ∷ []) e
    → Tiles (extend a t h) prev a a ((s, true) ∷ (t - 16, false) ∷ []) (e + t)
      × Same 0 a h (extend a t h)
unfolding extend
extend-used h prev a s e t pos room hi end ((tp, ts, tu, tv), (z, at)) =
    let test : (a == null) ≡ false = ground arith in
    let part : sub32 t 16 ≡ t - 16 = omega arith in
    let h' = appended a e (t - 16) h in
    let same : extend a t h ≡ h' = rw (tu, end, part, test) refl in
    subst (λ h1. Tiles h1 prev a a ((s, true) ∷ (t - 16, false) ∷ []) (e + t) × Same 0 a h h1)
      (sym same)
      (
        (
          (refl, ground (arith, ts), ground (arith, tu), ground (arith, tv)),
          ((ground arith, ground arith, ground arith, ground arith), (ground arith, omega arith)),
        ),
        record {
          size = λ y l u. ground arith;
          used = λ y l u. ground arith;
          next = λ y l u. ground arith;
          prev = λ y l u. ground arith;
        },
      )

pub extend-grown :
    (h : Heap) (prev p a e t last : ℕ) (b : Block) (bs : List Block)
    → 0 < a
    → 16 ≤ t
    → e + t < 2 ^ 32
    → h.heap_end ≡ e
    → Tiles h prev p a (b ∷ bs) e
    → Tiles (extend (last_at last a (b ∷ bs)) t h) prev p a (grown t (b ∷ bs)) (e + t)
      × Same 0 a h (extend (last_at last a (b ∷ bs)) t h)
unfolding last_at grown
extend-grown h prev p a e t last (s, true) [] pos room hi end til =
    rw (til.0.0) (extend-used h prev a s e t pos room hi end (rw (til.0.0) at til))
extend-grown h prev p a e t last (s, false) [] pos room hi end til =
    rw (til.0.0) (extend-free h prev a s e t pos hi end (rw (til.0.0) at til))
extend-grown h prev p a e t last (s, u) (c ∷ bs) pos room hi end (q, r) =
    let z = last_at a (a + 16 + s) (c ∷ bs) in
    let (r', same) =
      extend-grown h a (h.next a) (a + 16 + s) e t a c bs (omega arith) room hi end r in
    (
      Tiles-cons h (extend z t h) prev p a s u (e + t) (grown t (c ∷ bs)) q same r',
      Same-below 0 a (a + 16 + s) h (extend z t h) (omega arith) same,
    )
