-- ===== src/KernelHeap/Tiles.antt =====
-- The blocks of the heap as a list of sizes and marks, laid out one behind the other.
use hekaos_series.Base.{
  ℕ, zero, suc, ◌+◌, ◌≤◌, ◌<◌, ◌≡◌, refl, ◌∙◌, Bool, not, ◌&&◌, some, List, [], ◌∷◌, arith, leb,
  if◌then◌else◌, length,
}
use hekaos_series.Tasks.{Ptr, null}
use hekaos_series.KernelHeap.{Heap, find_fit, find_last}

-- size, and whether it is in use
abbrev pub Block : Type 0
Block = ℕ × Bool

-- From `p` the list leads through `bs`, whose headers lie at `a` and on without a gap, up to `e`; the
-- block before the first is `prev`.
abbrev pub Tiles : Heap → Ptr → Ptr → ℕ → List Block → ℕ → Type 0
Tiles h prev p a [] e = (p ≡ null) × (a ≡ e)
Tiles h prev p a ((s, u) ∷ bs) e =
    ((p ≡ a) × (h.size a ≡ s) × (h.used a ≡ u) × (h.prev a ≡ prev))
    × Tiles h a (h.next a) (a + 16 + s) bs e

-- The headers at addresses from `lo` up to `hi` are the same.
pub record Same (lo hi : ℕ) (h h' : Heap) : Type 0 where
  pub size : (y : ℕ) → lo ≤ y → y < hi → h'.size y ≡ h.size y
  pub used : (y : ℕ) → lo ≤ y → y < hi → h'.used y ≡ h.used y
  pub next : (y : ℕ) → lo ≤ y → y < hi → h'.next y ≡ h.next y
  pub prev : (y : ℕ) → lo ≤ y → y < hi → h'.prev y ≡ h.prev y

pub Same-refl : (lo hi : ℕ) (h : Heap) → Same lo hi h h
Same-refl lo hi h = record {
  size = λ y l u. refl;
  used = λ y l u. refl;
  next = λ y l u. refl;
  prev = λ y l u. refl;
}

pub Same-trans :
    (lo hi : ℕ) (h1 h2 h3 : Heap) → Same lo hi h1 h2 → Same lo hi h2 h3 → Same lo hi h1 h3
Same-trans lo hi h1 h2 h3 p q = record {
  size = λ y l u. q.size y l u ∙ p.size y l u;
  used = λ y l u. q.used y l u ∙ p.used y l u;
  next = λ y l u. q.next y l u ∙ p.next y l u;
  prev = λ y l u. q.prev y l u ∙ p.prev y l u;
}

-- Fewer headers stay the same as well.
pub Same-below : (lo hi hi' : ℕ) (h1 h2 : Heap) → hi ≤ hi' → Same lo hi' h1 h2 → Same lo hi h1 h2
Same-below lo hi hi' h1 h2 le p = record {
  size = λ y l u. p.size y l (omega arith);
  used = λ y l u. p.used y l (omega arith);
  next = λ y l u. p.next y l (omega arith);
  prev = λ y l u. p.prev y l (omega arith);
}

pub Tiles-le : (h : Heap) (prev p a e : ℕ) (bs : List Block) → Tiles h prev p a bs e → a ≤ e
Tiles-le h prev p a e [] t = omega (arith, t.1)
Tiles-le h prev p a e ((s, u) ∷ bs) t = omega (arith, Tiles-le h a (h.next a) (a + 16 + s) e bs t.1)

pub Tiles-Same :
    (h h' : Heap) (prev p a e lo : ℕ) (bs : List Block)
    → lo ≤ a
    → Same lo e h h'
    → Tiles h prev p a bs e
    → Tiles h' prev p a bs e
Tiles-Same h h' prev p a e lo [] le same t = t
Tiles-Same h h' prev p a e lo ((s, u) ∷ bs) le same ((ep, es, eu, eq), t) =
    let bound : a < e = omega (arith, Tiles-le h a (h.next a) (a + 16 + s) e bs t) in
    let rest = Tiles-Same h h' a (h.next a) (a + 16 + s) e lo bs (omega arith) same t in
    (
      (ep, same.size a le bound ∙ es, same.used a le bound ∙ eu, same.prev a le bound ∙ eq),
      rw (same.next a le bound) rest,
    )

-- A block in front of a chain, when its header and those before it stay the same.
pub Tiles-cons :
    (h h' : Heap) (prev p a t : ℕ) (u : Bool) (e : ℕ) (bs : List Block)
    → ((p ≡ a) × (h.size a ≡ t) × (h.used a ≡ u) × (h.prev a ≡ prev))
    → Same 0 (a + 16 + t) h h'
    → Tiles h' a (h.next a) (a + 16 + t) bs e
    → Tiles h' prev p a ((t, u) ∷ bs) e
Tiles-cons h h' prev p a t u e bs (qp, qs, qu, qv) same r =
    let low : a < a + 16 + t = omega arith in
    (
      (
        qp,
        same.size a (omega arith) low ∙ qs,
        same.used a (omega arith) low ∙ qu,
        same.prev a (omega arith) low ∙ qv,
      ),
      rw (same.next a (omega arith) low) r,
    )

-- the address of the first free block of at least `n` bytes; null if there is none
unfoldable pub fit_at : ℕ → ℕ → List Block → ℕ
fit_at n a [] = null
fit_at n a ((s, u) ∷ bs) = if not u && leb n s then a else fit_at n (a + 16 + s) bs

pub find_fit-fit_at :
    (fuel n : ℕ) (h : Heap) (prev p a e : ℕ) (bs : List Block)
    → 0 < a
    → length bs < fuel
    → Tiles h prev p a bs e
    → find_fit fuel n p h ≡ some (fit_at n a bs)
unfolding find_fit fit_at
find_fit-fit_at zero n h prev p a e bs pos enough t = absurd (omega arith)
find_fit-fit_at (suc f) n h prev p a e [] pos enough t = ground (arith, t.0)
find_fit-fit_at (suc f) n h prev p a e ((s, u) ∷ bs) pos enough ((ep, es, eu, eq), t) =
    let rest = find_fit-fit_at f n h a (h.next a) (a + 16 + s) e bs (omega arith) (omega arith) t in
    rw ep (ground (arith, rest))

-- the address of the last block; `last` if there is none
unfoldable pub last_at : ℕ → ℕ → List Block → ℕ
last_at last a [] = last
last_at last a ((s, u) ∷ bs) = last_at a (a + 16 + s) bs

pub find_last-last_at :
    (fuel : ℕ) (h : Heap) (prev p a e last : ℕ) (bs : List Block)
    → 0 < a
    → length bs < fuel
    → Tiles h prev p a bs e
    → find_last fuel last p h ≡ some (last_at last a bs)
unfolding find_last last_at
find_last-last_at zero h prev p a e last bs pos enough t = absurd (omega arith)
find_last-last_at (suc f) h prev p a e last [] pos enough t = ground (arith, t.0)
find_last-last_at (suc f) h prev p a e last ((s, u) ∷ bs) pos enough ((ep, es, eu, eq), t) =
    let rest =
      find_last-last_at f h a (h.next a) (a + 16 + s) e a bs (omega arith) (omega arith) t in
    rw ep (ground (arith, rest))
