-- ===== src/KernelHeap/Lists.antt =====
-- The list of blocks on its own: what an allocation, a release and a growth keep of it.
use hekaos_series.Base.{
  ℕ, ◌+◌, ◌-◌, ◌%◌, ◌≤◌, ◌<◌, ◌≡◌, refl, ap, ◌∙◌, inl, inr, Bool, true, false, not, ◌&&◌, ◌||◌,
  List, [], ◌∷◌, ◌++◌, arith, leb, ◌==◌, if◌then◌else◌, Bool-cases,
}
use hekaos_series.KernelHeap.Tiles.{Block, fit_at}
use hekaos_series.KernelHeap.Allocate.{cut, allocate}
use hekaos_series.KernelHeap.Release.{join, release, span}

-- No two free blocks are neighbours, the block in front being in use or not as `p` tells.
unfoldable pub spaced : Bool → List Block → Bool
spaced p [] = true
spaced p ((s, u) ∷ bs) = (p || u) && spaced u bs

abbrev pub coalesced : List Block → Bool
coalesced bs = spaced true bs

-- Every size is a multiple of 8.
unfoldable pub aligned : List Block → Bool
aligned [] = true
aligned ((s, u) ∷ bs) = s % 8 == 0 && aligned bs

-- Where the block of `n` bytes is that `allocate` takes: what lies before it, its size, and what
-- lies behind it.
unfoldable pub taken : ℕ → List Block → List Block × ℕ × List Block
taken n [] = ([], 0, [])
taken n ((s, u) ∷ bs) =
    let (L, k, R) = taken n bs in
    if not u && leb n s
    then (if leb (n + 24) s then ([], n, (s - n - 16, false) ∷ bs) else ([], s, bs))
    else ((s, u) ∷ L, k, R)

pub allocate-taken :
    (n a : ℕ) (bs : List Block)
    → 0 < fit_at n a bs
    → (allocate n bs ≡ (taken n bs).0 ++ ((taken n bs).1, true) ∷ (taken n bs).2)
      × (fit_at n a bs ≡ a + span (taken n bs).0)
      × (n ≤ (taken n bs).1)
      × ((taken n bs).1 < n + 24)
unfolding allocate cut fit_at taken span
allocate-taken n a [] found = absurd (omega arith)
allocate-taken n a ((s, u) ∷ bs) found = elim (Bool-cases (not u && leb n s)) [
  | inl z ↦ elim (Bool-cases (leb (n + 24) s)) [
    | inl w ↦ rw (z, w) (refl, omega arith, omega arith, omega arith)
    | inr w ↦ rw (z, w) (refl, omega arith, ground (arith, z), ground (arith, w))
  ]
  | inr z ↦
      let (eq, at, low, high) = allocate-taken n (a + 16 + s) bs (rw z at found) in
      rw (z, eq, at) (refl, omega arith, low, high)
]

pub spaced_used : (p : Bool) (bs : List Block) → spaced p bs ≡ true → spaced true bs ≡ true
unfolding spaced
spaced_used p [] c = refl
spaced_used p ((s, u) ∷ bs) c = ground (arith, c)

pub spaced_tail :
    (p u : Bool) (s : ℕ) (bs : List Block) → spaced p ((s, u) ∷ bs) ≡ true → spaced u bs ≡ true
unfolding spaced
spaced_tail p u s bs c = ground (arith, c)

join_apart : (s : ℕ) (bs : List Block) → spaced false bs ≡ true → join s bs ≡ (s, false) ∷ bs
unfolding spaced join
join_apart s [] c = refl
join_apart s ((t, true) ∷ bs) c = refl
join_apart s ((t, false) ∷ bs) c = absurd (ground (arith, c))

release-cons :
    (s k : ℕ) (u : Bool) (L R bs : List Block)
    → release L k R ≡ bs
    → spaced u bs ≡ true
    → release ((s, u) ∷ L) k R ≡ (s, u) ∷ bs
unfolding release
release-cons s k true [] R bs same c = ap (λ l. (s, true) ∷ l) same
release-cons s k false [] R bs same c = ap (join s) same ∙ join_apart s bs c
release-cons s k u (d ∷ L) R bs same c = ap (λ l. (s, u) ∷ l) same

-- The release of the block that was taken gives the list back.
pub release-allocate :
    (n a : ℕ) (p : Bool) (bs : List Block)
    → 0 < fit_at n a bs
    → spaced p bs ≡ true
    → release (taken n bs).0 (taken n bs).1 (taken n bs).2 ≡ bs
unfolding fit_at taken release join
release-allocate n a p [] found c = absurd (omega arith)
release-allocate n a p ((s, u) ∷ bs) found c =
    let next = spaced_tail p u s bs c in
    elim (Bool-cases (not u && leb n s)) [
      | inl z ↦
          let free : u ≡ false = ground (arith, z) in
          elim (Bool-cases (leb (n + 24) s)) [
            | inl w ↦ rw (z, w, free) (ap (λ k. (k, false) ∷ bs) (ground (arith, w)))
            | inr w ↦ rw (z, w, free) (join_apart s bs (rw free at next))
          ]
      | inr z ↦ rw z (
          release-cons s (taken n bs).1 u (taken n bs).0 (taken n bs).2 bs
            (release-allocate n (a + 16 + s) u bs (rw z at found) next) next)
    ]

pub allocate-spaced :
    (n : ℕ) (p : Bool) (bs : List Block) → spaced p bs ≡ true → spaced p (allocate n bs) ≡ true
unfolding allocate cut spaced
allocate-spaced n p [] c = refl
allocate-spaced n p ((s, u) ∷ bs) c = ground (arith, c, allocate-spaced n u bs, spaced_used u bs)

join-spaced : (s : ℕ) (bs : List Block) → spaced true bs ≡ true → spaced true (join s bs) ≡ true
unfolding join spaced
join-spaced s [] c = refl
join-spaced s ((t, true) ∷ bs) c = c
join-spaced s ((t, false) ∷ bs) c = c

pub release-spaced :
    (c : Block) (L : List Block) (p : Bool) (s : ℕ) (R : List Block)
    → spaced p ((c ∷ L) ++ (s, true) ∷ R) ≡ true
    → spaced p (release (c ∷ L) s R) ≡ true
unfolding release spaced
release-spaced (t, true) [] p s R sp = ground (arith, sp, join-spaced s R)
release-spaced (t, false) [] true s R sp = join-spaced t (join s R) (join-spaced s R sp)
release-spaced (t, false) [] false s R sp = absurd (ground (arith, sp))
release-spaced (t, u) (d ∷ L) p s R sp = ground (arith, sp, release-spaced d L u s R)

pub release-coalesced :
    (L : List Block) (s : ℕ) (R : List Block)
    → coalesced (L ++ (s, true) ∷ R) ≡ true
    → coalesced (release L s R) ≡ true
unfolding release spaced
release-coalesced [] s R sp = join-spaced s R sp
release-coalesced (c ∷ L) s R sp = release-spaced c L true s R sp

pub allocate-aligned :
    (n : ℕ) (bs : List Block) → n % 8 ≡ 0 → aligned bs ≡ true → aligned (allocate n bs) ≡ true
unfolding allocate cut aligned
allocate-aligned n [] m c = refl
allocate-aligned n ((s, u) ∷ bs) m c = ground (arith, allocate-aligned n bs m)

pub release-aligned :
    (L : List Block) (s : ℕ) (u : Bool) (R : List Block)
    → aligned (L ++ (s, u) ∷ R) ≡ true
    → aligned (release L s R) ≡ true
unfolding release join aligned
release-aligned [] s u [] al = ground (arith, al)
release-aligned [] s u ((t, true) ∷ R) al = ground (arith, al)
release-aligned [] s u ((t, false) ∷ R) al = ground (arith, al)
release-aligned ((r, true) ∷ []) s u R al = ground (arith, al, release-aligned [] s u R)
release-aligned ((r, false) ∷ []) s u [] al = ground (arith, al)
release-aligned ((r, false) ∷ []) s u ((t, true) ∷ R) al = ground (arith, al)
release-aligned ((r, false) ∷ []) s u ((t, false) ∷ R) al = ground (arith, al)
release-aligned ((r, w) ∷ c ∷ L) s u R al = ground (arith, al, release-aligned (c ∷ L) s u R)
