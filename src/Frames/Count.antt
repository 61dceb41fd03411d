-- ===== src/Frames/Count.antt =====
-- `phys_free_count`, and how each allocation and release moves it.
use hekaos_series.Base.{
  ℕ, zero, suc, ◌+◌, ◌-◌, ◌≤◌, ◌<◌, max, ◌≡◌, refl, sym, ap, ◌∙◌, ◌⊎◌, inl, inr, Bool, true, false,
  arith, ltb, ◌==◌, if◌then◌else◌, Bool-cases,
}
use hekaos_series.Frames.{
  Bitmap, total_frames, region_frames, bitmap_set, set_frames, count_free, free_count, mem_init,
  alloc_frame, alloc_contiguous,
}
use hekaos_series.Frames.View.{used, bitmap_test-used, used-bitmap_set, used-set_frames}
use hekaos_series.Frames.Alloc.{alloc_frame-first_fit}
use hekaos_series.Frames.Contiguous.{alloc_contiguous-first_fit, IsFreeRun}
use hekaos_series.Frames.History.{used-mem_init}

-- The number of free frames among the `n` from `i` on, for a bitmap seen as a set of used frames.
pub tally : ℕ → ℕ → (ℕ → Bool) → ℕ
tally zero i u = 0
tally (suc n) i u = (if u i then 0 else 1) + tally n (i + 1) u

count_free-tally :
    (n i count : ℕ) (m : Bitmap) → count_free n i count m ≡ count + tally n i (used m)
unfolding count_free tally
count_free-tally zero i count m = omega arith
count_free-tally (suc n) i count m = ground (
  arith,
  bitmap_test-used i m,
  count_free-tally n (i + 1) (if used m i then count else count + 1) m,
)

pub free_count-tally : (m : Bitmap) → free_count m ≡ tally total_frames 0 (used m)
unfolding free_count
free_count-tally m = omega (arith, count_free-tally total_frames 0 0 m)

module _ (u v : ℕ → Bool) where
  tally-same : (n i : ℕ) → ((g : ℕ) → i ≤ g → g < i + n → u g ≡ v g) → tally n i u ≡ tally n i v
  unfolding tally
  tally-same zero i same = refl
  tally-same (suc n) i same =
      let rest : tally n (i + 1) u ≡ tally n (i + 1) v =
        tally-same n (i + 1) (λ g lo hi. same g (omega arith) (omega arith)) in
      ground (arith, same i (omega arith) (omega arith), rest)

  -- Turning the free frame `f` of `v` used takes one away.
  tally-mark :
      (n i f : ℕ)
      → i ≤ f
      → f < i + n
      → v f ≡ false
      → ((g : ℕ) → u g ≡ (if f == g then true else v g))
      → tally n i u + 1 ≡ tally n i v
  unfolding tally
  tally-mark zero i f lo hi open_frame marks = absurd (omega arith)
  tally-mark (suc n) i f lo hi open_frame marks = elim (Bool-cases (f == i)) [
    | inl here ↦
        let rest : tally n (i + 1) u ≡ tally n (i + 1) v =
          tally-same n (i + 1) (λ g p q. ground (arith, marks g)) in
        let e : f ≡ i = ground arith in
        let was : v i ≡ false = rw (← e) open_frame in ground (arith, marks i, rest)
    | inr later ↦
        let rest : tally n (i + 1) u + 1 ≡ tally n (i + 1) v =
          tally-mark n (i + 1) f (ground arith) (omega arith) open_frame marks in
        ground (arith, marks i, rest)
  ]

-- Marking the free run of `n` frames from `s` on takes `n` away.
tally-set_frames :
    (n s : ℕ) (m : Bitmap)
    → s + n ≤ total_frames
    → IsFreeRun m n s
    → tally total_frames 0 (used (set_frames n s m)) + n ≡ tally total_frames 0 (used m)
unfolding set_frames
tally-set_frames zero s m fits run = omega arith
tally-set_frames (suc n) s m fits run =
    let rest =
      tally-set_frames n (s + 1) (bitmap_set s m) (omega arith)
        (λ g lo hi. ground (arith, used-bitmap_set s g m, run g)) in
    let one =
      tally-mark (used (bitmap_set s m)) (used m) total_frames 0 s (omega arith) (omega arith)
        (run s (omega arith) (omega arith)) (λ g. used-bitmap_set s g m) in
    omega (arith, rest, one)

tally_full : (n i : ℕ) (u : ℕ → Bool) → ((g : ℕ) → i ≤ g → g < i + n → u g ≡ true) → tally n i u ≡ 0
unfolding tally
tally_full zero i u full = refl
tally_full (suc n) i u full =
    let rest : tally n (i + 1) u ≡ 0 =
      tally_full n (i + 1) u (λ g lo hi. full g (omega arith) (omega arith)) in
    ground (arith, full i (omega arith) (omega arith), rest)

-- `phys_alloc_frame` lowers `phys_free_count` by one, unless that count is 0 already: then, and only
-- then, it changes nothing and fails.
pub free_count-alloc_frame :
    (m : Bitmap)
    → ((free_count m ≡ 0) × (alloc_frame m ≡ (0, m)))
      ⊎ (free_count (alloc_frame m).1 + 1 ≡ free_count m)
free_count-alloc_frame m = elim (alloc_frame-first_fit m) [
  | inl e ↦ inl (
    free_count-tally m ∙ tally_full total_frames 0 (used m) (λ g lo hi. e.full g (omega arith)),
    λ i. (e.null i, e.same i),
  )
  | inr (f, granted) ↦
      let one =
        tally-mark (used (alloc_frame m).1) (used m) total_frames 0 f (omega arith)
          (omega (arith, granted.managed)) granted.first.free granted.marks in
      inr (omega (arith, one, free_count-tally m, free_count-tally (alloc_frame m).1))
]

-- `phys_alloc_contiguous (n)` for `n` above 0 lowers `phys_free_count` by exactly `n` if it returns
-- a run, and by nothing if it fails.
pub free_count-alloc_contiguous :
    (n : ℕ) (m : Bitmap)
    → 0 < n
    → let (addr, m') = alloc_contiguous n m in
      ((addr ≡ 0) × (free_count m' ≡ free_count m)) ⊎ (free_count m' + n ≡ free_count m)
free_count-alloc_contiguous n m h = elim (alloc_contiguous-first_fit n m h) [
  | inl e ↦ inl (e.null, ap free_count e.same)
  | inr (s, granted) ↦
      let out = (alloc_contiguous n m).1 in
      let same =
        tally-same (used out) (used (set_frames n s m)) total_frames 0
          (λ g lo hi. granted.marks g ∙ sym (used-set_frames n s g m)) in
      let taken = tally-set_frames n s m granted.managed granted.run in
      inr (omega (arith, same, taken, free_count-tally m, free_count-tally out))
]

-- `tally` at `phys_mem_init`: the frames from `reserved` on.
pub tally_init :
    (n i b : ℕ) (u : ℕ → Bool)
    → ((g : ℕ) → i ≤ g → g < i + n → u g ≡ ltb g b)
    → tally n i u ≡ (i + n) - max i b
unfolding tally
tally_init zero i b u e = omega arith
tally_init (suc n) i b u e =
    let rest : tally n (i + 1) u ≡ (i + 1 + n) - max (i + 1) b =
      tally_init n (i + 1) b u (λ g lo hi. e g (omega arith) (omega arith)) in
    ground (arith, e i (omega arith) (omega arith), rest)

-- After `phys_mem_init` all 15360 frames of the managed region are free, whatever the bitmap held.
pub free_count-mem_init : (m : Bitmap) → free_count (mem_init m) ≡ region_frames
free_count-mem_init m =
    free_count-tally (mem_init m)
    ∙ tally_init total_frames 0 1024 (used (mem_init m))
        (λ g lo hi. used-mem_init g m (omega arith))
