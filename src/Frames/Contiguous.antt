-- ===== src/Frames/Contiguous.antt =====
-- `phys_alloc_contiguous`: first fit for a run of frames.
use hekaos_series.Base.{
  ℕ, zero, suc, ◌+◌, ◌-◌, ◌*◌, ◌≤◌, ◌<◌, ◌≡◌, refl, ◌≢◌, ◌⊎◌, inl, inr, true, false, arith, leb,
  ◌==◌, if◌then◌else◌, Bool-cases,
}
use hekaos_series.Word.{add32, mul32}
use hekaos_series.Frames.{Bitmap, total_frames, bitmap_size, set_frames, find_run, alloc_contiguous}
use hekaos_series.Frames.View.{used, bitmap_test-used, used-set_frames, set_frames-outside, inside}

-- The `n` frames from `s` on are all free.
abbrev pub IsFreeRun : Bitmap → ℕ → ℕ → Type 0
IsFreeRun m n s = (g : ℕ) → s ≤ g → g < s + n → used m g ≡ false

-- No run of `n` free frames ends at or before `i`.
abbrev pub NoRunBefore : Bitmap → ℕ → ℕ → Type 0
NoRunBefore m n i = (s : ℕ) → s + n ≤ i → ¬ IsFreeRun m n s

-- What the search loop knows at frame `i`: the longest free run that ends there has `count` frames,
-- fewer than are wanted, and starts at `start`; no earlier run is long enough.
record Searching (m : Bitmap) (n i count start : ℕ) : Type 0 where
  short : count < n
  within : count ≤ i
  starts : 0 < count → start + count ≡ i
  free : (g : ℕ) → i ≤ g + count → g < i → used m g ≡ false
  longest : (g : ℕ) → g + count + 1 ≡ i → used m g ≡ true
  none_before : NoRunBefore m n i

-- A run of `n` free frames from `s` on, the first such run, is returned by its address; its frames
-- are marked used, no other frame changes, and no word outside of the bitmap.
pub record GrantedRun (m : Bitmap) (n s : ℕ) (out : ℕ × Bitmap) : Type 0 where
  pub managed : s + n ≤ total_frames
  pub run : IsFreeRun m n s
  pub first : (r : ℕ) → r < s → ¬ IsFreeRun m n r
  pub address : out.0 ≡ s * 4096
  pub marks : (g : ℕ) → used out.1 g ≡ (if inside n s g then true else used m g)
  pub outside : (k : ℕ) → bitmap_size ≤ k → out.1 k ≡ m k

pub record NoRun (m : Bitmap) (n : ℕ) (out : ℕ × Bitmap) : Type 0 where
  pub null : out.0 ≡ 0
  pub same : out.1 ≡ m
  pub nowhere : NoRunBefore m n total_frames

module _ {m : Bitmap} {n i count start : ℕ} (h : Searching m n i count start) where
  -- frame `i` is used: the run that ended there is given up
  Searching-restart : used m i ≡ true → Searching m n (i + 1) 0 start
  Searching-restart taken = record {
    short = omega (arith, h.short);
    within = omega arith;
    starts = λ p. absurd (omega arith);
    free = λ g lo hi. absurd (omega arith);
    longest = λ g e. let here : g ≡ i = omega arith in rw here taken;
    none_before = λ s fits run. elim (Bool-cases (leb (s + n) i)) [
      | inl earlier ↦ h.none_before s (ground arith) run
      | inr not_earlier ↦
          let clash : used m i ≡ false = run i (omega (arith, h.short)) (ground arith) in cc
    ];
  }

  -- frame `i` is free, and the run is still too short
  Searching-longer :
      used m i ≡ false
      → count + 1 ≢ n
      → Searching m n (i + 1) (count + 1) (if count == 0 then i else start)
  Searching-longer open_frame short = record {
    short = omega (arith, h.short);
    within = omega (arith, h.within);
    starts = λ p. ground (arith, h.starts);
    free = λ g lo hi. elim (Bool-cases (g == i)) [
      | inl here ↦ let e : g ≡ i = ground arith in rw e open_frame
      | inr other ↦ h.free g (omega arith) (ground arith)
    ];
    longest = λ g e. h.longest g (omega arith);
    none_before = λ s fits run. elim (Bool-cases (leb (s + n) i)) [
      | inl earlier ↦ h.none_before s (ground arith) run
      | inr not_earlier ↦
          let g : ℕ = i - count - 1 in
          let wide : count + 1 < n = omega (arith, h.short) in
          let ends : s + n ≡ i + 1 = ground arith in
          let edge : used m g ≡ true = h.longest g (omega arith) in
          let clash : used m g ≡ false = run g (omega arith) (omega arith) in cc
    ];
  }

  -- the start of the run that frame `i` belongs to
  run_start : (if count == 0 then i else start) + count ≡ i
  run_start = ground (arith, h.starts)

  found_run :
      used m i ≡ false
      → count + 1 ≡ n
      → i < total_frames
      → let first = if count == 0 then i else start in
        (first + n ≡ i + 1) × IsFreeRun m n first × ((r : ℕ) → r < first → ¬ IsFreeRun m n r)
  found_run open_frame full bound = (
    omega (arith, run_start),
    λ g lo hi. elim (Bool-cases (g == i)) [
      | inl here ↦ let e : g ≡ i = ground arith in rw e open_frame
      | inr other ↦
          let bound' : g ≢ i = ground arith in
          h.free g (omega (arith, run_start)) (omega (arith, run_start))
    ],
    λ r earlier. h.none_before r (omega (arith, run_start)),
  )

Outcome : Bitmap → ℕ → ℕ × Bitmap → Type 0
Outcome m n out = NoRun m n out ⊎ ((s : ℕ) × GrantedRun m n s out)

found_run-Granted :
    {m : Bitmap} {n : ℕ} (first : ℕ)
    → first + n ≤ total_frames
    → IsFreeRun m n first
    → ((r : ℕ) → r < first → ¬ IsFreeRun m n r)
    → GrantedRun m n first (mul32 first 4096, set_frames (add32 first n - first) first m)
found_run-Granted {m} {n} first fits run earlier =
    let length_eq : add32 first n - first ≡ n = omega arith in
    rw length_eq (record {
      managed = fits;
      run = run;
      first = earlier;
      address = omega arith;
      marks = λ g. used-set_frames n first g m;
      outside = λ k h. set_frames-outside n first k m fits h;
    })

find_run-Outcome :
    (n rounds i count start : ℕ) (m : Bitmap)
    → i + rounds ≡ total_frames
    → Searching m n i count start
    → Outcome m n (find_run n rounds i count start m)
unfolding find_run Outcome
find_run-Outcome n zero i count start m e h =
    let ends : i ≡ total_frames = omega arith in
    inl (record { null = refl; same = refl; nowhere = rw ends at h.none_before })
find_run-Outcome n (suc rounds) i count start m e h = elim (Bool-cases (used m i)) [
  | inl taken ↦
      rw (bitmap_test-used i m, taken)
        (find_run-Outcome n rounds (i + 1) 0 start m (omega arith) (Searching-restart h taken))
  | inr open_frame ↦ elim (Bool-cases (count + 1 == n)) [
    | inl full ↦
        let first = if count == 0 then i else start in
        let (ends, run, earlier) = found_run h open_frame (ground arith) (omega arith) in
        rw (bitmap_test-used i m, open_frame, full)
          (inr (first, found_run-Granted first (omega arith) run earlier))
    | inr short ↦
        rw (bitmap_test-used i m, open_frame, short)
          (find_run-Outcome n rounds (i + 1) (count + 1) _ m (omega arith)
            (Searching-longer h open_frame (ground arith)))
  ]
]

Searching-start : (m : Bitmap) (n : ℕ) → 0 < n → Searching m n 0 0 0
Searching-start m n h = record {
  short = h;
  within = omega arith;
  starts = λ p. absurd (omega arith);
  free = λ g lo hi. absurd (omega arith);
  longest = λ g e. absurd (omega arith);
  none_before = λ s fits. absurd (omega arith);
}

-- `phys_alloc_contiguous (n)` for `n` above 0 returns null and changes nothing if no run of `n`
-- free frames exists; otherwise it returns the address of the first such run, marks its frames used
-- and no other, and writes no word outside of the bitmap.
pub alloc_contiguous-first_fit :
    (n : ℕ) (m : Bitmap)
    → 0 < n
    → NoRun m n (alloc_contiguous n m) ⊎ ((s : ℕ) × GrantedRun m n s (alloc_contiguous n m))
unfolding alloc_contiguous Outcome
alloc_contiguous-first_fit n m h =
    let nonzero : (n == 0) ≡ false = ground arith in
    rw nonzero (find_run-Outcome n total_frames 0 0 0 m (omega arith) (Searching-start m n h))
