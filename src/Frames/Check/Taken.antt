-- ===== src/Frames/Check/Taken.antt =====
-- Bitmaps whose used frames are known, and what the allocator does to them.
use hekaos_series.Base.{
  ℕ, ◌+◌, ◌-◌, ◌*◌, ◌/◌, ◌≤◌, ◌<◌, ◌≡◌, inl, inr, false, arith, ltb, ◌==◌, Bool-cases,
}
use hekaos_series.Frames.{
  Bitmap, total_frames, mem_init, alloc_frame, free_frame, alloc_contiguous, free_contiguous,
  free_count,
}
use hekaos_series.Frames.View.{used}
use hekaos_series.Frames.Alloc.{alloc_frame-first_fit}
use hekaos_series.Frames.Free.{is_managed, free_frame-used}
use hekaos_series.Frames.Contiguous.{GrantedRun, alloc_contiguous-first_fit}
use hekaos_series.Frames.Release.{is_managed_run, free_contiguous-used}
use hekaos_series.Frames.History.{used-mem_init}
use hekaos_series.Frames.Count.{free_count-tally, tally_init}

-- The reserved frames and the `k` that follow are used, the others free.
pub record Taken (k : ℕ) (m : Bitmap) : Type 0 where
  pub used_below : (f : ℕ) → f < total_frames → used m f ≡ ltb f (1024 + k)

pub free_count-Taken : (k : ℕ) (m : Bitmap) → Taken k m → free_count m ≡ 15360 - k
free_count-Taken k m t =
    let counted =
      tally_init total_frames 0 (1024 + k) (used m) (λ g lo hi. t.used_below g (omega arith)) in
    omega (arith, free_count-tally m, counted)

pub mem_init-Taken : (m : Bitmap) → Taken 0 (mem_init m)
mem_init-Taken m = record { used_below = λ f h. used-mem_init f m h }

pub alloc_frame-Taken :
    (k : ℕ) (m : Bitmap)
    → k < 15360
    → Taken k m
    → ((alloc_frame m).0 ≡ (1024 + k) * 4096) × Taken (k + 1) (alloc_frame m).1
alloc_frame-Taken k m h t = elim (alloc_frame-first_fit m) [
  | inl e ↦
      let full = e.full (1024 + k) (omega arith) in
      let open_frame = t.used_below (1024 + k) (omega arith) in
      absurd (ground (arith, full, open_frame))
  | inr (f, granted) ↦
      let bound = granted.managed in
      let above : 1024 + k ≤ f = ground (arith, granted.first.free, t.used_below f bound) in
      let exact : f ≡ 1024 + k = elim (Bool-cases (f == 1024 + k)) [
        | inl same ↦ ground arith
        | inr other ↦
            let below : 1024 + k < f = ground arith in
            let earlier = granted.first.before (1024 + k) (omega arith) below in
            absurd (ground (arith, earlier, t.used_below (1024 + k) (omega arith)))
      ] in
      (
        omega (arith, granted.address, exact),
        record { used_below = λ g hg. ground (arith, granted.marks g, t.used_below g hg, exact) },
      )
]

pub alloc_frame-Taken_all :
    (m : Bitmap) → Taken 15360 m → ((alloc_frame m).0 ≡ 0) × Taken 15360 (alloc_frame m).1
alloc_frame-Taken_all m t = elim (alloc_frame-first_fit m) [
  | inl e ↦ (e.null, rw (e.same) t)
  | inr (f, granted) ↦
      absurd (ground (arith, granted.first.free, t.used_below f granted.managed, granted.managed))
]

pub free_frame-Taken :
    (k : ℕ) (m : Bitmap) → k < 15360 → Taken (k + 1) m → Taken k (free_frame ((1024 + k) * 4096) m)
free_frame-Taken k m h t = record {
  used_below =
      λ f hf. ground (arith, (free_frame-used ((1024 + k) * 4096) f 0 m).0, t.used_below f hf);
}

pub free_frame-ignored :
    (addr k : ℕ) (m : Bitmap) → is_managed addr ≡ false → Taken k m → Taken k (free_frame addr m)
free_frame-ignored addr k m out t = record {
  used_below = λ f hf. ground (arith, (free_frame-used addr f 0 m).0, t.used_below f hf);
}

-- The run that is found starts where the free frames start.
first_run :
    (k n s : ℕ) (m : Bitmap) {out : ℕ × Bitmap}
    → 0 < n
    → k + n ≤ 15360
    → Taken k m
    → GrantedRun m n s out
    → s ≡ 1024 + k
first_run k n s m pos fits t granted =
    let open_frame = granted.run s (omega arith) (omega arith) in
    let bound : s < total_frames = omega (arith, granted.managed) in
    let above : 1024 + k ≤ s = ground (arith, open_frame, t.used_below s bound) in
    elim (Bool-cases (s == 1024 + k)) [
      | inl same ↦ ground arith
      | inr other ↦
          let later : 1024 + k < s = ground arith in
          absurd (
            granted.first (1024 + k) later
              (λ g lo hi. ground (arith, t.used_below g (omega arith))))
    ]

pub alloc_contiguous-Taken :
    (k n : ℕ) (m : Bitmap)
    → 0 < n
    → k + n ≤ 15360
    → Taken k m
    → ((alloc_contiguous n m).0 ≡ (1024 + k) * 4096) × Taken (k + n) (alloc_contiguous n m).1
alloc_contiguous-Taken k n m pos fits t = elim (alloc_contiguous-first_fit n m pos) [
  | inl e ↦
      absurd (
        e.nowhere (1024 + k) (omega arith)
          (λ g lo hi. ground (arith, t.used_below g (omega arith))))
  | inr (s, granted) ↦
      let exact : s ≡ 1024 + k = first_run k n s m pos fits t granted in
      (
        omega (arith, granted.address, exact),
        record { used_below = λ g hg. ground (arith, granted.marks g, t.used_below g hg, exact) },
      )
]

pub free_contiguous-Taken :
    (k n : ℕ) (m : Bitmap)
    → 0 < n
    → k + n ≤ 15360
    → Taken (k + n) m
    → Taken k (free_contiguous ((1024 + k) * 4096) n m)
free_contiguous-Taken k n m pos fits t = record {
  used_below = λ f hf. ground (
    arith,
    (free_contiguous-used ((1024 + k) * 4096) n f 0 m (omega arith)).0,
    t.used_below f hf,
  );
}

pub free_contiguous-ignored :
    (addr n k : ℕ) (m : Bitmap)
    → addr / 4096 ≤ total_frames
    → is_managed_run addr n ≡ false
    → Taken k m
    → Taken k (free_contiguous addr n m)
free_contiguous-ignored addr n k m h out t = record {
  used_below = λ f hf. ground (arith, (free_contiguous-used addr n f 0 m h).0, t.used_below f hf);
}

pub alloc_contiguous-too_many :
    (n k : ℕ) (m : Bitmap)
    → total_frames < n
    → Taken k m
    → ((alloc_contiguous n m).0 ≡ 0) × Taken k (alloc_contiguous n m).1
alloc_contiguous-too_many n k m h t = elim (alloc_contiguous-first_fit n m (omega arith)) [
  | inl e ↦ (e.null, rw (e.same) t)
  | inr (s, granted) ↦ absurd (omega (arith, granted.managed))
]
