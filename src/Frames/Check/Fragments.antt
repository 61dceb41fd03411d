-- ===== src/Frames/Check/Fragments.antt =====
-- The block of `phys_mem_test` in which a used frame breaks a run.
use hekaos_series.Base.{
  ℕ, ◌+◌, ◌*◌, ◌≤◌, ◌<◌, ◌≡◌, refl, inl, inr, false, not, ◌&&◌, some, arith, ltb, ◌==◌, Bool-cases,
}
use hekaos_series.Word.{sub32}
use hekaos_series.Frames.{
  Bitmap, total_frames, bitmap_test, alloc_frame, free_frame, alloc_contiguous, free_contiguous,
  free_count,
}
use hekaos_series.Frames.View.{used, bitmap_test-used}
use hekaos_series.Frames.Free.{free_frame-used}
use hekaos_series.Frames.Contiguous.{GrantedRun, alloc_contiguous-first_fit}
use hekaos_series.Frames.Release.{free_contiguous-used}
use hekaos_series.Frames.Count.{free_count-alloc_contiguous}
use hekaos_series.Frames.Check.{check_fragments}
use hekaos_series.Frames.Check.Taken.{Taken, alloc_frame-Taken}

-- Frames 1024 and 1026 are used, 1025 and those from 1027 on are free.
Holed : Bitmap → Type 0
Holed m = (f : ℕ) → f < total_frames → used m f ≡ (ltb f 1027 && not (f == 1025))

free_frame-Holed : (m : Bitmap) → Taken 3 m → Holed (free_frame (1025 * 4096) m)
unfolding Holed
free_frame-Holed m t f hf =
    ground (arith, (free_frame-used (1025 * 4096) f 0 m).0, t.used_below f hf)

run_behind_hole :
    (m : Bitmap) (s : ℕ) {out : ℕ × Bitmap} → Holed m → GrantedRun m 2 s out → s ≡ 1027
unfolding Holed
run_behind_hole m s h granted =
    let one = granted.run s (omega arith) (omega arith) in
    let two = granted.run (s + 1) (omega arith) (omega arith) in
    let bound = granted.managed in
    let above : 1027 ≤ s = ground (arith, one, two, h s (omega arith), h (s + 1) (omega arith)) in
    elim (Bool-cases (s == 1027)) [
      | inl same ↦ ground arith
      | inr other ↦
          let later : 1027 < s = ground arith in
          absurd (granted.first 1027 later (λ g lo hi. ground (arith, h g (omega arith))))
    ]

-- The run of two is found behind the hole.
alloc_contiguous-Holed :
    (m : Bitmap)
    → Holed m
    → ((alloc_contiguous 2 m).0 ≡ 1027 * 4096)
      × ((f : ℕ)
          → f < total_frames
          → used (alloc_contiguous 2 m).1 f ≡ (ltb f 1029 && not (f == 1025)))
unfolding Holed
alloc_contiguous-Holed m h = elim (alloc_contiguous-first_fit 2 m (omega arith)) [
  | inl e ↦ absurd (e.nowhere 1027 (omega arith) (λ g lo hi. ground (arith, h g (omega arith))))
  | inr (s, granted) ↦
      let exact = run_behind_hole m s h granted in
      (
        omega (arith, granted.address, exact),
        λ f hf. ground (arith, granted.marks f, h f hf, exact),
      )
]

-- Two frames fewer are free.
count_taken :
    (m : Bitmap) → Holed m → sub32 (free_count m) (free_count (alloc_contiguous 2 m).1) ≡ 2
count_taken m h =
    let (addr, _) = alloc_contiguous-Holed m h in
    elim (free_count-alloc_contiguous 2 m (omega arith)) [
      | inl e ↦ absurd (omega (arith, e.0, addr))
      | inr e ↦ omega (arith, e)
    ]

-- The three releases at the end of the block restore the bitmap.
restored :
    (m : Bitmap)
    → ((f : ℕ) → f < total_frames → used m f ≡ (ltb f 1029 && not (f == 1025)))
    → Taken 0
        (free_frame (1026 * 4096) (free_frame (1024 * 4096) (free_contiguous (1027 * 4096) 2 m)))
restored m h = record {
  used_below = λ f hf.
      let m1 = free_contiguous (1027 * 4096) 2 m in
      let m2 = free_frame (1024 * 4096) m1 in
      ground (
        arith,
        (free_frame-used (1026 * 4096) f 0 m2).0,
        (free_frame-used (1024 * 4096) f 0 m1).0,
        (free_contiguous-used (1027 * 4096) 2 f 0 m (omega arith)).0,
        h f hf,
      );
}

pub check_fragments-Taken :
    (m : Bitmap) → Taken 0 m → (m' : Bitmap) × (check_fragments m ≡ some m') × Taken 0 m'
unfolding check_fragments
check_fragments-Taken m t =
    let (a, t1) = alloc_frame-Taken 0 m (omega arith) t in
    let m1 = (alloc_frame m).1 in
    let (b, t2) = alloc_frame-Taken 1 m1 (omega arith) t1 in
    let m2 = (alloc_frame m1).1 in
    let (c, t3) = alloc_frame-Taken 2 m2 (omega arith) t2 in
    let m3 = (alloc_frame m2).1 in
    let m4 = free_frame (1025 * 4096) m3 in
    let h = free_frame-Holed m3 t3 in
    let (run, h5) = alloc_contiguous-Holed m4 h in
    let m5 = (alloc_contiguous 2 m4).1 in
    let first : (bitmap_test 1027 m5 == 0) ≡ false =
      ground (arith, bitmap_test-used 1027 m5, h5 1027 (omega arith)) in
    let second : (bitmap_test 1028 m5 == 0) ≡ false =
      ground (arith, bitmap_test-used 1028 m5, h5 1028 (omega arith)) in
    (
      free_frame (1026 * 4096) (free_frame (1024 * 4096) (free_contiguous (1027 * 4096) 2 m5)),
      rw (a, b, c, run, count_taken m4 h, first, second) refl,
      restored m5 h5,
    )
