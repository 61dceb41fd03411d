-- ===== src/Frames/Check/Passes.antt =====
-- `phys_mem_test` passes.
use hekaos_series.Base.{
  ℕ, zero, suc, ◌+◌, ◌*◌, ◌/◌, ◌≤◌, ◌<◌, ◌≡◌, refl, inl, inr, true, false, Option, some, arith, ltb,
  ◌==◌, Bool-cases, ◌>>=◌,
}
use hekaos_series.Frames.{
  Bitmap, total_frames, mem_init, alloc_frame, free_frame, alloc_contiguous, free_contiguous,
  free_count,
}
use hekaos_series.Frames.View.{bitmap_test-used}
use hekaos_series.Frames.Check.{
  check_init, check_alloc, check_count, check_unique, check_ignored, exhaust, check_exhaust,
  check_run_of_one, all_used, check_run_of_eight, check_null_run, check_ignored_run, phys_mem_test,
}
use hekaos_series.Frames.Free.{is_managed}
use hekaos_series.Frames.Release.{is_managed_run}
use hekaos_series.Frames.Check.Fragments.{check_fragments-Taken}
use hekaos_series.Frames.Check.Taken.{
  Taken, free_count-Taken, mem_init-Taken, alloc_frame-Taken, alloc_frame-Taken_all,
  free_frame-Taken, free_frame-ignored, alloc_contiguous-Taken, free_contiguous-Taken,
  free_contiguous-ignored, alloc_contiguous-too_many,
}

-- The block ends without a panic, with all frames of the region free.
Passes : Option Bitmap → Type 0
Passes o = (m' : Bitmap) × (o ≡ some m') × Taken 0 m'

check_init-Passes : (m : Bitmap) → Taken 0 m → Passes (check_init m)
unfolding Passes check_init
check_init-Passes m t = (m, ground (arith, free_count-Taken 0 m t), t)

check_alloc-Passes : (m : Bitmap) → Taken 0 m → Passes (check_alloc m)
unfolding Passes check_alloc
check_alloc-Passes m t =
    let (addr, t1) = alloc_frame-Taken 0 m (omega arith) t in
    let m1 = (alloc_frame m).1 in
    (free_frame (1024 * 4096) m1, rw addr refl, free_frame-Taken 0 m1 (omega arith) t1)

check_count-Passes : (m : Bitmap) → Taken 0 m → Passes (check_count m)
unfolding Passes check_count
check_count-Passes m t =
    let (addr, t1) = alloc_frame-Taken 0 m (omega arith) t in
    let m1 = (alloc_frame m).1 in
    let t2 = free_frame-Taken 0 m1 (omega arith) t1 in
    let m2 = free_frame (1024 * 4096) m1 in
    (
      m2,
      rw (addr, free_count-Taken 1 m1 t1, free_count-Taken 0 m2 t2, free_count-Taken 0 m t) refl,
      t2,
    )

check_unique-Passes : (m : Bitmap) → Taken 0 m → Passes (check_unique m)
unfolding Passes check_unique
check_unique-Passes m t =
    let (a, t1) = alloc_frame-Taken 0 m (omega arith) t in
    let m1 = (alloc_frame m).1 in
    let (b, t2) = alloc_frame-Taken 1 m1 (omega arith) t1 in
    let m2 = (alloc_frame m1).1 in
    let (c, t3) = alloc_frame-Taken 2 m2 (omega arith) t2 in
    let m3 = (alloc_frame m2).1 in
    let t4 = free_frame-Taken 2 m3 (omega arith) t3 in
    let m4 = free_frame (1026 * 4096) m3 in
    let t5 = free_frame-Taken 1 m4 (omega arith) t4 in
    let m5 = free_frame (1025 * 4096) m4 in
    (free_frame (1024 * 4096) m5, rw (a, b, c) refl, free_frame-Taken 0 m5 (omega arith) t5)

check_ignored-Passes :
    (addr : ℕ) (m : Bitmap) → is_managed addr ≡ false → Taken 0 m → Passes (check_ignored addr m)
unfolding Passes check_ignored
check_ignored-Passes addr m out t =
    let m1 = free_frame addr m in
    let t1 = free_frame-ignored addr 0 m out t in
    (m1, rw (free_count-Taken 0 m t, free_count-Taken 0 m1 t1) refl, t1)

exhaust-all :
    (n k : ℕ) (m : Bitmap)
    → k ≤ 15360
    → 15360 < k + n
    → Taken k m
    → (m' : Bitmap) × (exhaust n k 15360 m ≡ some (15360, m')) × Taken 15360 m'
unfolding exhaust
exhaust-all zero k m le enough t = absurd (omega arith)
exhaust-all (suc n) k m le enough t = elim (Bool-cases (k == 15360)) [
  | inl done ↦
      let e : k ≡ 15360 = ground arith in
      let t' : Taken 15360 m = rw e at t in
      let (null_frame, t1) = alloc_frame-Taken_all m t' in
      ((alloc_frame m).1, rw (null_frame, e) refl, t1)
  | inr more ↦
      let h : k < 15360 = ground arith in
      let (addr, t1) = alloc_frame-Taken k m h t in
      let (m', rest, t') = exhaust-all n (k + 1) (alloc_frame m).1 (omega arith) (omega arith) t1 in
      let found : ((alloc_frame m).0 == 0) ≡ false = ground (arith, addr) in
      let within : ltb 15361 (k + 1) ≡ false = ground arith in (m', rw (found, within) rest, t')
]

check_exhaust-Passes : (m : Bitmap) → Taken 0 m → Passes (check_exhaust m)
unfolding Passes check_exhaust
check_exhaust-Passes m t =
    let (m1, emptied, t1) = exhaust-all (total_frames + 1) 0 m (omega arith) (omega arith) t in
    let total : free_count m ≡ 15360 = free_count-Taken 0 m t in
    let (null_frame, t2) = alloc_frame-Taken_all m1 t1 in
    let m2 = (alloc_frame m1).1 in
    let none_left : free_count m2 ≡ 0 = free_count-Taken 15360 m2 t2 in
    let t3 = mem_init-Taken m2 in
    let restored : free_count (mem_init m2) ≡ 15360 = free_count-Taken 0 (mem_init m2) t3 in
    (mem_init m2, rw (total, emptied, null_frame, none_left, restored) refl, t3)

check_run_of_one-Passes : (m : Bitmap) → Taken 0 m → Passes (check_run_of_one m)
unfolding Passes check_run_of_one
check_run_of_one-Passes m t =
    let (base, t1) = alloc_contiguous-Taken 0 1 m (omega arith) (omega arith) t in
    let m1 = (alloc_contiguous 1 m).1 in
    let t2 = free_contiguous-Taken 0 1 m1 (omega arith) (omega arith) t1 in
    let m2 = free_contiguous (1024 * 4096) 1 m1 in
    (
      m2,
      rw (base, free_count-Taken 1 m1 t1, free_count-Taken 0 m t, free_count-Taken 0 m2 t2) refl,
      t2,
    )

all_used-Taken :
    (n i k : ℕ) (m : Bitmap) → i + n ≤ 1024 + k → k ≤ 15360 → Taken k m → all_used n i m ≡ true
unfolding all_used
all_used-Taken zero i k m h le t = refl
all_used-Taken (suc n) i k m h le t =
    let rest = all_used-Taken n (i + 1) k m (omega arith) le t in
    ground (arith, rest, bitmap_test-used i m, t.used_below i (omega arith))

check_run_of_eight-Passes : (m : Bitmap) → Taken 0 m → Passes (check_run_of_eight m)
unfolding Passes check_run_of_eight
check_run_of_eight-Passes m t =
    let (base, t1) = alloc_contiguous-Taken 0 8 m (omega arith) (omega arith) t in
    let m1 = (alloc_contiguous 8 m).1 in
    let marked : all_used 8 1024 m1 ≡ true =
      all_used-Taken 8 1024 8 m1 (omega arith) (omega arith) t1 in
    let t2 = free_contiguous-Taken 0 8 m1 (omega arith) (omega arith) t1 in
    let m2 = free_contiguous (1024 * 4096) 8 m1 in
    (
      m2,
      rw (base, free_count-Taken 8 m1 t1, free_count-Taken 0 m t, marked, free_count-Taken 0 m2 t2)
          refl,
      t2,
    )

check_null_run-Passes :
    (n : ℕ) (m : Bitmap)
    → ((alloc_contiguous n m).0 ≡ 0) × Taken 0 (alloc_contiguous n m).1
    → Passes (check_null_run n m)
unfolding Passes check_null_run
check_null_run-Passes n m (null_run, t) = ((alloc_contiguous n m).1, rw null_run refl, t)

check_ignored_run-Passes :
    (addr : ℕ) (m : Bitmap)
    → addr / 4096 ≤ total_frames
    → is_managed_run addr 1 ≡ false
    → Taken 0 m
    → Passes (check_ignored_run addr m)
unfolding Passes check_ignored_run
check_ignored_run-Passes addr m h out t =
    let m1 = free_contiguous addr 1 m in
    let t1 = free_contiguous-ignored addr 1 0 m h out t in
    (m1, rw (free_count-Taken 0 m t, free_count-Taken 0 m1 t1) refl, t1)

alloc_contiguous-zero :
    (m : Bitmap) → Taken 0 m → ((alloc_contiguous 0 m).0 ≡ 0) × Taken 0 (alloc_contiguous 0 m).1
unfolding alloc_contiguous
alloc_contiguous-zero m t = (refl, t)

Passes-bind :
    (o : Option Bitmap) (f : Bitmap → Option Bitmap)
    → Passes o
    → ((m : Bitmap) → Taken 0 m → Passes (f m))
    → Passes (o >>= f)
unfolding Passes
Passes-bind o f (m, e, t) next = rw e (next m t)

-- After `phys_mem_init`, whatever the bitmap held before, `phys_mem_test` ends without a panic, and it
-- leaves all frames of the managed region free and the others used.
pub phys_mem_test-Taken :
    (m : Bitmap) → (m' : Bitmap) × (phys_mem_test (mem_init m) ≡ some m') × Taken 0 m'
unfolding phys_mem_test Passes
phys_mem_test-Taken m =
    Passes-bind _ _ (check_init-Passes (mem_init m) (mem_init-Taken m)) (λ m1 t1.
      Passes-bind _ _ (check_alloc-Passes m1 t1) (λ m2 t2.
        Passes-bind _ _ (check_count-Passes m2 t2) (λ m3 t3.
          Passes-bind _ _ (check_unique-Passes m3 t3) (λ m4 t4.
            Passes-bind _ _ (check_ignored-Passes 0x0040_0001 m4 refl t4) (λ m5 t5.
              Passes-bind _ _ (check_ignored-Passes 0x0000_1000 m5 refl t5) (λ m6 t6.
                Passes-bind _ _ (check_ignored-Passes 0x1000_0000 m6 refl t6) (λ m7 t7.
                  Passes-bind _ _ (check_ignored-Passes 0 m7 refl t7) (λ m8 t8.
                    Passes-bind _ _ (check_exhaust-Passes m8 t8) (λ m9 t9.
                      Passes-bind _ _ (check_run_of_one-Passes m9 t9) (λ m10 t10.
                        Passes-bind _ _ (check_run_of_eight-Passes m10 t10) (λ m11 t11.
                          Passes-bind _ _
                            (check_null_run-Passes 0 m11 (alloc_contiguous-zero m11 t11))
                            (λ m12 t12.
                              Passes-bind _ _
                                (check_null_run-Passes (total_frames + 1) m12 (
                                  alloc_contiguous-too_many (total_frames + 1) 0 m12 (omega arith)
                                    t12))
                                (λ m13 t13.
                                  Passes-bind _ _ (check_fragments-Taken m13 t13) (λ m14 t14.
                                    Passes-bind _ _
                                      (check_ignored_run-Passes 0x0040_0001 m14 (omega arith) refl
                                        t14)
                                      (λ m15 t15.
                                        check_ignored_run-Passes 0x0000_1000 m15 (omega arith) refl
                                          t15)))))))))))))))
