-- ===== src/Frames/Tests.antt =====
-- The frame allocator's theorems at concrete inputs, and runs of it.
use hekaos_series.Base.{
  ℕ, ◌*◌, ◌%◌, ◌≤◌, ◌<◌, ◌≡◌, refl, ◌⊎◌, false, List, [], ◌∷◌, arith, ◌==◌, if◌then◌else◌,
}
use hekaos_series.Frames.{
  scan_words, scan_word, after_pass, find_run, Bitmap, region_start, mem_size, mem_init,
  alloc_frame, free_frame, alloc_contiguous, free_contiguous, bitmap_test,
}
use hekaos_series.Frames.View.{used}
use hekaos_series.Frames.Alloc.{Exhausted, Granted, alloc_frame-first_fit}
use hekaos_series.Frames.Free.{free_frame-alloc_frame}
use hekaos_series.Frames.Contiguous.{NoRun, GrantedRun, alloc_contiguous-first_fit}
use hekaos_series.Frames.Release.{free_contiguous-used, free_contiguous-past_end}
use hekaos_series.Frames.History.{
  Call, alloc, free, alloc_run, free_run, calls, mem_init-Reserved, alloc_frame-in_region,
}

-- a bitmap of zeros, before `phys_mem_init`
abbrev blank : Bitmap
blank = λ _. 0

-- every frame used but 33 and 40
abbrev nearly_full : Bitmap
nearly_full = λ i. if i == 1 then 0xffff_fefd else 0xffff_ffff

alloc_nearly_full : (alloc_frame nearly_full).0 ≡ 33 * 4096
unfolding alloc_frame scan_words after_pass scan_word bitmap_test
alloc_nearly_full = refl

-- a hole of one frame is skipped by a request for two
abbrev holed : Bitmap
holed = λ i. if i == 32 then 0xffff_fff5 else 0

run_skips_hole : (alloc_contiguous 2 (λ i. if i == 0 then 0xffff_fff5 else 0)).0 ≡ 32 * 4096
unfolding alloc_contiguous find_run bitmap_test
run_skips_hole = refl

alloc_frame-first_fit_example :
    Exhausted nearly_full (alloc_frame nearly_full)
    ⊎ ((f : ℕ) × Granted nearly_full f (alloc_frame nearly_full))
alloc_frame-first_fit_example = alloc_frame-first_fit nearly_full

free_frame-alloc_frame_example :
    let (addr, m) = alloc_frame (mem_init blank) in
    used (free_frame addr m) 1024 ≡ used (mem_init blank) 1024
free_frame-alloc_frame_example =
    free_frame-alloc_frame (mem_init blank) 1024 (mem_init-Reserved blank)

alloc_contiguous-first_fit_example :
    NoRun holed 2 (alloc_contiguous 2 holed)
    ⊎ ((s : ℕ) × GrantedRun holed 2 s (alloc_contiguous 2 holed))
alloc_contiguous-first_fit_example = alloc_contiguous-first_fit 2 holed (omega arith)

free_contiguous-used_example :
    (used (free_contiguous 0x40_0000 8 nearly_full) 1027 ≡ false)
    × (512 ≤ 600 → free_contiguous 0x40_0000 8 nearly_full 600 ≡ nearly_full 600)
free_contiguous-used_example = free_contiguous-used 0x40_0000 8 1027 600 nearly_full (omega arith)

-- one frame at 0x04001000, a page past the end of the managed memory
free_contiguous-past_end_example :
    (512 ≤ 512) × (used (free_contiguous 0x0400_1000 1 nearly_full) 16385 ≡ false)
free_contiguous-past_end_example =
    free_contiguous-past_end 0x0400_1000 1 16385 nearly_full (omega arith) (omega arith)
      (omega arith) (omega arith) (omega arith)

abbrev script : List Call
script = alloc ∷ alloc_run 8 ∷ free 0x1000 ∷ free_run 0x40_0000 4 ∷ []

alloc_frame-in_region_example :
    let addr = (alloc_frame (calls script (mem_init blank))).0 in
    (addr ≡ 0) ⊎ ((region_start ≤ addr) × (addr < mem_size) × (addr % 4096 ≡ 0))
alloc_frame-in_region_example = alloc_frame-in_region script blank
