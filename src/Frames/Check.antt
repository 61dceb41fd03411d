-- ===== src/Frames/Check.antt =====
-- `phys_mem_test` of src/memory/phys_page_frame.c, the boot-time test of the frame allocator, one
-- definition for each of its blocks. `none` is a `kpanic`, or a loop that has not ended.
pub mod Taken
pub mod Fragments
pub mod Passes
mod Tests
use hekaos_series.Base.{
  ℕ, zero, suc, ◌+◌, ◌-◌, ◌/◌, bit_and, Bool, true, false, not, ◌&&◌, Option, none, some, ltb, leb,
  ◌==◌, if◌then◌else◌, expect, ◌>>=◌,
}
use hekaos_series.Word.{add32, sub32}
use hekaos_series.Frames.{
  Bitmap, mem_size, region_start, frame_size, total_frames, region_frames, bitmap_test, mem_init,
  alloc_frame, free_frame, alloc_contiguous, free_contiguous, free_count,
}

-- `(addr & (PHYS_FRAME_SIZE - 1)) == 0`
abbrev pub is_aligned : ℕ → Bool
is_aligned addr = bit_and addr (frame_size - 1) == 0

-- the free count after init
pub check_init : Bitmap → Option Bitmap
check_init m = expect (free_count m == region_frames) m

-- the address of a frame
pub check_alloc : Bitmap → Option Bitmap
check_alloc m = do
  let (frame, m1) = alloc_frame m
  let ok = not (frame == 0) && (is_aligned frame && (leb region_start frame && ltb frame mem_size))
  m2 ← expect ok m1
  some (free_frame frame m2)

-- the free count around an allocation and its release
pub check_count : Bitmap → Option Bitmap
check_count m =
    let (frame, m1) = alloc_frame m in
    let m2 = free_frame frame m1 in
    expect (free_count m1 == sub32 (free_count m) 1 && free_count m2 == free_count m) m2

-- three allocations in a row
pub check_unique : Bitmap → Option Bitmap
check_unique m = do
  let (a, m1) = alloc_frame m
  let (b, m2) = alloc_frame m1
  let (c, m3) = alloc_frame m2
  m4 ← expect (not (a == b) && (not (b == c) && not (a == c))) m3
  some (free_frame a (free_frame b (free_frame c m4)))

-- a release that must be ignored; the four blocks differ in the address alone
pub check_ignored : ℕ → Bitmap → Option Bitmap
check_ignored addr m = let m1 = free_frame addr m in expect (free_count m == free_count m1) m1

-- `while (1)` of the exhaustion test: the number of frames allocated
pub exhaust : ℕ → ℕ → ℕ → Bitmap → Option (ℕ × Bitmap)
exhaust zero allocated total m = none
exhaust (suc n) allocated total m =
    let (frame, m1) = alloc_frame m in
    let rest = exhaust n (allocated + 1) total m1 in
    if frame == 0
    then some (allocated, m1)
    else if ltb (total + 1) (allocated + 1)
    then some (allocated + 1, m1)
    else rest

-- More rounds than there are frames.
pub check_exhaust : Bitmap → Option Bitmap
check_exhaust m = do
  let total = free_count m
  (allocated, m1) ← exhaust (total_frames + 1) 0 total m
  m2 ← expect (allocated == total) m1
  let (frame, m3) = alloc_frame m2
  m4 ← expect (frame == 0) m3
  m5 ← expect (free_count m4 == 0) m4
  let m6 = mem_init m5
  expect (free_count m6 == region_frames) m6

-- a run of one frame
pub check_run_of_one : Bitmap → Option Bitmap
check_run_of_one m = do
  let (base, m1) = alloc_contiguous 1 m
  let ok =
      not (base == 0)
      && (is_aligned base
          && (leb region_start base
              && (ltb base mem_size && free_count m1 == sub32 (free_count m) 1)))
  m2 ← expect ok m1
  let m3 = free_contiguous base 1 m2
  expect (free_count m3 == free_count m) m3

-- `for (k = ...; ...)`, with `all_set`
pub all_used : ℕ → ℕ → Bitmap → Bool
all_used zero k m = true
all_used (suc n) k m = if bitmap_test k m == 0 then false else all_used n (k + 1) m

-- a run of eight frames
pub check_run_of_eight : Bitmap → Option Bitmap
check_run_of_eight m = do
  let (base, m1) = alloc_contiguous 8 m
  let ok =
      not (base == 0)
      && (is_aligned base && (leb region_start base && free_count m1 == sub32 (free_count m) 8))
  m2 ← expect ok m1
  let start = base / frame_size
  m3 ← expect (all_used (add32 start 8 - start) start m2) m2
  let m4 = free_contiguous base 8 m3
  expect (free_count m4 == free_count m) m4

-- the two requests that must fail
pub check_null_run : ℕ → Bitmap → Option Bitmap
check_null_run n m = let (base, m1) = alloc_contiguous n m in expect (base == 0) m1

-- a used frame breaks a run
pub check_fragments : Bitmap → Option Bitmap
check_fragments m = do
  let (a, m1) = alloc_frame m
  let (b, m2) = alloc_frame m1
  let (c, m3) = alloc_frame m2
  let m4 = free_frame b m3
  let (run, m5) = alloc_contiguous 2 m4
  let ok =
      not (run == 0)
      && (is_aligned run
          && (leb (add32 c frame_size) run && sub32 (free_count m4) (free_count m5) == 2))
  m6 ← expect ok m5
  let sf = run / frame_size
  m7 ← expect (not (bitmap_test sf m6 == 0) && not (bitmap_test (sf + 1) m6 == 0)) m6
  some (free_frame c (free_frame a (free_contiguous run 2 m7)))

-- a release of a run that must be ignored
pub check_ignored_run : ℕ → Bitmap → Option Bitmap
check_ignored_run addr m =
    let m1 = free_contiguous addr 1 m in expect (free_count m1 == free_count m) m1

pub phys_mem_test : Bitmap → Option Bitmap
phys_mem_test m = do
  m1 ← check_init m
  m2 ← check_alloc m1
  m3 ← check_count m2
  m4 ← check_unique m3
  m5 ← check_ignored 0x0040_0001 m4
  m6 ← check_ignored 0x0000_1000 m5
  m7 ← check_ignored 0x1000_0000 m6
  m8 ← check_ignored 0 m7
  m9 ← check_exhaust m8
  m10 ← check_run_of_one m9
  m11 ← check_run_of_eight m10
  m12 ← check_null_run 0 m11
  m13 ← check_null_run (total_frames + 1) m12
  m14 ← check_fragments m13
  m15 ← check_ignored_run 0x0040_0001 m14
  check_ignored_run 0x0000_1000 m15
