-- ===== src/Frames.antt =====
-- The physical frame allocator of src/memory/phys_page_frame.c: a bitmap of 32-bit words, one bit
-- for each 4 KiB frame (0 = free, 1 = used). The state is the memory that `frame_bitmap` names: the
-- word at each index. Indices from `bitmap_size` on stand for the memory behind the array, so that
-- a write out of bounds is visible.
pub mod View
pub mod Scan
pub mod Alloc
pub mod Free
pub mod Contiguous
pub mod Release
pub mod History
pub mod Count
pub mod Check
mod Tests
use hekaos_series.Base.{
  ℕ, zero, suc, ◌+◌, ◌-◌, ◌*◌, ◌/◌, ◌%◌, ◌^◌, Bool, true, false, ◌||◌, ltb, leb, ◌==◌,
  if◌then◌else◌, update, bit_and, not,
}
use hekaos_series.Word.{set_bit, clear_bit, add32, sub32, mul32}

-- `PHYS_MEM_SIZE`, `PHYS_REGION_START`, `PHYS_FRAME_SIZE`
abbrev pub mem_size : ℕ
mem_size = 0x0400_0000

abbrev pub region_start : ℕ
region_start = 0x0040_0000

abbrev pub frame_size : ℕ
frame_size = 4096

-- `PHYS_TOTAL_FRAMES`, `PHYS_REGION_FRAMES`, `BITMAP_SIZE`
abbrev pub total_frames : ℕ
total_frames = mem_size / frame_size

abbrev pub region_frames : ℕ
region_frames = (mem_size - region_start) / frame_size

abbrev pub bitmap_size : ℕ
bitmap_size = total_frames / 32

-- the frames below the managed region
abbrev pub reserved_frames : ℕ
reserved_frames = region_start / frame_size

abbrev pub Bitmap : Type 0
Bitmap = ℕ → ℕ

pub bitmap_set : ℕ → Bitmap → Bitmap
bitmap_set frame m = update m (frame / 32) (set_bit (m (frame / 32)) (frame % 32))

pub bitmap_clear : ℕ → Bitmap → Bitmap
bitmap_clear frame m = update m (frame / 32) (clear_bit (m (frame / 32)) (frame % 32))

pub bitmap_test : ℕ → Bitmap → ℕ
bitmap_test frame m = bit_and (m (frame / 32)) (2 ^ (frame % 32))

-- `for (i = first; i < first + n; i++)`, over each of the three bodies that the file has
pub fill_words : ℕ → ℕ → Bitmap → Bitmap
fill_words zero i m = m
fill_words (suc n) i m = fill_words n (i + 1) (update m i 0xffff_ffff)

pub clear_frames : ℕ → ℕ → Bitmap → Bitmap
clear_frames zero i m = m
clear_frames (suc n) i m = clear_frames n (i + 1) (bitmap_clear i m)

pub set_frames : ℕ → ℕ → Bitmap → Bitmap
set_frames zero j m = m
set_frames (suc n) j m = set_frames n (j + 1) (bitmap_set j m)

pub mem_init : Bitmap → Bitmap
mem_init m =
    clear_frames (total_frames - reserved_frames) reserved_frames (fill_words bitmap_size 0 m)

-- What a pass of the inner loop of `phys_alloc_frame` does: fall through, or return an address.
pub data Pass : Type 0 where
  fall_through : Pass
  return_with : ℕ → Bitmap → Pass

-- `for (j = ...; j < 32; j++)`; the first argument is the rounds left
pub scan_word : ℕ → ℕ → ℕ → Bitmap → Pass
scan_word zero i j m = fall_through
scan_word (suc n) i j m =
    let frame = i * 32 + j in
    let rest = scan_word n i (j + 1) m in
    if leb total_frames frame
    then return_with 0 m
    else (if bitmap_test frame m == 0
        then return_with (mul32 frame frame_size) (bitmap_set frame m)
        else rest)

pub after_pass : Pass → ℕ × Bitmap → ℕ × Bitmap
after_pass fall_through rest = rest
after_pass (return_with addr m) rest = (addr, m)

-- `for (i = ...; i < BITMAP_SIZE; i++)`
pub scan_words : ℕ → ℕ → Bitmap → ℕ × Bitmap
scan_words zero i m = (0, m)
scan_words (suc n) i m =
    let rest = scan_words n (i + 1) m in
    if m i == 0xffff_ffff then rest else after_pass (scan_word 32 i 0 m) rest

-- 0 is the null pointer.
pub alloc_frame : Bitmap → ℕ × Bitmap
alloc_frame m = scan_words bitmap_size 0 m

pub free_frame : ℕ → Bitmap → Bitmap
free_frame addr m =
    let index = addr / frame_size in
    if not (bit_and addr (frame_size - 1) == 0)
    then m
    else (if leb total_frames index || ltb index reserved_frames then m else bitmap_clear index m)

-- The search loop of `phys_alloc_contiguous`, with the run that ends before `i`.
pub find_run : ℕ → ℕ → ℕ → ℕ → ℕ → Bitmap → ℕ × Bitmap
find_run n_frames zero i count start m = (0, m)
find_run n_frames (suc n) i count start m =
    let first = if count == 0 then i else start in
    let longer = find_run n_frames n (i + 1) (count + 1) first m in
    let restart = find_run n_frames n (i + 1) 0 start m in
    if bitmap_test i m == 0
    then (if count + 1 == n_frames
        then (mul32 first frame_size, set_frames (add32 first n_frames - first) first m)
        else longer)
    else restart

pub alloc_contiguous : ℕ → Bitmap → ℕ × Bitmap
alloc_contiguous n_frames m =
    if n_frames == 0 then (0, m) else find_run n_frames total_frames 0 0 0 m

-- The bound test subtracts on `uint32_t`.
pub free_contiguous : ℕ → ℕ → Bitmap → Bitmap
free_contiguous addr n_frames m =
    let start = addr / frame_size in
    if n_frames == 0 || not (bit_and addr (frame_size - 1) == 0)
    then m
    else (if ltb start reserved_frames || ltb (sub32 total_frames start) n_frames
        then m
        else clear_frames (add32 start n_frames - start) start m)

-- `phys_free_count`: frames `i`, ..., of `n` rounds
pub count_free : ℕ → ℕ → ℕ → Bitmap → ℕ
count_free zero i count m = count
count_free (suc n) i count m =
    count_free n (i + 1) (if bitmap_test i m == 0 then count + 1 else count) m

pub free_count : Bitmap → ℕ
free_count m = count_free total_frames 0 0 m
