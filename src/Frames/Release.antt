-- ===== src/Frames/Release.antt =====
-- `phys_free_contiguous`: which calls it accepts, what they release, and where its bound test fails.
use hekaos_series.Base.{
  ℕ, ◌+◌, ◌-◌, ◌/◌, ◌%◌, ◌^◌, ◌≤◌, ◌<◌, ◌≡◌, refl, inl, inr, Bool, true, false, ◌&&◌, arith, ltb,
  leb, ◌==◌, if◌then◌else◌, Bool-cases,
}
use hekaos_series.Word.{add32, sub32}
use hekaos_series.Word.Bitwise.{bit_and-mask}
use hekaos_series.Frames.{
  Bitmap, total_frames, bitmap_size, reserved_frames, clear_frames, free_contiguous,
}
use hekaos_series.Frames.View.{used, used-clear_frames, clear_frames-outside, inside}

-- The call names `n` frames of the managed region.
abbrev pub is_managed_run : ℕ → ℕ → Bool
is_managed_run addr n =
    ltb 0 n
    && addr % 4096 == 0
    && leb reserved_frames (addr / 4096)
    && leb (addr / 4096 + n) total_frames

-- The bound test of the code, as it computes on `uint32_t`.
abbrev pub accepts : ℕ → ℕ → Bool
accepts addr n =
    ltb 0 n
    && addr % 4096 == 0
    && leb reserved_frames (addr / 4096)
    && leb n (sub32 total_frames (addr / 4096))

pub free_contiguous-cases :
    (addr n : ℕ) (m : Bitmap)
    → free_contiguous addr n m ≡ (
        if accepts addr n
        then clear_frames (add32 (addr / 4096) n - addr / 4096) (addr / 4096) m
        else m)
unfolding free_contiguous
free_contiguous-cases addr n m = ground (arith, bit_and-mask addr 12)

accepts-is_managed_run :
    (addr n : ℕ) → addr / 4096 ≤ total_frames → accepts addr n ≡ is_managed_run addr n
accepts-is_managed_run addr n h = ground arith

-- For an address at or below the end of the managed memory, `phys_free_contiguous` marks the `n`
-- frames from it on free, and nothing else, if they all lie in the managed region; otherwise it
-- changes nothing. It never writes outside of the bitmap.
pub free_contiguous-used :
    (addr n g k : ℕ) (m : Bitmap)
    → addr / 4096 ≤ total_frames
    → (used (free_contiguous addr n m) g
        ≡ (if is_managed_run addr n && inside n (addr / 4096) g then false else used m g))
      × (bitmap_size ≤ k → free_contiguous addr n m k ≡ m k)
free_contiguous-used addr n g k m h = elim (Bool-cases (is_managed_run addr n)) [
  | inl good ↦
      let rounds : add32 (addr / 4096) n - addr / 4096 ≡ n = ground arith in
      rw (free_contiguous-cases addr n m, accepts-is_managed_run addr n h, good, rounds)
        (
          used-clear_frames n (addr / 4096) g m,
          λ hk. clear_frames-outside n (addr / 4096) k m (ground arith) hk,
        )
  | inr bad ↦
      rw (free_contiguous-cases addr n m, accepts-is_managed_run addr n h, bad) (refl, λ hk. refl)
]

-- For an aligned 32-bit address above the end of the managed memory, and up to 2 ^ 31 frames, the
-- bound test wraps and passes: `phys_free_contiguous` clears the bits of the `n` frames from it on,
-- and the first of them lies in a word behind the bitmap.
pub free_contiguous-past_end :
    (addr n g : ℕ) (m : Bitmap)
    → addr < 2 ^ 32
    → addr % 4096 ≡ 0
    → total_frames < addr / 4096
    → 0 < n
    → n ≤ 2 ^ 31
    → (bitmap_size ≤ addr / 4096 / 32)
      × (used (free_contiguous addr n m) g ≡ (if inside n (addr / 4096) g then false else used m g))
free_contiguous-past_end addr n g m small aligned past some_frames few =
    let passes : accepts addr n ≡ true = ground arith in
    let rounds : add32 (addr / 4096) n - addr / 4096 ≡ n = omega arith in
    rw (free_contiguous-cases addr n m, passes, rounds)
      (omega arith, used-clear_frames n (addr / 4096) g m)
