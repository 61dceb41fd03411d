-- ===== src/Frames/Free.antt =====
-- `phys_free_frame` and the way back from `phys_alloc_frame`.
use hekaos_series.Base.{
  ℕ, ◌/◌, ◌%◌, ◌≤◌, ◌<◌, ◌≡◌, refl, inl, inr, Bool, true, false, ◌&&◌, arith, ltb, leb, ◌==◌,
  if◌then◌else◌, Bool-cases,
}
use hekaos_series.Word.Bitwise.{bit_and-mask}
use hekaos_series.Frames.{
  Bitmap, total_frames, bitmap_size, reserved_frames, bitmap_clear, alloc_frame, free_frame,
}
use hekaos_series.Frames.View.{used, used-bitmap_clear, bitmap_clear-outside}
use hekaos_series.Frames.Alloc.{Granted, alloc_frame-first_fit}

-- `addr` is the address of a frame of the managed region.
abbrev pub is_managed : ℕ → Bool
is_managed addr =
    addr % 4096 == 0 && leb reserved_frames (addr / 4096) && ltb (addr / 4096) total_frames

free_frame-cases :
    (addr : ℕ) (m : Bitmap)
    → free_frame addr m ≡ (if is_managed addr then bitmap_clear (addr / 4096) m else m)
unfolding free_frame
free_frame-cases addr m = ground (arith, bit_and-mask addr 12)

-- `phys_free_frame` marks the frame at an aligned address of the managed region free, and nothing
-- else; at any other address (unaligned, reserved, out of range, null) it changes nothing. It never
-- writes outside of the bitmap.
pub free_frame-used :
    (addr g k : ℕ) (m : Bitmap)
    → (used (free_frame addr m) g
        ≡ (if is_managed addr && addr / 4096 == g then false else used m g))
      × (bitmap_size ≤ k → free_frame addr m k ≡ m k)
free_frame-used addr g k m = elim (Bool-cases (is_managed addr)) [
  | inl yes_it_is ↦
      rw (free_frame-cases addr m, yes_it_is)
        (
          ground (arith, used-bitmap_clear (addr / 4096) g m),
          λ h. bitmap_clear-outside (addr / 4096) k m (ground arith) h,
        )
  | inr not_it ↦ rw (free_frame-cases addr m, not_it) (refl, λ h. refl)
]

-- The frames below the managed region are all marked used.
abbrev pub Reserved : Bitmap → Type 0
Reserved m = (f : ℕ) → f < reserved_frames → used m f ≡ true

-- A granted frame lies in the managed region.
pub Granted-managed :
    {m : Bitmap} {f : ℕ} {out : ℕ × Bitmap}
    → Reserved m
    → Granted m f out
    → (reserved_frames ≤ f) × (is_managed out.0 ≡ true) × (out.0 / 4096 ≡ f)
Granted-managed {m} {f} {out} safe granted =
    ground (arith, granted.address, granted.managed, granted.first.free, safe f)

-- When the frames below the managed region are all marked used: freeing what was just allocated
-- restores the mark of every frame, also where the allocation failed.
pub free_frame-alloc_frame :
    (m : Bitmap) (g : ℕ)
    → Reserved m
    → let (addr, m') = alloc_frame m in used (free_frame addr m') g ≡ used m g
free_frame-alloc_frame m g safe = elim (alloc_frame-first_fit m) [
  | inl e ↦
      ground (arith, e.null, e.same, (free_frame-used (alloc_frame m).0 g 0 (alloc_frame m).1).0)
  | inr (f, granted) ↦ ground (
    arith,
    Granted-managed safe granted,
    granted.marks g,
    granted.first.free,
    (free_frame-used (alloc_frame m).0 g 0 (alloc_frame m).1).0,
  )
]
