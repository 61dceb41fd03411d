-- ===== src/Frames/Alloc.antt =====
-- `phys_alloc_frame`: what it returns and what it changes.
use hekaos_series.Base.{
  ℕ, ◌*◌, ◌≤◌, ◌<◌, ◌≡◌, refl, ◌⊎◌, inl, inr, true, some, arith, ◌==◌, if◌then◌else◌, Option-cases,
}
use hekaos_series.Frames.{Bitmap, total_frames, bitmap_size, alloc_frame}
use hekaos_series.Frames.View.{used, used-bitmap_set, bitmap_set-outside}
use hekaos_series.Frames.Scan.{
  first_free, answer, alloc_frame-first_free, IsFirst, first_free-some, first_free-none,
}

-- Every frame is used, and nothing changes.
pub record Exhausted (m : Bitmap) (out : ℕ × Bitmap) : Type 0 where
  pub null : out.0 ≡ 0
  pub same : out.1 ≡ m
  pub full : (g : ℕ) → g < total_frames → used m g ≡ true

-- Frame `f`, the first that is free, is returned by its address and marked used; no other frame
-- changes, and no word outside of the bitmap.
pub record Granted (m : Bitmap) (f : ℕ) (out : ℕ × Bitmap) : Type 0 where
  pub managed : f < total_frames
  pub first : IsFirst m 0 f
  pub address : out.0 ≡ f * 4096
  pub marks : (g : ℕ) → used out.1 g ≡ (if f == g then true else used m g)
  pub inside : (k : ℕ) → bitmap_size ≤ k → out.1 k ≡ m k

answer-Granted :
    (m : Bitmap) (f : ℕ) → IsFirst m 0 f → f < total_frames → Granted m f (answer m (some f))
answer-Granted m f first bound = record {
  managed = bound;
  first = first;
  address = refl;
  marks = λ g. used-bitmap_set f g m;
  inside = λ k h. bitmap_set-outside f k m bound h;
}

-- `phys_alloc_frame` returns null and changes nothing if every frame is used; otherwise it returns
-- the address of the first free frame and marks that frame used, no other, and it writes no word
-- outside of the bitmap.
pub alloc_frame-first_fit :
    (m : Bitmap) → Exhausted m (alloc_frame m) ⊎ ((f : ℕ) × Granted m f (alloc_frame m))
alloc_frame-first_fit m =
    rw (alloc_frame-first_free m) (elim (Option-cases (first_free total_frames 0 m)) [
      | inl nothing ↦ rw nothing (
          inl (record {
            null = refl;
            same = refl;
            full = λ g h. first_free-none total_frames 0 m g nothing (omega arith) (omega arith);
          }))
      | inr (f, found) ↦
          let (first, bound) = first_free-some total_frames 0 m found in
          rw found (inr (f, answer-Granted m f first (omega (arith, bound))))
    ])
