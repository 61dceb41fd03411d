-- ===== src/Frames/View.antt =====
-- What the bitmap says of each frame, and what a write to one bit changes.
use hekaos_series.Base.{
  update, ℕ, zero, suc, ◌+◌, ◌*◌, ◌/◌, ◌%◌, ◌<◌, ◌≡◌, Bool, true, false, not, ◌==◌, if◌then◌else◌,
  arith, ltb, leb, ◌&&◌, ◌≤◌, refl, ◌∙◌,
}
use native.Mathlib.Nat.{one-le-pow}
use hekaos_series.Word.{bit}
use hekaos_series.Word.Bitwise.{bit-set_bit, bit-clear_bit, bit_and-pow, bit-mask}
use hekaos_series.Frames.{
  total_frames, bitmap_size, Bitmap, bitmap_set, bitmap_clear, bitmap_test, clear_frames,
  set_frames, fill_words,
}

-- Frame `f` is marked used.
pub used : Bitmap → ℕ → Bool
used m f = bit (m (f / 32)) (f % 32)

eq_of_place : (f g : ℕ) → f / 32 ≡ g / 32 → f % 32 ≡ g % 32 → f ≡ g
eq_of_place f g p q = omega arith

pub bitmap_test-used : (f : ℕ) (m : Bitmap) → (bitmap_test f m == 0) ≡ not (used m f)
unfolding bitmap_test used
bitmap_test-used f m = ground (arith, bit_and-pow (m (f / 32)) (f % 32), one-le-pow (f % 32) 2)

pub used-bitmap_set :
    (f g : ℕ) (m : Bitmap) → used (bitmap_set f m) g ≡ (if f == g then true else used m g)
unfolding used bitmap_set
used-bitmap_set f g m = ground (arith, bit-set_bit (m (f / 32)) (f % 32) (g % 32), eq_of_place f g)

pub used-bitmap_clear :
    (f g : ℕ) (m : Bitmap) → used (bitmap_clear f m) g ≡ (if f == g then false else used m g)
unfolding used bitmap_clear
used-bitmap_clear f g m =
    ground (arith, bit-clear_bit (m (f / 32)) (f % 32) (g % 32), eq_of_place f g)

-- A word of all ones marks its 32 frames used.
pub used-full : (m : Bitmap) (i j : ℕ) → m i ≡ 0xffff_ffff → j < 32 → used m (i * 32 + j) ≡ true
unfolding used
used-full m i j full h =
    let word : (i * 32 + j) / 32 ≡ i = omega arith in
    let place : (i * 32 + j) % 32 ≡ j = omega arith in rw (word, place, full) (bit-mask 32 j h)

-- `f` is one of the `n` frames from `i` on.
abbrev pub inside : ℕ → ℕ → ℕ → Bool
inside n i f = leb i f && ltb f (i + n)

pub used-clear_frames :
    (n i f : ℕ) (m : Bitmap)
    → used (clear_frames n i m) f ≡ (if inside n i f then false else used m f)
unfolding clear_frames
used-clear_frames zero i f m = ground arith
used-clear_frames (suc n) i f m =
    ground (arith, used-clear_frames n (i + 1) f (bitmap_clear i m), used-bitmap_clear i f m)

pub used-set_frames :
    (n i f : ℕ) (m : Bitmap) → used (set_frames n i m) f ≡ (if inside n i f then true else used m f)
unfolding set_frames
used-set_frames zero i f m = ground arith
used-set_frames (suc n) i f m =
    ground (arith, used-set_frames n (i + 1) f (bitmap_set i m), used-bitmap_set i f m)

pub fill_words-get :
    (n i k : ℕ) (m : Bitmap) → fill_words n i m k ≡ (if inside n i k then 0xffff_ffff else m k)
unfolding fill_words
fill_words-get zero i k m = ground arith
fill_words-get (suc n) i k m = ground (arith, fill_words-get n (i + 1) k (update m i 0xffff_ffff))

-- After the first loop of `phys_mem_init` every frame is used.
pub used-fill_words :
    (f : ℕ) (m : Bitmap) → f < total_frames → used (fill_words bitmap_size 0 m) f ≡ true
unfolding used
used-fill_words f m h =
    let word : fill_words bitmap_size 0 m (f / 32) ≡ 0xffff_ffff =
      ground (arith, fill_words-get bitmap_size 0 (f / 32) m) in
    rw word (bit-mask 32 (f % 32) (omega arith))

-- A write to a managed frame's bit stays inside the bitmap.
pub bitmap_set-outside :
    (f k : ℕ) (m : Bitmap) → f < total_frames → bitmap_size ≤ k → bitmap_set f m k ≡ m k
unfolding bitmap_set
bitmap_set-outside f k m hf hk = ground arith

pub bitmap_clear-outside :
    (f k : ℕ) (m : Bitmap) → f < total_frames → bitmap_size ≤ k → bitmap_clear f m k ≡ m k
unfolding bitmap_clear
bitmap_clear-outside f k m hf hk = ground arith

pub set_frames-outside :
    (n i k : ℕ) (m : Bitmap) → i + n ≤ total_frames → bitmap_size ≤ k → set_frames n i m k ≡ m k
unfolding set_frames
set_frames-outside zero i k m h hk = refl
set_frames-outside (suc n) i k m h hk =
    set_frames-outside n (i + 1) k (bitmap_set i m) (omega arith) hk
    ∙ bitmap_set-outside i k m (omega arith) hk

pub clear_frames-outside :
    (n i k : ℕ) (m : Bitmap) → i + n ≤ total_frames → bitmap_size ≤ k → clear_frames n i m k ≡ m k
unfolding clear_frames
clear_frames-outside zero i k m h hk = refl
clear_frames-outside (suc n) i k m h hk =
    clear_frames-outside n (i + 1) k (bitmap_clear i m) (omega arith) hk
    ∙ bitmap_clear-outside i k m (omega arith) hk
