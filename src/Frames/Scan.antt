-- ===== src/Frames/Scan.antt =====
-- First fit, word by word: the two loops of `phys_alloc_frame` against a walk over single frames.
use hekaos_series.Base.{
  ℕ, zero, suc, ◌+◌, ◌*◌, ◌<◌, ◌≡◌, refl, true, ◌==◌, if◌then◌else◌, arith, inl, inr, Bool-cases,
  Option, none, some, ◌≤◌, false,
}
use native.Mathlib.Nat.{add-zero, zero-add, suc-add}
use hekaos_series.Frames.{
  Bitmap, Pass, fall_through, return_with, after_pass, bitmap_set, scan_word, scan_words,
  total_frames, alloc_frame,
}
use hekaos_series.Frames.View.{used, bitmap_test-used, used-full}

-- The first free frame among the `n` from `i` on.
pub first_free : ℕ → ℕ → Bitmap → Option ℕ
first_free zero i m = none
first_free (suc n) i m = let rest = first_free n (i + 1) m in if used m i then rest else some i

abbrev or_else : Option ℕ → Option ℕ → Option ℕ
or_else none o = o
or_else (some f) o = some f

first_free-add :
    (a b i : ℕ) (m : Bitmap)
    → first_free (a + b) i m ≡ or_else (first_free a i m) (first_free b (i + a) m)
unfolding first_free
first_free-add zero b i m = rw (zero-add, add-zero)
first_free-add (suc a) b i m =
    let shift : i + 1 + a ≡ i + suc a = omega arith in
    rw (suc-add, ← shift) (ground (arith, first_free-add a b (i + 1) m))

first_free-none_of_used :
    (n i : ℕ) (m : Bitmap) → ((j : ℕ) → j < n → used m (i + j) ≡ true) → first_free n i m ≡ none
unfolding first_free
first_free-none_of_used zero i m all = refl
first_free-none_of_used (suc n) i m all =
    let here : used m i ≡ true = rw add-zero at (all 0 (omega arith)) in
    rw here (
      first_free-none_of_used n (i + 1) m λ j h.
        let shift : i + suc j ≡ i + 1 + j = omega arith in rw shift at (all (suc j) (omega arith)))

-- What the code returns when it finds frame `f`, or none.
abbrev pub answer : Bitmap → Option ℕ → ℕ × Bitmap
answer m none = (0, m)
answer m (some f) = (f * 4096, bitmap_set f m)

abbrev pass_of : Bitmap → Option ℕ → Pass
pass_of m none = fall_through
pass_of m (some f) = return_with (f * 4096) (bitmap_set f m)

scan_word-first_free :
    (n i j : ℕ) (m : Bitmap)
    → i < 512
    → j + n ≡ 32
    → scan_word n i j m ≡ pass_of m (first_free n (i * 32 + j) m)
unfolding scan_word first_free
scan_word-first_free zero i j m hi e = refl
scan_word-first_free (suc n) i j m hi e =
    ground (arith, scan_word-first_free n i (j + 1) m, bitmap_test-used (i * 32 + j) m)

first_free-zero : (i : ℕ) (m : Bitmap) → first_free 0 i m ≡ none
unfolding first_free
first_free-zero i m = refl

-- The frames of word `i` come first.
first_free-word :
    (n i : ℕ) (m : Bitmap)
    → first_free (32 * suc n) (i * 32) m
      ≡ or_else (first_free 32 (i * 32) m) (first_free (32 * n) ((i + 1) * 32) m)
first_free-word n i m =
    let count : 32 * suc n ≡ 32 + 32 * n = omega arith in
    let next : (i + 1) * 32 ≡ i * 32 + 32 = omega arith in
    rw (count, next) (first_free-add 32 (32 * n) (i * 32) m)

first_free_full : (i : ℕ) (m : Bitmap) → m i ≡ 0xffff_ffff → first_free 32 (i * 32) m ≡ none
first_free_full i m full = first_free-none_of_used 32 (i * 32) m (λ j h. used-full m i j full h)

after_pass-pass_of :
    (m : Bitmap) (o p : Option ℕ) → after_pass (pass_of m o) (answer m p) ≡ answer m (or_else o p)
unfolding after_pass
after_pass-pass_of m none p = refl
after_pass-pass_of m (some f) p = refl

scan_words-first_free :
    (n i : ℕ) (m : Bitmap)
    → i + n ≡ 512
    → scan_words n i m ≡ answer m (first_free (32 * n) (i * 32) m)
unfolding scan_words
scan_words-first_free zero i m e = rw (first_free-zero (i * 32) m)
scan_words-first_free (suc n) i m e = elim (Bool-cases (m i == 0xffff_ffff)) [
  | inl full ↦
      rw (full, first_free-word n i m, first_free_full i m (ground arith))
        (scan_words-first_free n (i + 1) m (omega arith))
  | inr some_free ↦
      rw
        (
          some_free,
          first_free-word n i m,
          scan_word-first_free 32 i 0 m (omega arith) (omega arith),
          add-zero,
          scan_words-first_free n (i + 1) m (omega arith),
        )
        (after_pass-pass_of m (first_free 32 (i * 32) m) (first_free (32 * n) ((i + 1) * 32) m))
]

-- `phys_alloc_frame` is first fit over all frames.
pub alloc_frame-first_free : (m : Bitmap) → alloc_frame m ≡ answer m (first_free total_frames 0 m)
unfolding alloc_frame
alloc_frame-first_free m = scan_words-first_free 512 0 m (omega arith)

-- Frame `f` is the first free one from `i` on.
pub record IsFirst (m : Bitmap) (i f : ℕ) : Type 0 where
  pub from : i ≤ f
  pub free : used m f ≡ false
  pub before : (g : ℕ) → i ≤ g → g < f → used m g ≡ true

pub first_free-some :
    (n i : ℕ) (m : Bitmap) {f : ℕ} → first_free n i m ≡ some f → IsFirst m i f × (f < i + n)
unfolding first_free
first_free-some zero i m e = cc
first_free-some (suc n) i m {f} e = elim (Bool-cases (used m i)) [
  | inl taken ↦
      let found : first_free n (i + 1) m ≡ some f = rw taken at e in
      let (first, bound) = first_free-some n (i + 1) m found in
      (
        record {
          from = omega (arith, first.from);
          free = first.free;
          before = λ g lo hi. ground (arith, first.before g);
        },
        omega (arith, bound),
      )
  | inr free ↦
      let here : i ≡ f = ground (arith, e) in
      (
        record {
          from = omega (arith, here);
          free = rw (← here) free;
          before = λ g lo hi. absurd (omega (arith, here));
        },
        omega (arith, here),
      )
]

pub first_free-none :
    (n i : ℕ) (m : Bitmap) (g : ℕ) → first_free n i m ≡ none → i ≤ g → g < i + n → used m g ≡ true
unfolding first_free
first_free-none zero i m g e lo hi = absurd (omega arith)
first_free-none (suc n) i m g e lo hi = ground (arith, first_free-none n (i + 1) m g)
