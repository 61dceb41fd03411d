-- ===== src/Vmalloc/FirstFit.antt =====
-- The search of `vmalloc` over the bitmap finds the first run of free pages that is long enough.
use mathlib.Core.Path.{subst}
use hekaos_series.Word.Bitwise.{bit-mask}
use hekaos_series.Word.{add32, bit}
use hekaos_series.Base.{
  ℕ, zero, suc, ◌+◌, ◌-◌, ◌*◌, ◌/◌, ◌%◌, ◌≤◌, ◌<◌, ◌≡◌, refl, ◌∙◌, ◌⊎◌, inl, inr, true, false,
  Option, none, some, arith, leb, ◌==◌, if◌then◌else◌, Bool-cases,
}
use hekaos_series.Vmalloc.{
  Zone, Search, found, go_on, scan_bits, scan_word, scan_words, find_run, bitmap_test,
  vmalloc_pages, bitmap_words,
}

-- page `j` of the zone is in use
abbrev pub Used : Zone → ℕ → Type 0
Used z j = bitmap_test j z ≡ true

abbrev pub Free : Zone → ℕ → Type 0
Free z j = bitmap_test j z ≡ false

-- No `n` pages in a row are free below page `i`.
abbrev pub NoRun : Zone → ℕ → ℕ → Type 0
NoRun z n i = (s : ℕ) → s + n ≤ i → (j : ℕ) × (s ≤ j) × (j < s + n) × Used z j

-- The search is before page `i`: the last `run` pages are free, and those before them end with one
-- in use or at the start of the zone.
record Upto (z : Zone) (n i run start : ℕ) : Type 0 where
  short : run < n
  inside : run ≤ i
  begins : (run ≡ 0) ⊎ (start + run ≡ i)
  free : (j : ℕ) → i ≤ j + run → j < i → Free z j
  edge : (run ≡ i) ⊎ ((k : ℕ) × (k + run + 1 ≡ i) × Used z k)
  no_run : NoRun z n i

-- The first run of `n` free pages starts at page `s`.
pub record FirstRun (z : Zone) (n s : ℕ) : Type 0 where
  pub free : (j : ℕ) → s ≤ j → j < s + n → Free z j
  pub first : (t : ℕ) → t < s → (j : ℕ) × (t ≤ j) × (j < t + n) × Used z j
  pub inside : s + n ≤ vmalloc_pages

step-Used :
    (z : Zone) (n i run start : ℕ) → Upto z n i run start → Used z i → Upto z n (suc i) 0 start
step-Used z n i run start up used = record {
  short = omega (arith, up.short);
  inside = omega arith;
  begins = inl refl;
  free = λ j lo hi. absurd (omega arith);
  edge = inr (i, omega arith, used);
  no_run = λ s le. elim (Bool-cases (leb (s + n) i)) [
    | inl z1 ↦ up.no_run s (ground (arith, z1))
    | inr z1 ↦ (i, ground (arith, z1, up.short), ground (arith, z1), used)
  ];
}

step-Free :
    (z : Zone) (n i run start : ℕ)
    → Upto z n i run start
    → Free z i
    → run + 1 < n
    → Upto z n (suc i) (run + 1) (if run == 0 then i else start)
step-Free z n i run start up free more = record {
  short = more;
  inside = omega (arith, up.inside);
  begins = inr (ground (arith, up.begins));
  free = λ j lo hi. elim (Bool-cases (j == i)) [
    | inl z1 ↦ let same : j ≡ i = ground (arith, z1) in rw same free
    | inr z1 ↦ up.free j (omega arith) (ground (arith, z1))
  ];
  edge = elim up.edge [ inl e ↦ inl (omega arith) | inr (k, e, used) ↦ inr (k, omega arith, used) ];
  no_run = λ s le. elim (Bool-cases (leb (s + n) i)) [
    | inl z1 ↦ up.no_run s (ground (arith, z1))
    | inr z1 ↦ elim up.edge [
      | inl e ↦ absurd (ground (arith, z1, more))
      | inr (k, e, used) ↦ (k, ground (arith, z1, more), ground (arith, z1, more), used)
    ]
  ];
}

step_found :
    (z : Zone) (n i run start : ℕ)
    → Upto z n i run start
    → Free z i
    → run + 1 ≡ n
    → i < vmalloc_pages
    → FirstRun z n (if run == 0 then i else start)
step_found z n i run start up free enough inside =
    let begin : (if run == 0 then i else start) + run ≡ i = ground (arith, up.begins) in
    record {
      free = λ j lo hi. elim (Bool-cases (j == i)) [
        | inl z1 ↦ let same : j ≡ i = ground (arith, z1) in rw same free
        | inr z1 ↦ up.free j (omega arith) (ground (arith, z1))
      ];
      first = λ t lt. elim up.edge [
        | inl e ↦ absurd (omega arith)
        | inr (k, e, used) ↦ elim (Bool-cases (leb (t + n) i)) [
          | inl z1 ↦ up.no_run t (ground (arith, z1))
          | inr z1 ↦ (k, ground (arith, z1), ground (arith, z1), used)
        ]
      ];
      inside = omega arith;
    }

-- what a part of the search up to page `i` has found
abbrev Outcome : Zone → ℕ → ℕ → Search → Type 0
Outcome z n i (found s) = FirstRun z n s
Outcome z n i (go_on run start) = Upto z n i run start

test-bit : (z : Zone) (w b : ℕ) → b < 32 → bitmap_test (w * 32 + b) z ≡ bit (z.bitmap w) b
test-bit z w b lt =
    let word : (w * 32 + b) / 32 ≡ w = omega arith in
    let place : (w * 32 + b) % 32 ≡ b = omega arith in rw (word, place) refl

scan_bits_lem :
    (k : ℕ) (z : Zone) (n w b run start : ℕ)
    → b + k ≡ 32
    → w * 32 + 32 ≤ vmalloc_pages
    → Upto z n (w * 32 + b) run start
    → Outcome z n (w * 32 + 32) (scan_bits k w b n run start z)
unfolding scan_bits
scan_bits_lem zero z n w b run start all inside up =
    let same : b ≡ 32 = omega arith in rw same at up
scan_bits_lem (suc k) z n w b run start all inside up =
    let here = test-bit z w b (omega arith) in
    let in_zone : leb vmalloc_pages (w * 32 + b) ≡ false = ground arith in
    let next : suc (w * 32 + b) ≡ w * 32 + (b + 1) = omega arith in
    let sum : add32 run 1 ≡ run + 1 = omega (arith, up.inside) in
    elim (Bool-cases (bit (z.bitmap w) b)) [
      | inl used ↦
          rw (in_zone, used)
            (scan_bits_lem k z n w (b + 1) 0 start (omega arith) inside (
              subst (λ x. Upto z n x 0 start) next
                (step-Used z n (w * 32 + b) run start up (here ∙ used))))
      | inr free ↦ elim (Bool-cases (run + 1 == n)) [
        | inl enough ↦
            rw (in_zone, free, sum, enough)
              (step_found z n (w * 32 + b) run start up (here ∙ free) (ground (arith, enough))
                (omega arith))
        | inr short ↦
            rw (in_zone, free, sum, short)
              (scan_bits_lem k z n w (b + 1) (run + 1) (if run == 0 then w * 32 + b else start)
                (omega arith) inside
                (subst (λ x. Upto z n x (run + 1) (if run == 0 then w * 32 + b else start)) next
                  (step-Free z n (w * 32 + b) run start up (here ∙ free)
                    (ground (arith, short, up.short)))))
      ]
    ]

full-Used :
    (z : Zone) (w j : ℕ) → z.bitmap w ≡ 0xffff_ffff → w * 32 ≤ j → j < w * 32 + 32 → Used z j
full-Used z w j full lo hi =
    let word : j / 32 ≡ w = omega arith in rw (word, full) (bit-mask 32 (j % 32) (omega arith))

-- A word with every bit on is passed over.
skip_word :
    (z : Zone) (n w run start : ℕ)
    → z.bitmap w ≡ 0xffff_ffff
    → Upto z n (w * 32) run start
    → Upto z n (w * 32 + 32) 0 start
skip_word z n w run start full up = record {
  short = omega (arith, up.short);
  inside = omega arith;
  begins = inl refl;
  free = λ j lo hi. absurd (omega arith);
  edge =
      inr (w * 32 + 31, omega arith, full-Used z w (w * 32 + 31) full (omega arith) (omega arith));
  no_run = λ s le. elim (Bool-cases (leb (s + n) (w * 32))) [
    | inl z1 ↦ up.no_run s (ground (arith, z1))
    | inr z1 ↦ (
      s + n - 1,
      ground (arith, up.short),
      ground (arith, up.short),
      full-Used z w (s + n - 1) full (ground (arith, z1)) (ground (arith, up.short)),
    )
  ];
}

scan_word_lem :
    (z : Zone) (n w run start : ℕ)
    → w * 32 + 32 ≤ vmalloc_pages
    → Upto z n (w * 32) run start
    → Outcome z n (w * 32 + 32) (scan_word w n run start z)
unfolding scan_word
scan_word_lem z n w run start inside up =
    let zero_bits : w * 32 ≡ w * 32 + 0 = omega arith in
    elim (Bool-cases (z.bitmap w == 0xffff_ffff)) [
      | inl full ↦ rw full (skip_word z n w run start (ground (arith, full)) up)
      | inr other ↦ rw other (scan_bits_lem 32 z n w 0 run start refl inside (rw zero_bits at up))
    ]

-- what the whole search has found
abbrev pub Answer : Zone → ℕ → Option ℕ → Type 0
Answer z n none = NoRun z n vmalloc_pages
Answer z n (some s) = FirstRun z n s

scan_words-next :
    (z : Zone) (n i : ℕ) (rest : ℕ → ℕ → Option ℕ) (o : Search)
    → Outcome z n i o
    → ((run start : ℕ) → Upto z n i run start → Answer z n (rest run start))
    → Answer z n (elim o [ found s ↦ some s | go_on run start ↦ rest run start ])
scan_words-next z n i rest (found s) out go = out
scan_words-next z n i rest (go_on run start) out go = go run start out

scan_words_lem :
    (k : ℕ) (z : Zone) (n w run start : ℕ)
    → w + k ≡ bitmap_words
    → Upto z n (w * 32) run start
    → Answer z n (scan_words k w n run start z)
unfolding scan_words
scan_words_lem zero z n w run start all up =
    let same : w * 32 ≡ vmalloc_pages = omega arith in rw same at up.no_run
scan_words_lem (suc k) z n w run start all up =
    let next : w * 32 + 32 ≡ (w + 1) * 32 = omega arith in
    scan_words-next z n (w * 32 + 32) (λ run1 start1. scan_words k (w + 1) n run1 start1 z)
      (scan_word w n run start z) (scan_word_lem z n w run start (omega arith) up)
      (λ run1 start1 u. scan_words_lem k z n (w + 1) run1 start1 (omega arith) (rw next at u))

-- The search returns the first page from which `n` free pages follow within the zone; it returns
-- none only when every `n` pages in a row of the zone hold one that is in use.
pub find_run-FirstRun : (z : Zone) (n : ℕ) → 0 < n → Answer z n (find_run n z)
find_run-FirstRun z n pos = scan_words_lem bitmap_words z n 0 0 0 refl (record {
  short = pos;
  inside = omega arith;
  begins = inl refl;
  free = λ j lo hi. absurd (omega arith);
  edge = inl refl;
  no_run = λ s le. absurd (omega arith);
})
