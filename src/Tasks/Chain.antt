-- ===== src/Tasks/Chain.antt =====
-- Null-terminated chains through a pointer field, such as `sibling` and `next`.
use hekaos_series.Base.{
  suc, ◌≤◌, ◌≡◌, refl, sym, ap, ◌∙◌, ◌≢◌, inl, inr, Bool, true, false, ◌||◌, List, [], ◌∷◌, arith,
  ◌==◌, if◌then◌else◌, Bool-cases, update, length,
}
use hekaos_series.Tasks.{Ptr, null}

unfoldable pub has : Ptr → List Ptr → Bool
has a [] = false
has a (x ∷ xs) = a == x || has a xs

-- From `p` the field `f` leads through `xs` to null.
abbrev pub Chain : (Ptr → Ptr) → Ptr → List Ptr → Type 0
Chain f p [] = p ≡ null
Chain f p (x ∷ xs) = (p ≡ x) × (x ≢ null) × Chain f (f x) xs

pub Chain-frame :
    (f g : Ptr → Ptr) (p : Ptr) (xs : List Ptr)
    → ((a : Ptr) → has a xs ≡ true → g a ≡ f a)
    → Chain f p xs
    → Chain g p xs
unfolding has
Chain-frame f g p [] same c = c
Chain-frame f g p (x ∷ xs) same (e, ne, c) =
    (e, ne, rw (same x (ground arith)) (Chain-frame f g (f x) xs (λ a h. same a (ground arith)) c))

pub Chain-update :
    (f : Ptr → Ptr) (a v p : Ptr) (xs : List Ptr)
    → has a xs ≡ false
    → Chain f p xs
    → Chain (update f a v) p xs
Chain-update f a v p xs out c = Chain-frame f (update f a v) p xs (λ b h. ground arith) c

-- A chain is determined by its start.
pub Chain-unique :
    (f : Ptr → Ptr) (p : Ptr) (xs ys : List Ptr)
    → Chain f p xs
    → Chain f p ys
    → length xs ≡ length ys
Chain-unique f p [] [] c d = refl
Chain-unique f p [] (y ∷ ys) c d = absurd (d.1 (sym d.0 ∙ c))
Chain-unique f p (x ∷ xs) [] c d = absurd (c.1 (sym c.0 ∙ d))
Chain-unique f p (x ∷ xs) (y ∷ ys) (e, ne, c) (e', ne', d) =
    let same : y ≡ x = sym e' ∙ e in ap suc (Chain-unique f (f x) xs ys c (rw same at d))

-- The part of a chain from a member on.
suffix :
    (f : Ptr → Ptr) (a p : Ptr) (xs : List Ptr)
    → has a xs ≡ true
    → Chain f p xs
    → (ys : List Ptr) × Chain f a ys × (length ys ≤ length xs)
unfolding has
suffix f a p [] h c = cc
suffix f a p (x ∷ xs) h (e, ne, c) = elim (Bool-cases (a == x)) [
  | inl here ↦ let same : a ≡ x = ground arith in (x ∷ xs, (same, ne, c), omega arith)
  | inr later ↦ let (ys, d, le) = suffix f a (f x) xs (ground arith) c in (ys, d, omega arith)
]

-- So it meets no address twice.
pub Chain-head_fresh :
    (f : Ptr → Ptr) (p x : Ptr) (xs : List Ptr) → Chain f p (x ∷ xs) → has x xs ≡ false
Chain-head_fresh f p x xs (e, ne, c) = elim (Bool-cases (has x xs)) [
  | inr out ↦ out
  | inl again ↦
      let (ys, d, le) = suffix f x (f x) xs again c in
      absurd (omega (arith, Chain-unique f x (x ∷ xs) ys (refl, ne, c) d, le))
]

pub not-mem_null : (f : Ptr → Ptr) (p : Ptr) (xs : List Ptr) → Chain f p xs → has null xs ≡ false
unfolding has
not-mem_null f p [] c = refl
not-mem_null f p (x ∷ xs) (e, ne, c) = ground (arith, not-mem_null f (f x) xs c)

-- The list without its first `a`.
unfoldable pub erase : Ptr → List Ptr → List Ptr
erase a [] = []
erase a (x ∷ xs) = if a == x then xs else x ∷ erase a xs
