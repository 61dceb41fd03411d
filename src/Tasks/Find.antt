-- ===== src/Tasks/Find.antt =====
-- The search for a pid in the task list, as a search in a list.
use mathlib.Core.Path.{subst}
use hekaos_series.Base.{
  ℕ, zero, suc, ◌<◌, ◌≡◌, refl, sym, ◌≢◌, inl, inr, true, some, List, [], ◌∷◌, arith, ◌==◌,
  if◌then◌else◌, Bool-cases, length, refl,
}
use hekaos_series.Tasks.{Ptr, null, Kernel, find_pid}
use hekaos_series.Tasks.Chain.{has, Chain}

-- The first task of the list with the pid; null if there is none.
unfoldable pub first_with : ℕ → Kernel → List Ptr → Ptr
first_with pid k [] = null
first_with pid k (x ∷ xs) = if k.pid x == pid then x else first_with pid k xs

pub find_pid-first_with :
    (n t pid : ℕ) (k : Kernel) (xs : List Ptr)
    → Chain k.next t xs
    → length xs < n
    → find_pid n t pid k ≡ some (first_with pid k xs)
unfolding find_pid first_with
find_pid-first_with zero t pid k xs c enough = absurd (omega arith)
find_pid-first_with (suc n) t pid k [] c enough = ground arith
find_pid-first_with (suc n) t pid k (x ∷ xs) (e, nx, c) enough =
    let c' : Chain k.next (k.next t) xs = rw (← e) at c in
    let rest = find_pid-first_with n (k.next t) pid k xs c' (omega arith) in ground (arith, rest)

pub has-first_with :
    (pid : ℕ) (k : Kernel) (xs : List Ptr)
    → first_with pid k xs ≢ null
    → has (first_with pid k xs) xs ≡ true
unfolding first_with has
has-first_with pid k [] found = absurd (found refl)
has-first_with pid k (x ∷ xs) found = elim (Bool-cases (k.pid x == pid)) [
  | inl here ↦ rw here (ground arith)
  | inr later ↦
      let found' : first_with pid k xs ≢ null = rw later at found in
      let rest = has-first_with pid k xs found' in
      let same : first_with pid k (x ∷ xs) ≡ first_with pid k xs = rw later refl in
      let behind : has (first_with pid k xs) (x ∷ xs) ≡ true = ground (arith, rest) in
      subst (λ (a : Ptr). has a (x ∷ xs) ≡ true) (sym same) behind
]
