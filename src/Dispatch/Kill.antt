-- ===== src/Dispatch/Kill.antt =====
-- SIGKILL cannot be survived: what `kernel_signal_dispatch` does to a task that it is pending for.
use hekaos_series.Base.{
  ℕ, ◌+◌, ◌<◌, ◌≡◌, refl, ◌⊎◌, inl, inr, false, ◌||◌, some, List, ◌∷◌, arith, ◌==◌, Bool-cases,
  length, zero, suc, ◌^◌, ◌≤◌, ◌≢◌, true, Option,
}
use hekaos_series.Tasks.{Ptr, Kernel, zombie}
use hekaos_series.Signals.{discard, sigmask, sig_ign, sig_dfl}
use hekaos_series.Exit.{reaper_of, do_exit}
use hekaos_series.Exit.Reparent.{Family}
use hekaos_series.Exit.Orphans.{Family-SameTree, do_exit-Exited}
use hekaos_series.Dispatch.{terminates, stops, sig_default_action, kernel_signal_dispatch}
use hekaos_series.Dispatch.Scan.{serve}
use hekaos_series.Dispatch.Order.{
  is_out, drain, drain_out, drain_skip, kernel_signal_dispatch-drain,
}
use hekaos_series.Word.{bit}

-- `k` with other pending signals and other handler calls
abbrev quiet : Kernel → (Ptr → ℕ) → List (ℕ × ℕ) → Kernel
quiet k p r = record k { pending = p; ran = r }

module _ (fuel : ℕ) (t : Ptr) (xs ys : List Ptr) (enough : length xs < fuel) where
  Family-quiet :
      (k : Kernel) (p : Ptr → ℕ) (r : List (ℕ × ℕ))
      → Family t (reaper_of k) xs ys k
      → Family t (reaper_of (quiet k p r)) xs ys (quiet k p r)
  unfolding reaper_of
  Family-quiet k p r f =
      Family-SameTree t (reaper_of k) xs ys k (quiet k p r)
        (record { sibling = refl; children = refl; parent = refl }) f

  -- what serving one signal can come to: the end of the task, or nothing that the tree shows
  Served : Kernel → Kernel → Type 0
  Served k k' = (k'.state t ≡ zombie) ⊎ ((p : Ptr → ℕ) × (r : List (ℕ × ℕ)) × (k' ≡ quiet k p r))

  exits :
      (s : ℕ) (k : Kernel) (p : Ptr → ℕ)
      → Family t (reaper_of k) xs ys k
      → (k' : Kernel) × (do_exit fuel t (128 + s) (quiet k p k.ran) ≡ some k')
        × (k'.state t ≡ zombie)
  exits s k p f =
      let (k', done, left) =
        do_exit-Exited fuel t (128 + s) xs ys (quiet k p k.ran) enough (Family-quiet k p k.ran f) in
      (k', done, left.dead)

  -- a signal below SIGKILL: there is no stop signal among them
  serve-Served :
      (j : ℕ) (k : Kernel)
      → j < 8
      → Family t (reaper_of k) xs ys k
      → (k' : Kernel) × (serve fuel t (j + 1) k ≡ some k') × Served k k'
  unfolding serve sig_default_action Served
  serve-Served j k h f =
      let p = (discard t (sigmask (j + 1)) k).pending in
      let handler = k.handlers t (j + 1) in
      let low : ((j + 1 == 9) || (j + 1 == 19)) ≡ false = ground arith in
      let no_stop : stops (j + 1) ≡ false = ground arith in
      rw low (elim (Bool-cases (handler == sig_ign)) [
        | inl ign ↦ rw ign (quiet k p k.ran, refl, inr (p, k.ran, refl))
        | inr not_ign ↦ elim (Bool-cases (handler == sig_dfl)) [
          | inl dfl ↦ elim (Bool-cases (terminates (j + 1))) [
            | inl fatal ↦
                let (k', done, dead) = exits (j + 1) k p f in
                rw not_ign (rw dfl (rw fatal (k', done, inl dead)))
            | inr harmless ↦
                rw not_ign
                  (rw dfl (rw harmless (rw no_stop (quiet k p k.ran, refl, inr (p, k.ran, refl)))))
          ]
          | inr caught ↦ elim (Bool-cases (k.is_userspace t)) [
            | inl user ↦ rw not_ign (rw caught (rw user (k, refl, inr (k.pending, k.ran, refl))))
            | inr kernel ↦
                let r = (handler, j + 1) ∷ k.ran in
                rw not_ign (rw caught (rw kernel (quiet k p r, refl, inr (p, r, refl))))
          ]
        ]
      ])

  Zombied : Option Kernel → Type 0
  Zombied o = (k' : Kernel) × (o ≡ some k') × (k'.state t ≡ zombie)

  drain_set :
      (n j w : ℕ) (k k' : Kernel)
      → bit w j ≡ true
      → is_out (k.state t) ≡ false
      → serve fuel t (j + 1) k ≡ some k'
      → drain fuel t w (suc n) j k ≡ drain fuel t w n (j + 1) k'
  unfolding drain
  drain_set n j w k k' set alive done = rw (alive, set, done)

  drain-zombie : (n j w : ℕ) (k : Kernel) → k.state t ≡ zombie → Zombied (drain fuel t w n j k)
  unfolding Zombied
  drain-zombie n j w k dead =
      let out : is_out (k.state t) ≡ true = rw dead in (k, drain_out fuel t n j w k out, dead)

  serve-kill :
      (k : Kernel)
      → Family t (reaper_of k) xs ys k
      → (k' : Kernel) × (serve fuel t 9 k ≡ some k') × (k'.state t ≡ zombie)
  unfolding serve sig_default_action
  serve-kill k f = exits 9 k (discard t (sigmask 9) k).pending f

  drain-kill :
      (n j w : ℕ) (k : Kernel)
      → j + n ≡ 32
      → j ≤ 8
      → bit w 8 ≡ true
      → is_out (k.state t) ≡ false
      → Family t (reaper_of k) xs ys k
      → Zombied (drain fuel t w n j k)
  unfolding Zombied Served
  drain-kill zero j w k e low kill alive f = absurd (omega arith)
  drain-kill (suc n) j w k e low kill alive f = elim (Bool-cases (bit w j)) [
    | inr skip ↦
        let below : j ≢ 8 = λ same. ground arith in
        rw (drain_skip fuel t n j w k skip)
          (drain-kill n (j + 1) w k (omega arith) (omega arith) kill alive f)
    | inl set ↦ elim (Bool-cases (j == 8)) [
      | inl last ↦
          let same : j ≡ 8 = ground arith in
          let (k', done, dead) = serve-kill k f in
          let done' : serve fuel t (j + 1) k ≡ some k' = rw same done in
          rw (drain_set n j w k k' set alive done') (drain-zombie n (j + 1) w k' dead)
      | inr earlier ↦
          let (k', done, served) = serve-Served j k (ground arith) f in
          rw (drain_set n j w k k' set alive done) (elim served [
            | inl dead ↦ drain-zombie n (j + 1) w k' dead
            | inr (p, r, same) ↦ rw same (
                drain-kill n (j + 1) w (quiet k p r) (omega arith) (ground arith) kill alive
                  (Family-quiet k p r f))
          ])
    ]
  ]

  -- A task that is neither a zombie nor stopped, is not the reaper, and has SIGKILL pending is a
  -- zombie after `kernel_signal_dispatch`, whatever else is pending and whatever handlers it has; and
  -- the dispatch ends, given more rounds than the task has children.
  pub kernel_signal_dispatch-kill :
      (k : Kernel)
      → k.pending t < 2 ^ 32
      → bit (k.pending t) 8 ≡ true
      → is_out (k.state t) ≡ false
      → Family t (reaper_of k) xs ys k
      → (k' : Kernel) × (kernel_signal_dispatch fuel t k ≡ some k') × (k'.state t ≡ zombie)
  unfolding Zombied
  kernel_signal_dispatch-kill k small kill alive f =
      rw (kernel_signal_dispatch-drain fuel t k small)
        (drain-kill 32 0 (k.pending t) k (omega arith) (omega arith) kill alive f)
