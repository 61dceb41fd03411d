-- ===== src/Exit/Tests.antt =====
-- The theorems on `do_exit` at a concrete task table.
use hekaos_series.Base.{◌≡◌, refl, none, some, [], ◌∷◌, arith}
use hekaos_series.Samples.{family}
use hekaos_series.Tasks.{Kernel}
use hekaos_series.Tasks.Chain.{has}
use hekaos_series.Exit.{reaper_of, do_exit}
use hekaos_series.Exit.Reparent.{Family}
use hekaos_series.Exit.Orphans.{Exited, do_exit-Exited}
use hekaos_series.Exit.Hang.{do_exit-init_hangs}

shell_Family : Family 2 (reaper_of family) (3 ∷ 4 ∷ []) (2 ∷ []) family
unfolding reaper_of has
shell_Family = record {
  not_null = omega arith;
  other = omega arith;
  source = (refl, omega arith, (refl, omega arith, refl));
  target = (refl, omega arith, refl);
  apart = λ a h. ground arith;
  up = λ a h. ground arith;
}

do_exit-Exited_example :
    (k' : Kernel) × (do_exit 3 2 7 family ≡ some k')
    × Exited 2 7 (reaper_of family) (3 ∷ 4 ∷ []) (2 ∷ []) family.parent k'
do_exit-Exited_example =
    do_exit-Exited 3 2 7 (3 ∷ 4 ∷ []) (2 ∷ []) family (omega arith) shell_Family

do_exit-init_hangs_example : do_exit 1000 1 0 family ≡ none
do_exit-init_hangs_example =
    do_exit-init_hangs 1000 1 2 0 family refl (omega arith) (omega arith) refl refl
