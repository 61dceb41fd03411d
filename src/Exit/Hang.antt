-- ===== src/Exit/Hang.antt =====
-- `do_exit` of the reaper itself, while it has a child.
use hekaos_series.Base.{
  ℕ, zero, suc, ◌≡◌, refl, ◌≢◌, false, not, ◌&&◌, none, arith, ◌==◌, if◌then◌else◌, update,
}
use hekaos_series.Tasks.{Ptr, null, Kernel}
use hekaos_series.Tasks.Tree.{moved, task_reparent-moved, moved_self}
use hekaos_series.Exit.{reparent_all, reaper_of, notify_reaper, do_exit}

-- Handing the first child to its own parent leaves it the first child.
reparent_all_self :
    (fuel n : ℕ) (t x : Ptr) (k : Kernel)
    → t ≢ null
    → x ≢ null
    → k.children t ≡ x
    → k.parent x ≡ t
    → reparent_all fuel n t t k ≡ none
unfolding reparent_all
reparent_all_self fuel zero t x k nt nx first up = refl
reparent_all_self fuel (suc n) t x k nt nx first up =
    let more : (x == null) ≡ false = ground arith in
    let (first', up') = moved_self t x k in
    rw first (
      rw more (
        rw (task_reparent-moved fuel t x t k first up nt)
          (reparent_all_self fuel n t x (moved t x t k) nt nx first' up')))

-- If the init process exits while it has a child whose parent it is, `do_exit` does not end, however
-- many rounds its loop may run: the child is handed back to init each time.
pub do_exit-init_hangs :
    (fuel t x code : ℕ) (k : Kernel)
    → k.init_proc ≡ t
    → t ≢ null
    → x ≢ null
    → k.children t ≡ x
    → k.parent x ≡ t
    → do_exit fuel t code k ≡ none
unfolding do_exit notify_reaper reaper_of
do_exit-init_hangs fuel t x code k init nt nx first up =
    let k0 = record k { exit_code = update k.exit_code t code } in
    let is_init : (if k.init_proc == null then k.init_task else k.init_proc) ≡ t = ground arith in
    let no_call : (not (k.children t == null) && not (t == t)) ≡ false = ground arith in
    rw is_init (rw no_call (rw (reparent_all_self fuel fuel t x k0 nt nx first up)))
