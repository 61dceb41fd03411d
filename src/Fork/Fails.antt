-- ===== src/Fork/Fails.antt =====
-- A fork that fails leaves nothing behind.
use mathlib.Core.Path.{subst}
use hekaos_series.Tasks.Others.{SameBut}
use hekaos_series.Tasks.{Ptr, null, Kernel, pid_alloc, pid_release}
use hekaos_series.Base.{
  ℕ, ◌*◌, ◌<◌, ◌≡◌, refl, sym, ◌≢◌, inl, inr, Bool, true, false, not, ◌||◌, none, some, arith, leb,
  ◌==◌, Bool-cases, update,
}
use hekaos_series.Word.{add32, sub32, mul32}
use hekaos_series.Fork.{
  Process, kstack_va_base, kstack_size, clear_task, map_stack, unmap_stack, number, release_pid,
  fork_stack, task_fork,
}
use hekaos_series.Syscalls.{failure}

-- Every task but the descriptor `child` that is given back is as before in all of its fields, and so
-- are the globals, the memory and the mapped pages.
pub record Kept (child : Ptr) (s s' : Process) : Type 0 where
  pub table : SameBut child s.kernel s'.kernel
  pub tf : (t : Ptr) → t ≢ child → s'.tf t ≡ s.tf t
  pub esp : (t : Ptr) → t ≢ child → s'.esp t ≡ s.esp t
  pub mm : (t : Ptr) → t ≢ child → s'.mm t ≡ s.mm t
  pub memory : s'.memory ≡ s.memory
  pub mapped : (va : ℕ) → s'.mapped va ≡ s.mapped va

Kept-refl : (child : Ptr) (s : Process) → Kept child s s
Kept-refl child s = record {
  table = record { others = λ t ne. refl; globals = refl };
  tf = λ t ne. refl;
  esp = λ t ne. refl;
  mm = λ t ne. refl;
  memory = refl;
  mapped = λ va. refl;
}

-- the table when the pid is taken and the descriptor cleared
abbrev pub claimed : Ptr → Process → Process
claimed child s = number child (add32 s.kernel.task_counter 1) (
    clear_task child
      (record s { kernel = record s.kernel { task_counter = add32 s.kernel.task_counter 1 } }))

-- The pid is given back, and the pages are those of `s`.
Kept-claimed :
    (child : Ptr) (s : Process) (mapped : ℕ → Bool)
    → s.kernel.task_counter < 127
    → ((va : ℕ) → mapped va ≡ s.mapped va)
    → Kept child s (release_pid (record (claimed child s) { mapped = mapped }))
unfolding clear_task pid_release
Kept-claimed child s mapped few same = record {
  table = record {
    others = λ t ne. let other : (child == t) ≡ false = ground (arith, ne) in rw other refl;
    globals =
        let back : sub32 (add32 s.kernel.task_counter 1) 1 ≡ s.kernel.task_counter = omega arith in
        rw back refl;
  };
  tf = λ t ne. let other : (child == t) ≡ false = ground (arith, ne) in rw other refl;
  esp = λ t ne. let other : (child == t) ≡ false = ground (arith, ne) in rw other refl;
  mm = λ t ne. let other : (child == t) ≡ false = ground (arith, ne) in rw other refl;
  memory = refl;
  mapped = same;
}

-- the address of page `p` of the stack of process `pid`
abbrev pub stack_page : ℕ → ℕ → ℕ
stack_page pid p = add32 (add32 kstack_va_base (mul32 pid kstack_size)) (p * 4096)

-- Why a fork may fail: a caller with no kernel stack, a full table, no memory for the descriptor or
-- for one of the two pages of the stack, or a failed copy of the address space.
abbrev pub cannot_fork : (ℕ → Bool) → (ℕ → Bool) → Ptr → Process → Bool
cannot_fork page copies child s =
    let pid = add32 s.kernel.task_counter 1 in
    s.kernel.kstack s.kernel.current_task == null
    || (leb 127 s.kernel.task_counter
        || (child == null
            || (not (page (stack_page pid 0))
                || (not (page (stack_page pid 1)) || not (copies pid)))))

fork_stack-fails :
    (page : ℕ → Bool) (proc_init : ℕ → ℕ) (copies : ℕ → Bool) (child frame : ℕ) (s : Process)
    → s.kernel.task_counter < 127
    → ((p : ℕ) → p < 2 → s.mapped (stack_page (add32 s.kernel.task_counter 1) p) ≡ false)
    → (not (page (stack_page (add32 s.kernel.task_counter 1) 0))
        || (not (page (stack_page (add32 s.kernel.task_counter 1) 1))
            || not (copies (add32 s.kernel.task_counter 1))))
      ≡ true
    → let r =
        fork_stack page proc_init copies child frame
          (add32 s.kernel.task_counter 1)
          (claimed child s) in
      (r.0 ≡ failure) × Kept child s r.1
unfolding fork_stack map_stack unmap_stack clear_task
fork_stack-fails page proc_init copies child frame s few fresh cannot =
    let pid = add32 s.kernel.task_counter 1 in
    let f0 = fresh 0 (omega arith) in
    let f1 = fresh 1 (omega arith) in
    elim (Bool-cases (page (stack_page pid 0))) [
      | inr bad ↦ rw bad (refl, Kept-claimed child s s.mapped few (λ va. refl))
      | inl ok0 ↦ elim (Bool-cases (page (stack_page pid 1))) [
        | inr bad ↦
            rw (ok0, bad)
              (
                refl,
                Kept-claimed child s
                    (update (update s.mapped (stack_page pid 0) true) (stack_page pid 0) false) few
                    (λ va. ground (arith, f0)),
              )
        | inl ok1 ↦
            let bad : copies pid ≡ false = ground (arith, cannot, ok0, ok1) in
            rw (ok0, ok1, bad)
              (
                refl,
                Kept-claimed child s
                    (update
                      (update
                        (update (update s.mapped (stack_page pid 0) true) (stack_page pid 1) true)
                        (stack_page pid 0) false)
                      (stack_page pid 1) false)
                    few (λ va. ground (arith, f0, f1)),
              )
      ]
    ]

pub pid_alloc-some :
    (k : Kernel)
    → k.task_counter < 127
    → pid_alloc k
      ≡ (some (add32 k.task_counter 1), record k { task_counter = add32 k.task_counter 1 })
unfolding pid_alloc
pid_alloc-some k few = let test : leb 127 k.task_counter ≡ false = ground arith in rw test refl

pub pid_alloc-none : (k : Kernel) → leb 127 k.task_counter ≡ true → pid_alloc k ≡ (none, k)
unfolding pid_alloc
pid_alloc-none k full = rw full refl

-- the table when only the pid is taken
Kept-counted :
    (child : Ptr) (s : Process)
    → s.kernel.task_counter < 127
    → Kept child s (
        release_pid
          (record s { kernel = record s.kernel { task_counter = add32 s.kernel.task_counter 1 } }))
unfolding pid_release
Kept-counted child s few = record {
  table = record {
    others = λ t ne. refl;
    globals =
        let back : sub32 (add32 s.kernel.task_counter 1) 1 ≡ s.kernel.task_counter = omega arith in
        rw back refl;
  };
  tf = λ t ne. refl;
  esp = λ t ne. refl;
  mm = λ t ne. refl;
  memory = refl;
  mapped = λ va. refl;
}

-- When a fork cannot be made, whichever of its steps fails, and neither of the two pages of the
-- stack of the next pid was mapped before, it returns -1: the pid and every page of the stack that
-- was mapped are given back, the globals and the memory are as before, and so are all the fields of
-- every task but the descriptor that goes back to `kmalloc`.
pub task_fork-fails :
    (page : ℕ → Bool) (proc_init : ℕ → ℕ) (copies : ℕ → Bool) (child frame : ℕ) (s : Process)
    → ((p : ℕ) → p < 2 → s.mapped (stack_page (add32 s.kernel.task_counter 1) p) ≡ false)
    → cannot_fork page copies child s ≡ true
    → ((task_fork page proc_init copies child frame s).0 ≡ failure)
      × Kept child s (task_fork page proc_init copies child frame s).1
unfolding task_fork
task_fork-fails page proc_init copies child frame s fresh cannot =
    elim (Bool-cases (s.kernel.kstack s.kernel.current_task == null)) [
      | inl a ↦
          subst (λ (r : ℕ × Process). (r.0 ≡ failure) × Kept child s r.1) (sym (rw a refl))
            (refl, Kept-refl child s)
      | inr a ↦ elim (Bool-cases (leb 127 s.kernel.task_counter)) [
        | inl b ↦
            let full : pid_alloc s.kernel ≡ (none, s.kernel) = pid_alloc-none s.kernel b in
            subst (λ (r : ℕ × Process). (r.0 ≡ failure) × Kept child s r.1)
              (sym (rw (full, a) refl)) (refl, Kept-refl child s)
        | inr b ↦
            let few : s.kernel.task_counter < 127 = ground (arith, b) in
            let got = pid_alloc-some s.kernel few in
            elim (Bool-cases (child == null)) [
              | inl c ↦
                  subst (λ (r : ℕ × Process). (r.0 ≡ failure) × Kept child s r.1)
                    (sym (rw (got, a, c, got) refl)) (refl, Kept-counted child s few)
              | inr c ↦
                  subst (λ (r : ℕ × Process). (r.0 ≡ failure) × Kept child s r.1)
                    (sym (rw (got, a, c, got) refl))
                    (fork_stack-fails page proc_init copies child frame s few fresh
                      (ground (arith, a, b, c, cannot)))
            ]
      ]
    ]
