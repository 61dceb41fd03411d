-- ===== src/Fork/Child.antt =====
-- What a fork that succeeds makes: the child, its stack and its place in the lists.
use hekaos_series.Base.{ℕ, ◌+◌, ◌-◌, ◌<◌, ◌≡◌, ◌&&◌, List, ◌∷◌, ltb, leb, if◌then◌else◌}
use hekaos_series.Word.{add32, mul32}
use hekaos_series.Tasks.{Ptr, null, runnable}
use hekaos_series.Fork.{Process, kstack_va_base, kstack_size}
use hekaos_series.Signals.{nsig}
use hekaos_series.Tasks.Chain.{Chain}

-- The new process `pid`, whose parent is the task that runs in `s`.
pub record Born (child pid : ℕ) (proc_init : ℕ → ℕ) (cs ts : List Ptr) (s s' : Process)
    : Type 0 where
  pub number : s'.kernel.pid child ≡ pid
  pub counter : s'.kernel.task_counter ≡ pid
  pub state : s'.kernel.state child ≡ runnable
  pub parent : s'.kernel.parent child ≡ s.kernel.current_task
  pub uid : s'.kernel.uid child ≡ s.kernel.uid s.kernel.current_task
  pub euid : s'.kernel.euid child ≡ s.kernel.euid s.kernel.current_task
  pub ring : s'.kernel.is_userspace child ≡ s.kernel.is_userspace s.kernel.current_task
  pub pending : s'.kernel.pending child ≡ 0
  pub handlers :
      (i : ℕ) → i < nsig → s'.kernel.handlers child i ≡ s.kernel.handlers s.kernel.current_task i
  pub no_children : s'.kernel.children child ≡ null
  pub siblings : Chain s'.kernel.sibling (s'.kernel.children s.kernel.current_task) (child ∷ cs)
  pub queue : Chain s'.kernel.next s'.kernel.task_list_head (child ∷ ts)
  pub pgdir : (s'.mm child).pgdir ≡ proc_init pid

-- The stack at `va` is that at `src` byte by byte, but for the result register of the trap frame,
-- which is 0; and no byte outside of it changes.
abbrev pub stack_byte : ℕ → ℕ → ℕ → (ℕ → ℕ) → ℕ → ℕ
stack_byte src va frame memory a =
    if leb va a && ltb a (va + kstack_size)
    then (if leb (frame + 32) (src + (a - va)) && ltb (src + (a - va)) (frame + 36)
        then 0
        else memory (src + (a - va)))
    else memory a

-- the new pid, the kernel stack of the caller, and that of the child
abbrev pub new_pid : Process → ℕ
new_pid s = add32 s.kernel.task_counter 1

abbrev pub caller_stack : Process → ℕ
caller_stack s = s.kernel.kstack s.kernel.current_task

abbrev pub new_stack : Process → ℕ
new_stack s = add32 kstack_va_base (mul32 (new_pid s) kstack_size)
