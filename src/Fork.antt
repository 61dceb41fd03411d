-- ===== src/Fork.antt =====
-- `task_fork` of src/task.c. What `kmalloc` returned, the virtual addresses at which `alloc_page`
-- succeeds, the page directory that `paging_proc_init` makes and whether `paging_fork_copy` succeeds
-- are arguments. A result is the 32-bit pattern of the `int32_t`.
pub mod Fails
pub mod Child
mod Tests
use hekaos_series.Base.{
  ℕ, zero, suc, ◌+◌, ◌-◌, ◌*◌, ◌/◌, ◌%◌, ◌^◌, ◌≤◌, ◌<◌, min, max, bit_and, bit_or, ◌≡◌, refl, sym,
  ap, ◌∙◌, ◌≢◌, ◌↔◌, ◌⊎◌, inl, inr, Bool, true, false, not, ◌&&◌, ◌||◌, Option, none, some, List,
  [], ◌∷◌, ◌++◌, arith, ltb, leb, ◌==◌, if◌then◌else◌, Bool-cases, ==_refl, not-not, Option-cases,
  update_self, expect, ◌>>=◌, update, length, length-append,
}
use hekaos_series.Word.{add32, sub32, mul32, not32}
use hekaos_series.Tasks.{
  Ptr, null, Kernel, runnable, task_add_child, pid_alloc, pid_release, max_proc,
}
use hekaos_series.Signals.{nsig}
use hekaos_series.Syscalls.{failure}
use hekaos_series.Sched.{kstack_pages}

-- `struct mm_struct`
pub record Mm : Type 0 where
  pub pgdir : ℕ
  pub code_start : ℕ
  pub code_end : ℕ
  pub data_start : ℕ
  pub data_end : ℕ
  pub stack_top : ℕ
  pub heap_brk : ℕ

-- The task table with the `thread` and `mm` fields of the tasks, the bytes of the memory, and the
-- pages of kernel stacks that are mapped.
pub record Process : Type 0 where
  pub kernel : Kernel
  pub tf : Ptr → ℕ
  pub esp : Ptr → ℕ
  pub mm : Ptr → Mm
  pub memory : ℕ → ℕ
  pub mapped : ℕ → Bool

-- `KSTACK_VA_BASE`, and `KSTACK_PAGES * PAGE_SIZE`
abbrev pub kstack_va_base : ℕ
kstack_va_base = 0xef00_0000

abbrev pub kstack_size : ℕ
kstack_size = kstack_pages * 4096

abbrev pub zero_mm : Mm
zero_mm = record {
  pgdir = 0;
  code_start = 0;
  code_end = 0;
  data_start = 0;
  data_end = 0;
  stack_top = 0;
  heap_brk = 0;
}

-- `memset (child, 0, sizeof (struct task))`
unfoldable pub clear_task : Ptr → Process → Process
clear_task child s =
    let k = s.kernel in
    record s {
      tf = update s.tf child 0;
      esp = update s.esp child 0;
      mm = update s.mm child zero_mm;
      kernel = record k {
        state = update k.state child runnable;
        pid = update k.pid child 0;
        parent = update k.parent child null;
        children = update k.children child null;
        sibling = update k.sibling child null;
        kstack = update k.kstack child 0;
        next = update k.next child null;
        quantum = update k.quantum child 0;
        time_left = update k.time_left child 0;
        exit_code = update k.exit_code child 0;
        uid = update k.uid child 0;
        euid = update k.euid child 0;
        pending = update k.pending child 0;
        handlers = update k.handlers child (λ i. 0);
        is_userspace = update k.is_userspace child false;
      };
    }

-- `free_page` at `n` pages of the stack at `base`, from page `p` on
unfoldable pub unmap_stack : ℕ → ℕ → ℕ → Process → Process
unmap_stack zero p base s = s
unmap_stack (suc n) p base s =
    unmap_stack n (p + 1) base (record s { mapped = update s.mapped (add32 base (p * 4096)) false })

-- `alloc_page` at each page; at the first that fails, those before it are freed
unfoldable pub map_stack : ℕ → ℕ → ℕ → (ℕ → Bool) → Process → Bool × Process
map_stack zero p base page s = (true, s)
map_stack (suc n) p base page s =
    let va = add32 base (p * 4096) in
    let rest = map_stack n (p + 1) base page (record s { mapped = update s.mapped va true }) in
    if page va then rest else (false, unmap_stack p 0 base s)

-- `for (b = ...) dst[b] = src[b];`
unfoldable pub copy_bytes : ℕ → ℕ → ℕ → ℕ → (ℕ → ℕ) → ℕ → ℕ
copy_bytes zero b src dst memory = memory
copy_bytes (suc n) b src dst memory =
    copy_bytes n (b + 1) src dst (update memory (dst + b) (memory (src + b)))

-- a store of the word 0
abbrev pub store_zero : ℕ → (ℕ → ℕ) → ℕ → ℕ
store_zero a memory = update (update (update (update memory a 0) (a + 1) 0) (a + 2) 0) (a + 3) 0

-- `for (s = 0; s < NSIG; s++)`: the handlers of the parent
unfoldable pub copy_handlers : ℕ → ℕ → (ℕ → ℕ) → (ℕ → ℕ) → ℕ → ℕ
copy_handlers zero i from to = to
copy_handlers (suc n) i from to = copy_handlers n (i + 1) from (update to i (from i))

-- the copy of the stack, and `child_tf->eax = 0`; `eax` stands 32 bytes into a `struct trap_frame`
unfoldable pub copy_stack : ℕ → ℕ → ℕ → (ℕ → ℕ) → ℕ → ℕ
copy_stack src dst child_tf memory =
    store_zero (child_tf + 32) (copy_bytes kstack_size 0 src dst memory)

-- from `child->state = TASK_RUNNABLE` to the end: what the child inherits, and its place in the lists
unfoldable pub adopt : Ptr → ℕ → ℕ → ℕ → Process → Process
adopt child kstack_va pgdir child_tf s =
    let k = s.kernel in
    let cur = k.current_task in
    let k1 : Kernel = record k {
      state = update k.state child runnable;
      kstack = update k.kstack child kstack_va;
      parent = update k.parent child cur;
      uid = update k.uid child (k.uid cur);
      euid = update k.euid child (k.euid cur);
      quantum = update k.quantum child (k.quantum cur);
      time_left = update k.time_left child (k.quantum cur);
      is_userspace = update k.is_userspace child (k.is_userspace cur);
      handlers = update k.handlers child (copy_handlers nsig 0 (k.handlers cur) (k.handlers child));
    } in
    let k2 = task_add_child cur child k1 in
    record s {
      tf = update s.tf child child_tf;
      esp = update s.esp child child_tf;
      mm = update s.mm child (record (s.mm cur) { pgdir = pgdir });
      kernel = record k2 { next = update k2.next child k2.task_list_head; task_list_head = child };
    }

-- `child->pid = pid`
abbrev pub number : Ptr → ℕ → Process → Process
number child pid s = record s { kernel = record s.kernel { pid = update s.kernel.pid child pid } }

abbrev pub release_pid : Process → Process
release_pid s = record s { kernel = pid_release s.kernel }

-- from the stack of the new task on
unfoldable pub fork_stack : (ℕ → Bool) → (ℕ → ℕ) → (ℕ → Bool) → Ptr → ℕ → ℕ → Process → ℕ × Process
fork_stack page proc_init copies child frame pid s =
    let cur = s.kernel.current_task in
    let kstack_va = add32 kstack_va_base (mul32 pid kstack_size) in
    let src = s.kernel.kstack cur in
    let child_tf = sub32 (add32 kstack_va kstack_size) (sub32 (add32 src kstack_size) frame) in
    let (mapped, s1) = map_stack kstack_pages 0 kstack_va page s in
    let s2 : Process = record s1 { memory = copy_stack src kstack_va child_tf s1.memory } in
    if not mapped
    then (failure, release_pid s1)
    else if not (copies pid)
    then (failure, release_pid (unmap_stack kstack_pages 0 kstack_va s1))
    else (pid, adopt child kstack_va (proc_init pid) child_tf s2)

unfoldable pub task_fork : (ℕ → Bool) → (ℕ → ℕ) → (ℕ → Bool) → Ptr → ℕ → Process → ℕ × Process
task_fork page proc_init copies child frame s =
    let (got, k1) = pid_alloc s.kernel in
    let s1 : Process = record s { kernel = k1 } in
    if s.kernel.kstack s.kernel.current_task == null then (failure, s) else elim got [
      | none ↦ (failure, s)
      | some pid ↦
          (if child == null
            then (failure, release_pid s1)
            else fork_stack page proc_init copies child frame pid
                (number child pid (clear_task child s1)))
    ]

-- `sys_fork` of src/cpu/syscall.c
unfoldable pub sys_fork : (ℕ → Bool) → (ℕ → ℕ) → (ℕ → Bool) → Ptr → Process → ℕ × Process
sys_fork page proc_init copies child s =
    task_fork page proc_init copies child (s.tf s.kernel.current_task) s
