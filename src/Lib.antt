-- ===== src/Lib.antt =====
-- A verification library for the hekaOS kernel: the parts of the C code that are pure bookkeeping over
-- the kernel's own data, as executable definitions, and theorems about them.
--
-- The parts, and the file that models each (a directory of the same name holds its theorems):
--   Frames     src/memory/phys_page_frame.c: the bitmap allocator of physical frames. The state is the
--              memory that `frame_bitmap` names, word by word, and the memory behind it.
--   Frames.Check   `phys_mem_test` of the same file, the boot-time test of the allocator.
--   Tasks      include/task.h and src/task.c: the table of `struct task` with one function of the address
--              for each field, the globals, the tree of tasks, the pid counter.
--   Boot       `task_init` of src/task.c and its boot-time test `task_test`.
--   Signals    include/signal.h and src/signal.c: `kernel_signal_register`, `kernel_signal_send`.
--   Exit       `do_exit` of src/task.c. It reparents in Tasks and sends SIGCHLD by Signals.
--   Dispatch   `kernel_signal_dispatch` of src/signal.c, whose default action calls `do_exit`.
--   SelfTest   `signal_test` of src/signal.c, the boot-time test of the three modules above.
--   Sched      src/sched.c: `pick_next_task`, `schedule`, and the lap tests. `schedule` dispatches the
--              pending signals of the current task first, by Dispatch.
--   Streams    src/task.c: the log and the input queue of a task.
--   Syscalls   src/cpu/syscall.c: the calls exit, read, write, getuid, geteuid, signal and kill, over
--              Exit, Streams, Signals and Dispatch.
--   UserFrames src/signal.c and src/cpu/syscall.c: the signal frame on the user stack, and the return
--              from a handler. The user stack is seen as the frame that lies at each address; frames
--              that overlap are not modelled.
--   KernelHeap src/memory/kmem_dyn_alloc.c: the byte-granular heap. A block header is an address, each of
--              its fields a function of it; `KernelHeap.Tiles` sees the blocks as a list.
--   ChunkPool  src/memory/kmalloc.c: the caches of small chunks, each a free list over pages.
--   Vmalloc    src/memory/vmalloc.c: the zone of whole pages, a bitmap and a list of regions.
--   Fork       `task_fork` of src/task.c and `sys_fork` of src/cpu/syscall.c, over Tasks.
--   Reap       `task_reap` of src/task.c and `sys_wait` of src/cpu/syscall.c, over Tasks and Signals.
--   Printk     src/klib/printk.c: the formatting, the ring of the kernel log, and the walks over it.
-- Base has the shared names, Word the 32-bit arithmetic and its bits, Samples the task table of the
-- tests.
--
-- Numbers are natural numbers; a `uint32_t` keeps its wrap-around, by `add32`, `sub32` and `mul32`, where
-- the code can reach it; an `int` is its 32-bit pattern. A pointer is an address, 0 is null. A loop with
-- a fixed bound is recursion on the rounds left. A loop along a list of tasks or over children takes the
-- rounds that it may run as `fuel`, and gives `none` when they are used up; each theorem on such a
-- function says how many rounds are enough (one more than the list has members), and that it then
-- ends, or that no number is. The loop of `kernel_signal_dispatch` runs at most 33 rounds, one for each
-- bit and the last test.
--
-- A kernel signal handler is code that a caller registers: its calls are recorded, and it is taken
-- to leave the task table alone. The address that `kmem_alloc` returns is an argument of the
-- operations on logs and input queues. Interrupts are taken not to occur inside an operation, but
-- for the sleep of `sys_wait`, where an argument tells what the others do. Paging is seen from
-- outside: whether `alloc_page` succeeds at an address, the directory that `paging_proc_init` makes
-- and whether `paging_fork_copy` succeeds are arguments of the heap, the page zone and the fork; so
-- is the descriptor that `kmalloc` returns. A `kpanic` is `none`. Log output of the modelled
-- functions is left out. The bitmap search of `vmalloc` has the rounds of its fixed bounds.
--
-- Not modelled: the page tables, spawn, the dispatch table of the system
-- calls, the descriptor tables, the terminal and the shell, and the assembly; the boot-time tests of the
-- heaps; and what `task_reap` releases besides the pages of the kernel stack.
pub mod Base
pub mod Word
pub mod Fork
pub mod Frames
pub mod Tasks
pub mod Printk
pub mod Reap
pub mod Signals
pub mod Exit
pub mod Dispatch
pub mod Sched
pub mod Syscalls
pub mod Boot
pub mod ChunkPool
pub mod KernelHeap
pub mod UserFrames
pub mod Vmalloc
pub mod Streams
pub mod SelfTest
pub mod Samples
