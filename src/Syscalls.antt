-- ===== src/Syscalls.antt =====
-- The system calls of src/cpu/syscall.c that read and write, send and catch signals. A result is the
-- 32-bit pattern of the `int32_t`. `none` is a loop that has not ended within the rounds given. The
-- memory of the caller is a function of the address.
pub mod Range
pub mod Permission
pub mod Transfer
mod Tests
use hekaos_series.Base.{
  ℕ, zero, suc, ◌+◌, ◌^◌, Bool, false, not, ◌&&◌, ◌||◌, Option, none, some, List, [], ◌∷◌, ltb, leb,
  ◌==◌, if◌then◌else◌, ◌>>=◌, length,
}
use hekaos_series.Word.{add32}
use hekaos_series.Tasks.{Ptr, null, Kernel, find_pid}
use hekaos_series.Signals.{nsig, sig_err, out_of_range, kernel_signal_register, kernel_signal_send}
use hekaos_series.Dispatch.{kernel_signal_dispatch}
use hekaos_series.Exit.{do_exit}
use hekaos_series.Streams.{Stream, log_all, task_input_read}

-- -1
abbrev pub failure : ℕ
failure = 0xffff_ffff

-- `USER_CODE_BASE`, `KERNEL_VIRT_BASE`
abbrev pub user_code_base : ℕ
user_code_base = 0x0804_8000

abbrev pub kernel_virt_base : ℕ
kernel_virt_base = 0xc000_0000

-- up to the call of `cpu_park_dying`, which does not return
unfoldable pub sys_exit : ℕ → ℕ → Kernel → Option Kernel
sys_exit fuel status k = do_exit fuel k.current_task status k

unfoldable pub user_range_ok : ℕ → ℕ → Bool
user_range_ok addr count =
    let last = add32 addr count in
    if ltb last addr then false else leb user_code_base addr && leb last kernel_virt_base

-- what a read stores at `buf`, on success
unfoldable pub sys_read : ℕ → ℕ → ℕ → Stream → ℕ × List ℕ × Stream
sys_read fd buf count s =
    let (cs, s') = task_input_read count s in
    if not (fd == 0)
    then (failure, [], s)
    else if not (user_range_ok buf count)
    then (failure, [], s)
    else (length cs, cs, s')

-- the characters `s[i]`, ... of a write
unfoldable pub load : ℕ → ℕ → (ℕ → ℕ) → List ℕ
load zero addr memory = []
load (suc n) addr memory = memory addr ∷ load n (addr + 1) memory

unfoldable pub sys_write : Ptr → ℕ → ℕ → ℕ → (ℕ → ℕ) → Stream → ℕ × Stream
sys_write fresh fd buf count memory s =
    if not (fd == 1) && not (fd == 2)
    then (failure, s)
    else if not (user_range_ok buf count)
    then (failure, s)
    else (count, log_all fresh (load count buf memory) s)

unfoldable pub sys_getuid : Kernel → ℕ
sys_getuid k = k.uid k.current_task

unfoldable pub sys_geteuid : Kernel → ℕ
sys_geteuid k = k.euid k.current_task

unfoldable pub sys_signal : ℕ → ℕ → Kernel → ℕ × Kernel
sys_signal signum handler k =
    if out_of_range signum
    then (sig_err, k)
    else (k.handlers k.current_task signum, kernel_signal_register k.current_task signum handler k)

abbrev pub allowed : Kernel → Ptr → Bool
allowed k target =
    let euid = k.euid k.current_task in euid == 0 || (euid == k.uid target || euid == k.euid target)

-- `sys_kill` from the search on
unfoldable pub kill_target : ℕ → Ptr → ℕ → Kernel → Option (ℕ × Kernel)
kill_target fuel target signum k =
    let sent = kernel_signal_send target signum k in
    let served = kernel_signal_dispatch fuel target sent >>= λ k'. some (0, k') in
    if target == null
    then some (failure, k)
    else if not (allowed k target)
    then some (failure, k)
    else if signum == 0
    then some (0, k)
    else if target == k.current_task
    then served
    else some (0, sent)

unfoldable pub sys_kill : ℕ → ℕ → ℕ → Kernel → Option (ℕ × Kernel)
sys_kill fuel pid signum k =
    let search =
      find_pid fuel k.task_list_head pid k >>= λ target. kill_target fuel target signum k in
    if leb (2 ^ 31) signum || (leb nsig signum && ltb signum (2 ^ 31))
    then some (failure, k)
    else search
