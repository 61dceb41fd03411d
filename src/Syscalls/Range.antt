-- ===== src/Syscalls/Range.antt =====
-- `user_range_ok`: the buffers that a system call accepts.
use hekaos_series.Base.{ℕ, ◌+◌, ◌^◌, ◌<◌, ◌≡◌, ◌&&◌, arith, leb}
use hekaos_series.Syscalls.{user_range_ok, user_code_base, kernel_virt_base}

-- For 32-bit arguments, `user_range_ok` accepts exactly the buffers that lie between the start of the
-- user code and the kernel, with no wrap at 2 ^ 32.
pub user_range_ok-exact :
    (addr count : ℕ)
    → addr < 2 ^ 32
    → count < 2 ^ 32
    → user_range_ok addr count ≡ (leb user_code_base addr && leb (addr + count) kernel_virt_base)
unfolding user_range_ok
user_range_ok-exact addr count ha hc = ground arith
