-- ===== src/Dispatch.antt =====
-- Delivery: `sig_default_action` and `kernel_signal_dispatch` of src/signal.c. A kernel handler is
-- code outside of this file: its call is recorded in `ran`, and it is taken to leave the task table
-- alone, as the handlers that the kernel installs do.
pub mod Scan
pub mod Order
pub mod Kill
mod Tests
use hekaos_series.Base.{
  ℕ, zero, suc, ◌+◌, ◌/◌, bit_and, Bool, not, ◌||◌, Option, none, some, ◌∷◌, ◌==◌, if◌then◌else◌,
  ◌>>=◌,
}
use hekaos_series.Word.{not32, add32}
use hekaos_series.Tasks.{Ptr, null, Kernel, TaskState, stopped}
use hekaos_series.Signals.{
  sighup, sigint, sigquit, sigill, sigabrt, sigbus, sigfpe, sigkill, sigsegv, sigpipe, sigalrm,
  sigterm, sigstop, sigtstp, sig_immutable_mask, sig_ign, sig_dfl, is_zombie, is_stopped, set_state,
  discard,
}
use hekaos_series.Exit.{do_exit}

-- the terminate cases of the `switch`
abbrev pub terminates : ℕ → Bool
terminates s =
    s == sighup
    || (s == sigint
        || (s == sigquit
            || (s == sigill
                || (s == sigabrt
                    || (s == sigbus
                        || (s == sigfpe
                            || (s == sigkill
                                || (s == sigsegv
                                    || (s == sigpipe || (s == sigalrm || s == sigterm))))))))))

abbrev pub stops : ℕ → Bool
stops s = s == sigstop || s == sigtstp

unfoldable pub sig_default_action : ℕ → Ptr → ℕ → Kernel → Option Kernel
sig_default_action fuel t signum k =
    if terminates signum
    then do_exit fuel t (128 + signum) k
    else (if stops signum
        then some (if is_zombie (k.state t) then k else set_state t stopped k)
        else some k)

-- `int signum = 1; tmp = bit >> 1; while (tmp) { signum++; tmp >>= 1; }`, for the value `tmp`; the
-- rounds are the bits of a word.
unfoldable pub count_shifts : ℕ → ℕ → ℕ → ℕ
count_shifts zero tmp signum = signum
count_shifts (suc n) tmp signum =
    let rest = count_shifts n (tmp / 2) (signum + 1) in if tmp == 0 then signum else rest

unfoldable pub signum_of : ℕ → ℕ
signum_of mask = count_shifts 32 (mask / 2) 1

-- The rest of the loop body of `kernel_signal_dispatch`, for the one set bit `mask`.
unfoldable pub deliver : ℕ → Ptr → ℕ → Kernel → Option Kernel
deliver fuel t mask k =
    let signum = signum_of mask in
    let cleared = discard t mask k in
    let handler = k.handlers t signum in
    if not (bit_and mask sig_immutable_mask == 0)
    then sig_default_action fuel t signum cleared
    else if handler == sig_ign
    then some cleared
    else if handler == sig_dfl
    then sig_default_action fuel t signum cleared
    else if k.is_userspace t
    then some k
    else some (record cleared { ran = (handler, signum) ∷ cleared.ran })

-- `pending & (~pending + 1)`
abbrev pub lowest_bit : ℕ → ℕ
lowest_bit pending = bit_and pending (add32 (not32 pending) 1)

-- `while (pending)`; `none` is a loop that has not ended within the rounds given.
unfoldable pub dispatch_loop : ℕ → ℕ → Ptr → ℕ → Kernel → Option Kernel
dispatch_loop fuel zero t pending k = none
dispatch_loop fuel (suc n) t pending k =
    let mask = lowest_bit pending in
    let rest = deliver fuel t mask k >>= dispatch_loop fuel n t (bit_and pending (not32 mask)) in
    if pending == 0
    then some k
    else if is_zombie (k.state t) || is_stopped (k.state t)
    then some k
    else rest

-- 33 rounds: one for each bit, and the last test.
unfoldable pub kernel_signal_dispatch : ℕ → Ptr → Kernel → Option Kernel
kernel_signal_dispatch fuel t k = dispatch_loop fuel 33 t (k.pending t) k
