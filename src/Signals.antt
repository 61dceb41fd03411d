-- ===== src/Signals.antt =====
-- Signal numbers, dispositions and `kernel_signal_register` and `kernel_signal_send` of
-- include/signal.h and src/signal.c. An `int` is its 32-bit pattern.
pub mod Masks
pub mod Send
mod Tests
use hekaos_series.Base.{
  ℕ, ◌-◌, ◌^◌, bit_and, bit_or, Bool, true, false, not, ◌&&◌, ◌||◌, ltb, leb, ◌==◌, if◌then◌else◌,
  update,
}
use hekaos_series.Word.{not32}
use hekaos_series.Tasks.{Ptr, Kernel, TaskState, runnable, running, blocked, zombie, stopped}

abbrev pub sighup : ℕ
sighup = 1

abbrev pub sigint : ℕ
sigint = 2

abbrev pub sigquit : ℕ
sigquit = 3

abbrev pub sigill : ℕ
sigill = 4

abbrev pub sigtrap : ℕ
sigtrap = 5

abbrev pub sigabrt : ℕ
sigabrt = 6

abbrev pub sigbus : ℕ
sigbus = 7

abbrev pub sigfpe : ℕ
sigfpe = 8

abbrev pub sigkill : ℕ
sigkill = 9

abbrev pub sigusr1 : ℕ
sigusr1 = 10

abbrev pub sigsegv : ℕ
sigsegv = 11

abbrev pub sigusr2 : ℕ
sigusr2 = 12

abbrev pub sigpipe : ℕ
sigpipe = 13

abbrev pub sigalrm : ℕ
sigalrm = 14

abbrev pub sigterm : ℕ
sigterm = 15

abbrev pub sigstkflt : ℕ
sigstkflt = 16

abbrev pub sigchld : ℕ
sigchld = 17

abbrev pub sigcont : ℕ
sigcont = 18

abbrev pub sigstop : ℕ
sigstop = 19

abbrev pub sigtstp : ℕ
sigtstp = 20

-- `NSIG`
abbrev pub nsig : ℕ
nsig = 32

abbrev pub sigmask : ℕ → ℕ
sigmask signum = 2 ^ (signum - 1)

abbrev pub sig_immutable_mask : ℕ
sig_immutable_mask = bit_or (2 ^ 8) (2 ^ 18)

abbrev pub sig_stop_mask : ℕ
sig_stop_mask = bit_or (2 ^ 18) (2 ^ 19)

abbrev pub sig_dfl : ℕ
sig_dfl = 0

abbrev pub sig_ign : ℕ
sig_ign = 1

abbrev pub sig_err : ℕ
sig_err = 0xffff_ffff

abbrev pub is_zombie : TaskState → Bool
is_zombie zombie = true
is_zombie _ = false

abbrev pub is_stopped : TaskState → Bool
is_stopped stopped = true
is_stopped _ = false

abbrev pub is_blocked : TaskState → Bool
is_blocked blocked = true
is_blocked _ = false

-- `signum <= 0 || signum >= NSIG`
abbrev pub out_of_range : ℕ → Bool
out_of_range signum = signum == 0 || leb (2 ^ 31) signum || (leb nsig signum && ltb signum (2 ^ 31))

unfoldable pub signal_from_exception : ℕ → ℕ
signal_from_exception n =
    if n == 0
    then sigfpe
    else if n == 1
    then sigtrap
    else if n == 3
    then sigtrap
    else if n == 4
    then sigsegv
    else if n == 5
    then sigsegv
    else if n == 6
    then sigill
    else if n == 8
    then sigabrt
    else if n == 10
    then sigsegv
    else if n == 11
    then sigbus
    else if n == 12
    then sigbus
    else if n == 13
    then sigsegv
    else if n == 14
    then sigsegv
    else if n == 16
    then sigfpe
    else if n == 17
    then sigbus
    else if n == 19
    then sigfpe
    else 0

unfoldable pub kernel_signal_register : Ptr → ℕ → ℕ → Kernel → Kernel
kernel_signal_register t signum handler k =
    if out_of_range signum || not (bit_and (sigmask signum) sig_immutable_mask == 0)
    then k
    else record k { handlers = update k.handlers t (update (k.handlers t) signum handler) }

-- `t->pending_signals &= ~mask`
abbrev pub discard : Ptr → ℕ → Kernel → Kernel
discard t mask k = record k { pending = update k.pending t (bit_and (k.pending t) (not32 mask)) }

abbrev pub set_state : Ptr → TaskState → Kernel → Kernel
set_state t s k = record k { state = update k.state t s }

-- the job-control interplay at the top of `kernel_signal_send`
unfoldable pub job_control : Ptr → ℕ → Kernel → Kernel
job_control t signum k =
    if signum == sigcont
    then (let k1 = discard t sig_stop_mask k in
        if is_stopped (k1.state t) then set_state t runnable k1 else k1)
    else (if not (bit_and (sigmask signum) sig_stop_mask == 0)
        then discard t (sigmask sigcont) k
        else k)

unfoldable pub kernel_signal_send : Ptr → ℕ → Kernel → Kernel
unfolding job_control
kernel_signal_send t signum k =
    let k1 = job_control t signum k in
    let k2 = record k1 { pending = update k1.pending t (bit_or (k1.pending t) (sigmask signum)) } in
    let woken = set_state t runnable k2 in
    if out_of_range signum
    then k
    else (if is_blocked (k2.state t) || (is_stopped (k2.state t) && signum == sigkill)
        then woken
        else k2)
