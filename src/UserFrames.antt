-- ===== src/UserFrames.antt =====
-- Delivery of a signal to user mode: `setup_user_sigframe` and `signal_check_and_deliver` of
-- src/signal.c, and `sys_sigreturn` of src/cpu/syscall.c. The user stack is seen as the signal frame
-- that lies at each address.
pub mod Choice
pub mod Return
mod Tests
use hekaos_series.Base.{
  ℕ, zero, suc, ◌-◌, ◌^◌, ◌/◌, ◌%◌, ◌||◌, bit_and, bit_or, not, Option, none, some, List, [], ◌∷◌,
  ◌==◌, if◌then◌else◌, update, ◌+◌, ◌*◌, ◌≤◌, ◌<◌, min, max, ◌≡◌, refl, sym, ap, ◌∙◌, ◌≢◌, ◌↔◌, ◌⊎◌,
  inl, inr, Bool, true, false, ◌&&◌, ◌++◌, arith, ltb, leb, Bool-cases, ==_refl, not-not,
  Option-cases, update_self, expect, ◌>>=◌, length, length-append,
}
use hekaos_series.Word.{add32, sub32, not32}
use hekaos_series.Tasks.{Ptr, Kernel}
use hekaos_series.Signals.{discard, sig_immutable_mask, sig_dfl, sig_ign}
use hekaos_series.Dispatch.{lowest_bit, signum_of}

-- `struct trap_frame`
pub record TrapFrame : Type 0 where
  pub ds : ℕ
  pub edi : ℕ
  pub esi : ℕ
  pub ebp : ℕ
  pub esp_saved : ℕ
  pub ebx : ℕ
  pub edx : ℕ
  pub ecx : ℕ
  pub eax : ℕ
  pub int_no : ℕ
  pub err_code : ℕ
  pub eip : ℕ
  pub cs : ℕ
  pub eflags : ℕ
  pub user_esp : ℕ
  pub user_ss : ℕ

-- `struct sigframe`
pub record SigFrame : Type 0 where
  pub pretcode : ℕ
  pub sig : ℕ
  pub saved : TrapFrame
  pub trampoline : List ℕ

-- its size, and the offset of `trampoline` in it
abbrev pub sigframe_size : ℕ
sigframe_size = 80

abbrev pub trampoline_offset : ℕ
trampoline_offset = 72

-- `SYS_SIGRETURN`
abbrev pub sys_sigreturn_number : ℕ
sys_sigreturn_number = 119

-- where the signal frame goes
unfoldable pub frame_place : ℕ → ℕ
frame_place user_esp = sub32 (bit_and (sub32 user_esp sigframe_size) (not32 0xf)) 4

-- the bytes of `mov $SYS_SIGRETURN, %eax; int $0x80; nop`
abbrev pub return_code : List ℕ
return_code =
    0xb8
    ∷ sys_sigreturn_number % 256
    ∷ sys_sigreturn_number / 2 ^ 8 % 256
    ∷ sys_sigreturn_number / 2 ^ 16 % 256
    ∷ sys_sigreturn_number / 2 ^ 24 % 256
    ∷ 0xcd
    ∷ 0x80
    ∷ 0x90
    ∷ []

unfoldable pub setup_user_sigframe : TrapFrame → (ℕ → SigFrame) → ℕ → ℕ → TrapFrame × (ℕ → SigFrame)
setup_user_sigframe frame stack signum handler =
    let usp = frame_place frame.user_esp in
    let sf : SigFrame = record {
      pretcode = add32 usp trampoline_offset;
      sig = signum;
      saved = frame;
      trampoline = return_code;
    } in
    (
      record frame {
        eip = handler;
        user_esp = usp;
        eflags = bit_and frame.eflags (not32 (2 ^ 10));
      },
      update stack usp sf,
    )

-- the loop of `signal_check_and_deliver`; `none` is a loop that has not ended
unfoldable pub user_loop :
    ℕ → ℕ → TrapFrame → (ℕ → SigFrame) → Kernel → Option (Kernel × TrapFrame × (ℕ → SigFrame))
user_loop zero pending frame stack k = none
user_loop (suc n) pending frame stack k =
    let mask = lowest_bit pending in
    let signum = signum_of mask in
    let handler = k.handlers k.current_task signum in
    let rest = user_loop n (bit_and pending (not32 mask)) frame stack k in
    let (frame', stack') = setup_user_sigframe frame stack signum handler in
    if pending == 0
    then some (k, frame, stack)
    else if not (bit_and mask sig_immutable_mask == 0)
    then rest
    else if handler == sig_dfl || handler == sig_ign
    then rest
    else some (discard k.current_task mask k, frame', stack')

unfoldable pub signal_check_and_deliver :
    TrapFrame → (ℕ → SigFrame) → Kernel → Option (Kernel × TrapFrame × (ℕ → SigFrame))
signal_check_and_deliver frame stack k =
    if not (bit_and frame.cs 3 == 3)
    then some (k, frame, stack)
    else user_loop 33 (k.pending k.current_task) frame stack k

-- The result, and the frame that is restored.
unfoldable pub sys_sigreturn : TrapFrame → (ℕ → SigFrame) → ℕ × TrapFrame
sys_sigreturn frame stack =
    let saved = (stack (sub32 frame.user_esp 4)).saved in
    (
      saved.eax,
      record saved {
        cs = 0x23;
        user_ss = 0x2b;
        ds = 0x2b;
        eflags = bit_or (bit_and saved.eflags 0xcd5) 0x202;
      },
    )
