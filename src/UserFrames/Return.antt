-- ===== src/UserFrames/Return.antt =====
-- What a signal handler returns to.
use hekaos_series.Base.{ℕ, bit_and, bit_or, ◌≡◌, ap, ◌∙◌, arith}
use hekaos_series.Word.{add32, sub32}
use hekaos_series.UserFrames.{TrapFrame, SigFrame, frame_place, setup_user_sigframe, sys_sigreturn}

-- After `setup_user_sigframe` and a handler that leaves the signal frame alone, the `ret` of the handler
-- has popped the return address, and `sys_sigreturn` restores the interrupted registers: its result is
-- the `eax` of before, and the frame is the one of before, but for the user segments, which it sets,
-- and the flags, of which it keeps the user's and sets interrupts.
pub sys_sigreturn-setup_user_sigframe :
    (frame now : TrapFrame) (stack stack' : ℕ → SigFrame) (signum handler : ℕ)
    → let (entered, written) = setup_user_sigframe frame stack signum handler in
      (stack' entered.user_esp ≡ written entered.user_esp)
      → now.user_esp ≡ add32 entered.user_esp 4
      → sys_sigreturn now stack' ≡ (
        frame.eax,
        record frame {
          cs = 0x23;
          user_ss = 0x2b;
          ds = 0x2b;
          eflags = bit_or (bit_and frame.eflags 0xcd5) 0x202;
        },
      )
unfolding sys_sigreturn setup_user_sigframe frame_place
sys_sigreturn-setup_user_sigframe frame now stack stack' signum handler kept popped =
    let usp = (setup_user_sigframe frame stack signum handler).0.user_esp in
    let written = (setup_user_sigframe frame stack signum handler).1 usp in
    let place : sub32 now.user_esp 4 ≡ usp = omega (arith, popped) in
    let found : stack' (sub32 now.user_esp 4) ≡ written = ap stack' place ∙ kept in
    let saved : (stack' (sub32 now.user_esp 4)).saved ≡ frame =
      ap (λ (f : SigFrame). f.saved) found ∙ ground arith in
    ap
      (λ (f : TrapFrame). (
        f.eax,
        record f {
          cs = 0x23;
          user_ss = 0x2b;
          ds = 0x2b;
          eflags = bit_or (bit_and f.eflags 0xcd5) 0x202;
        },
      ))
      saved
