-- ===== src/UserFrames/Tests.antt =====
-- The theorems on user signal frames at a concrete frame.
use hekaos_series.Base.{ℕ, bit_and, bit_or, ◌≡◌, refl, some, [], arith, ◌==◌, if◌then◌else◌}
use hekaos_series.Word.{add32}
use hekaos_series.Samples.{signalled}
use hekaos_series.UserFrames.{
  TrapFrame, SigFrame, setup_user_sigframe, sys_sigreturn, signal_check_and_deliver,
}
use hekaos_series.UserFrames.Return.{sys_sigreturn-setup_user_sigframe}
use hekaos_series.UserFrames.Choice.{choose, signal_check_and_deliver-choose}

-- a program in user mode
abbrev running_program : TrapFrame
running_program = record {
  ds = 0x2b;
  edi = 1;
  esi = 2;
  ebp = 3;
  esp_saved = 4;
  ebx = 5;
  edx = 6;
  ecx = 7;
  eax = 8;
  int_no = 32;
  err_code = 0;
  eip = 0x0804_8010;
  cs = 0x23;
  eflags = 0x202;
  user_esp = 0xbfff_ff00;
  user_ss = 0x2b;
}

abbrev no_frame : SigFrame
no_frame = record { pretcode = 0; sig = 0; saved = running_program; trampoline = [] }

-- the stack after the delivery of SIGUSR1
abbrev delivered : TrapFrame × (ℕ → SigFrame)
delivered = setup_user_sigframe running_program (λ a. no_frame) 10 0x0804_9000

sys_sigreturn-setup_user_sigframe_example :
    sys_sigreturn
      (record running_program { user_esp = add32 delivered.0.user_esp 4; eax = 119 })
      delivered.1
    ≡ (
      8,
      record running_program {
        cs = 0x23;
        user_ss = 0x2b;
        ds = 0x2b;
        eflags = bit_or (bit_and 0x202 0xcd5) 0x202;
      },
    )
sys_sigreturn-setup_user_sigframe_example =
    sys_sigreturn-setup_user_sigframe running_program
      (record running_program { user_esp = add32 delivered.0.user_esp 4; eax = 119 })
      (λ a. no_frame) delivered.1 10 0x0804_9000 refl refl

signal_check_and_deliver-choose_example :
    signal_check_and_deliver running_program (λ a. no_frame) signalled
    ≡ some (
        if bit_and 0x23 3 == 3
        then choose 32 0 0x300 running_program (λ a. no_frame) signalled
        else (signalled, running_program, λ a. no_frame))
signal_check_and_deliver-choose_example =
    signal_check_and_deliver-choose running_program (λ a. no_frame) signalled (omega arith)
