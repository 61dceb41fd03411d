-- ===== src/Syscalls/Tests.antt =====
-- The theorems on system calls at concrete callers.
use hekaos_series.Base.{
  ℕ, ◌+◌, ◌%◌, min, ◌≡◌, refl, ◌⊎◌, true, false, ◌&&◌, ◌||◌, some, [], ◌∷◌, ◌++◌, arith, leb, ◌==◌,
  if◌then◌else◌,
}
use hekaos_series.Samples.{family}
use hekaos_series.Tasks.{Kernel}
use hekaos_series.Tasks.Chain.{Chain}
use hekaos_series.Streams.{Stream, dump_log}
use hekaos_series.Streams.Log.{Logs}
use hekaos_series.Streams.Tail.{keep_last}
use hekaos_series.Streams.Input.{Holds, take, drop}
use hekaos_series.Syscalls.{
  failure, user_code_base, kernel_virt_base, user_range_ok, load, sys_read, sys_write, sys_kill,
}
use hekaos_series.Syscalls.Range.{user_range_ok-exact}
use hekaos_series.Tasks.Find.{first_with}
use hekaos_series.Syscalls.Permission.{Verdict, sys_kill-Verdict, sys_kill-isolated}
use hekaos_series.Syscalls.Transfer.{sys_write-dump_log, sys_read-Holds}

-- the shell is not root; it and the task 3 belong to user 7
abbrev users : Kernel
users = record family {
  uid = λ i. if i == 2 || i == 3 then 7 else 0;
  euid = λ i. if i == 2 then 7 else 0;
}

users-Chain : Chain users.next users.task_list_head (1 ∷ 2 ∷ 3 ∷ 4 ∷ [])
users-Chain =
    (refl, omega arith, (refl, omega arith, (refl, omega arith, (refl, omega arith, refl))))

-- a task whose queue holds "a"
abbrev waiting : Stream
waiting = record {
  log_buf = 0;
  log_data = λ i. 0;
  log_head = 0;
  log_len = 0;
  in_buf = 0xe000_0000;
  in_data = λ i. 97;
  in_head = 0;
  in_tail = 255;
}

waiting-Logs : Logs [] waiting
waiting-Logs = record {
  allocated = λ pos. absurd (omega arith);
  size = refl;
  bound = omega arith;
  head_bound = omega arith;
  head = λ lt. refl;
  items = λ i lt. absurd (omega arith);
}

waiting-Holds : Holds (97 ∷ []) waiting
unfolding hekaos_series.Streams.Log.get
waiting-Holds = record {
  allocated = λ pos. omega arith;
  bound = omega arith;
  tail_bound = omega arith;
  head = refl;
  items = λ i lt. ground arith;
}

user_range_ok-exact_example :
    user_range_ok 0xbfff_fff0 0x4000_0020
    ≡ (leb user_code_base 0xbfff_fff0 && leb (0xbfff_fff0 + 0x4000_0020) kernel_virt_base)
user_range_ok-exact_example =
    user_range_ok-exact 0xbfff_fff0 0x4000_0020 (omega arith) (omega arith)

sys_kill-Verdict_example :
    Verdict 9 (first_with 2 users (1 ∷ 2 ∷ 3 ∷ 4 ∷ [])) 15 users (sys_kill 9 2 15 users)
sys_kill-Verdict_example =
    sys_kill-Verdict 9 2 15 users (1 ∷ 2 ∷ 3 ∷ 4 ∷ []) (omega arith) users-Chain (omega arith)

-- the shell signals task 3, and task 4 is safe
sys_kill-isolated_example :
    (r : ℕ) × (k' : Kernel) × (sys_kill 9 2 15 users ≡ some (r, k'))
    × (k'.state 4 ≡ users.state 4)
    × (k'.pending 4 ≡ users.pending 4)
unfolding first_with
sys_kill-isolated_example =
    sys_kill-isolated 9 2 15 4 users (1 ∷ 2 ∷ 3 ∷ 4 ∷ []) (omega arith) users-Chain (omega arith)
      (omega arith) refl

sys_write-dump_log_example :
    let (r, s') = sys_write 0xe100_0000 1 0x0900_0000 3 (λ a. a % 256) waiting in
    ((((1 == 1 || 1 == 2) && user_range_ok 0x0900_0000 3) ≡ true)
      × (r ≡ 3)
      × (dump_log s' ≡ keep_last ([] ++ load 3 0x0900_0000 (λ a. a % 256))))
    ⊎ ((((1 == 1 || 1 == 2) && user_range_ok 0x0900_0000 3) ≡ false)
        × (r ≡ failure)
        × (s' ≡ waiting))
sys_write-dump_log_example =
    sys_write-dump_log 0xe100_0000 1 0x0900_0000 3 (λ a. a % 256) [] waiting (omega arith)
      waiting-Logs

sys_read-Holds_example :
    let (r, cs, s') = sys_read 0 0x0900_0000 5 waiting in
    (((0 == 0 && user_range_ok 0x0900_0000 5) ≡ true)
      × (r ≡ min 5 1)
      × (cs ≡ take 5 (97 ∷ []))
      × Holds (drop 5 (97 ∷ [])) s')
    ⊎ (((0 == 0 && user_range_ok 0x0900_0000 5) ≡ false)
        × (r ≡ failure)
        × (cs ≡ [])
        × (s' ≡ waiting))
sys_read-Holds_example = sys_read-Holds 0 0x0900_0000 5 (97 ∷ []) waiting waiting-Holds
