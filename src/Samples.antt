-- ===== src/Samples.antt =====
-- A small task table for the tests of the task, signal, exit and scheduler modules: init (1), whose
-- child is a shell (2), whose children are 3 and 4.
use hekaos_series.Base.{◌+◌, ◌-◌, ◌*◌, false, ◌&&◌, ◌||◌, [], ◌==◌, if◌then◌else◌}
use hekaos_series.Tasks.{Kernel, runnable, running, blocked}
use hekaos_series.Sched.{Machine}

abbrev pub family : Kernel
family = record {
  state = λ i. if i == 2 then running else if i == 4 then blocked else runnable;
  pid = λ i. i - 1;
  parent = λ i. if i == 2 then 1 else if i == 3 || i == 4 then 2 else 0;
  children = λ i. if i == 1 then 2 else if i == 2 then 3 else 0;
  sibling = λ i. if i == 3 then 4 else 0;
  kstack = λ i. 0xc000_0000 + i * 8192;
  next = λ i. if i == 1 then 2 else if i == 2 then 3 else if i == 3 then 4 else 0;
  quantum = λ i. 5;
  time_left = λ i. 1;
  exit_code = λ i. 0;
  uid = λ i. 0;
  euid = λ i. 0;
  pending = λ i. 0;
  handlers = λ i j. if i == 2 && j == 10 then 0x10_2000 else 0;
  is_userspace = λ i. i == 3;
  task_counter = 3;
  task_list_head = 1;
  current_task = 2;
  init_proc = 1;
  init_task = 9;
  kthreadd_task = 0;
  ran = [];
}

-- the shell has SIGUSR1 and SIGKILL pending
abbrev pub signalled : Kernel
signalled = record family { pending = λ i. if i == 2 then 0x300 else 0 }

abbrev pub machine : Machine
machine = record {
  kernel = family;
  need_resched = 0;
  next_task = 0;
  lap_anchor = 3;
  lap_num = 2;
  blocked_marker = false;
  unblocked_marker = false;
  esp0 = 0;
}
