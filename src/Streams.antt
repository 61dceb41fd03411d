-- ===== src/Streams.antt =====
-- The output log and the input queue of a task in src/task.c: two ring buffers that the kernel
-- allocates when they are first needed. A character is its code; `fresh` is the address that
-- `kmem_alloc` returns in the call, null if it fails.
pub mod Log
pub mod Tail
pub mod Input
pub mod Pids
mod Tests
use hekaos_series.Base.{
  ℕ, zero, suc, ◌+◌, ◌-◌, bit_and, ◌||◌, Option, none, some, List, [], ◌∷◌, ltb, ◌==◌,
  if◌then◌else◌, update, ◌>>=◌,
}
use hekaos_series.Word.{add32}
use hekaos_series.Tasks.{Ptr, null, Kernel, find_pid}

-- `TASK_LOG_SIZE`, `TASK_INPUT_SIZE`
abbrev pub log_size : ℕ
log_size = 1024

abbrev pub input_size : ℕ
input_size = 256

-- The fields of `struct task` for the two buffers; `log_data` and `in_data` are what lies at
-- `log_buf` and `in_buf`.
pub record Stream : Type 0 where
  pub log_buf : Ptr
  pub log_data : ℕ → ℕ
  pub log_head : ℕ
  pub log_len : ℕ
  pub in_buf : Ptr
  pub in_data : ℕ → ℕ
  pub in_head : ℕ
  pub in_tail : ℕ

unfoldable pub task_log_putchar : Ptr → ℕ → Stream → Stream
task_log_putchar fresh c s =
    let buf = if s.log_buf == null then fresh else s.log_buf in
    let logged = record s {
      log_buf = buf;
      log_data = update s.log_data s.log_head c;
      log_head = bit_and (add32 s.log_head 1) (log_size - 1);
      log_len = if ltb s.log_len log_size then s.log_len + 1 else s.log_len;
    } in
    if buf == null then s else logged

-- the loop of `sys_write`
unfoldable pub log_all : Ptr → List ℕ → Stream → Stream
log_all fresh [] s = s
log_all fresh (c ∷ cs) s = log_all fresh cs (task_log_putchar fresh c s)

-- the loop of `task_dump_log`, as the characters that it prints
pub dump_from : ℕ → ℕ → ℕ → Stream → List ℕ
dump_from zero start i s = []
dump_from (suc n) start i s =
    s.log_data (bit_and (add32 start i) (log_size - 1)) ∷ dump_from n start (i + 1) s

-- `task_dump_log`, once the task is found
unfoldable pub dump_log : Stream → List ℕ
dump_log s =
    let start = if ltb s.log_len log_size then 0 else s.log_head in
    if s.log_buf == null || s.log_len == 0 then [] else dump_from s.log_len start 0 s

-- The characters stored in `dst`, whose number is the result; the argument is `count - n`.
unfoldable pub task_input_read : ℕ → Stream → List ℕ × Stream
task_input_read zero s = ([], s)
task_input_read (suc n) s =
    let taken = record s { in_tail = bit_and (add32 s.in_tail 1) (input_size - 1) } in
    let (cs, s') = task_input_read n taken in
    if s.in_buf == null || s.in_head == s.in_tail then ([], s) else (s.in_data s.in_tail ∷ cs, s')

unfoldable pub task_input_push : ℕ → Stream → Stream
task_input_push c s =
    let next = bit_and (add32 s.in_head 1) (input_size - 1) in
    if next == s.in_tail
    then s
    else record s { in_data = update s.in_data s.in_head c; in_head = next }

-- `for (i = 0; s[i] != '\0'; i++)`, over the characters before the terminator
unfoldable pub push_all : List ℕ → Stream → Stream
push_all [] s = s
push_all (c ∷ cs) s = push_all cs (task_input_push c s)

-- `task_feed`, once the task is found: `none` is -1; the string is followed by a line feed.
unfoldable pub feed : Ptr → List ℕ → Stream → Option Stream
feed fresh cs s =
    let buf = if s.in_buf == null then fresh else s.in_buf in
    let fed = task_input_push 10 (push_all cs (record s { in_buf = buf })) in
    if buf == null then none else some fed

-- `task_dump_log`: the characters printed, or `none` for the message that there is no such pid; the
-- outer `none` is a search that has not ended. `streams` has the buffers of each task.
unfoldable pub task_dump_log : ℕ → ℕ → Kernel → (Ptr → Stream) → Option (Option (List ℕ))
task_dump_log fuel pid k streams = find_pid fuel k.task_list_head pid k >>= λ t.
    some (if t == null then none else some (dump_log (streams t)))

-- `task_feed`: its result and the buffers after it
unfoldable pub task_feed :
    ℕ → ℕ → Ptr → List ℕ → Kernel → (Ptr → Stream) → Option (ℕ × (Ptr → Stream))
task_feed fuel pid fresh cs k streams = find_pid fuel k.task_list_head pid k >>= λ t.
    some (if t == null then (0xffff_ffff, streams) else store t (feed fresh cs (streams t)))
  where
    store : Ptr → Option Stream → ℕ × (Ptr → Stream)
    store t none = (0xffff_ffff, streams)
    store t (some s) = (0, update streams t s)
