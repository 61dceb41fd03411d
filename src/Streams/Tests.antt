-- ===== src/Streams/Tests.antt =====
-- The theorems on logs and input queues at a concrete task.
use hekaos_series.Base.{
  ℕ, ◌≡◌, refl, some, List, [], ◌∷◌, ◌++◌, arith, ◌≢◌, ◌⊎◌, true, false, none, ◌==◌, if◌then◌else◌,
  update,
}
use hekaos_series.Tasks.{Ptr, null}
use hekaos_series.Tasks.Chain.{Chain}
use hekaos_series.Tasks.Find.{first_with}
use hekaos_series.Samples.{family}
use hekaos_series.Streams.{Stream, log_all, task_dump_log, task_feed}
use hekaos_series.Streams.Log.{Logs}
use hekaos_series.Streams.Tail.{keep_last}
use hekaos_series.Streams.Input.{Holds, take}
use hekaos_series.Streams.Pids.{wrote, cannot_feed, task_dump_log-log_all, task_feed-Holds}

-- a new task
abbrev unused : Stream
unused = record {
  log_buf = 0;
  log_data = λ i. 0;
  log_head = 0;
  log_len = 0;
  in_buf = 0;
  in_data = λ i. 0;
  in_head = 0;
  in_tail = 0;
}

-- "hi"
abbrev greeting : List ℕ
greeting = 104 ∷ 105 ∷ []

unused-Logs : Logs [] unused
unused-Logs = record {
  allocated = λ pos. absurd (omega arith);
  size = refl;
  bound = omega arith;
  head_bound = omega arith;
  head = λ lt. refl;
  items = λ i lt. absurd (omega arith);
}

unused-Holds : Holds [] unused
unused-Holds = record {
  allocated = λ pos. absurd (omega arith);
  bound = omega arith;
  tail_bound = omega arith;
  head = refl;
  items = λ i lt. absurd (omega arith);
}

abbrev unused_everywhere : Ptr → Stream
unused_everywhere t = unused

task_list : Chain family.next family.task_list_head (1 ∷ 2 ∷ 3 ∷ 4 ∷ [])
task_list = (refl, omega arith, (refl, omega arith, (refl, omega arith, (refl, omega arith, refl))))

task_dump_log-log_all_example :
    task_dump_log 9 2 family (update unused_everywhere 3 (log_all 0xe000_0000 greeting unused))
    ≡ some (
        if first_with 2 family (1 ∷ 2 ∷ 3 ∷ 4 ∷ []) == null
        then none
        else some
            (keep_last (wrote 3 greeting (λ t. []) (first_with 2 family (1 ∷ 2 ∷ 3 ∷ 4 ∷ [])))))
task_dump_log-log_all_example =
    task_dump_log-log_all 9 2 0xe000_0000 3 greeting (λ t. []) family unused_everywhere
      (1 ∷ 2 ∷ 3 ∷ 4 ∷ []) task_list (omega arith) (omega arith) (λ t h. unused-Logs)

task_feed-Holds_example :
    let t = first_with 2 family (1 ∷ 2 ∷ 3 ∷ 4 ∷ []) in
    (cannot_feed 0xe000_0000 t unused_everywhere ≡ true)
      × (task_feed 9 2 0xe000_0000 greeting family unused_everywhere
          ≡ some (0xffff_ffff, unused_everywhere))
    ⊎ (cannot_feed 0xe000_0000 t unused_everywhere ≡ false)
      × ((streams' : Ptr → Stream) × (task_feed 9 2 0xe000_0000 greeting family unused_everywhere
            ≡ some (0, streams'))
          × Holds (take 255 ([] ++ (greeting ++ 10 ∷ []))) (streams' t)
          × ((u : Ptr) → u ≢ t → streams' u ≡ unused_everywhere u))
task_feed-Holds_example =
    task_feed-Holds 9 2 0xe000_0000 greeting (λ t. []) family unused_everywhere (1 ∷ 2 ∷ 3 ∷ 4 ∷ [])
      task_list (omega arith) (λ t h. unused-Holds)
