-- ===== src/Streams/Pids.antt =====
-- `task_dump_log` and `task_feed` find a task by its pid.
use hekaos_series.Base.{
  ℕ, ◌<◌, ◌≡◌, refl, ◌≢◌, ◌⊎◌, inl, inr, Bool, true, false, ◌||◌, none, some, List, [], ◌∷◌, ◌++◌,
  arith, ◌==◌, if◌then◌else◌, Bool-cases, update_self, update, length, ap, ==_refl,
}
use hekaos_series.Tasks.{Ptr, null, Kernel}
use hekaos_series.Tasks.Chain.{has, Chain}
use hekaos_series.Tasks.Find.{first_with, find_pid-first_with, has-first_with}
use hekaos_series.Streams.{Stream, log_all, dump_log, feed, task_dump_log, task_feed}
use hekaos_series.Streams.Log.{Logs, dump_log-Logs}
use hekaos_series.Streams.Tail.{keep_last, keep_last_short, dump_log-log_all}
use hekaos_series.Streams.Input.{Holds, take, feed-Holds}

-- the log of `u` once the task `a` has written `cs`
abbrev pub wrote : Ptr → List ℕ → (Ptr → List ℕ) → Ptr → List ℕ
wrote a cs logs u = if u == a then logs u ++ cs else logs u

dump_log-wrote :
    (fresh a t : Ptr) (cs : List ℕ) (logs : Ptr → List ℕ) (streams : Ptr → Stream)
    → fresh ≢ null
    → Logs (logs t) (streams t)
    → dump_log (update streams a (log_all fresh cs (streams a)) t) ≡ keep_last (wrote a cs logs t)
dump_log-wrote fresh a t cs logs streams ok h = elim (Bool-cases (t == a)) [
  | inl y ↦
      let same : a ≡ t = ground (arith, y) in
      rw (same, update_self streams t (log_all fresh cs (streams t)))
        (rw (==_refl t) (dump_log-log_all fresh cs (logs t) (streams t) ok h))
  | inr n ↦
      let kept : update streams a (log_all fresh cs (streams a)) t ≡ streams t =
        ground (arith, n) in
      rw (kept, n, keep_last_short (logs t) h.bound) (dump_log-Logs (logs t) (streams t) h)
]

-- Given the null-terminated task list `ts`, more rounds than it has tasks, the logs of its tasks
-- and a `kmem_alloc` that does not fail: once a task `a` has written the characters `cs`,
-- `task_dump_log` prints the last 1024 characters, all of them if there are no more, of the log of
-- the first task with the pid, behind which the characters of `cs` stand if that task is `a`, and
-- only then. If no task has the pid, it prints no log but says so.
pub task_dump_log-log_all :
    (fuel pid : ℕ) (fresh a : Ptr) (cs : List ℕ) (logs : Ptr → List ℕ) (k : Kernel)
    (streams : Ptr → Stream) (ts : List Ptr)
    → Chain k.next k.task_list_head ts
    → length ts < fuel
    → fresh ≢ null
    → ((t : Ptr) → has t ts ≡ true → Logs (logs t) (streams t))
    → task_dump_log fuel pid k (update streams a (log_all fresh cs (streams a)))
      ≡ some (
          if first_with pid k ts == null
          then none
          else some (keep_last (wrote a cs logs (first_with pid k ts))))
unfolding task_dump_log
task_dump_log-log_all fuel pid fresh a cs logs k streams ts chain enough ok h =
    let found = find_pid-first_with fuel k.task_list_head pid k ts chain enough in
    let t = first_with pid k ts in
    elim (Bool-cases (t == null)) [
      | inl nobody ↦ rw (found, nobody) refl
      | inr there ↦
          let listed = has-first_with pid k ts (ground (arith, there)) in
          rw (found, there)
            (ap (λ l. some (some l)) (dump_log-wrote fresh a t cs logs streams ok (h t listed)))
    ]

-- no task to feed, or no memory for its queue
abbrev pub cannot_feed : Ptr → Ptr → (Ptr → Stream) → Bool
cannot_feed fresh t streams =
    t == null || (if (streams t).in_buf == null then fresh else (streams t).in_buf) == null

-- Given the null-terminated task list `ts`, more rounds than it has tasks and the input queues of its
-- tasks: `task_feed` returns -1 and changes nothing if no task has the pid, or its queue is not yet
-- allocated and `kmem_alloc` fails. Otherwise it returns 0: the queue of the first task with the pid
-- is the first 255 characters of what it was, the string and a line feed, so that what is behind them
-- is dropped, and no other task's buffers change.
pub task_feed-Holds :
    (fuel pid : ℕ) (fresh : Ptr) (cs : List ℕ) (queues : Ptr → List ℕ) (k : Kernel)
    (streams : Ptr → Stream) (ts : List Ptr)
    → Chain k.next k.task_list_head ts
    → length ts < fuel
    → ((t : Ptr) → has t ts ≡ true → Holds (queues t) (streams t))
    → let t = first_with pid k ts in
      (cannot_feed fresh t streams ≡ true)
        × (task_feed fuel pid fresh cs k streams ≡ some (0xffff_ffff, streams))
      ⊎ (cannot_feed fresh t streams ≡ false)
        × ((streams' : Ptr → Stream) × (task_feed fuel pid fresh cs k streams ≡ some (0, streams'))
            × Holds (take 255 (queues t ++ (cs ++ 10 ∷ []))) (streams' t)
            × ((u : Ptr) → u ≢ t → streams' u ≡ streams u))
unfolding task_feed feed
task_feed-Holds fuel pid fresh cs queues k streams ts chain enough h =
    let found = find_pid-first_with fuel k.task_list_head pid k ts chain enough in
    let t = first_with pid k ts in
    elim (Bool-cases (t == null)) [
      | inl nobody ↦ inl (ground (arith, nobody), rw (found, nobody) refl)
      | inr there ↦
          elim (Bool-cases
            ((if (streams t).in_buf == null then fresh else (streams t).in_buf) == null)) [
              | inl no_room ↦ inl (ground (arith, no_room), rw (found, there, no_room) refl)
              | inr room ↦
                  let listed = has-first_with pid k ts (ground (arith, there)) in
                  let (s', feeds, holds) =
                    feed-Holds fresh cs (queues t) (streams t) room (h t listed) in
                  inr (
                    ground (arith, there, room),
                    (
                      update streams t s',
                      rw (found, there, feeds) refl,
                      rw (update_self streams t s') holds,
                      λ u ne. ground (arith, ne),
                    ),
                  )
            ]
    ]
