-- ===== src/Streams/Tail.antt =====
-- What `task_dump_log` shows after any number of writes: the last 1024 characters.
use hekaos_series.Base.{
  ℕ, suc, ◌≤◌, ◌≡◌, refl, sym, ◌≢◌, inl, inr, true, false, List, [], ◌∷◌, ◌++◌, arith, ltb,
  if◌then◌else◌, Bool-cases, length, length-append,
}
use mathlib.Core.List.{append_assoc, append-nil}
use hekaos_series.Tasks.{Ptr, null}
use hekaos_series.Streams.{Stream, log_size, log_all, dump_log}
use hekaos_series.Streams.Log.{rest_of, log_push, Logs, dump_log-Logs, task_log_putchar-Logs}

-- the last 1024 elements of a list, or the whole of a shorter one
unfoldable pub keep_last : List ℕ → List ℕ
keep_last [] = []
keep_last (x ∷ xs) = let rest = keep_last xs in if ltb (length xs) log_size then x ∷ xs else rest

pub keep_last_short : (xs : List ℕ) → length xs ≤ log_size → keep_last xs ≡ xs
unfolding keep_last
keep_last_short [] h = refl
keep_last_short (x ∷ xs) h =
    let short : ltb (length xs) log_size ≡ true = ground arith in rw short refl

log_push-keep_last : (xs : List ℕ) (c : ℕ) → log_push (keep_last xs) c ≡ keep_last (xs ++ c ∷ [])
unfolding keep_last rest_of
log_push-keep_last [] c = refl
log_push-keep_last (x ∷ xs) c =
    let len = length-append xs (c ∷ []) in
    elim (Bool-cases (ltb (length xs) log_size)) [
      | inr long ↦
          let long' : ltb (length (xs ++ c ∷ [])) log_size ≡ false = ground (arith, len) in
          rw (long, long') (log_push-keep_last xs c)
      | inl short ↦ elim (Bool-cases (ltb (suc (length xs)) log_size)) [
        | inl room ↦
            let room' : ltb (length (xs ++ c ∷ [])) log_size ≡ true = ground (arith, len) in
            rw (short, room, room') refl
        | inr full ↦
            let full' : ltb (length (xs ++ c ∷ [])) log_size ≡ false = ground (arith, len) in
            rw (short, full, full') (sym (keep_last_short (xs ++ c ∷ []) (ground (arith, len))))
      ]
    ]

log_all-Logs :
    (fresh : Ptr) (cs xs : List ℕ) (s : Stream)
    → fresh ≢ null
    → Logs (keep_last xs) s
    → Logs (keep_last (xs ++ cs)) (log_all fresh cs s)
unfolding log_all
log_all-Logs fresh [] xs s ok h = rw (append-nil xs) h
log_all-Logs fresh (c ∷ cs) xs s ok h =
    let step = task_log_putchar-Logs fresh c (keep_last xs) s ok h in
    let moved : Logs (keep_last (xs ++ c ∷ [])) _ = rw (log_push-keep_last xs c) at step in
    rw (← append_assoc xs (c ∷ []) cs) (log_all-Logs fresh cs (xs ++ c ∷ []) _ ok moved)

-- If a task's log is `q`, it shows the last 1024 characters of `q` and what is written then.
pub dump_log-log_all :
    (fresh : Ptr) (cs q : List ℕ) (s : Stream)
    → fresh ≢ null
    → Logs q s
    → dump_log (log_all fresh cs s) ≡ keep_last (q ++ cs)
dump_log-log_all fresh cs q s ok h =
    let start : Logs (keep_last q) s = rw (keep_last_short q h.bound) h in
    dump_log-Logs (keep_last (q ++ cs)) (log_all fresh cs s) (log_all-Logs fresh cs q s ok start)
