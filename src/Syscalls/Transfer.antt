-- ===== src/Syscalls/Transfer.antt =====
-- `sys_write` and `sys_read` on the log and the input queue of the caller.
use hekaos_series.Base.{
  ℕ, zero, suc, min, ◌≡◌, refl, ap, ◌∙◌, ◌≢◌, ◌⊎◌, inl, inr, true, false, not, ◌&&◌, ◌||◌, List, [],
  ◌∷◌, ◌++◌, arith, ◌==◌, Bool-cases, length,
}
use hekaos_series.Tasks.{null}
use hekaos_series.Streams.{Stream, dump_log}
use hekaos_series.Streams.Log.{Logs}
use hekaos_series.Streams.Tail.{keep_last, dump_log-log_all}
use hekaos_series.Streams.Input.{Holds, take, drop, task_input_read-Holds}
use hekaos_series.Syscalls.{failure, user_range_ok, load, sys_read, sys_write}

-- If the caller's log is `q` and `kmem_alloc` does not fail: `sys_write` to file 1 or 2, from a buffer
-- in user space, returns `count`, and the log then shows the last 1024 characters of `q` and the buffer.
-- Any other write fails and changes nothing.
pub sys_write-dump_log :
    (fresh fd buf count : ℕ) (memory : ℕ → ℕ) (q : List ℕ) (s : Stream)
    → fresh ≢ null
    → Logs q s
    → let (r, s') = sys_write fresh fd buf count memory s in
      ((((fd == 1 || fd == 2) && user_range_ok buf count) ≡ true)
        × (r ≡ count)
        × (dump_log s' ≡ keep_last (q ++ load count buf memory)))
      ⊎ ((((fd == 1 || fd == 2) && user_range_ok buf count) ≡ false) × (r ≡ failure) × (s' ≡ s))
unfolding sys_write
sys_write-dump_log fresh fd buf count memory q s ok h =
    elim (Bool-cases ((fd == 1 || fd == 2) && user_range_ok buf count)) [
      | inl good ↦
          let file : (not (fd == 1) && not (fd == 2)) ≡ false = ground arith in
          let range : user_range_ok buf count ≡ true = ground arith in
          let shown = dump_log-log_all fresh (load count buf memory) q s ok h in
          rw (file, range) (inl (ground arith, refl, shown))
      | inr bad ↦ elim (Bool-cases (not (fd == 1) && not (fd == 2))) [
        | inl file ↦ rw file (inr (ground arith, refl, refl))
        | inr file ↦
            let range : user_range_ok buf count ≡ false = ground arith in
            rw (file, range) (inr (ground arith, refl, refl))
      ]
    ]

length-take : (n : ℕ) (q : List ℕ) → length (take n q) ≡ min n (length q)
unfolding take
length-take zero q = omega arith
length-take (suc n) [] = omega arith
length-take (suc n) (x ∷ q) = omega (arith, length-take n q)

-- If the caller's input queue is `q`: `sys_read` of file 0 into a buffer in user space stores the first
-- characters of `q`, at most `count`, returns their number and leaves the others in the queue. Any
-- other read fails, stores no character and changes nothing.
pub sys_read-Holds :
    (fd buf count : ℕ) (q : List ℕ) (s : Stream)
    → Holds q s
    → let (r, cs, s') = sys_read fd buf count s in
      (((fd == 0 && user_range_ok buf count) ≡ true)
        × (r ≡ min count (length q))
        × (cs ≡ take count q)
        × Holds (drop count q) s')
      ⊎ (((fd == 0 && user_range_ok buf count) ≡ false) × (r ≡ failure) × (cs ≡ []) × (s' ≡ s))
unfolding sys_read
sys_read-Holds fd buf count q s h = elim (Bool-cases (fd == 0 && user_range_ok buf count)) [
  | inl good ↦
      let file : (fd == 0) ≡ true = ground arith in
      let range : user_range_ok buf count ≡ true = ground arith in
      let (chars, left) = task_input_read-Holds count q s h in
      rw (file, range) (inl (ground arith, ap length chars ∙ length-take count q, chars, left))
  | inr bad ↦ elim (Bool-cases (fd == 0)) [
    | inr file ↦ rw file (inr (ground arith, refl, refl, refl))
    | inl file ↦
        let range : user_range_ok buf count ≡ false = ground arith in
        rw (file, range) (inr (ground arith, refl, refl, refl))
  ]
]
