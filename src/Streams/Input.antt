-- ===== src/Streams/Input.antt =====
-- The input of a task is a queue of up to 255 characters.
use hekaos_series.Base.{
  ℕ, zero, suc, ◌+◌, ◌-◌, ◌%◌, ◌≤◌, ◌<◌, bit_and, ◌≡◌, refl, sym, ap, ◌∙◌, ◌≢◌, inl, inr, true,
  false, ◌||◌, some, List, [], ◌∷◌, ◌++◌, arith, ltb, ◌==◌, if◌then◌else◌, Bool-cases, length,
  length-append,
}
use mathlib.Core.List.{append_assoc, append-nil}
use hekaos_series.Word.{add32}
use hekaos_series.Word.Bitwise.{bit_and-mask}
use hekaos_series.Tasks.{Ptr, null}
use hekaos_series.Streams.{Stream, input_size, task_input_read, task_input_push, push_all, feed}
use hekaos_series.Streams.Log.{get, get-append}

-- The characters that wait for a read are `q`, oldest first.
pub record Holds (q : List ℕ) (s : Stream) : Type 0 where
  pub allocated : 0 < length q → s.in_buf ≢ null
  pub bound : length q < input_size
  pub tail_bound : s.in_tail < input_size
  pub head : s.in_head ≡ (s.in_tail + length q) % input_size
  pub items : (i : ℕ) → i < length q → s.in_data ((s.in_tail + i) % input_size) ≡ get q i

-- A queue takes a character unless it holds 255.
abbrev pub queue_push : List ℕ → ℕ → List ℕ
queue_push q c = if ltb (length q) 255 then q ++ c ∷ [] else q

task_input_push-Holds :
    (c : ℕ) (q : List ℕ) (s : Stream)
    → s.in_buf ≢ null
    → Holds q s
    → ((task_input_push c s).in_buf ≢ null) × Holds (queue_push q c) (task_input_push c s)
unfolding task_input_push
task_input_push-Holds c q s ok h =
    let at : bit_and (add32 s.in_head 1) 255 ≡ (s.in_head + 1) % 256 =
      bit_and-mask (add32 s.in_head 1) 8 ∙ omega (arith, h.head) in
    elim (Bool-cases (ltb (length q) 255)) [
      | inr full ↦
          let stuck : (bit_and (add32 s.in_head 1) 255 == s.in_tail) ≡ true =
            ground (arith, h.head, h.bound, h.tail_bound) in
          rw (full, stuck) (ok, h)
      | inl room ↦
          let free : (bit_and (add32 s.in_head 1) 255 == s.in_tail) ≡ false =
            ground (arith, h.head, h.tail_bound) in
          let len = length-append q (c ∷ []) in
          rw (room, free)
            (
              ok,
              record {
                allocated = λ pos. ok;
                bound = ground (arith, len);
                tail_bound = h.tail_bound;
                head = omega (arith, at, h.head, len);
                items =
                    λ i hi. ground (arith, get-append q c i, h.items i, h.head, h.tail_bound, len);
              },
            )
    ]

-- the first elements of a list, and what is behind them
unfoldable pub take : ℕ → List ℕ → List ℕ
take zero q = []
take (suc n) [] = []
take (suc n) (x ∷ q) = x ∷ take n q

unfoldable pub drop : ℕ → List ℕ → List ℕ
drop zero q = q
drop (suc n) [] = []
drop (suc n) (x ∷ q) = drop n q

take_nil : (n : ℕ) → take n [] ≡ []
unfolding take
take_nil zero = refl
take_nil (suc n) = refl

push-take :
    (n c : ℕ) (xs : List ℕ)
    → (if ltb (length (take n xs)) n then take n xs ++ c ∷ [] else take n xs)
      ≡ take n (xs ++ c ∷ [])
unfolding take
push-take zero c xs = refl
push-take (suc n) c [] = ground (arith, take_nil n)
push-take (suc n) c (x ∷ xs) = ground (arith, push-take n c xs)

take_short : (n : ℕ) (xs : List ℕ) → length xs ≤ n → take n xs ≡ xs
unfolding take
take_short zero [] h = refl
take_short zero (x ∷ xs) h = absurd (omega arith)
take_short (suc n) [] h = refl
take_short (suc n) (x ∷ xs) h = rw (take_short n xs (omega arith)) refl

push_all-Holds :
    (cs xs : List ℕ) (s : Stream)
    → s.in_buf ≢ null
    → Holds (take 255 xs) s
    → ((push_all cs s).in_buf ≢ null) × Holds (take 255 (xs ++ cs)) (push_all cs s)
unfolding push_all
push_all-Holds [] xs s ok h = rw (append-nil xs) (ok, h)
push_all-Holds (c ∷ cs) xs s ok h =
    let (ok', h') = task_input_push-Holds c (take 255 xs) s ok h in
    let moved : Holds (take 255 (xs ++ c ∷ [])) (task_input_push c s) =
      rw (push-take 255 c xs) at h' in
    rw (← append_assoc xs (c ∷ []) cs)
      (push_all-Holds cs (xs ++ c ∷ []) (task_input_push c s) ok' moved)

-- A string that is fed, and a line feed, follow what is in the queue, up to 255 characters.
pub feed-Holds :
    (fresh : Ptr) (cs q : List ℕ) (s : Stream)
    → ((if s.in_buf == null then fresh else s.in_buf) == null) ≡ false
    → Holds q s
    → (s' : Stream) × (feed fresh cs s ≡ some s') × Holds (take 255 (q ++ (cs ++ 10 ∷ []))) s'
unfolding feed push_all
feed-Holds fresh cs q s there h =
    let buf = if s.in_buf == null then fresh else s.in_buf in
    let ok' : buf ≢ null = ground (arith, there) in
    let ready : Holds q (record s { in_buf = buf }) = record {
      allocated = λ pos. ok';
      bound = h.bound;
      tail_bound = h.tail_bound;
      head = h.head;
      items = h.items;
    } in
    let short : take 255 q ≡ q = take_short 255 q (omega (arith, h.bound)) in
    let start : Holds (take 255 q) (record s { in_buf = buf }) = rw short ready in
    let (ok1, h1) = push_all-Holds cs q (record s { in_buf = buf }) ok' start in
    let (ok2, h2) =
      push_all-Holds (10 ∷ []) (q ++ cs) (push_all cs (record s { in_buf = buf })) ok1 h1 in
    (
      push_all (10 ∷ []) (push_all cs (record s { in_buf = buf })),
      rw there refl,
      rw (← append_assoc q cs (10 ∷ [])) h2,
    )

Holds-rest :
    (x : ℕ) (q : List ℕ) (s : Stream)
    → Holds (x ∷ q) s
    → Holds q (record s { in_tail = bit_and (add32 s.in_tail 1) (input_size - 1) })
unfolding get
Holds-rest x q s h =
    let at : bit_and (add32 s.in_tail 1) 255 ≡ (s.in_tail + 1) % 256 =
      bit_and-mask (add32 s.in_tail 1) 8 ∙ omega (arith, h.tail_bound) in
    record {
      allocated = λ pos. h.allocated (omega arith);
      bound = omega (arith, h.bound);
      tail_bound = omega (arith, at);
      head = omega (arith, at, h.head);
      items = λ i hi.
          let place : (bit_and (add32 s.in_tail 1) 255 + i) % 256 ≡ (s.in_tail + (i + 1)) % 256 =
            omega (arith, at) in
          let back : i + 1 - 1 ≡ i = omega arith in
          ap s.in_data place ∙ ground (arith, h.items (i + 1) (omega arith), back);
    }

-- `task_input_read` takes up to `count` characters from the front of the queue, in order, and leaves
-- the others.
pub task_input_read-Holds :
    (count : ℕ) (q : List ℕ) (s : Stream)
    → Holds q s
    → ((task_input_read count s).0 ≡ take count q)
      × Holds (drop count q) (task_input_read count s).1
unfolding task_input_read take drop get
task_input_read-Holds zero q s h = (refl, h)
task_input_read-Holds (suc n) [] s h =
    let empty : (s.in_buf == null || s.in_head == s.in_tail) ≡ true =
      ground (arith, h.head, h.tail_bound) in
    rw empty (refl, h)
task_input_read-Holds (suc n) (x ∷ q) s h =
    let some_left : (s.in_buf == null || s.in_head == s.in_tail) ≡ false =
      ground (arith, h.head, h.tail_bound, h.allocated, h.bound) in
    let at : (s.in_tail + 0) % 256 ≡ s.in_tail = omega (arith, h.tail_bound) in
    let first : s.in_data s.in_tail ≡ x = ap s.in_data (sym at) ∙ h.items 0 (omega arith) in
    let taken = record s { in_tail = bit_and (add32 s.in_tail 1) (input_size - 1) } in
    let (chars, left) = task_input_read-Holds n q taken (Holds-rest x q s h) in
    rw some_left (ground (arith, first, chars), left)
