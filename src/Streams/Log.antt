-- ===== src/Streams/Log.antt =====
-- The log of a task keeps the last characters that were written.
use hekaos_series.Base.{
  ℕ, zero, suc, ◌+◌, ◌-◌, ◌%◌, ◌≤◌, ◌<◌, bit_and, ◌≡◌, refl, sym, ap, ◌∙◌, ◌≢◌, inl, inr, true,
  false, ◌||◌, List, [], ◌∷◌, ◌++◌, arith, ltb, ◌==◌, if◌then◌else◌, Bool-cases, update, length,
  length-append,
}
use hekaos_series.Word.{add32}
use hekaos_series.Word.Bitwise.{bit_and-mask}
use hekaos_series.Tasks.{null}
use hekaos_series.Streams.{Stream, log_size, task_log_putchar, dump_from, dump_log}

-- the element at an index; 0 behind the end
unfoldable pub get : List ℕ → ℕ → ℕ
get [] i = 0
get (x ∷ xs) i = if i == 0 then x else get xs (i - 1)

pub get-append :
    (xs : List ℕ) (c i : ℕ)
    → get (xs ++ c ∷ []) i
      ≡ (if ltb i (length xs) then get xs i else if i == length xs then c else 0)
unfolding get
get-append [] c i = ground arith
get-append (x ∷ xs) c i = ground (arith, get-append xs c (i - 1))

-- the list without its first element
unfoldable pub rest_of : List ℕ → List ℕ
rest_of [] = []
rest_of (x ∷ xs) = xs

-- What a log of 1024 characters keeps of `q` when `c` is written to it: the oldest goes if it is full.
abbrev pub log_push : List ℕ → ℕ → List ℕ
log_push q c = if ltb (length q) log_size then q ++ c ∷ [] else rest_of q ++ c ∷ []

length-rest_of : (q : List ℕ) → length (rest_of q) ≡ length q - 1
unfolding rest_of
length-rest_of [] = refl
length-rest_of (x ∷ xs) = omega arith

get-rest_of : (q : List ℕ) (i : ℕ) → get (rest_of q) i ≡ get q (i + 1)
unfolding get rest_of
get-rest_of [] i = refl
get-rest_of (x ∷ xs) i = let e : i + 1 - 1 ≡ i = omega arith in ground (arith, e)

-- The log of `s` is `q`, oldest first.
pub record Logs (q : List ℕ) (s : Stream) : Type 0 where
  pub allocated : 0 < length q → s.log_buf ≢ null
  pub size : s.log_len ≡ length q
  pub bound : length q ≤ log_size
  pub head_bound : s.log_head < log_size
  pub head : length q < log_size → s.log_head ≡ length q
  pub items :
      (i : ℕ)
      → i < length q
      → s.log_data (((if ltb (length q) log_size then 0 else s.log_head) + i) % log_size) ≡ get q i

dump_from-get :
    (n start i : ℕ) (q : List ℕ) (s : Stream)
    → start < log_size
    → i + n ≤ log_size
    → length q ≡ n
    → ((j : ℕ) → j < n → s.log_data ((start + (i + j)) % log_size) ≡ get q j)
    → dump_from n start i s ≡ q
unfolding dump_from get
dump_from-get zero start i [] s hs h e items = refl
dump_from-get zero start i (x ∷ q) s hs h e items = absurd (omega (arith, e))
dump_from-get (suc n) start i [] s hs h e items = absurd (omega (arith, e))
dump_from-get (suc n) start i (x ∷ q) s hs h e items =
    let place : bit_and (add32 start i) 1023 ≡ (start + (i + 0)) % 1024 =
      bit_and-mask (add32 start i) 10 ∙ omega arith in
    let first : s.log_data (bit_and (add32 start i) 1023) ≡ x =
      ap s.log_data place ∙ items 0 (omega arith) in
    let rest : dump_from n start (i + 1) s ≡ q =
      dump_from-get n start (i + 1) q s hs (omega arith) (omega (arith, e)) (λ j hj.
        let shift : (start + (i + 1 + j)) % 1024 ≡ (start + (i + (j + 1))) % 1024 = omega arith in
        let back : j + 1 - 1 ≡ j = omega arith in
        ap s.log_data shift ∙ ground (arith, items (j + 1) (omega arith), back)) in
    rw (first, rest) refl

-- `task_dump_log` prints the log, oldest first.
pub dump_log-Logs : (q : List ℕ) (s : Stream) → Logs q s → dump_log s ≡ q
unfolding dump_log
dump_log-Logs [] s h =
    let empty : (s.log_buf == null || s.log_len == 0) ≡ true = ground (arith, h.size) in
    rw empty refl
dump_log-Logs (x ∷ q) s h =
    let shown : (s.log_buf == null || s.log_len == 0) ≡ false =
      ground (arith, h.size, h.allocated) in
    let start = if ltb s.log_len log_size then 0 else s.log_head in
    let below : start < log_size = ground (arith, h.head_bound) in
    rw shown (
      dump_from-get s.log_len start 0 (x ∷ q) s below (omega (arith, h.size, h.bound)) (sym h.size)
        (λ j hj.
          let at : (start + (0 + j)) % log_size
              ≡ ((if ltb (length (x ∷ q)) log_size then 0 else s.log_head) + j) % log_size =
            ground (arith, h.size) in
          ap s.log_data at ∙ h.items j (omega (arith, h.size))))

-- where the next character goes
head_place :
    (q : List ℕ) (s : Stream)
    → Logs q s
    → bit_and (add32 s.log_head 1) 1023 ≡ (s.log_head + 1) % 1024
head_place q s h = bit_and-mask (add32 s.log_head 1) 10 ∙ omega (arith, h.head_bound)

putchar_room :
    (fresh c : ℕ) (q : List ℕ) (s : Stream)
    → fresh ≢ null
    → length q < log_size
    → Logs q s
    → Logs (q ++ c ∷ []) (task_log_putchar fresh c s)
unfolding task_log_putchar
putchar_room fresh c q s ok room h =
    let there : ((if s.log_buf == null then fresh else s.log_buf) == null) ≡ false = ground arith in
    let short : ltb s.log_len log_size ≡ true = ground (arith, h.size) in
    let len = length-append q (c ∷ []) in
    let put : s.log_head ≡ length q = h.head room in
    rw (there, short)
      (record {
        allocated = λ pos. ground arith;
        size = omega (arith, h.size, len);
        bound = omega (arith, len);
        head_bound = omega (arith, head_place q s h);
        head = λ lt. omega (arith, head_place q s h, put, len);
        items = λ i hi.
            let n = length (q ++ c ∷ []) in
            let place : ((if ltb n log_size then 0 else bit_and (add32 s.log_head 1) 1023) + i)
                  % 1024
                ≡ i =
              ground (arith, head_place q s h) in
            let before : ((if ltb (length q) log_size then 0 else s.log_head) + i) % 1024 ≡ i =
              ground arith in
            let old : i < length q → s.log_data i ≡ get q i =
              λ lt. ap s.log_data (sym before) ∙ h.items i lt in
            ap (update s.log_data s.log_head c) place ∙ ground (arith, get-append q c i, old);
      })

putchar_full :
    (fresh c : ℕ) (q : List ℕ) (s : Stream)
    → length q ≡ log_size
    → Logs q s
    → Logs (rest_of q ++ c ∷ []) (task_log_putchar fresh c s)
unfolding task_log_putchar
putchar_full fresh c q s full h =
    let there : ((if s.log_buf == null then fresh else s.log_buf) == null) ≡ false =
      ground (arith, h.allocated) in
    let short : ltb s.log_len log_size ≡ false = ground (arith, h.size) in
    let len = length-append (rest_of q) (c ∷ []) in
    let len' = length-rest_of q in
    rw (there, short)
      (record {
        allocated = λ pos. ground arith;
        size = omega (arith, h.size, len, len');
        bound = omega (arith, len, len');
        head_bound = omega (arith, head_place q s h);
        head = λ lt. omega (arith, len, len');
        items = λ i hi.
            let n = length (rest_of q ++ c ∷ []) in
            let place : ((if ltb n log_size then 0 else bit_and (add32 s.log_head 1) 1023) + i)
                  % 1024
                ≡ (s.log_head + (i + 1)) % 1024 =
              ground (arith, head_place q s h) in
            let before : ((if ltb (length q) log_size then 0 else s.log_head) + (i + 1)) % 1024
                ≡ (s.log_head + (i + 1)) % 1024 =
              ground arith in
            let old : i + 1 < length q
                → s.log_data ((s.log_head + (i + 1)) % 1024) ≡ get q (i + 1) =
              λ lt. ap s.log_data (sym before) ∙ h.items (i + 1) lt in
            ap (update s.log_data s.log_head c) place
            ∙ ground (arith, get-append (rest_of q) c i, get-rest_of q i, old, h.head_bound);
      })

pub task_log_putchar-Logs :
    (fresh c : ℕ) (q : List ℕ) (s : Stream)
    → fresh ≢ null
    → Logs q s
    → Logs (log_push q c) (task_log_putchar fresh c s)
task_log_putchar-Logs fresh c q s ok h = elim (Bool-cases (ltb (length q) log_size)) [
  | inl room ↦ rw room (putchar_room fresh c q s ok (ground arith) h)
  | inr full ↦ rw full (putchar_full fresh c q s (ground (arith, h.bound)) h)
]
