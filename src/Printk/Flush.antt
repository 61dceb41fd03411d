-- ===== src/Printk/Flush.antt =====
-- `console_flush` gives the terminal what was printed since the last flush.
use mathlib.Core.Path.{subst}
use hekaos_series.Base.{
  ℕ, zero, suc, ◌+◌, ◌-◌, ◌%◌, ◌<◌, ◌≡◌, refl, ap, inl, inr, true, false, some, List, [], ◌∷◌, ◌++◌,
  arith, ◌==◌, Bool-cases, length, length-append,
}
use hekaos_series.Streams.Log.{get, get-append}
use hekaos_series.Printk.{Console, log_buf_putchar, print_string, console_flush}

-- The characters `q` wait in the ring for the next flush, oldest first.
pub record Pending (q : List ℕ) (s : Console) : Type 0 where
  pub chars : (i : ℕ) → i < length q → s.log_buf ((s.console_read_idx + i) % 4096) ≡ get q i
  pub write : s.log_write_idx ≡ (s.console_read_idx + length q) % 4096
  pub few : length q < 4096
  pub inside : s.console_read_idx < 4096

pub log_buf_putchar-Pending :
    (q : List ℕ) (c : ℕ) (s : Console)
    → Pending q s
    → length q + 1 < 4096
    → Pending (q ++ c ∷ []) (log_buf_putchar c s)
unfolding log_buf_putchar
log_buf_putchar-Pending q c s p room =
    let more = length-append q (c ∷ []) in
    record {
      chars = λ i lt. elim (Bool-cases (i == length q)) [
        | inl last ↦ ground (arith, get-append q c i, p.write, last)
        | inr before ↦
            let old : i < length q = ground (arith, lt, more, before) in
            let apart : (s.log_write_idx == (s.console_read_idx + i) % 4096) ≡ false =
              ground (arith, p.write, p.few, old) in
            rw (apart) (ground (arith, get-append q c i, p.chars i old, old))
      ];
      write = omega (arith, p.write, more);
      few = omega (arith, more);
      inside = p.inside;
    }

append-snoc : (q cs : List ℕ) (c : ℕ) → (q ++ c ∷ []) ++ cs ≡ q ++ c ∷ cs
append-snoc [] cs c = refl
append-snoc (x ∷ q) cs c = ap (λ l. x ∷ l) (append-snoc q cs c)

pub append-empty : (q : List ℕ) → q ++ [] ≡ q
append-empty [] = refl
append-empty (x ∷ q) = ap (λ l. x ∷ l) (append-empty q)

pub print_string-Pending :
    (q cs : List ℕ) (s : Console)
    → Pending q s
    → length q + length cs < 4096
    → Pending (q ++ cs) (print_string cs s)
unfolding print_string
print_string-Pending q [] s p room = rw (append-empty q) p
print_string-Pending q (c ∷ cs) s p room =
    let next = log_buf_putchar-Pending q c s p (omega arith) in
    subst (λ l. Pending l (print_string cs (log_buf_putchar c s))) (append-snoc q cs c)
      (print_string-Pending (q ++ c ∷ []) cs (log_buf_putchar c s) next
        (omega (arith, length-append q (c ∷ []))))

-- the ring is as before, and nothing waits in it
abbrev pub flushed : Console → Console
flushed s = record s { console_read_idx = s.log_write_idx }

console_flush_lem :
    (fuel : ℕ) (q : List ℕ) (s : Console)
    → Pending q s
    → length q < fuel
    → console_flush fuel s ≡ some (q, flushed s)
unfolding console_flush get
console_flush_lem zero q s p enough = absurd (omega arith)
console_flush_lem (suc n) [] s p enough =
    let stop : s.console_read_idx ≡ s.log_write_idx = omega (arith, p.write, p.inside) in
    let test : (s.console_read_idx == s.log_write_idx) ≡ true = ground (arith, stop) in
    rw (test, stop) refl
console_flush_lem (suc n) (c ∷ q) s p enough =
    let go : (s.console_read_idx == s.log_write_idx) ≡ false =
      ground (arith, p.write, p.inside, p.few) in
    let at : (s.console_read_idx + 0) % 4096 ≡ s.console_read_idx = omega (arith, p.inside) in
    let char : s.log_buf s.console_read_idx ≡ c = rw at at (p.chars 0 (omega arith)) in
    let next : Pending q (record s { console_read_idx = (s.console_read_idx + 1) % 4096 }) =
      record {
        chars = λ i lt.
            let there : ((s.console_read_idx + 1) % 4096 + i) % 4096
                ≡ (s.console_read_idx + (i + 1)) % 4096 =
              omega arith in
            let back : i + 1 - 1 ≡ i = omega arith in
            let other : (i + 1 == 0) ≡ false = ground arith in
            rw there (rw (other, back) at (p.chars (i + 1) (omega arith)));
        write = omega (arith, p.write);
        few = omega (arith, p.few);
        inside = omega arith;
      } in
    rw
      (
        go,
        char,
        console_flush_lem n q (record s { console_read_idx = (s.console_read_idx + 1) % 4096 }) next
            (omega arith),
      )
      refl

-- What waits in the ring and what is printed behind it, 4095 characters at most, is what the next
-- flush gives to the terminal, in order and each once; then nothing waits.
pub console_flush-print_string :
    (fuel : ℕ) (q cs : List ℕ) (s : Console)
    → Pending q s
    → length q + length cs < 4096
    → length q + length cs < fuel
    → (console_flush fuel (print_string cs s) ≡ some (q ++ cs, flushed (print_string cs s)))
      × Pending [] (flushed (print_string cs s))
console_flush-print_string fuel q cs s p room enough =
    let p' = print_string-Pending q cs s p room in
    (
      console_flush_lem fuel (q ++ cs) (print_string cs s) p' (omega (arith, length-append q cs)),
      record {
        chars = λ i lt. absurd (omega arith);
        write = omega (arith, p'.write);
        few = omega arith;
        inside = omega (arith, p'.write);
      },
    )
