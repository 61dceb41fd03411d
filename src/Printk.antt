-- ===== src/Printk.antt =====
-- The kernel log of src/klib/printk.c: the formatting of `printk`, the ring buffer behind it, and the
-- walks over the ring. A character is its code; a string is the list of its characters before the
-- terminator. `none` is a read past the end of the format, an argument of another kind than the
-- format names, a number that overruns its buffer, or a loop that has not ended.
pub mod Flush
pub mod Digits
pub mod Text
mod Tests
use hekaos_series.Base.{
  ℕ, zero, suc, ◌+◌, ◌-◌, ◌*◌, ◌/◌, ◌%◌, ◌^◌, ◌≤◌, ◌<◌, min, max, bit_and, bit_or, ◌≡◌, refl, sym,
  ap, ◌∙◌, ◌≢◌, ◌↔◌, ◌⊎◌, inl, inr, Bool, true, false, not, ◌&&◌, ◌||◌, Option, none, some, List,
  [], ◌∷◌, ◌++◌, arith, ltb, leb, ◌==◌, if◌then◌else◌, Bool-cases, ==_refl, not-not, Option-cases,
  update_self, expect, ◌>>=◌, update, length, length-append,
}
use hekaos_series.Word.{add32}

-- `LOG_BUF_SIZE`
abbrev pub log_buf_size : ℕ
log_buf_size = 4096

pub record Console : Type 0 where
  pub log_buf : ℕ → ℕ
  pub log_write_idx : ℕ
  pub log_size : ℕ
  pub console_read_idx : ℕ

unfoldable pub log_buf_putchar : ℕ → Console → Console
log_buf_putchar c s = record s {
  log_buf = update s.log_buf s.log_write_idx c;
  log_write_idx = (s.log_write_idx + 1) % log_buf_size;
  log_size = if ltb s.log_size log_buf_size then s.log_size + 1 else s.log_size;
}

abbrev pub printk_putchar : ℕ → Console → Console
printk_putchar c s = log_buf_putchar c s

unfoldable pub print_string : List ℕ → Console → Console
print_string [] s = s
print_string (c ∷ cs) s = print_string cs (printk_putchar c s)

-- `HEX_DIGITS[d]`
unfoldable pub hex_digit : ℕ → ℕ
hex_digit d = if ltb d 10 then 48 + d else 87 + d

-- `while (value > 0)`, in front of `text`; `room` bytes of the buffer are left
unfoldable pub digits : ℕ → ℕ → ℕ → List ℕ → Option (List ℕ)
digits zero value base text = if value == 0 then some text else none
digits (suc room) value base text =
    let rest = digits room (value / base) base (hex_digit (value % base) ∷ text) in
    if value == 0 then some text else rest

-- what `print_int` prints of a 32-bit pattern
unfoldable pub print_int_text : ℕ → ℕ → Bool → Option (List ℕ)
print_int_text value base is_signed =
    let negative = is_signed && leb (2 ^ 31) value in
    let uvalue = if negative then add32 (2 ^ 32 - 1 - value) 1 else value in
    (if uvalue == 0 then some (48 ∷ []) else digits 31 uvalue base []) >>= λ text.
    some (if negative then 45 ∷ text else text)

-- what `print_hex` prints
unfoldable pub print_hex_text : ℕ → Option (List ℕ)
print_hex_text value = (if value == 0 then some (48 ∷ []) else digits 15 value 16 []) >>= λ text.
    some (48 ∷ 120 ∷ text)

-- an argument behind the format: a string, null or not, or a word
pub data Arg : Type 0 where
  text : Option (List ℕ) → Arg
  word : ℕ → Arg

-- "(null)"
abbrev pub null_text : List ℕ
null_text = 40 ∷ 110 ∷ 117 ∷ 108 ∷ 108 ∷ 41 ∷ []

-- the argument of `%s`, and that of the other conversions
unfoldable pub next_text : List Arg → Option (List ℕ × List Arg)
next_text (text (some t) ∷ args) = some (t, args)
next_text (text none ∷ args) = some (null_text, args)
next_text _ = none

unfoldable pub next_word : List Arg → Option (ℕ × List Arg)
next_word (word w ∷ args) = some (w, args)
next_word _ = none

-- The `switch (*format)`: how much is added to `count`, the arguments left, and the console. `%s`, `%d`,
-- `%i`, `%u`, `%x`, `%p`, `%c`, `%%`, and any other.
unfoldable pub convert : ℕ → List Arg → Console → Option (ℕ × List Arg × Console)
convert c args s =
    let string = next_text args >>= λ (t, rest). some (length t, rest, print_string t s) in
    let int = next_word args >>= λ (w, rest).
    (print_int_text w 10 true >>= λ t. some (1, rest, print_string t s)) in
    let unsigned = next_word args >>= λ (w, rest).
    (print_int_text w 10 false >>= λ t. some (1, rest, print_string t s)) in
    let hex = next_word args >>= λ (w, rest).
    (print_hex_text w >>= λ t. some (1, rest, print_string t s)) in
    let char = next_word args >>= λ (w, rest). some (1, rest, printk_putchar (w % 256) s) in
    if c == 115
    then string
    else if c == 100 || c == 105
    then int
    else if c == 117
    then unsigned
    else if c == 120 || c == 112
    then hex
    else if c == 99
    then char
    else if c == 37
    then some (1, args, printk_putchar 37 s)
    else some (2, args, printk_putchar c (printk_putchar 37 s))

-- `while (*format)`; `percent` tells that the character before was a `%`
unfoldable pub printk_from : Bool → List ℕ → List Arg → ℕ → Console → Option (ℕ × Console)
printk_from false [] args count s = some (count, s)
printk_from true [] args count s = none
printk_from false (c ∷ format) args count s =
    let start = printk_from true format args count s in
    let plain = printk_from false format args (count + 1) (printk_putchar c s) in
    if c == 37 then start else plain
printk_from true (c ∷ format) args count s =
    convert c args s >>= λ (n, rest, s1). printk_from false format rest (count + n) s1

unfoldable pub printk : List ℕ → List Arg → Console → Option (ℕ × Console)
printk format args s = printk_from false format args 0 s

-- the walk of `dmesg` and of `get_log_buf`: the characters from index `start + i` on
unfoldable pub log_from : ℕ → ℕ → ℕ → Console → List ℕ
log_from zero start i s = []
log_from (suc n) start i s = s.log_buf ((start + i) % log_buf_size) ∷ log_from n start (i + 1) s

unfoldable pub dmesg : Console → List ℕ
dmesg s =
    if ltb s.log_size log_buf_size
    then log_from s.log_write_idx 0 0 s
    else log_from log_buf_size s.log_write_idx 0 s

-- what `get_log_buf` copies to a buffer of `len` bytes
unfoldable pub get_log_buf : ℕ → Console → List ℕ
get_log_buf len s =
    if ltb s.log_size log_buf_size
    then log_from (min s.log_write_idx len) 0 0 s
    else log_from (min log_buf_size len) s.log_write_idx 0 s

-- the characters that `console_flush` gives to the terminal, and the console
unfoldable pub console_flush : ℕ → Console → Option (List ℕ × Console)
console_flush zero s = none
console_flush (suc n) s =
    let rest =
      console_flush n (record s { console_read_idx = (s.console_read_idx + 1) % log_buf_size })
      >>= λ (cs, s1). some (s.log_buf s.console_read_idx ∷ cs, s1) in
    if s.console_read_idx == s.log_write_idx then some ([], s) else rest
