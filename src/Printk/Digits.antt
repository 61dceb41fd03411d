-- ===== src/Printk/Digits.antt =====
-- The digits that `print_int` and `print_hex` write stand for the number.
use hekaos_series.Word.{add32}
use native.Mathlib.Nat.{pow-zero, pow-succ', mul_comm, div-add-mod', div-lt_iff_lt-mul, mod-lt}
use hekaos_series.Base.{
  ℕ, zero, suc, ◌+◌, ◌-◌, ◌*◌, ◌/◌, ◌%◌, ◌^◌, ◌≤◌, ◌<◌, ◌≡◌, refl, inl, inr, true, false, Option,
  some, List, [], ◌∷◌, arith, ltb, leb, ◌==◌, if◌then◌else◌, Bool-cases, min, ◌≢◌, Bool, not, ◌&&◌,
  ◌||◌,
}
use hekaos_series.Printk.{hex_digit, digits, print_int_text, print_hex_text}

-- the value of a digit's character
unfoldable pub digit_value : ℕ → ℕ
digit_value c = if ltb c 58 then c - 48 else c - 87

-- the number that a text of digits stands for, behind what was read as `n`
unfoldable pub number : ℕ → ℕ → List ℕ → ℕ
number base n [] = n
number base n (c ∷ cs) = number base (n * base + digit_value c) cs

digit_value-hex_digit : (d : ℕ) → d < 16 → digit_value (hex_digit d) ≡ d
unfolding digit_value hex_digit
digit_value-hex_digit d lt = ground arith

-- the character of a digit in base `base`, 0 to 9 and then a to f
unfoldable pub is_digit : ℕ → ℕ → Bool
is_digit base c = leb 48 c && ltb c (48 + min base 10) || leb 97 c && ltb c (87 + base)

unfoldable pub all_digits : ℕ → List ℕ → Bool
all_digits base [] = true
all_digits base (c ∷ cs) = is_digit base c && all_digits base cs

-- the text starts, and not with the character 0
unfoldable pub has_lead : List ℕ → Bool
has_lead [] = false
has_lead (c ∷ cs) = not (c == 48)

-- the text is the one character 0
unfoldable pub is_zero : List ℕ → Bool
is_zero (c ∷ []) = c == 48
is_zero _ = false

is_digit-hex_digit : (base d : ℕ) → d < base → base ≤ 16 → is_digit base (hex_digit d) ≡ true
unfolding is_digit hex_digit
is_digit-hex_digit base d lt high = ground arith

hex_digit-nonzero : (d : ℕ) → d ≢ 0 → not (hex_digit d == 48) ≡ true
unfolding hex_digit
hex_digit-nonzero d nz = ground (arith, nz)

-- The text `t` is that of `value` in front of `text`.
record Spelt (base value : ℕ) (text t : List ℕ) : Type 0 where
  reads : number base 0 t ≡ number base value text
  none_left : value ≡ 0 → t ≡ text
  lead : 0 < value → has_lead t ≡ true
  spelt : all_digits base text ≡ true → all_digits base t ≡ true

Spelt-zero : (base value : ℕ) (text : List ℕ) → value ≡ 0 → Spelt base value text text
Spelt-zero base value text z = record {
  reads = rw z refl;
  none_left = λ e. refl;
  lead = λ lt. absurd (omega arith);
  spelt = λ h. h;
}

Spelt-step :
    (base value : ℕ) (text t : List ℕ)
    → 1 < base
    → base ≤ 16
    → 0 < value
    → Spelt base (value / base) (hex_digit (value % base) ∷ text) t
    → Spelt base value text t
unfolding number all_digits has_lead
Spelt-step base value text t low high some_left s =
    let d = value % base in
    let small : d < base = mod-lt value (omega arith) in
    let whole : value / base * base + d ≡ value = div-add-mod' value base in
    let back : value / base * base + digit_value (hex_digit d) ≡ value =
      rw (digit_value-hex_digit d (omega arith)) whole in
    record {
      reads = rw back at s.reads;
      none_left = λ z. absurd (omega arith);
      lead = λ lt. elim (Bool-cases (value / base == 0)) [
        | inl last ↦
            let zero_left : value / base ≡ 0 = ground (arith, last) in
            let nonzero : d ≢ 0 = λ z. absurd (omega (arith, rw (zero_left, z) at whole)) in
            rw (s.none_left zero_left) (hex_digit-nonzero d nonzero)
        | inr more ↦ s.lead (ground (arith, more))
      ];
      spelt = λ h. s.spelt (rw (is_digit-hex_digit base d small high) h);
    }

digits-Spelt :
    (room value base : ℕ) (text : List ℕ)
    → value < base ^ room
    → 1 < base
    → base ≤ 16
    → (t : List ℕ) × (digits room value base text ≡ some t) × Spelt base value text t
unfolding digits
digits-Spelt zero value base text lt low high =
    let one : base ^ 0 ≡ 1 = pow-zero base in
    let none_left : value ≡ 0 = omega (arith, one) in
    (text, rw none_left refl, Spelt-zero base value text none_left)
digits-Spelt (suc room) value base text lt low high = elim (Bool-cases (value == 0)) [
  | inl z ↦
      let none_left : value ≡ 0 = ground (arith, z) in
      (text, rw none_left refl, Spelt-zero base value text none_left)
  | inr more ↦
      let room_more : value < base ^ room * base =
        omega (arith, pow-succ' base room, mul_comm base (base ^ room)) in
      let less : value / base < base ^ room = (div-lt_iff_lt-mul (omega arith)).1 room_more in
      let (t, writes, s) =
        digits-Spelt room (value / base) base (hex_digit (value % base) ∷ text) less low high in
      (t, rw more writes, Spelt-step base value text t low high (ground (arith, more)) s)
]

-- `t` is the numeral of `n` in base `base`: its characters are digits, it stands for `n`, and it
-- starts with 0 only if it is `0`.
abbrev pub Numeral : ℕ → List ℕ → ℕ → Type 0
Numeral base t n =
    (number base 0 t ≡ n) × (all_digits base t ≡ true) × ((has_lead t || is_zero t) ≡ true)

-- what is printed is the numeral of `n`
abbrev pub Writes : ℕ → Option (List ℕ) → ℕ → Type 0
Writes base o n = (t : List ℕ) × (o ≡ some t) × Numeral base t n

digits-Writes :
    (room value base : ℕ)
    → value < base ^ room
    → 1 < base
    → base ≤ 16
    → Writes base (if value == 0 then some (48 ∷ []) else digits room value base []) value
unfolding number digit_value all_digits is_digit is_zero
digits-Writes room value base lt low high =
    let (t, writes, s) = digits-Spelt room value base [] lt low high in
    elim (Bool-cases (value == 0)) [
      | inl z ↦ (48 ∷ [], rw z refl, (ground (arith, z), ground arith, ground arith))
      | inr z ↦
          let lead = s.lead (ground (arith, z)) in
          (t, rw z writes, (s.reads, s.spelt refl, ground (arith, lead)))
    ]

decimal :
    (value : ℕ)
    → value < 2 ^ 32
    → Writes 10 (if value == 0 then some (48 ∷ []) else digits 31 value 10 []) value
decimal value word = digits-Writes 31 value 10 (omega arith) (omega arith) (omega arith)

negative_text :
    (value size : ℕ)
    → add32 (2 ^ 32 - 1 - value) 1 ≡ size
    → size < 2 ^ 32
    → 2 ^ 31 ≤ value
    → (t : List ℕ) × (print_int_text value 10 true ≡ some (45 ∷ t)) × Numeral 10 t size
unfolding print_int_text
negative_text value size same word high =
    let test : leb (2 ^ 31) value ≡ true = ground arith in
    let (t, writes, numeral) = decimal size word in (t, rw (test, same, writes) refl, numeral)

-- A word is printed, without overrun of the buffer: as unsigned, its decimal digits; as signed, those
-- of its value below `2 ^ 31`, and from there on a minus and the digits of `2 ^ 32` less the word,
-- which is the absolute value of the `int`; and in hexadecimal, its digits behind `0x`. Each of the
-- characters is a digit of the base, and the first is 0 only for the number 0.
pub print_int_text-Writes :
    (value : ℕ)
    → value < 2 ^ 32
    → Writes 10 (print_int_text value 10 false) value
      × (value < 2 ^ 31 → Writes 10 (print_int_text value 10 true) value)
      × (2 ^ 31 ≤ value
          → (t : List ℕ) × (print_int_text value 10 true ≡ some (45 ∷ t))
            × Numeral 10 t (2 ^ 32 - value))
      × ((t : List ℕ) × (print_hex_text value ≡ some (48 ∷ 120 ∷ t)) × Numeral 16 t value)
unfolding print_int_text print_hex_text
print_int_text-Writes value word =
    let (t, writes, numeral) = decimal value word in
    let (x, writes_hex, numeral_hex) =
      digits-Writes 15 value 16 (omega arith) (omega arith) (omega arith) in
    (
      (t, rw writes refl, numeral),
      (λ low.
          let test : leb (2 ^ 31) value ≡ false = ground arith in
          (t, rw (test, writes) refl, numeral)),
      λ high. negative_text value (2 ^ 32 - value) (omega arith) (omega arith) high,
      (x, rw writes_hex refl, numeral_hex),
    )
