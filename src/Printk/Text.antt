-- ===== src/Printk/Text.antt =====
-- What `printk` writes is a text that the format and the arguments determine.
use hekaos_series.Base.{
  ℕ, ◌+◌, ◌%◌, ◌<◌, ◌≡◌, refl, sym, ◌∙◌, Bool, true, false, ◌||◌, Option, none, some, List, [], ◌∷◌,
  ◌++◌, ◌==◌, if◌then◌else◌, ◌>>=◌, length,
}
use hekaos_series.Printk.{
  Console, Arg, next_text, next_word, print_int_text, print_hex_text, convert, printk_from, printk,
  print_string, printk_putchar, log_buf_putchar, console_flush,
}
use hekaos_series.Printk.Flush.{Pending, flushed, console_flush-print_string}

-- What a conversion adds to the count, what it writes, and the arguments left.
unfoldable pub conversion_text : ℕ → List Arg → Option (ℕ × List ℕ × List Arg)
conversion_text c args =
    if c == 115
    then (next_text args >>= λ (t, rest). some (length t, t, rest))
    else if c == 100 || c == 105
    then (next_word args >>= λ (w, rest). (print_int_text w 10 true >>= λ t. some (1, t, rest)))
    else if c == 117
    then (next_word args >>= λ (w, rest). (print_int_text w 10 false >>= λ t. some (1, t, rest)))
    else if c == 120 || c == 112
    then (next_word args >>= λ (w, rest). (print_hex_text w >>= λ t. some (1, t, rest)))
    else if c == 99
    then (next_word args >>= λ (w, rest). some (1, w % 256 ∷ [], rest))
    else if c == 37
    then some (1, 37 ∷ [], args)
    else some (2, 37 ∷ c ∷ [], args)

-- The count and the text of a format; none when it ends in a lone `%` or an argument does not fit.
unfoldable pub format_text : Bool → List ℕ → List Arg → ℕ → Option (ℕ × List ℕ)
format_text false [] args count = some (count, [])
format_text true [] args count = none
format_text false (c ∷ format) args count =
    let start = format_text true format args count in
    let plain = format_text false format args (count + 1) >>= λ (n, t). some (n, c ∷ t) in
    if c == 37 then start else plain
format_text true (c ∷ format) args count = conversion_text c args >>= λ (n, t, rest).
    (format_text false format rest (count + n) >>= λ (m, u). some (m, t ++ u))

bind-bind {ℓ κ μ} :
    {A : Type ℓ} {B : Type κ} {C : Type μ} (o : Option A) (f : A → Option B) (g : B → Option C)
    → ((o >>= f) >>= g) ≡ (o >>= λ a. f a >>= g)
bind-bind none f g = refl
bind-bind (some a) f g = refl

bind_same {ℓ κ} :
    {A : Type ℓ} {B : Type κ} (o : Option A) (f g : A → Option B)
    → ((a : A) → f a ≡ g a)
    → (o >>= f) ≡ (o >>= g)
bind_same none f g same = refl
bind_same (some a) f g same = same a

print_string-append :
    (t u : List ℕ) (s : Console) → print_string (t ++ u) s ≡ print_string u (print_string t s)
unfolding print_string
print_string-append [] u s = refl
print_string-append (c ∷ t) u s = print_string-append t u (log_buf_putchar c s)

-- a text that is printed on `s`
abbrev printed : Console → ℕ × List ℕ × List Arg → Option (ℕ × List Arg × Console)
printed s (n, t, rest) = some (n, rest, print_string t s)

choose {ℓ κ} :
    {A : Type ℓ} {B : Type κ} (b : Bool) (x y : Option B) (x' y' : Option A) (f : A → Option B)
    → x ≡ (x' >>= f)
    → y ≡ (y' >>= f)
    → (if b then x else y) ≡ ((if b then x' else y') >>= f)
choose true x y x' y' f p q = p
choose false x y x' y' f p q = q

word_printed :
    (args : List Arg) (s : Console) (f : ℕ → Option (List ℕ))
    → (next_word args >>= λ (w, rest). (f w >>= λ t. some (1, rest, print_string t s)))
      ≡ ((next_word args >>= λ (w, rest). (f w >>= λ t. some (1, t, rest))) >>= printed s)
word_printed args s f =
    bind_same (next_word args) (λ x. (f x.0 >>= λ t. some (1, x.1, print_string t s)))
      (λ x. ((f x.0 >>= λ t. some (1, t, x.1)) >>= printed s))
      (λ x. sym (bind-bind (f x.0) (λ t. some (1, t, x.1)) (printed s)))
    ∙ sym (bind-bind (next_word args) (λ x. (f x.0 >>= λ t. some (1, t, x.1))) (printed s))

convert-text :
    (c : ℕ) (args : List Arg) (s : Console)
    → convert c args s ≡ (conversion_text c args >>= printed s)
unfolding convert conversion_text print_string
convert-text c args s =
    choose (c == 115) _ _ _ _ (printed s)
      (sym (bind-bind (next_text args) (λ x. some (length x.0, x.0, x.1)) (printed s)))
      (choose (c == 100 || c == 105) _ _ _ _ (printed s)
        (word_printed args s (λ w. print_int_text w 10 true))
        (choose (c == 117) _ _ _ _ (printed s)
          (word_printed args s (λ w. print_int_text w 10 false))
          (choose (c == 120 || c == 112) _ _ _ _ (printed s) (word_printed args s print_hex_text) (
            choose (c == 99) _ _ _ _ (printed s)
              (sym (bind-bind (next_word args) (λ x. some (1, x.0 % 256 ∷ [], x.1)) (printed s)))
              (choose (c == 37) _ _ _ _ (printed s) refl refl)))))

-- the text of a format that is printed on `s`
abbrev shown : Console → ℕ × List ℕ → Option (ℕ × Console)
shown s (n, t) = some (n, print_string t s)

printk_from-text :
    (p : Bool) (format : List ℕ) (args : List Arg) (count : ℕ) (s : Console)
    → printk_from p format args count s ≡ (format_text p format args count >>= shown s)
unfolding printk_from format_text print_string
printk_from-text false [] args count s = refl
printk_from-text true [] args count s = refl
printk_from-text false (c ∷ format) args count s =
    choose (c == 37) _ _ _ _ (shown s) (printk_from-text true format args count s) (
      printk_from-text false format args (count + 1) (printk_putchar c s)
      ∙ sym (
          bind-bind (format_text false format args (count + 1)) (λ x. some (x.0, c ∷ x.1))
            (shown s)))
printk_from-text true (c ∷ format) args count s =
    let next : ℕ × List Arg × Console → Option (ℕ × Console) =
      λ x. printk_from false format x.1 (count + x.0) x.2 in
    let more : ℕ × List ℕ × List Arg → Option (ℕ × List ℕ) =
      λ x. (format_text false format x.2 (count + x.0) >>= λ y. some (y.0, x.1 ++ y.1)) in
    rw (convert-text c args s) (
      bind-bind (conversion_text c args) (printed s) next
      ∙ bind_same (conversion_text c args) (λ x. printed s x >>= next) (λ x. more x >>= shown s)
          (λ x.
            printk_from-text false format x.2 (count + x.0) (print_string x.1 s)
            ∙ bind_same (format_text false format x.2 (count + x.0)) (shown (print_string x.1 s))
                (λ y. some (y.0, print_string (x.1 ++ y.1) s))
                (λ y. rw (print_string-append x.1 y.1 s) refl)
            ∙ sym (
                bind-bind (format_text false format x.2 (count + x.0)) (λ y. some (y.0, x.1 ++ y.1))
                  (shown s)))
      ∙ sym (bind-bind (conversion_text c args) more (shown s)))

-- `printk` of a format whose text is `t` returns; when fewer than 4096 characters wait in the ring
-- with it, the next flush gives the terminal those that waited before and then `t`, each once.
pub printk-flushed :
    (fuel n : ℕ) (format t q : List ℕ) (args : List Arg) (s : Console)
    → Pending q s
    → format_text false format args 0 ≡ some (n, t)
    → length q + length t < 4096
    → length q + length t < fuel
    → (s' : Console) × (printk format args s ≡ some (n, s'))
      × (console_flush fuel s' ≡ some (q ++ t, flushed s'))
      × Pending [] (flushed s')
unfolding printk
printk-flushed fuel n format t q args s p fits room enough =
    let (flush, rest) = console_flush-print_string fuel q t s p room enough in
    (print_string t s, rw (printk_from-text false format args 0 s, fits) refl, flush, rest)
