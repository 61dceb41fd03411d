-- ===== src/Printk/Tests.antt =====
-- The theorems on the kernel log at an empty ring and the format "n=%d%%".
use hekaos_series.Base.{ℕ, ◌-◌, ◌^◌, ◌≤◌, ◌<◌, ◌≡◌, refl, true, false, some, List, [], ◌∷◌, arith}
use hekaos_series.Printk.{Console, Arg, word, printk, print_int_text, print_hex_text, console_flush}
use hekaos_series.Printk.Flush.{Pending, flushed}
use hekaos_series.Printk.Digits.{Writes, Numeral, print_int_text-Writes}
use hekaos_series.Printk.Text.{format_text, printk-flushed}

abbrev quiet : Console
quiet = record { log_buf = λ i. 0; log_write_idx = 4094; log_size = 4094; console_read_idx = 4094 }

quiet-Pending : Pending [] quiet
quiet-Pending = record {
  chars = λ i lt. absurd (omega arith);
  write = refl;
  few = omega arith;
  inside = omega arith;
}

abbrev format : List ℕ
format = 110 ∷ 61 ∷ 37 ∷ 100 ∷ 37 ∷ 37 ∷ []

-- "n=-1%"
abbrev shown_text : List ℕ
shown_text = 110 ∷ 61 ∷ 45 ∷ 49 ∷ 37 ∷ []

format_text_minus_one : format_text false format (word 0xffff_ffff ∷ []) 0 ≡ some (4, shown_text)
unfolding format_text hekaos_series.Printk.Text.conversion_text hekaos_series.Printk.next_word
    hekaos_series.Printk.print_int_text hekaos_series.Printk.digits hekaos_series.Printk.hex_digit
format_text_minus_one = refl

printk-flushed_example :
    (s' : Console) × (printk format (word 0xffff_ffff ∷ []) quiet ≡ some (4, s'))
    × (console_flush 9 s' ≡ some (shown_text, flushed s'))
    × Pending [] (flushed s')
printk-flushed_example =
    printk-flushed 9 4 format shown_text [] (word 0xffff_ffff ∷ []) quiet quiet-Pending
      format_text_minus_one (omega arith) (omega arith)

print_int_text-Writes_example :
    Writes 10 (print_int_text 0x8000_0000 10 false) 0x8000_0000
    × (0x8000_0000 < 2 ^ 31 → Writes 10 (print_int_text 0x8000_0000 10 true) 0x8000_0000)
    × (2 ^ 31 ≤ 0x8000_0000
        → (t : List ℕ) × (print_int_text 0x8000_0000 10 true ≡ some (45 ∷ t))
          × Numeral 10 t (2 ^ 32 - 0x8000_0000))
    × ((t : List ℕ) × (print_hex_text 0x8000_0000 ≡ some (48 ∷ 120 ∷ t)) × Numeral 16 t 0x8000_0000)
print_int_text-Writes_example = print_int_text-Writes 0x8000_0000 (omega arith)
