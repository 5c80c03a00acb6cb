-- ===== src/Stdio/Unsigned.antt =====
-- fscanf("%u") on printed numbers.
use cache_noise_visualizer.Base.{
  ℕ, ◌^◌, ◌<◌, ◌≡◌, refl, ◌≢◌, true, false, [], ◌∷◌, ◌++◌, ◌==◌, arith, ◌∙◌, ap,
}
use cache_noise_visualizer.Base.Text.{Bytes, is_digit, is_space}
use cache_noise_visualizer.Base.Text.Decimal.{
  IsDigits, decimal, digits_value, decimal-IsDigits, digits_value-decimal, decimal-ne-nil,
}
use cache_noise_visualizer.Stdio.{number, take_digits, scan_unsigned, convert}

-- The text does not begin with a digit.
abbrev pub NoDigit : Bytes → Type 0
NoDigit [] = Unit
NoDigit (c ∷ cs) = is_digit c ≡ false

pub take_digits-append :
    (ds rest : Bytes) → IsDigits ds → NoDigit rest → take_digits (ds ++ rest) ≡ ds
unfolding take_digits
take_digits-append [] [] h n = refl
take_digits-append [] (c ∷ cs) h n = rw n
take_digits-append (d ∷ ds) rest h n = rw (h.0, take_digits-append ds rest h.1 n)

digit_not_space : (c : ℕ) → is_digit c ≡ true → is_space c ≡ false
digit_not_space c h = ground arith

digit_not_minus : (c : ℕ) → is_digit c ≡ true → (c == b'-') ≡ false
digit_not_minus c h = ground arith

digit_not_plus : (c : ℕ) → is_digit c ≡ true → (c == b'+') ≡ false
digit_not_plus c h = ground arith

convert_small : (v : ℕ) → v < 2 ^ 32 → convert false v ≡ v
convert_small v h = omega arith

pub scan-digits :
    (ds rest : Bytes)
    → IsDigits ds
    → NoDigit rest
    → ds ≢ []
    → digits_value 0 ds < 2 ^ 32
    → scan_unsigned (ds ++ rest) ≡ number (digits_value 0 ds)
unfolding scan_unsigned
scan-digits [] rest h n ne lt = absurd (ne refl)
scan-digits (d ∷ ds) rest h n ne lt =
    rw
      (
        digit_not_space d h.0,
        digit_not_minus d h.0,
        digit_not_plus d h.0,
        take_digits-append (d ∷ ds) rest h n,
      )
      (ap number (convert_small (digits_value 0 (d ∷ ds)) lt))

-- What printf("%u") wrote is what fscanf("%u") reads, whatever follows the digits.
pub scan-decimal :
    (n : ℕ) (rest : Bytes)
    → n < 2 ^ 32
    → NoDigit rest
    → scan_unsigned (decimal n ++ rest) ≡ number n
scan-decimal n rest lt free =
    scan-digits (decimal n) rest (decimal-IsDigits n) free (decimal-ne-nil n)
      (rw (digits_value-decimal n) lt)
    ∙ ap number (digits_value-decimal n)
