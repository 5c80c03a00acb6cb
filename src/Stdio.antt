-- ===== src/Stdio.antt =====
-- The C library functions that the program reads text with: fscanf("%u"), fgets and atoi.
pub mod Signed
pub mod Unsigned
use Prim.Native.Nat.{min}
use cache_noise_visualizer.Base.{
  ℕ, zero, suc, ◌-◌, ◌^◌, Bool, true, false, List, [], ◌∷◌, Option, none, some, ◌==◌, if◌then◌else◌,
}
use cache_noise_visualizer.Base.Int.{ℤ, pos, signed32}
use cache_noise_visualizer.Base.Words.{u32}
use cache_noise_visualizer.Base.Text.{Bytes, is_digit, is_space}
use cache_noise_visualizer.Base.Text.Decimal.{digits_value}

-- What fscanf(file, "%u", p) does: EOF before any input, no match (it returns 0 and leaves *p), or
-- one conversion.
pub data Scan : Type 0 where
  end_of_file : Scan
  no_match : Scan
  number : ℕ → Scan

unfoldable pub skip_spaces : Bytes → Bytes
skip_spaces [] = []
skip_spaces (c ∷ cs) = if is_space c then skip_spaces cs else c ∷ cs

unfoldable pub take_digits : Bytes → Bytes
take_digits [] = []
take_digits (c ∷ cs) = if is_digit c then c ∷ take_digits cs else []

-- glibc clips to unsigned long, negates after a minus sign, and stores the low 32 bits.
abbrev pub convert : Bool → ℕ → ℕ
convert true v = u32 (2 ^ 64 - min v (2 ^ 64 - 1))
convert false v = u32 (min v (2 ^ 64 - 1))

abbrev pub scanned : Bool → Bytes → Scan
scanned negative [] = no_match
scanned negative (d ∷ ds) = number (convert negative (digits_value 0 (d ∷ ds)))

abbrev pub scan_signed : Bytes → Scan
scan_signed [] = end_of_file
scan_signed (c ∷ cs) =
    if c == b'-'
    then scanned true (take_digits cs)
    else if c == b'+'
    then scanned false (take_digits cs)
    else scanned false (take_digits (c ∷ cs))

unfoldable pub scan_unsigned : Bytes → Scan
unfolding skip_spaces take_digits
scan_unsigned s = scan_signed (skip_spaces s)

-- fgets(line, n + 1, file) on the text that is left: up to `n` bytes, through the first newline. The
-- result is the line and the rest; a caller tests for the end of the file itself.
unfoldable pub get_line : ℕ → Bytes → Bytes
get_line zero cs = []
get_line (suc n) [] = []
get_line (suc n) (c ∷ cs) = if c == 10 then c ∷ [] else c ∷ get_line n cs

unfoldable pub after_line : ℕ → Bytes → Bytes
after_line zero cs = cs
after_line (suc n) [] = []
after_line (suc n) (c ∷ cs) = if c == 10 then cs else after_line n cs

-- atoi of a text that holds digits only: glibc clips to long and keeps the low 32 bits.
unfoldable pub atoi_digits : Bytes → ℕ
atoi_digits ds = u32 (min (digits_value 0 ds) (2 ^ 63 - 1))

-- strtol of the text behind the spaces, converted to int.
abbrev pub atoi_signed : Bytes → ℤ
atoi_signed [] = pos 0
atoi_signed (c ∷ cs) =
    if c == b'-'
    then signed32 (u32 (2 ^ 64 - min (digits_value 0 (take_digits cs)) (2 ^ 63)))
    else if c == b'+'
    then signed32 (atoi_digits (take_digits cs))
    else signed32 (atoi_digits (take_digits (c ∷ cs)))

unfoldable pub atoi : Bytes → ℤ
unfolding skip_spaces take_digits atoi_digits
atoi s = atoi_signed (skip_spaces s)
