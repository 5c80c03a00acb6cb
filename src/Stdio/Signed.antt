-- ===== src/Stdio/Signed.antt =====
-- atoi on printed integers.
use Prim.Native.Nat.{min}
use cache_noise_visualizer.Base.{
  ℕ, suc, ◌-◌, ◌^◌, ◌<◌, ◌≡◌, refl, ◌≢◌, true, false, [], ◌∷◌, ◌==◌, arith, ◌∙◌, ap,
}
use cache_noise_visualizer.Base.Int.{ℤ, pos, negsuc, IsInt, signed32}
use cache_noise_visualizer.Base.Words.{u32}
use cache_noise_visualizer.Base.Text.{Bytes, is_digit, is_space}
use cache_noise_visualizer.Base.Text.Decimal.{
  IsDigits, decimal, digits_value, decimal-IsDigits, digits_value-decimal, decimal-ne-nil,
}
use cache_noise_visualizer.Stdio.{take_digits, atoi}
use cache_noise_visualizer.SysInfo.Text.{show_int}

digit_plain :
    (c : ℕ)
    → is_digit c ≡ true
    → (is_space c ≡ false) × ((c == b'-') ≡ false) × ((c == b'+') ≡ false)
digit_plain c h = (ground arith, ground arith, ground arith)

small_int : (v : ℕ) → v < 2 ^ 31 → signed32 (u32 (min v (2 ^ 63 - 1))) ≡ pos v
small_int v h = ground arith

minus_int : (n : ℕ) → n < 2 ^ 31 → signed32 (u32 (2 ^ 64 - min (suc n) (2 ^ 63))) ≡ negsuc n
minus_int n h = ground arith

take_digits-all : (ds : Bytes) → IsDigits ds → take_digits ds ≡ ds
unfolding take_digits
take_digits-all [] h = refl
take_digits-all (d ∷ ds) (h, hs) = rw (h, take_digits-all ds hs)

atoi-digits :
    (ds : Bytes)
    → IsDigits ds
    → ds ≢ []
    → digits_value 0 ds < 2 ^ 31
    → atoi ds ≡ pos (digits_value 0 ds)
unfolding atoi
atoi-digits [] h ne small = absurd (ne refl)
atoi-digits (d ∷ ds) (h, hs) ne small =
    let (space, minus, plus) = digit_plain d h in
    rw (space, minus, plus, h, take_digits-all ds hs) (small_int (digits_value 0 (d ∷ ds)) small)

atoi-minus :
    (ds : Bytes) (n : ℕ)
    → IsDigits ds
    → digits_value 0 ds ≡ suc n
    → n < 2 ^ 31
    → atoi (b'-' ∷ ds) ≡ negsuc n
unfolding atoi
atoi-minus ds n h e small = rw (take_digits-all ds h, e) (minus_int n small)

-- atoi reads back every int that is printed with %d.
pub atoi-show_int : (z : ℤ) → IsInt z → atoi (show_int z) ≡ z
atoi-show_int (pos n) h =
    atoi-digits (decimal n) (decimal-IsDigits n) (decimal-ne-nil n) (rw (digits_value-decimal n) h)
    ∙ ap pos (digits_value-decimal n)
atoi-show_int (negsuc n) h =
    atoi-minus (decimal (suc n)) n (decimal-IsDigits (suc n)) (digits_value-decimal (suc n)) h
