-- ===== src/Base/Text/Decimal.antt =====
-- Decimal numbers: the digits that printf writes, and the value that a run of digits has.
use Prim.Native.Nat.{ℕ, zero, suc, ◌+◌, ◌-◌, ◌*◌, ◌/◌, ◌%◌, ◌^◌, ◌≤◌, ◌<◌}
use native.Mathlib.Nat.{pow-suc}
use mathlib.Core.Path.{◌≡◌, refl, sym, ap, ◌∙◌}
use mathlib.Core.Bool.{true}
use mathlib.Core.List.{[], ◌∷◌, ◌++◌}
use mathlib.Core.Logic.{◌≢◌, inl, inr}
use native.Mathlib.Omega.{arith}
use cache_noise_visualizer.Base.Tests.{ltb, if◌then◌else◌, Bool-cases}
use cache_noise_visualizer.Base.Lists.{length, All, All-append, length-append}
use cache_noise_visualizer.Base.Text.{Bytes, is_digit}

-- The value of a run of digits, continued from `acc`.
unfoldable pub digits_value : ℕ → Bytes → ℕ
digits_value acc [] = acc
digits_value acc (c ∷ cs) = digits_value (acc * 10 + (c - 48)) cs

abbrev pub IsDigits : Bytes → Type 0
IsDigits = All (λ c. is_digit c ≡ true)

-- The digits of `n`, most significant first, on fuel: `n + 1` rounds are enough.
digits_fuel : ℕ → ℕ → Bytes
digits_fuel zero n = []
digits_fuel (suc k) n =
    let rest = digits_fuel k (n / 10) in
    if ltb n 10 then (n + 48) ∷ [] else rest ++ (n % 10 + 48) ∷ []

unfoldable pub decimal : ℕ → Bytes
unfolding digits_fuel
decimal n = digits_fuel (suc n) n

digits_value-append :
    (acc : ℕ) (xs ys : Bytes) → digits_value acc (xs ++ ys) ≡ digits_value (digits_value acc xs) ys
unfolding digits_value
digits_value-append acc [] ys = refl
digits_value-append acc (x ∷ xs) ys = digits_value-append (acc * 10 + (x - 48)) xs ys

digits_fuel-value : (k n : ℕ) → n < k → digits_value 0 (digits_fuel k n) ≡ n
unfolding digits_fuel digits_value
digits_fuel-value zero n h = absurd (omega arith)
digits_fuel-value (suc k) n h = elim (Bool-cases (ltb n 10)) [
  | inl small ↦ rw small (omega arith)
  | inr large ↦
      rw
        (
          large,
          digits_value-append 0 (digits_fuel k (n / 10)) ((n % 10 + 48) ∷ []),
          digits_fuel-value k (n / 10) (ground arith),
        )
        (omega arith)
]

digits_fuel-IsDigits : (k n : ℕ) → IsDigits (digits_fuel k n)
unfolding digits_fuel
digits_fuel-IsDigits zero n = tt
digits_fuel-IsDigits (suc k) n = elim (Bool-cases (ltb n 10)) [
  | inl small ↦ rw small (ground arith, tt)
  | inr large ↦ rw large (All-append _ _ _ (digits_fuel-IsDigits k (n / 10)) (ground arith, tt))
]

tenth_lt : (d n : ℕ) → n < 10 ^ suc (suc d) → n / 10 < 10 ^ suc d
tenth_lt d n h = omega (arith, pow-suc 10 (suc d))

digits_fuel-length : (d k n : ℕ) → n < 10 ^ suc d → length (digits_fuel k n) ≤ suc d
unfolding digits_fuel
digits_fuel-length d zero n h = omega arith
digits_fuel-length zero (suc k) n h = elim (Bool-cases (ltb n 10)) [
  | inl small ↦ rw small (omega arith)
  | inr large ↦ absurd (ground arith)
]
digits_fuel-length (suc d) (suc k) n h = elim (Bool-cases (ltb n 10)) [
  | inl small ↦ rw small (omega arith)
  | inr large ↦ rw large (
      omega (
        arith,
        length-append (digits_fuel k (n / 10)) ((n % 10 + 48) ∷ []),
        digits_fuel-length d k (n / 10) (tenth_lt d n h),
      ))
]

append-ne-nil : (xs : Bytes) (y : ℕ) → xs ++ y ∷ [] ≢ []
append-ne-nil [] y e = cc
append-ne-nil (x ∷ xs) y e = cc

pub decimal-ne-nil : (n : ℕ) → decimal n ≢ []
unfolding decimal
decimal-ne-nil n e = elim (Bool-cases (ltb n 10)) [
  | inl small ↦ cc (rw small at e)
  | inr large ↦ append-ne-nil _ _ (rw large at e)
]

pub digits_value-decimal : (n : ℕ) → digits_value 0 (decimal n) ≡ n
unfolding decimal
digits_value-decimal n = digits_fuel-value (suc n) n (omega arith)

pub decimal-IsDigits : (n : ℕ) → IsDigits (decimal n)
unfolding decimal
decimal-IsDigits n = digits_fuel-IsDigits (suc n) n

pub length-decimal : (d n : ℕ) → n < 10 ^ suc d → length (decimal n) ≤ suc d
unfolding decimal
length-decimal d n h = digits_fuel-length d (suc n) n h

-- Different numbers are printed differently.
pub decimal-injective : (m n : ℕ) → decimal m ≡ decimal n → m ≡ n
decimal-injective m n e =
    sym (digits_value-decimal m) ∙ ap (digits_value 0) e ∙ digits_value-decimal n
