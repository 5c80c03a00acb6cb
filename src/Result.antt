-- ===== src/Result.antt =====
-- Results of functions that only read the system, and runs of functions that change it. The macro
-- FORWARD_ON_FAIL of inc/error.h is the bind of either: a function returns its error code, and what
-- it stores through its out-parameter is the value of `ok` or `done`. A fault stands for what C
-- leaves undefined, and for a loop that does not end.
pub mod Keeps
pub mod Pure
pub mod Sys
pub mod Yields
use cache_noise_visualizer.Base.{
  ℕ, ◌+◌, ◌^◌, ◌≡◌, refl, ◌⊎◌, inl, inr, true, false, ltb, if◌then◌else◌,
}
use cache_noise_visualizer.Errors.{ErrorCode}

pub data Fault : Type 0 where
  -- a stream function is called with the null pointer
  null_stream : Fault
  -- integer division by zero
  division_by_zero : Fault
  -- an access to memory that is not mapped
  bad_access : Fault
  -- a signed number overflows, or a shift is by the width of its operand or more
  overflow : Fault
  -- the fuel of a loop ran out
  out_of_fuel : Fault

pub data Result (A : Type 0) : Type 0 where
  ok : A → Result A
  err : ErrorCode → Result A
  fault : Fault → Result A

-- `++` of an int that is not negative
abbrev pub int_suc : ℕ → Result ℕ
int_suc i = if ltb (i + 1) (2 ^ 31) then ok (i + 1) else fault overflow

pub Result-cases :
    {A : Type 0} (r : Result A)
    → ((a : A) × (r ≡ ok a)) ⊎ (((e : ErrorCode) × (r ≡ err e)) ⊎ ((x : Fault) × (r ≡ fault x)))
Result-cases (ok a) = inl (a, refl)
Result-cases (err e) = inr (inl (e, refl))
Result-cases (fault x) = inr (inr (x, refl))

-- The result, and the world that the code leaves.
pub data Run (W A : Type 0) : Type 0 where
  done : A → W → Run W A
  failed : ErrorCode → W → Run W A
  stuck : Fault → Run W A
