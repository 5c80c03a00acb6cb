-- ===== src/Result/Keeps.antt =====
-- Predicates of the world that code keeps, whatever it comes to: one rule for each way to build code.
use cache_noise_visualizer.Base.{Bool, true, false, if◌then◌else◌}
use cache_noise_visualizer.Errors.{ErrorCode}
use cache_noise_visualizer.Result.{Fault, Result, ok, err, fault, Run, done, failed, stuck}
use cache_noise_visualizer.Result.Sys.{
  Sys, ◌>>=◌, ◌>>◌, pure, fail, crash, run_result, reading, and_then, status, code_of, answer,
}

-- The world of a run that is over.
abbrev pub Over : {W A : Type 0} → (W → Type 0) → Run W A → Type 0
Over P (done a w) = P w
Over P (failed e w) = P w
Over P (stuck x) = Unit

Over-run_result :
    {W A : Type 0} (P : W → Type 0) (r : Result A) (w : W) → P w → Over P (run_result r w)
Over-run_result P (ok a) w h = h
Over-run_result P (err e) w h = h
Over-run_result P (fault x) w h = tt

Over-code_of : {W : Type 0} (P : W → Type 0) (r : Run W (Unit {0})) → Over P r → Over P (code_of r)
Over-code_of P (done a w) h = h
Over-code_of P (failed e w) h = h
Over-code_of P (stuck x) h = tt

-- `m` keeps `P`
pub record Keeps {W A : Type 0} (P : W → Type 0) (m : Sys W A) : Type 0 where
  pub at : (w : W) → P w → Over P (m w)

module _ {W A : Type 0} {P : W → Type 0} where
  pub Keeps-pure : (a : A) → Keeps P (pure a)
  Keeps-pure a = record { at = λ w h. h }

  pub Keeps-fail : (e : ErrorCode) → Keeps P (fail {A = A} e)
  Keeps-fail e = record { at = λ w h. h }

  pub Keeps-crash : (x : Fault) → Keeps P (crash {A = A} x)
  Keeps-crash x = record { at = λ w h. tt }

  pub Keeps-run_result : (r : Result A) → Keeps P (run_result r)
  Keeps-run_result r = record { at = Over-run_result P r }

  pub Keeps-reading : (f : W → Result A) → Keeps P (reading f)
  Keeps-reading f = record { at = λ w h. Over-run_result P (f w) w h }

  -- A call that always answers.
  pub Keeps-answer : (f : W → A × W) → ((w : W) → P w → P (f w).1) → Keeps P (λ w. answer (f w))
  Keeps-answer f k = record { at = k }

  pub Keeps-if : (b : Bool) (m n : Sys W A) → Keeps P m → Keeps P n → Keeps P (if b then m else n)
  Keeps-if true m n k l = k
  Keeps-if false m n k l = l

-- A call that only changes the world.
pub Keeps-done :
    {W : Type 0} {P : W → Type 0} (f : W → W)
    → ((w : W) → P w → P (f w))
    → Keeps P (λ w. done tt (f w))
Keeps-done f k = record { at = k }

module _ {W A B : Type 0} {P : W → Type 0} where
  pub Over-and_then :
      (r : Run W A) (f : A → Sys W B) → Over P r → ((a : A) → Keeps P (f a)) → Over P (and_then r f)
  Over-and_then (done a w) f h k = (k a).at w h
  Over-and_then (failed e w) f h k = h
  Over-and_then (stuck x) f h k = tt

  pub Keeps-bind :
      (m : Sys W A) (f : A → Sys W B) → Keeps P m → ((a : A) → Keeps P (f a)) → Keeps P (m >>= f)
  Keeps-bind m f k l = record { at = λ w h. Over-and_then (m w) f (k.at w h) l }

module _ {W : Type 0} {P : W → Type 0} where
  pub Keeps-then :
      {B : Type 0} (m : Sys W (Unit {0})) (n : Sys W B) → Keeps P m → Keeps P n → Keeps P (m >> n)
  Keeps-then m n k l = Keeps-bind m (λ _. n) k (λ _. l)

  pub Keeps-status : (m : Sys W (Unit {0})) → Keeps P m → Keeps P (status m)
  Keeps-status m k = record { at = λ w h. Over-code_of P (m w) (k.at w h) }

pub ruleset keeps_rules = (
  Keeps-pure, Keeps-fail, Keeps-crash, Keeps-run_result, Keeps-reading, Keeps-if, Keeps-bind,
  Keeps-then, Keeps-status,
)
