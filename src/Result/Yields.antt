-- ===== src/Result/Yields.antt =====
-- What holds of the value of a function that only reads the system, where it has one.
use cache_noise_visualizer.Base.{◌≡◌, refl, subst, Bool, true, false, if◌then◌else◌}
use cache_noise_visualizer.Errors.{ErrorCode}
use cache_noise_visualizer.Result.{Fault, Result, ok, err, fault}
use cache_noise_visualizer.Result.Pure.{◌>>=◌}

-- A result that is `ok` satisfies `P`.
pub record Yields {A : Type 0} (P : A → Type 0) (r : Result A) : Type 0 where
  pub at : (a : A) → r ≡ ok a → P a

module _ {A : Type 0} {P : A → Type 0} where
  pub Yields-ok : (a : A) → P a → Yields P (ok a)
  Yields-ok a h = record { at = λ b e. let same : a ≡ b = cc in subst P same h }

  pub Yields-err : (e : ErrorCode) → Yields P (err e)
  Yields-err e = record { at = λ b h. cc }

  pub Yields-fault : (x : Fault) → Yields P (fault x)
  Yields-fault x = record { at = λ b h. cc }

  pub Yields-if :
      (b : Bool) (r s : Result A) → Yields P r → Yields P s → Yields P (if b then r else s)
  Yields-if true r s h k = h
  Yields-if false r s h k = k

module _ {A B : Type 0} {P : A → Type 0} {Q : B → Type 0} where
  pub Yields-bind :
      (r : Result A) (f : A → Result B)
      → Yields P r
      → ((a : A) → P a → Yields Q (f a))
      → Yields Q (r >>= f)
  Yields-bind (ok a) f h k = k a (h.at a refl)
  Yields-bind (err e) f h k = Yields-err e
  Yields-bind (fault x) f h k = Yields-fault x

-- A rule that asks nothing of the first value.
pub Yields-after :
    {B C : Type 0} {Q : B → Type 0} (r : Result C) (f : C → Result B)
    → ((c : C) → Yields Q (f c))
    → Yields Q (r >>= f)
Yields-after (ok c) f k = k c
Yields-after (err e) f k = Yields-err e
Yields-after (fault x) f k = Yields-fault x
