-- ===== src/Result/Pure.antt =====
-- FORWARD_ON_FAIL where nothing but the result is kept.
use cache_noise_visualizer.Base.{◌≢◌, arith}
use cache_noise_visualizer.Errors.{ErrorCode}
use cache_noise_visualizer.Result.{Result, ok, err, fault}

infixl 5 ◌>>=◌
abbrev pub ◌>>=◌ : {A B : Type 0} → Result A → (A → Result B) → Result B
ok a >>= f = f a
err e >>= f = err e
fault x >>= f = fault x

-- A call that is not over with the error `e` goes on only to code that is not.
pub >>=-ne-err :
    {A B : Type 0} (e : ErrorCode) (m : Result A) (f : A → Result B)
    → m ≢ err e
    → ((a : A) → f a ≢ err e)
    → (m >>= f) ≢ err e
>>=-ne-err e (ok a) f h k = k a
>>=-ne-err e (err d) f h k = λ p. h (ground arith)
>>=-ne-err e (fault x) f h k = λ p. cc
