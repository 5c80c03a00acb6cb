-- ===== src/Result/Sys.antt =====
-- Code that changes the world `W`: FORWARD_ON_FAIL as bind, and a call whose error code is kept.
use cache_noise_visualizer.Base.{◌≡◌, refl, subst, arith}
use cache_noise_visualizer.Errors.{ErrorCode, error_none}
use cache_noise_visualizer.Result.{Fault, Result, ok, err, fault, Run, done, failed, stuck}

abbrev pub Sys : Type 0 → Type 0 → Type 0
Sys W A = W → Run W A

abbrev pub and_then : {W A B : Type 0} → Run W A → (A → Sys W B) → Run W B
and_then (done a w) f = f a w
and_then (failed e w) f = failed e w
and_then (stuck x) f = stuck x

infixl 5 ◌>>=◌ ◌>>◌
abbrev pub ◌>>=◌ : {W A B : Type 0} → Sys W A → (A → Sys W B) → Sys W B
◌>>=◌ m f w = and_then (m w) f

abbrev pub ◌>>◌ : {W B : Type 0} → Sys W (Unit {0}) → Sys W B → Sys W B
m >> k = m >>= λ _. k

abbrev pub pure : {W A : Type 0} → A → Sys W A
pure a w = done a w

abbrev pub fail : {W A : Type 0} → ErrorCode → Sys W A
fail e w = failed e w

abbrev pub crash : {W A : Type 0} → Fault → Sys W A
crash x w = stuck x

abbrev pub run_result : {W A : Type 0} → Result A → Sys W A
run_result (ok a) w = done a w
run_result (err e) w = failed e w
run_result (fault x) w = stuck x

-- A function that only reads the world.
abbrev pub reading : {W A : Type 0} → (W → Result A) → Sys W A
reading f w = run_result (f w) w

abbrev pub code_of : {W : Type 0} → Run W (Unit {0}) → Run W ErrorCode
code_of (done _ w) = done error_none w
code_of (failed e w) = done e w
code_of (stuck x) = stuck x

-- `err = call(...)`: the code is a value and the caller goes on.
abbrev pub status : {W : Type 0} → Sys W (Unit {0}) → Sys W ErrorCode
status m w = code_of (m w)

-- A call that always answers.
abbrev pub answer : {W A : Type 0} → A × W → Run W A
answer (a, w) = done a w

-- A run that is done has a first part that is done.
pub and_then-done :
    {W A B : Type 0} (r : Run W A) (f : A → Sys W B) {b : B} {w : W}
    → and_then r f ≡ done b w
    → (a : A) × (v : W) × (r ≡ done a v) × (f a v ≡ done b w)
and_then-done (done a v) f h = (a, v, refl, h)
and_then-done (failed e v) f h = cc
and_then-done (stuck x) f h = cc

pub run_result-done :
    {W A : Type 0} (r : Result A) (v : W) {a : A} {w : W}
    → run_result r v ≡ done a w
    → (r ≡ ok a) × (v ≡ w)
run_result-done (ok b) v h = (ground arith, ground arith)
run_result-done (err e) v h = cc
run_result-done (fault x) v h = cc

abbrev OnDone : {W A : Type 0} → (A → W → Type 0) → Run W A → Type 0
OnDone P (done a v) = P a v
OnDone P (failed e v) = Unit
OnDone P (stuck x) = Unit

-- What holds of the end of a run holds of the same end written otherwise.
pub done-subst :
    {W A : Type 0} (P : A → W → Type 0) {a b : A} {v w : W} → done a v ≡ done b w → P a v → P b w
done-subst P e h = subst (OnDone P) e h
