-- ===== src/Main/Flow.antt =====
-- The control flow of main: EXIT_ON_FAIL of inc/error.h, the jump to FINALIZE, and exit.
use cache_noise_visualizer.Base.{ℕ, Bool, [], ◌∷◌, ◌++◌, String, if◌then◌else◌}
use cache_noise_visualizer.Base.Int.{pos, int_eq}
use cache_noise_visualizer.Base.Text.{Bytes, codes}
use cache_noise_visualizer.Errors.{ErrorCode, error_none, decode_error}
use cache_noise_visualizer.Result.{Fault, Run, done, failed, stuck}
use cache_noise_visualizer.SysInfo.CacheInfo.{CacheInfo}
use cache_noise_visualizer.SysInfo.Text.{show_int}
use cache_noise_visualizer.Console.{Console}
use cache_noise_visualizer.Output.{Output}
use cache_noise_visualizer.Main.Options.{Arguments}

-- The variables of main.
pub record Locals : Type 0 where
  pub output : Output
  pub arguments : Arguments
  pub cache : CacheInfo
  pub buffer : ℕ

-- How a part of main ends: at its end, at a jump to FINALIZE, in a call of exit, or in a fault.
pub data Flow (W : Type 0) : Type 0 where
  next : Locals → W → Flow W
  finalize : Locals → W → Flow W
  exits : ℕ → W → Flow W
  broken : Fault → Flow W

abbrev pub Step : Type 0 → Type 0
Step W = Locals → W → Flow W

abbrev pub and_go : {W : Type 0} → Flow W → Step W → Flow W
and_go (next l w) f = f l w
and_go (finalize l w) f = finalize l w
and_go (exits n w) f = exits n w
and_go (broken x) f = broken x

infixl 5 ◌>>◌
abbrev pub ◌>>◌ : {W : Type 0} → Step W → Step W → Step W
◌>>◌ m k l w = and_go (m l w) k

-- A call of main: the code, and the variables behind it. A run that is `failed` has stored nothing.
abbrev pub Call : Type 0 → Type 0
Call W = Locals → W → Run W (ErrorCode × Locals)

abbrev pub then_call :
    {W : Type 0} → Locals → Run W (ErrorCode × Locals) → (ErrorCode → Step W) → Flow W
then_call l (done (e, l') w) k = k e l' w
then_call l (failed e w) k = k e l w
then_call l (stuck x) k = broken x

module _ {W : Type 0} (console : Console W) where
  abbrev pub say : Bytes → Step W
  say text l w = next l (console.print_out text w)

  -- `if (errno) fprintf(stderr, ":%s(%d)", strerror(errno), errno)` and the end of the line
  unfoldable pub report_errno : W → W
  report_errno w =
      let errno = console.errno w in
      console.print_err (10 ∷ []) (
        if int_eq errno (pos 0)
        then w
        else console.print_err
            (b':' ∷ (console.strerror errno ++ (b'(' ∷ (show_int errno ++ (b')' ∷ []))))) w)

  -- The report: a text with the message of one code, and another code as a number.
  unfoldable pub report_failure : Bytes → ErrorCode → ErrorCode → W → W
  unfolding report_errno
  report_failure message decoded printed w = report_errno (
      console.print_err
        (message
          ++ (codes ", "
              ++ (codes (decode_error decoded) ++ (b'(' ∷ (show_int printed ++ codes ") ")))))
        w)

  -- EXIT_ON_FAIL(error_code, message): the expression stands in the macro's body three times, once
  -- for the test and twice among the arguments of fprintf, which the compiler evaluates from the
  -- left or from the right.
  unfoldable pub exit_on_fail : Bool → String → Call W → Step W
  unfolding report_failure
  exit_on_fail left_first message call l w = then_call l (call l w) λ res l₁ w₁.
      if int_eq res error_none
      then next l₁ w₁
      else then_call l₁ (call l₁ w₁) λ first l₂ w₂. then_call l₂ (call l₂ w₂) λ second l₃ w₃.
        finalize l₃ (
          report_failure (codes message) (if left_first then first else second)
            (if left_first then second else first) w₃)
