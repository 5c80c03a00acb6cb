-- ===== src/Main/Flows.antt =====
-- What a part of main promises of the variables and the world, for each way in which it ends.
use cache_noise_visualizer.Base.{
  ◌≡◌, Bool, true, false, ◌++◌, [], ◌∷◌, if◌then◌else◌, String, Bool-cases, inl, inr,
}
use cache_noise_visualizer.Base.Int.{int_eq, pos}
use cache_noise_visualizer.Base.Text.{Bytes, codes}
use cache_noise_visualizer.Errors.{ErrorCode, error_none}
use cache_noise_visualizer.Result.{Run, done, failed, stuck}
use cache_noise_visualizer.SysInfo.Text.{show_int}
use cache_noise_visualizer.Console.{Console}
use cache_noise_visualizer.Main.Flow.{
  Locals, Flow, next, finalize, exits, broken, Step, and_go, ◌>>◌, Call, then_call, report_errno,
  report_failure, exit_on_fail,
}

-- `Q` at the end, `F` at a jump to FINALIZE, and `X` where the program exits.
abbrev pub Ends :
    {W : Type 0} → (Locals → W → Type 0) → (Locals → W → Type 0) → (W → Type 0) → Flow W → Type 0
Ends Q F X (next l w) = Q l w
Ends Q F X (finalize l w) = F l w
Ends Q F X (exits n w) = X w
Ends Q F X (broken x) = Unit

pub record Flows {W : Type 0} (P Q F : Locals → W → Type 0) (X : W → Type 0) (m : Step W)
    : Type 0 where
  pub at : (l : Locals) (w : W) → P l w → Ends Q F X (m l w)

-- Behind a call, for the variables `l` of a call that has stored nothing.
abbrev pub Called :
    {W : Type 0} → (Locals → W → Type 0) → Locals → Run W (ErrorCode × Locals) → Type 0
Called P l (done (e, l') w) = P l' w
Called P l (failed e w) = P l w
Called P l (stuck x) = Unit

abbrev pub Coded :
    {W : Type 0} → (ErrorCode → Locals → W → Type 0) → Run W (ErrorCode × Locals) → Type 0
Coded C (done (e, l) w) = C e l w
Coded C (failed e w) = true ≡ false
Coded C (stuck x) = Unit

pub record Calls {W : Type 0} (P : Locals → W → Type 0) (c : Call W) : Type 0 where
  pub at : (l : Locals) (w : W) → P l w → Called P l (c l w)

module _ {W : Type 0} where
  Ends-and_go :
      {P Q F : Locals → W → Type 0} {X : W → Type 0} (r : Flow W) (k : Step W)
      → Ends P F X r
      → Flows P Q F X k
      → Ends Q F X (and_go r k)
  Ends-and_go (next l w) k h s = s.at l w h
  Ends-and_go (finalize l w) k h s = h
  Ends-and_go (exits n w) k h s = h
  Ends-and_go (broken x) k h s = tt

  pub Flows-then :
      {P Q R F : Locals → W → Type 0} {X : W → Type 0} (m k : Step W)
      → Flows P Q F X m
      → Flows Q R F X k
      → Flows P R F X (m >> k)
  Flows-then m k s t = record { at = λ l w h. Ends-and_go (m l w) k (s.at l w h) t }

  pub Ends-weaken :
      (Q R F G : Locals → W → Type 0) (X Y : W → Type 0) (r : Flow W)
      → ((l : Locals) (w : W) → Q l w → R l w)
      → ((l : Locals) (w : W) → F l w → G l w)
      → ((w : W) → X w → Y w)
      → Ends Q F X r
      → Ends R G Y r
  Ends-weaken Q R F G X Y (next l w) q f g h = q l w h
  Ends-weaken Q R F G X Y (finalize l w) q f g h = f l w h
  Ends-weaken Q R F G X Y (exits n w) q f g h = g w h
  Ends-weaken Q R F G X Y (broken x) q f g h = tt

  -- Weaker promises.
  pub Flows-weaken :
      {P Q R F G : Locals → W → Type 0} {X Y : W → Type 0} (m : Step W)
      → ((l : Locals) (w : W) → Q l w → R l w)
      → ((l : Locals) (w : W) → F l w → G l w)
      → ((w : W) → X w → Y w)
      → Flows P Q F X m
      → Flows P R G Y m
  Flows-weaken {Q = Q} {R = R} {F = F} {G = G} {X = X} {Y = Y} m q f g s = record {
    at = λ l w h. Ends-weaken Q R F G X Y (m l w) q f g (s.at l w h);
  }

  pub Flows-if :
      {P Q F : Locals → W → Type 0} {X : W → Type 0} (b : Bool) (m k : Step W)
      → Flows P Q F X m
      → Flows P Q F X k
      → Flows P Q F X (if b then m else k)
  Flows-if true m k s t = s
  Flows-if false m k s t = t

  -- A step that first reads the variables.
  pub Flows-read :
      {P Q F : Locals → W → Type 0} {X : W → Type 0} (f : Locals → Step W)
      → ((l : Locals) → Flows P Q F X (f l))
      → Flows P Q F X (λ l. f l l)
  Flows-read f s = record { at = λ l w h. (s l).at l w h }

  -- A step that goes on by a test of the variables.
  pub Flows-test :
      {P Q F : Locals → W → Type 0} {X : W → Type 0} (b : Locals → Bool) (m k : Step W)
      → Flows P Q F X m
      → Flows P Q F X k
      → Flows P Q F X (λ l w. if b l then m l w else k l w)
  Flows-test {P = P} {Q = Q} {F = F} {X = X} b m k s t = record {
    at = λ l w h. either (b l) (m l w) (k l w) (s.at l w h) (t.at l w h);
  }
    where
      either :
          (c : Bool) (r q : Flow W) → Ends Q F X r → Ends Q F X q → Ends Q F X (if c then r else q)
      either true r q h i = h
      either false r q h i = i

  pub Flows-next : {P F : Locals → W → Type 0} {X : W → Type 0} → Flows P P F X next
  Flows-next = record { at = λ l w h. h }

  -- A call that always returns a code, with what its code says of the variables behind it.
  pub Ends-Coded :
      (C : ErrorCode → Locals → W → Type 0) (Q F : Locals → W → Type 0) (X : W → Type 0)
      (l : Locals) (r : Run W (ErrorCode × Locals)) (k : ErrorCode → Step W)
      → Coded C r
      → ((e : ErrorCode) (l' : Locals) (w : W) → C e l' w → Ends Q F X (k e l' w))
      → Ends Q F X (then_call l r k)
  Ends-Coded C Q F X l (done (e, l') w) k h s = s e l' w h
  Ends-Coded C Q F X l (failed e w) k h s = cc
  Ends-Coded C Q F X l (stuck x) k h s = tt

  -- A call, and what follows it in main.
  pub Ends-then_call :
      (P Q F : Locals → W → Type 0) (X : W → Type 0) (l : Locals) (r : Run W (ErrorCode × Locals))
      (k : ErrorCode → Step W)
      → Called P l r
      → ((e : ErrorCode) (l' : Locals) (w : W) → P l' w → Ends Q F X (k e l' w))
      → Ends Q F X (then_call l r k)
  Ends-then_call P Q F X l (done (e, l') w) k h s = s e l' w h
  Ends-then_call P Q F X l (failed e w) k h s = s e l w h
  Ends-then_call P Q F X l (stuck x) k h s = tt

module _ {W : Type 0} (console : Console W) (M : W → Type 0)
    (prints : (text : Bytes) (w : W) → M w → M (console.print_err text w)) where
  report_errno_keeps : (w : W) → M w → M (report_errno console w)
  unfolding report_errno
  report_errno_keeps w h =
      prints (10 ∷ [])
        (if int_eq (console.errno w) (pos 0) then w else console.print_err (errno_text w) w)
        (elim (Bool-cases (int_eq (console.errno w) (pos 0))) [
          | inl clear ↦ rw clear h
          | inr raised ↦ rw raised (prints (errno_text w) w h)
        ])
    where
      errno_text : W → Bytes
      errno_text w =
          b':'
          ∷ (console.strerror (console.errno w)
              ++ (b'(' ∷ (show_int (console.errno w) ++ (b')' ∷ []))))

  pub report_failure_keeps :
      (message : Bytes) (decoded printed : ErrorCode) (w : W)
      → M w
      → M (report_failure console message decoded printed w)
  unfolding report_failure
  report_failure_keeps message decoded printed w h =
      report_errno_keeps (console.print_err _ w) (prints _ w h)

module _ {W : Type 0} (console : Console W) (P : Locals → W → Type 0) (X : W → Type 0)
    (prints : (l : Locals) (text : Bytes) (w : W) → P l w → P l (console.print_err text w)) where
  -- A call behind EXIT_ON_FAIL, which is evaluated once or three times.
  pub exit_on_fail-Flows :
      (left_first : Bool) (message : String) (call : Call W)
      → Calls P call
      → Flows P P P X (exit_on_fail console left_first message call)
  unfolding exit_on_fail
  exit_on_fail-Flows left_first message call calls = record {
    at = λ l w h. Ends-then_call P P P X l (call l w) _ (calls.at l w h) λ res l₁ w₁ h₁.
        elim (Bool-cases (int_eq res error_none)) [
          | inl success ↦ rw success h₁
          | inr failure ↦ rw failure (
              Ends-then_call P P P X l₁ (call l₁ w₁) _ (calls.at l₁ w₁ h₁) λ first l₂ w₂ h₂.
                Ends-then_call P P P X l₂ (call l₂ w₂) _ (calls.at l₂ w₂ h₂) λ second l₃ w₃ h₃.
                  report_failure_keeps console (P l₃) (prints l₃) (codes message) _ _ w₃ h₃)
        ];
  }
