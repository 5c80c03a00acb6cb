-- ===== src/Main/Released/Allocate.antt =====
-- The mappings behind the allocation in main, which EXIT_ON_FAIL evaluates once or three times.
use cache_noise_visualizer.Base.{
  ℕ, String, ◌^◌, ◌<◌, inl, inr, refl, ◌∙◌, Bool, if◌then◌else◌, Bool-cases,
}
use cache_noise_visualizer.Base.Int.{int_eq, int_eq_iff}
use cache_noise_visualizer.Base.Text.{codes}
use cache_noise_visualizer.Errors.{ErrorCode, error_none}
use cache_noise_visualizer.Result.{Run, done, failed, stuck}
use cache_noise_visualizer.Alloc.{alloc_aligned}
use cache_noise_visualizer.Alloc.Outcomes.{Mapper, Outcome, Returns, alloc_aligned-Returns}
use cache_noise_visualizer.Main.Flow.{Locals, Call, report_failure}
use cache_noise_visualizer.Main.Flows.{Flows, Coded, Ends-Coded, report_failure_keeps}
use cache_noise_visualizer.Main.Program.{System, with_locals, allocate}
use cache_noise_visualizer.Main.Kept.{Frame, Kept}
use cache_noise_visualizer.Main.Released.{
  Mapped, Unlost, Clean, FirstCall, Left, first_call, later_call,
}

module _ {W : Type 0} (live : ℕ → W → Bool) where
  Coded-with_locals :
      (C : ErrorCode → Locals → W → Type 0) (l : Locals) (w : W) (r : Run W (ErrorCode × ℕ))
      → Returns live l.buffer w r
      → ((e : ErrorCode) (b : ℕ) (v : W)
          → Outcome live l.buffer w e b v
          → C e (record l { buffer = b }) v)
      → Coded C (with_locals (λ b. record l { buffer = b }) r)
  Coded-with_locals C l w (done (e, b) v) h k = k e b v h
  Coded-with_locals C l w (failed e v) h k = h
  Coded-with_locals C l w (stuck x) h k = tt

module _ {W D : Type 0} (system : System W D) (live : ℕ → W → Bool) (size : ℕ)
    (mapper : Mapper system.files system.memory live size)
    (frame : (m : ℕ → Bool) → Frame system (Mapped live m)) (start : ℕ → Bool) where
  open system use {files, memory, console}

  abbrev call : Call W
  call l w =
      with_locals (λ b. record l { buffer = b })
        (alloc_aligned files memory system.stale_uint l.buffer l.cache w)

  call-Coded :
      (C : ErrorCode → Locals → W → Type 0) (l : Locals) (w : W)
      → l.cache.total_size < 2 ^ 32
      → ((e : ErrorCode) (b : ℕ) (v : W)
          → Outcome live l.buffer w e b v
          → C e (record l { buffer = b }) v)
      → Coded C (call l w)
  call-Coded C l w small k =
      Coded-with_locals live C l w _
        (alloc_aligned-Returns files memory live size mapper l.cache small system.stale_uint
          l.buffer w)
        k

  call-FirstCall :
      (l : Locals) (w : W)
      → Clean start l.buffer (λ a. live a w)
      → l.cache.total_size < 2 ^ 32
      → Coded (FirstCall live start) (call l w)
  call-FirstCall l w clean small = call-Coded (FirstCall live start) l w small λ e b v o.
      let (unlost, failing) = first_call live start l.buffer b w v e clean o in
      (unlost, failing, small)

  call-Left :
      (l : Locals) (w : W)
      → Unlost start l.buffer (λ a. live a w)
      → l.cache.total_size < 2 ^ 32
      → Coded (λ e. Left live start) (call l w)
  call-Left l w held small =
      call-Coded (λ e. Left live start) l w small
        λ e b v o.
          let (lost, settled) = later_call live start l.buffer b w v e held o in
          record { lost = lost; settled = settled; small = small }

  -- Printing changes no mapping.
  Left-reported :
      (message : String) (decoded printed : ErrorCode) (l : Locals) (w : W)
      → Left live start l w
      → Left live start l (report_failure console (codes message) decoded printed w)
  Left-reported message decoded printed l w h =
      let same =
        report_failure_keeps console (Mapped live (λ a. live a w))
          (λ text. (frame (λ a. live a w)).print_err text) (codes message) decoded printed w
          (λ a. refl) in
      record {
        lost = h.lost;
        settled = record {
          kept = λ a x y. same a ∙ h.settled.kept a x y;
          unmapped = elim h.settled.unmapped [
            | inl free ↦ inl free
            | inr (null, all) ↦ inr (null, λ a. same a ∙ all a)
          ];
        };
        small = h.small;
      }

  pub allocate-Left :
      (X : W → Type 0)
      → Flows (Kept (Mapped live start) 0) (Left live start) (Left live start) X (allocate system)
  unfolding allocate
  allocate-Left X = record {
    at = λ l w h.
        Ends-Coded (FirstCall live start) (Left live start) (Left live start) X l (call l w) _
          (call-FirstCall l w (record { same = h.world; unmapped = inr h.buffer }) h.small)
          λ res l₁ w₁ (unlost, failing, small). elim (Bool-cases (int_eq res error_none)) [
            | inl success ↦
                rw success (record { lost = l₁.buffer; settled = unlost; small = small })
            | inr failure ↦ rw failure (
                let clean = failing (λ e. cc (failure, (int_eq_iff res error_none).1 e)) in
                Ends-Coded (FirstCall live start) (Left live start) (Left live start) X l₁
                  (call l₁ w₁) _ (call-FirstCall l₁ w₁ clean small)
                  λ first l₂ w₂ (held, again, small₂).
                    Ends-Coded (λ e. Left live start) (Left live start) (Left live start) X l₂
                      (call l₂ w₂) _ (call-Left l₂ w₂ held small₂)
                      λ second l₃ w₃ left.
                        Left-reported "Failed to allocate an aligned buffer."
                          (if system.left_first then first else second)
                          (if system.left_first then second else first) l₃ w₃ left)
          ];
  }
