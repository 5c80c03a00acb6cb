-- ===== src/Main/Released.antt =====
-- The mappings behind a call of alloc_aligned in main, for a buffer that may be set already.
pub mod Allocate
pub mod Finalize
pub mod Modes
use cache_noise_visualizer.Base.{
  ℕ, String, ◌+◌, ◌^◌, ◌<◌, ◌≡◌, ◌≢◌, ◌⊎◌, inl, inr, refl, sym, subst, ◌∙◌, Bool, true, false,
  if◌then◌else◌, ◌==◌, arith, Bool-cases, ==_iff,
}
use cache_noise_visualizer.Base.Int.{int_eq, int_eq_iff}
use cache_noise_visualizer.Base.Text.{codes}
use cache_noise_visualizer.Errors.{ErrorCode, error_none}
use cache_noise_visualizer.Result.{Run, done, failed, stuck}
use cache_noise_visualizer.Alloc.{alloc_aligned}
use cache_noise_visualizer.Alloc.Outcomes.{
  Mapper, Outcome, untried, tried, Returns, alloc_aligned-Returns,
}
use cache_noise_visualizer.Main.Flow.{Locals, Step, Call, report_failure, exit_on_fail}
use cache_noise_visualizer.Main.Flows.{Flows, Coded, Ends-Coded, report_failure_keeps}
use cache_noise_visualizer.Main.Program.{System, with_locals, allocate}
use cache_noise_visualizer.Main.Kept.{Frame, Kept}

-- The mappings are those of `m`.
abbrev pub Mapped : {W : Type 0} → (ℕ → W → Bool) → (ℕ → Bool) → W → Type 0
Mapped live m w = (a : ℕ) → live a w ≡ m a

-- Against the mappings `start`, only `lost` and the buffer of main can differ.
pub record Settled (start : ℕ → Bool) (lost buffer : ℕ) (m : ℕ → Bool) : Type 0 where
  pub kept : (a : ℕ) → a ≢ lost → a ≢ buffer → m a ≡ start a
  pub unmapped : (start buffer ≡ false) ⊎ ((buffer ≡ 0) × ((a : ℕ) → m a ≡ start a))

-- Nothing differs but the buffer.
abbrev pub Unlost : (ℕ → Bool) → ℕ → (ℕ → Bool) → Type 0
Unlost start buffer = Settled start buffer buffer

-- Nothing differs at all, behind an allocation that has failed.
pub record Clean (start : ℕ → Bool) (buffer : ℕ) (m : ℕ → Bool) : Type 0 where
  same : (a : ℕ) → m a ≡ start a
  unmapped : (start buffer ≡ false) ⊎ (buffer ≡ 0)

module _ {W : Type 0} (live : ℕ → W → Bool) (start : ℕ → Bool) where
  -- The first call, by its code.
  pub first_call :
      (buffer b : ℕ) (w v : W) (e : ErrorCode)
      → Clean start buffer (λ a. live a w)
      → Outcome live buffer w e b v
      → Unlost start b (λ a. live a v) × (e ≢ error_none → Clean start b (λ a. live a v))
  first_call buffer b w v e clean (untried same kept) = (
    record {
      kept = λ a x y. kept a ∙ clean.same a;
      unmapped = elim clean.unmapped [
        | inl free ↦ inl (subst (λ c. start c ≡ false) (sym same) free)
        | inr null ↦ inr (same ∙ null, λ a. kept a ∙ clean.same a)
      ];
    },
    λ f. record {
      same = λ a. kept a ∙ clean.same a;
      unmapped = elim clean.unmapped [
        | inl free ↦ inl (subst (λ c. start c ≡ false) (sym same) free)
        | inr null ↦ inr (same ∙ null)
      ];
    },
  )
  first_call buffer b w v e clean (tried fresh kept closed) =
      let free : start b ≡ false = sym (clean.same b) ∙ fresh in
      (
        record { kept = λ a x y. kept a x ∙ clean.same a; unmapped = inl free },
        λ f. record {
          same = λ a. elim (Bool-cases (a == b)) [
            | inl here ↦
                let e : a ≡ b = (==_iff a b).0 here in
                subst (λ c. live c v ≡ start c) (sym e) (closed f ∙ sym free)
            | inr there ↦ kept a (λ e. cc (there, (==_iff a b).1 e)) ∙ clean.same a
          ];
          unmapped = inl free;
        },
      )

  -- A call behind one that may have left a buffer.
  pub later_call :
      (buffer b : ℕ) (w v : W) (e : ErrorCode)
      → Unlost start buffer (λ a. live a w)
      → Outcome live buffer w e b v
      → (lost : ℕ) × Settled start lost b (λ a. live a v)
  later_call buffer b w v e held (untried same kept) = (
    buffer,
    record {
      kept = λ a x y. kept a ∙ held.kept a x x;
      unmapped = elim held.unmapped [
        | inl free ↦ inl (subst (λ c. start c ≡ false) (sym same) free)
        | inr (null, all) ↦ inr (same ∙ null, λ a. kept a ∙ all a)
      ];
    },
  )
  later_call buffer b w v e held (tried fresh kept closed) = (
    buffer,
    record {
      kept = λ a x y. kept a y ∙ held.kept a x x;
      unmapped = elim held.unmapped [
        | inr (null, all) ↦ inl (sym (all b) ∙ fresh)
        | inl free ↦ elim (Bool-cases (b == buffer)) [
          | inl same ↦ inl (subst (λ c. start c ≡ false) (sym ((==_iff b buffer).0 same)) free)
          | inr other ↦
              let n : b ≢ buffer = λ e. cc (other, (==_iff b buffer).1 e) in
              inl (sym (held.kept b n n) ∙ fresh)
        ]
      ];
    },
  )

-- Behind the first call: nothing differs but the buffer, and nothing at all if the call has failed.
abbrev pub FirstCall : {W : Type 0} → (ℕ → W → Bool) → (ℕ → Bool) → ErrorCode → Locals → W → Type 0
FirstCall live start e l w =
    Unlost start l.buffer (λ a. live a w)
    × (e ≢ error_none → Clean start l.buffer (λ a. live a w))
    × (l.cache.total_size < 2 ^ 32)

-- What main has mapped, at the end of a part of main or at a jump to FINALIZE.
pub record Left {W : Type 0} (live : ℕ → W → Bool) (start : ℕ → Bool) (l : Locals) (w : W)
    : Type 0 where
  pub lost : ℕ
  pub settled : Settled start lost l.buffer (λ a. live a w)
  pub small : l.cache.total_size < 2 ^ 32
