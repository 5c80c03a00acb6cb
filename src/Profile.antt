-- ===== src/Profile.antt =====
-- profile of src/profile.c: the loop around prime, probe and the output.
pub mod Counter
pub mod Keeps
pub mod Matrix
pub mod Measures
pub mod Quiet
pub mod Returned
pub mod Rounds
pub mod Sets
pub mod Stops
pub mod Stored
pub mod Written
use cache_noise_visualizer.Base.{
  ℕ, zero, suc, ◌+◌, ◌/◌, ◌^◌, Bool, true, false, not, ◌&&◌, ◌||◌, List, ltb, ◌==◌, if◌then◌else◌,
}
use cache_noise_visualizer.Base.Int.{int_eq}
use cache_noise_visualizer.Base.Words.{u32}
use cache_noise_visualizer.Errors.{ErrorCode, error_none}
use cache_noise_visualizer.Result.{
  Result, ok, int_suc, Run, done, failed, stuck, out_of_fuel, division_by_zero,
}
use cache_noise_visualizer.Result.Sys.{Sys, ◌>>=◌, ◌>>◌, pure, crash, status, run_result}
use cache_noise_visualizer.SysInfo.CacheInfo.{CacheInfo}
use cache_noise_visualizer.Cpu.{Cpu}
use cache_noise_visualizer.Sampling.{prime, probe}
use cache_noise_visualizer.Output.{Outlet, Output, outputw_mat_ui32}
use cache_noise_visualizer.Actions.{Kernel, enable_cpu_cycle_counter, disable_cpu_cycle_counter}

-- The scheduler, and the variable `terminated`: signals are handled between the steps of the loop, so
-- that the world carries it.
pub record Scheduler (W : Type 0) : Type 0 where
  pub sched_yield : W → W
  pub terminated : W → ℕ

-- The code that profile returns, and `*output` by then.
abbrev pub Outcome : Type 0
Outcome = ErrorCode × Output

-- FORWARD_ON_FAIL of a call before the loop.
abbrev pub or_code : {W : Type 0} → Output → Run W ℕ → (ℕ → Sys W Outcome) → Run W Outcome
or_code output (done fd w) f = f fd w
or_code output (failed e w) f = done (e, output) w
or_code output (stuck x) f = stuck x

-- `j += (iterations ? 1 : 0)`, where j is an int, which starts at 0
abbrev pub next_round : ℕ → ℕ → Result ℕ
next_round iterations j = if iterations == 0 then ok j else int_suc j

-- The result of one round or of the whole loop: the array and the output, and the code.
pub record Measured : Type 0 where
  pub code : ErrorCode
  pub result : List ℕ
  pub output : Output

abbrev pub measured : ErrorCode → List ℕ → Output → Measured
measured e r o = record { code = e; result = r; output = o }

module _ {W : Type 0} (cpu : Cpu W) (outlet : Outlet W) (scheduler : Scheduler W)
    (cache : CacheInfo) (buffer : ℕ) where
  -- The body of the loop.
  unfoldable pub round : List ℕ → Output → Sys W Measured
  round result output = do
    prime cpu cache.line_size cache.set_count cache.ways_of_associativity buffer
    (λ w. done tt (scheduler.sched_yield w))
    times ← probe cpu cache.line_size cache.set_count cache.ways_of_associativity buffer result
    written ← outputw_mat_ui32 outlet output times cache.ways_of_associativity cache.set_count
    pure (measured written.0 times written.1)

module _ {W : Type 0} (cpu : Cpu W) (outlet : Outlet W) (scheduler : Scheduler W)
    (cache : CacheInfo) (iterations buffer : ℕ) where
  -- `(j < iterations || !iterations) && !terminated`, where j, which is not negative, is converted to
  -- uint32_t
  abbrev pub goes_on : ℕ → W → Bool
  goes_on j w = (ltb j iterations || (iterations == 0)) && (scheduler.terminated w == 0)

  unfoldable pub profile_loop : ℕ → ℕ → List ℕ → Output → Sys W Measured
  unfolding round
  profile_loop zero j result output w = stuck out_of_fuel
  profile_loop (suc fuel) j result output w =
      let rest = round cpu outlet scheduler cache buffer result output >>= λ m.
      let next =
        run_result (next_round iterations j) >>= λ k. profile_loop fuel k m.result m.output in
      if int_eq m.code error_none then next else pure m in
      if goes_on j w then rest w else done (measured error_none result output) w

module _ {W : Type 0} (cpu : Cpu W) (outlet : Outlet W) (kernel : Kernel W)
    (scheduler : Scheduler W) (cache : CacheInfo) (iterations buffer : ℕ) where
  -- `result` is what the array on the stack happens to hold; it has an entry for each line.
  unfoldable pub profile : ℕ → ℕ → List ℕ → Output → Sys W Outcome
  unfolding profile_loop
  profile fuel cpu_id result output w =
      if cache.line_size == 0
      then stuck division_by_zero
      else or_code output (enable_cpu_cycle_counter kernel cpu_id w) (λ fd. do
        m ← profile_loop cpu outlet scheduler cache iterations buffer fuel 0 result output
        if int_eq m.code error_none
            then (do closed ← status (disable_cpu_cycle_counter kernel fd); pure (closed, m.output))
            else pure (m.code, m.output))
