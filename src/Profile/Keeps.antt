-- ===== src/Profile/Keeps.antt =====
-- The predicates of the world that profile keeps.
use cache_noise_visualizer.Base.{ℕ, zero, suc, ◌==◌, Bool, true, false, List, if◌then◌else◌}
use cache_noise_visualizer.Result.{Run, done, failed, stuck}
use cache_noise_visualizer.Result.Sys.{Sys, run_result}
use cache_noise_visualizer.Result.Keeps.{
  Keeps, Over, Keeps-done, Keeps-bind, Keeps-run_result, Keeps-if, Keeps-pure, keeps_rules,
}
use cache_noise_visualizer.SysInfo.CacheInfo.{CacheInfo}
use cache_noise_visualizer.Cpu.{Cpu}
use cache_noise_visualizer.Sampling.Keeps.{CpuKeeps, prime-Keeps, probe-Keeps}
use cache_noise_visualizer.Output.{Outlet, Output}
use cache_noise_visualizer.Output.Keeps.{OutletKeeps, outputw_mat_ui32-Keeps}
use cache_noise_visualizer.Actions.{Kernel, enable_cpu_cycle_counter}
use cache_noise_visualizer.Actions.Keeps.{KernelKeeps, enable-Keeps, disable-Keeps}
use cache_noise_visualizer.Profile.{
  Scheduler, Outcome, or_code, round, goes_on, next_round, profile_loop, profile,
}

module _ {W : Type 0} (P : W → Type 0) where
  Over-or_code :
      (output : Output) (r : Run W ℕ) (f : ℕ → Sys W Outcome)
      → Over P r
      → ((fd : ℕ) → Keeps P (f fd))
      → Over P (or_code output r f)
  Over-or_code output (done fd w) f h k = (k fd).at w h
  Over-or_code output (failed e w) f h k = h
  Over-or_code output (stuck x) f h k = tt

  Over-if :
      {A : Type 0} (b : Bool) (r s : Run W A) → Over P r → Over P s → Over P (if b then r else s)
  Over-if true r s h k = h
  Over-if false r s h k = k

module _ {W : Type 0} (cpu : Cpu W) (outlet : Outlet W) (scheduler : Scheduler W) (P : W → Type 0)
    (cpu_keeps : CpuKeeps cpu P) (outlet_keeps : OutletKeeps outlet P)
    (yields : (w : W) → P w → P (scheduler.sched_yield w)) (cache : CacheInfo) where
  sched_yield-Keeps : Keeps P (λ w. done tt (scheduler.sched_yield w))
  sched_yield-Keeps = Keeps-done _ yields

  round-Keeps :
      (buffer : ℕ) (result : List ℕ) (output : Output)
      → Keeps P (round cpu outlet scheduler cache buffer result output)
  unfolding round
  round-Keeps buffer result output = search (
    keeps_rules,
    sched_yield-Keeps,
    prime-Keeps cpu P cpu_keeps,
    probe-Keeps cpu P cpu_keeps,
    outputw_mat_ui32-Keeps outlet P outlet_keeps,
  )

  pub profile_loop-Keeps :
      (iterations buffer fuel j : ℕ) (result : List ℕ) (output : Output)
      → Keeps P (profile_loop cpu outlet scheduler cache iterations buffer fuel j result output)
  unfolding profile_loop
  profile_loop-Keeps iterations buffer zero j result output = record { at = λ w h. tt }
  profile_loop-Keeps iterations buffer (suc fuel) j result output = record {
    at = λ w h.
        Over-if P (goes_on cpu outlet scheduler cache iterations buffer j w) _ _
          ((Keeps-bind (round cpu outlet scheduler cache buffer result output) _
              (round-Keeps buffer result output)
              λ m.
                Keeps-if _ _ _
                  (Keeps-bind (run_result (next_round iterations j)) _
                    (Keeps-run_result (next_round iterations j))
                    (λ k. profile_loop-Keeps iterations buffer fuel k m.result m.output))
                  (Keeps-pure m)).at
            w h)
          h;
  }

  module _ (kernel : Kernel W) (kernel_keeps : KernelKeeps kernel P) where
    -- Whatever profile comes to, it keeps what its calls keep.
    pub profile-Keeps :
        (iterations buffer fuel cpu_id : ℕ) (result : List ℕ) (output : Output)
        → Keeps P
            (profile cpu outlet kernel scheduler cache iterations buffer fuel cpu_id result output)
    unfolding profile
    profile-Keeps iterations buffer fuel cpu_id result output = record {
      at = λ w h. Over-if P (cache.line_size == 0) _ _ tt (
          Over-or_code P output (enable_cpu_cycle_counter kernel cpu_id w) _
            ((enable-Keeps kernel P kernel_keeps cpu_id).at w h)
            (λ fd. search (
              keeps_rules,
              profile_loop-Keeps iterations buffer fuel,
              disable-Keeps kernel P kernel_keeps,
            )));
    }
