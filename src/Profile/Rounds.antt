-- ===== src/Profile/Rounds.antt =====
-- The rounds of the loop of profile.
use cache_noise_visualizer.Base.{
  ℕ, zero, suc, ◌+◌, ◌^◌, ◌<◌, ◌≡◌, true, false, List, ltb, ◌==◌, if◌then◌else◌, arith, lt→ltb,
  le→ltb,
}
use cache_noise_visualizer.Base.Int.{int_eq}
use cache_noise_visualizer.Errors.{error_none}
use cache_noise_visualizer.Result.{done}
use cache_noise_visualizer.Result.Sys.{Sys, ◌>>=◌, pure, and_then}
use cache_noise_visualizer.SysInfo.CacheInfo.{CacheInfo}
use cache_noise_visualizer.Cpu.{Cpu}
use cache_noise_visualizer.Output.{Outlet, Output}
use cache_noise_visualizer.Profile.{Scheduler, Measured, measured, round, profile_loop}

module _ {W : Type 0} (cpu : Cpu W) (outlet : Outlet W) (scheduler : Scheduler W)
    (cache : CacheInfo) (buffer : ℕ) where
  -- At most so many rounds, before each of which the loop looks at `terminated`.
  unfoldable pub rounds : ℕ → List ℕ → Output → Sys W Measured
  rounds zero result output w = done (measured error_none result output) w
  rounds (suc left) result output w =
      let more = round cpu outlet scheduler cache buffer result output >>= λ m.
      let next = rounds left m.result m.output in
      if int_eq m.code error_none then next else pure m in
      if scheduler.terminated w == 0 then more w else done (measured error_none result output) w

  profile_loop-rounds_from :
      (iterations fuel j left : ℕ) (result : List ℕ) (output : Output) (w : W)
      → 0 < iterations
      → iterations < 2 ^ 31
      → j + left ≡ iterations
      → left < fuel
      → profile_loop cpu outlet scheduler cache iterations buffer fuel j result output w
        ≡ rounds left result output w
  unfolding profile_loop rounds
  profile_loop-rounds_from iterations zero j left result output w pos small e room =
      absurd (omega arith)
  profile_loop-rounds_from iterations (suc fuel) j zero result output w pos small e room =
      let over : ltb j iterations ≡ false = le→ltb j iterations (omega arith) in
      let some_rounds : (iterations == 0) ≡ false = ground arith in rw (over, some_rounds)
  profile_loop-rounds_from iterations (suc fuel) j (suc left) result output w pos small e room =
      let more : ltb j iterations ≡ true = lt→ltb j iterations (omega arith) in
      let some_rounds : (iterations == 0) ≡ false = ground arith in
      let next : ltb (j + 1) (2 ^ 31) ≡ true = lt→ltb (j + 1) (2 ^ 31) (omega arith) in
      rw (more, some_rounds, next)
        (λ i.
          if scheduler.terminated w == 0
          then and_then (round cpu outlet scheduler cache buffer result output w) (λ m.
            if int_eq m.code error_none
            then (λ v.
                profile_loop-rounds_from iterations fuel (j + 1) left m.result m.output v pos small
                  (omega arith) (omega arith) i)
            else pure m)
          else done (measured error_none result output) w)

  -- For every number of iterations from 1 to 2 ^ 31 - 1, with as many rounds of fuel and one more, the
  -- loop of profile is a row of at most that many rounds: it looks at `terminated` before each, and
  -- goes on exactly while that is 0 and the output took the last matrix. It does not run out of fuel.
  pub profile_loop-rounds :
      (iterations : ℕ) (result : List ℕ) (output : Output) (w : W)
      → 0 < iterations
      → iterations < 2 ^ 31
      → profile_loop cpu outlet scheduler cache iterations buffer (suc iterations) 0 result output w
        ≡ rounds iterations result output w
  profile_loop-rounds iterations result output w pos small =
      profile_loop-rounds_from iterations (suc iterations) 0 iterations result output w pos small
        (omega arith) (omega arith)
