-- ===== src/Profile/Stops.antt =====
-- The loop of profile without a number of iterations, which ends when `terminated` is set.
use cache_noise_visualizer.Base.{
  ℕ, zero, suc, ◌*◌, ◌≡◌, ◌≤◌, sym, ap, ◌∙◌, subst, true, false, List, [], ◌∷◌, ◌++◌, ◌==◌, arith,
  All, length, Bool-cases, inl, inr,
}
use mathlib.Core.List.{append_assoc, append-nil}
use cache_noise_visualizer.Base.Text.{Bytes}
use cache_noise_visualizer.Errors.{error_none}
use cache_noise_visualizer.Result.{done}
use cache_noise_visualizer.Result.Sys.{◌>>=◌, pure}
use cache_noise_visualizer.Result.Keeps.{Keeps, Over, keeps_rules}
use cache_noise_visualizer.SysInfo.CacheInfo.{CacheInfo}
use cache_noise_visualizer.Cpu.{Cpu}
use cache_noise_visualizer.Sampling.{prime, probe}
use cache_noise_visualizer.Sampling.Primes.{Geometry}
use cache_noise_visualizer.Sampling.Keeps.{CpuKeeps, prime-Keeps, probe-Keeps}
use cache_noise_visualizer.Output.{Outlet, Output, output_stdout, outputw_mat_ui32}
use cache_noise_visualizer.Output.Keeps.{OutletKeeps, outputw_mat_ui32-Keeps}
use cache_noise_visualizer.Output.Rows.{Takes, concat, rows_text}
use cache_noise_visualizer.Profile.{Scheduler, measured, round, profile_loop}
use cache_noise_visualizer.Profile.Quiet.{Quiet, prime-Silent}
use cache_noise_visualizer.Profile.Matrix.{matrices_text, IsMatrix, matrix-length}
use cache_noise_visualizer.Profile.Written.{round-Written}

-- A clock that no call sets back and sched_yield advances: `left w` steps of it are to go in the world
-- `w`, and `terminated` is set when there are none. An alarm is such a clock.
pub record Alarm {W : Type 0} (cpu : Cpu W) (outlet : Outlet W) (scheduler : Scheduler W)
    (left : W → ℕ) : Type 0 where
  pub cpu_keeps : (n : ℕ) → CpuKeeps cpu (λ w. left w ≤ n)
  pub outlet_keeps : (n : ℕ) → OutletKeeps outlet (λ w. left w ≤ n)
  pub ticks : (n : ℕ) (w : W) → left w ≤ suc n → left (scheduler.sched_yield w) ≤ n
  pub rings : (w : W) → left w ≡ 0 → (scheduler.terminated w == 0) ≡ false

module _ {W : Type 0} (cpu : Cpu W) (outlet : Outlet W) (scheduler : Scheduler W)
    (cache : CacheInfo) (buffer : ℕ) (left : W → ℕ) (alarm : Alarm cpu outlet scheduler left) where
  -- A round takes a step of the clock.
  round-Ticks :
      (n : ℕ) (result : List ℕ) (output : Output) (w v : W)
      → left w ≤ suc n
      → prime cpu cache.line_size cache.set_count cache.ways_of_associativity buffer w ≡ done tt v
      → Over (λ u. left u ≤ n) (round cpu outlet scheduler cache buffer result output w)
  unfolding round
  round-Ticks n result output w v h primed =
      let late : left v ≤ suc n = subst (Over (λ u. left u ≤ suc n)) primed (
        (prime-Keeps cpu _ (alarm.cpu_keeps (suc n)) cache.line_size cache.set_count
            cache.ways_of_associativity buffer).at
          w h) in
      rw primed (rest.at (scheduler.sched_yield v) (alarm.ticks n v late))
    where
      rest :
          Keeps
            (λ u. left u ≤ n)
            (do
              times ←
                  probe cpu cache.line_size cache.set_count cache.ways_of_associativity buffer
                    result
              written ←
                  outputw_mat_ui32 outlet output times cache.ways_of_associativity cache.set_count
              pure (measured written.0 times written.1))
      rest = search (
        keeps_rules,
        probe-Keeps cpu (λ u. left u ≤ n) (alarm.cpu_keeps n),
        outputw_mat_ui32-Keeps outlet (λ u. left u ≤ n) (alarm.outlet_keeps n),
      )

  module _ (shown : W → Bytes) (output : Output)
      (g : Geometry cache.line_size cache.set_count cache.ways_of_associativity buffer)
      (quiet : Quiet cpu shown) (yields : (w : W) → shown (scheduler.sched_yield w) ≡ shown w)
      (stream : output.type ≡ output_stdout) (takes : Takes outlet output.std shown) where
    -- The loop ends, with at most `n` matrices written.
    abbrev pub Stopped : ℕ → List ℕ → W → Type 0
    Stopped n result w =
        (matrices : List (List (List ℕ))) × All (IsMatrix cpu cache buffer) matrices
        × (last : List ℕ) × (w' : W) × (profile_loop cpu outlet scheduler cache 0 buffer (suc n) 0
              result output w
            ≡ done (measured error_none last output) w')
        × (shown w' ≡ shown w ++ matrices_text matrices)
        × (length matrices ≤ n)
        × ((scheduler.terminated w' == 0) ≡ false)

    Stopped-now :
        (n : ℕ) (result : List ℕ) (w : W)
        → (scheduler.terminated w == 0) ≡ false
        → Stopped n result w
    unfolding profile_loop matrices_text
    Stopped-now n result w stop =
        ([], tt, result, w, rw stop, sym (append-nil (shown w)), omega arith, stop)

    Stopped-next :
        (n : ℕ) (result : List ℕ) (rows : List (List ℕ)) (w v : W)
        → (scheduler.terminated w == 0) ≡ true
        → round cpu outlet scheduler cache buffer result output w
          ≡ done (measured error_none (concat rows) output) v
        → IsMatrix cpu cache buffer rows
        → shown v ≡ shown w ++ rows_text 0 rows
        → Stopped n (concat rows) v
        → Stopped (suc n) result w
    unfolding profile_loop matrices_text
    Stopped-next n result rows w v on run matrix text
          (more, all, last, w', runs, texts, count, stop) =
        (
          rows ∷ more,
          (matrix, all),
          last,
          w',
          rw (on, run) runs,
          texts
              ∙ ap (λ s. s ++ matrices_text more) text
              ∙ append_assoc (shown w) (rows_text 0 rows) (matrices_text more),
          omega arith,
          stop,
        )

    -- The loop ends within as many rounds as the clock has steps to go.
    pub stops_from :
        (n : ℕ) (result : List ℕ) (w : W)
        → left w ≤ n
        → length result ≡ cache.set_count * cache.ways_of_associativity
        → Stopped n result w
    stops_from zero result w h long = Stopped-now zero result w (alarm.rings w (omega arith))
    stops_from (suc n) result w h long = elim (Bool-cases (scheduler.terminated w == 0)) [
      | inr stop ↦ Stopped-now (suc n) result w stop
      | inl on ↦
          let (rows, matrix, v, run, text) =
            round-Written cpu outlet scheduler cache buffer shown output g quiet yields stream takes
              result w long in
          let (u, primed, same) = prime-Silent cpu shown quiet g w in
          let ticked : left v ≤ n =
            subst (Over (λ t. left t ≤ n)) run (round-Ticks n result output w u h primed) in
          Stopped-next n result rows w v on run matrix text
            (stops_from n (concat rows) v ticked (matrix-length cpu cache buffer rows matrix))
    ]

    -- Suppose the iterations are 0, so that only `terminated` ends the loop of profile, and there is a
    -- clock that sched_yield advances, that no load, print or read of the counter sets back, and that
    -- sets `terminated` when it has run down. Then, for a cache whose lines fill the buffer, an array
    -- with an entry for each line, loads that do not fault and a stream that takes every text, the
    -- loop ends with ERROR_NONE: it has written at most as many whole matrices of measured times as
    -- the clock had steps to go, and it ends only where `terminated` is set.
    pub profile_loop-stops :
        (result : List ℕ) (w : W)
        → length result ≡ cache.set_count * cache.ways_of_associativity
        → (matrices : List (List (List ℕ))) × All (IsMatrix cpu cache buffer) matrices
          × (last : List ℕ) × (w' : W) × (profile_loop cpu outlet scheduler cache 0 buffer
                (suc (left w))
                0
                result
                output
                w
              ≡ done (measured error_none last output) w')
          × (shown w' ≡ shown w ++ matrices_text matrices)
          × (length matrices ≤ left w)
          × ((scheduler.terminated w' == 0) ≡ false)
    profile_loop-stops result w long = stops_from (left w) result w (omega arith) long
