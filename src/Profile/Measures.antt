-- ===== src/Profile/Measures.antt =====
-- The measurement in a round of profile, up to its output.
use cache_noise_visualizer.Base.{ℕ, ◌*◌, ◌≡◌, ◌∙◌, subst, List, length}
use cache_noise_visualizer.Result.{done}
use cache_noise_visualizer.SysInfo.CacheInfo.{CacheInfo}
use cache_noise_visualizer.Cpu.{Cpu}
use cache_noise_visualizer.Sampling.{prime, probe}
use cache_noise_visualizer.Sampling.Primes.{Geometry}
use cache_noise_visualizer.Sampling.Recorded.{TimedIn-Timed}
use cache_noise_visualizer.Sampling.Probes.{probe-Timed}
use cache_noise_visualizer.Output.Rows.{concat}
use cache_noise_visualizer.Profile.{Scheduler}
use cache_noise_visualizer.Profile.Quiet.{Quiet, prime-Silent, probe-Silent}
use cache_noise_visualizer.Profile.Matrix.{rows_of, IsMatrix}

module _ {W B : Type 0} (cpu : Cpu W) (scheduler : Scheduler W) (cache : CacheInfo) (buffer : ℕ)
    (shown : W → B)
    (g : Geometry cache.line_size cache.set_count cache.ways_of_associativity buffer)
    (quiet : Quiet cpu shown) (yields : (w : W) → shown (scheduler.sched_yield w) ≡ shown w) where
  -- prime and probe are done, the times are a matrix, and nothing of what is observed has changed.
  pub round-measures :
      (result : List ℕ) (w : W)
      → length result ≡ cache.set_count * cache.ways_of_associativity
      → (rows : List (List ℕ)) × IsMatrix cpu cache buffer rows
        × (v : W) × (t : W) × (prime cpu cache.line_size cache.set_count cache.ways_of_associativity
              buffer w
            ≡ done tt v)
        × (probe cpu cache.line_size cache.set_count cache.ways_of_associativity buffer result
              (scheduler.sched_yield v)
            ≡ done (concat rows) t)
        × (shown t ≡ shown w)
  round-measures result w long =
      let (v, primed, same) = prime-Silent cpu shown quiet g w in
      let u = scheduler.sched_yield v in
      let (times, t, probed, same', entries) = probe-Silent cpu shown quiet g result u long in
      let (rows, e, high, wide) =
        rows_of cache.set_count cache.ways_of_associativity times entries in
      let stored =
        subst
          (λ xs.
            probe cpu cache.line_size cache.set_count cache.ways_of_associativity buffer result u
            ≡ done xs t)
          e probed in
      (
        rows,
        record {
          sets = high;
          ways = wide;
          times = λ set way h k.
              TimedIn-Timed cpu _ _ _ (concat rows) u t
                (probe-Timed cpu g result (concat rows) u t set way long h k stored);
        },
        v,
        t,
        primed,
        stored,
        same' ∙ yields v ∙ same,
      )
