-- ===== src/Tests/Sampling.antt =====
-- prime and probe on the small machine: two sets of three ways.
use cache_noise_visualizer.Base.{◌+◌, ◌*◌, ◌≡◌, refl, [], ◌∷◌, arith, replicate}
use cache_noise_visualizer.Result.{done}
use cache_noise_visualizer.Sampling.{prime, probe}
use cache_noise_visualizer.Sampling.Order.{prime_lines, probe_lines, count}
use cache_noise_visualizer.Sampling.Primes.{Geometry, load_all, addresses, prime-once}
use cache_noise_visualizer.Sampling.Recorded.{TimedIn, measure_all}
use cache_noise_visualizer.Sampling.Probes.{probe-lines, probe-Timed}
use cache_noise_visualizer.Tests.Machine.{start, cpu}

prime_order : prime_lines 2 3 ≡ 4 ∷ 2 ∷ 0 ∷ 5 ∷ 3 ∷ 1 ∷ []
unfolding prime_lines
prime_order = refl

probe_order : probe_lines 2 3 ≡ 0 ∷ 2 ∷ 4 ∷ 1 ∷ 3 ∷ 5 ∷ []
unfolding probe_lines
probe_order = refl

small-Geometry : Geometry 64 2 3 8192
small-Geometry = omega arith

prime_cycles : prime cpu 64 2 3 8192 start ≡ done tt (record start { cycles = 142 })
unfolding prime
prime_cycles = refl

prime-once_example :
    (prime cpu 64 2 3 8192 ≡ load_all cpu (addresses 8192 64 (prime_lines 2 3)))
    × (count 5 (prime_lines 2 3) ≡ 1)
prime-once_example = prime-once cpu small-Geometry 5

probe_run :
    probe cpu 64 2 3 8192 (replicate 6 0) start
    ≡ done (replicate 6 7) (record start { cycles = 142 })
unfolding probe
probe_run = refl

probe-lines_example :
    probe cpu 64 2 3 8192 (replicate 6 0) ≡ measure_all cpu (addresses 8192 64 (probe_lines 2 3))
probe-lines_example = probe-lines cpu small-Geometry (replicate 6 0) refl

probe-Timed_example :
    TimedIn cpu
      (addresses 8192 64 (probe_lines 2 3))
      (8192 + (2 * 2 + 1) * 64)
      (1 * 3 + 2)
      (replicate 6 7)
      start
      (record start { cycles = 142 })
probe-Timed_example =
    probe-Timed cpu small-Geometry (replicate 6 0) (replicate 6 7) start
      (record start { cycles = 142 }) 1 2 refl (omega arith) (omega arith) probe_run
