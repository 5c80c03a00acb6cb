-- ===== src/Benchmark/Keeps.antt =====
-- The predicates of the world that benchmark keeps.
use cache_noise_visualizer.Base.{ℕ, zero, suc, ◌≡◌, refl, List, Option, none, some}
use cache_noise_visualizer.Base.Int.{ℤ}
use cache_noise_visualizer.Base.Text.{Bytes}
use cache_noise_visualizer.Result.{done}
use cache_noise_visualizer.Result.Keeps.{Keeps, Over, Keeps-done, keeps_rules}
use cache_noise_visualizer.Cpu.{Cpu}
use cache_noise_visualizer.Memory.{Memory}
use cache_noise_visualizer.Console.{Console}
use cache_noise_visualizer.Sampling.Keeps.{CpuKeeps, measure-Keeps}
use cache_noise_visualizer.Actions.{Kernel}
use cache_noise_visualizer.Actions.Keeps.{KernelKeeps, enable-Keeps, disable-Keeps}
use cache_noise_visualizer.Statistics.{Double}
use cache_noise_visualizer.Benchmark.{array_at, benchmark_loop, benchmark}

module _ {W : Type 0} (P : W → Type 0) where
  Over-array_at :
      (w : W) (result : List ℕ) (r : Option W)
      → P w
      → ((v : W) → r ≡ some v → P v)
      → Over P (array_at w result r)
  Over-array_at w result none h k = h
  Over-array_at w result (some v) h k = k v refl

module _ {W D : Type 0} (cpu : Cpu W) (kernel : Kernel W) (memory : Memory W) (console : Console W)
    (double : Double D) (qsort : (ℕ → ℕ → ℤ) → List ℕ → List ℕ) (P : W → Type 0)
    (cpu_keeps : CpuKeeps cpu P) (kernel_keeps : KernelKeeps kernel P)
    (malloc : (n : ℕ) (w v : W) → memory.malloc n w ≡ some v → P w → P v)
    (free : (w : W) → P w → P (memory.free w))
    (prints : (text : Bytes) (w : W) → P w → P (console.print_out text w)) where
  malloc-Keeps : (n : ℕ) (stale : List ℕ) → Keeps P (λ w. array_at w stale (memory.malloc n w))
  malloc-Keeps n stale = record {
    at = λ w h. Over-array_at P w stale (memory.malloc n w) h (λ v e. malloc n w v e h);
  }

  print_out-Keeps : (text : Bytes) → Keeps P (λ w. done tt (console.print_out text w))
  print_out-Keeps text = Keeps-done _ (prints text)

  free-Keeps : Keeps P (λ w. done tt (memory.free w))
  free-Keeps = Keeps-done _ free

  benchmark_loop-Keeps :
      (left index buffer : ℕ) (result : List ℕ)
      → Keeps P (benchmark_loop cpu left index buffer result)
  unfolding benchmark_loop
  benchmark_loop-Keeps zero index buffer result = search keeps_rules
  benchmark_loop-Keeps (suc left) index buffer result =
      search (keeps_rules, measure-Keeps cpu P cpu_keeps, benchmark_loop-Keeps left)

  pub benchmark-Keeps :
      (iterations buffer : ℕ) (stale : List ℕ)
      → Keeps P (benchmark cpu kernel memory console double qsort iterations buffer stale)
  unfolding benchmark
  benchmark-Keeps iterations buffer stale =
      search
        (
          keeps_rules,
          malloc-Keeps,
          enable-Keeps kernel P kernel_keeps,
          disable-Keeps kernel P kernel_keeps,
          benchmark_loop-Keeps,
          print_out-Keeps,
          free-Keeps,
        )
        depth 12
