-- ===== src/Benchmark.antt =====
-- benchmark of src/profile.c: the times of loads of one address, and what is printed of them.
pub mod Keeps
pub mod Median
pub mod Runs
pub mod Variance
use cache_noise_visualizer.Base.{ℕ, zero, suc, ◌+◌, ◌*◌, List, [], Option, none, some}
use cache_noise_visualizer.Base.Int.{ℤ}
use cache_noise_visualizer.Base.Words.{u64}
use cache_noise_visualizer.Console.{Console}
use cache_noise_visualizer.Result.{Run, done}
use cache_noise_visualizer.Result.Sys.{Sys, ◌>>=◌, ◌>>◌, pure, run_result}
use cache_noise_visualizer.Cpu.{Cpu}
use cache_noise_visualizer.Memory.{Memory}
use cache_noise_visualizer.Sampling.{measure, write_result}
use cache_noise_visualizer.Statistics.{
  cmpfunc, Summary, summary_of, Double, variance_of, arithmetic_mean_of, benchmark_text,
}
use cache_noise_visualizer.Actions.{Kernel, enable_cpu_cycle_counter, disable_cpu_cycle_counter}

-- The array that malloc answers; a store through the null pointer is out of every bound.
abbrev pub array_at : {W : Type 0} → W → List ℕ → Option W → Run W (List ℕ)
array_at w result none = done [] w
array_at w result (some v) = done result v

module _ {W : Type 0} (cpu : Cpu W) where
  -- The loop over result_index with `left` rounds to go.
  unfoldable pub benchmark_loop : ℕ → ℕ → ℕ → List ℕ → Sys W (List ℕ)
  benchmark_loop zero result_index buffer result = pure result
  benchmark_loop (suc left) result_index buffer result = do
    time ← measure cpu buffer
    next ← run_result (write_result result_index time result)
    benchmark_loop left (result_index + 1) buffer next

module _ {W D : Type 0} (cpu : Cpu W) (kernel : Kernel W) (memory : Memory W) (console : Console W)
    (double : Double D) (qsort : (ℕ → ℕ → ℤ) → List ℕ → List ℕ) where
  -- `stale` is what the array holds at first, and `buffer` the address of the array on the stack.
  unfoldable pub benchmark : ℕ → ℕ → List ℕ → Sys W (Unit {0})
  unfolding benchmark_loop
  benchmark iterations buffer stale = do
    result ← (λ w. array_at w stale (memory.malloc (u64 (iterations * 4)) w))
    fd ← enable_cpu_cycle_counter kernel 0
    times ← benchmark_loop cpu iterations 0 buffer result
    disable_cpu_cycle_counter kernel fd
    let sorted = qsort cmpfunc times
    summary ← run_result (summary_of iterations sorted)
    variance ← run_result (
        variance_of double (arithmetic_mean_of double iterations summary.accumulator) iterations
          sorted)
    (λ w. done tt (console.print_out (benchmark_text double iterations variance summary) w))
    (λ w. done tt (memory.free w))
