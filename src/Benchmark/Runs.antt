-- ===== src/Benchmark/Runs.antt =====
-- benchmark as a whole, where every call succeeds.
use mathlib.Core.List.{append_assoc}
use cache_noise_visualizer.Base.{
  ℕ, count_if, suc, ◌+◌, ◌-◌, ◌*◌, ◌/◌, ◌^◌, ◌≤◌, ◌<◌, ◌≡◌, refl, ap, subst, ◌∙◌, not, List, [],
  ◌∷◌, ◌++◌, some, ltb, leb, ◌==◌, length, length-append, All, arith, replicate,
}
use cache_noise_visualizer.Base.Int.{ℤ}
use cache_noise_visualizer.Base.Words.{u32, u64}
use cache_noise_visualizer.Base.Text.{Bytes}
use cache_noise_visualizer.Result.{ok, done}
use cache_noise_visualizer.Cpu.{Cpu}
use cache_noise_visualizer.Memory.{Memory}
use cache_noise_visualizer.Console.{Console}
use cache_noise_visualizer.Sampling.{measure}
use cache_noise_visualizer.Sampling.Recorded.{measure_all, write_result-append}
use cache_noise_visualizer.Actions.{Kernel}
use cache_noise_visualizer.Actions.Enabled.{Counting, enable-runs, disable-runs}
use cache_noise_visualizer.Statistics.{
  Double, Summary, cmpfunc, summary_of, variance_of, arithmetic_mean_of, benchmark_text,
}
use cache_noise_visualizer.Statistics.Loops.{StandsAt-all, last_square, variance_loop-last_square}
use cache_noise_visualizer.Benchmark.{benchmark_loop, benchmark}
use cache_noise_visualizer.Benchmark.Median.{Sorts, length-sorted, summary_of-median}

-- A load is served, and fewer than 2 ^ 31 cycles lie between the reads of the counter around it. The
-- 32 bits of the counter that the code reads may wrap in between.
pub record Brisk {W : Type 0} (cpu : Cpu W) (shown : W → Bytes) : Type 0 where
  pub load : (a : ℕ) (w : W) → (w' : W) × (cpu.load a w ≡ some w') × (shown w' ≡ shown w)
  pub rdpmc : (w : W) → shown (cpu.rdpmc w).1 ≡ shown w
  pub counts :
      (a : ℕ) (w v : W)
      → cpu.load a (cpu.rdpmc w).1 ≡ some v
      → (cycles : ℕ) × (cycles < 2 ^ 31) × (u32 (cpu.rdpmc v).0 ≡ u32 ((cpu.rdpmc w).0 + cycles))

module _ {W : Type 0} {cpu : Cpu W} {shown : W → Bytes} (brisk : Brisk cpu shown) where
  measure-runs :
      (a : ℕ) (w : W)
      → (t : ℕ) × (v : W) × (measure cpu a w ≡ done t v) × (t < 2 ^ 31) × (shown v ≡ shown w)
  unfolding measure
  measure-runs a w =
      let (v, run, same) = brisk.load a (cpu.rdpmc w).1 in
      let (cycles, few, later) = brisk.counts a w v run in
      (
        u32 ((cpu.rdpmc v).0 + (2 ^ 32 - u32 (cpu.rdpmc w).0)),
        (cpu.rdpmc v).1,
        rw run refl,
        omega (arith, later, few),
        brisk.rdpmc v ∙ same ∙ brisk.rdpmc w,
      )

  -- The loop fills the array from its front.
  benchmark_loop-runs :
      (buffer : ℕ) (front back : List ℕ) (w : W)
      → (times : List ℕ) × (v : W) × (benchmark_loop cpu
            (length back)
            (length front)
            buffer
            (front ++ back)
            w
          ≡ done (front ++ times) v)
        × (measure_all cpu (replicate (length back) buffer) w ≡ done times v)
        × (length times ≡ length back)
        × All (λ t. t < 2 ^ 31) times
        × (shown v ≡ shown w)
  unfolding benchmark_loop measure_all
  benchmark_loop-runs buffer front [] w = ([], w, refl, refl, refl, tt, refl)
  benchmark_loop-runs buffer front (x ∷ back) w =
      let (t, v, run, few, same) = measure-runs buffer w in
      let (times, u, rest, all, long, small, same') =
        benchmark_loop-runs buffer (front ++ t ∷ []) back v in
      let next : length (front ++ t ∷ []) ≡ length front + 1 = length-append front (t ∷ []) in
      (
        t ∷ times,
        u,
        rw (run, write_result-append (length front) front back x t refl)
            ((rw (next) at rest) ∙ ap (λ ts. done ts u) (append_assoc front (t ∷ []) times)),
        rw (run, all) refl,
        ap suc long,
        (few, small),
        same' ∙ same,
      )

module _ {W D : Type 0} (cpu : Cpu W) (kernel : Kernel W) (memory : Memory W) (console : Console W)
    (double : Double D) (qsort : (ℕ → ℕ → ℤ) → List ℕ → List ℕ) (shown : W → Bytes) where
  -- The system of benchmark: every call succeeds, and only printf adds to the standard output.
  pub record Ready : Type 0 where
    pub brisk : Brisk cpu shown
    pub counting : Counting kernel shown
    pub sorts : Sorts qsort
    pub malloc : (n : ℕ) (v : W) → (v' : W) × (memory.malloc n v ≡ some v') × (shown v' ≡ shown v)
    pub free : (v : W) → shown (memory.free v) ≡ shown v
    pub print_out : (text : Bytes) (v : W) → shown (console.print_out text v) ≡ shown v ++ text

  -- What benchmark says of the times.
  pub record Sums (iterations : ℕ) (times : List ℕ) (s : Summary) : Type 0 where
    pub summary : summary_of iterations (qsort cmpfunc times) ≡ ok s
    pub variance : D
    pub varied :
        variance_of double
          (arithmetic_mean_of double iterations s.accumulator)
          iterations
          (qsort cmpfunc times)
        ≡ ok variance
    pub at_most_half_less : count_if (λ x. ltb x s.median) times ≤ iterations / 2
    pub more_not_greater : iterations / 2 < count_if (λ x. leb x s.median) times
    pub over_1000 : s.over_1000_counter ≡ count_if (λ x. ltb 1000 x) times
    pub others : s.other_median_counter ≡ count_if (λ x. not (x == s.median)) times

  module _ (ready : Ready) where
    variance_of-runs :
        (iterations : ℕ) (times : List ℕ) (mean : D)
        → length times ≡ iterations
        → iterations < 2 ^ 31
        → All (λ t. t < 2 ^ 31) times
        → (v : D) × (variance_of double mean iterations (qsort cmpfunc times) ≡ ok v)
    unfolding variance_of
    variance_of-runs iterations times mean long few small =
        let sorted = qsort cmpfunc times in
        let size : length sorted ≡ iterations =
          length-sorted qsort ready.sorts times small ∙ long in
        let square = last_square double mean (double.of_uint 0) sorted in
        (
          double.div square (double.sub (double.of_uint iterations) (double.of_uint 1)),
          rw
              (variance_loop-last_square double iterations sorted mean sorted (suc iterations) 0
                (double.of_uint 0) (StandsAt-all sorted) (omega (arith, size)) (omega arith)
                (omega (arith, size)))
              refl,
        )

    -- If every call succeeds, the array has an entry for each iteration, of which there are 1 to
    -- 2 ^ 31 - 1, and fewer than 2 ^ 31 cycles pass around a load, then benchmark succeeds. It has measured
    -- as many loads of the address as there are iterations, and printed their upper median, the number
    -- above 1000 and the number that differ from the median, with the mean and the variance that it
    -- computes from the sorted times, and nothing else.
    pub benchmark-runs :
        (iterations buffer : ℕ) (stale : List ℕ) (w : W)
        → 0 < iterations
        → iterations < 2 ^ 31
        → length stale ≡ iterations
        → (times : List ℕ) × (s : Summary) × (u v w' : W) × (measure_all cpu
              (replicate iterations buffer)
              u
            ≡ done times v)
          × (length times ≡ iterations)
          × (sums : Sums iterations times s) × (benchmark cpu kernel memory console double qsort
                iterations buffer stale w
              ≡ done tt w')
          × (shown w' ≡ shown w ++ benchmark_text double iterations sums.variance s)
    unfolding benchmark
    benchmark-runs iterations buffer stale w positive few long =
        let (a, allocated, quiet) = ready.malloc (u64 (iterations * 4)) w in
        let (fd, u, opened, quiet') = enable-runs ready.counting 0 a in
        let (times, v, looped, all, size, small, same) =
          benchmark_loop-runs ready.brisk buffer [] stale u in
        let (t, closed, same') = disable-runs ready.counting fd v in
        let (s, summary, less, more, over, others) =
          summary_of-median qsort ready.sorts iterations times (size ∙ long) positive few small in
        let mean = arithmetic_mean_of double iterations s.accumulator in
        let (variance, varied) = variance_of-runs iterations times mean (size ∙ long) few small in
        let text = benchmark_text double iterations variance s in
        (
          times,
          s,
          u,
          v,
          memory.free (console.print_out text t),
          subst (λ n. measure_all cpu (replicate n buffer) u ≡ done times v) long all,
          size ∙ long,
          record {
            summary = summary;
            variance = variance;
            varied = varied;
            at_most_half_less = less;
            more_not_greater = more;
            over_1000 = over;
            others = others;
          },
          rw (allocated, opened, (rw long at looped), closed, summary, varied) refl,
          ready.free (console.print_out text t)
              ∙ ready.print_out text t
              ∙ ap (λ x. x ++ text) (same' ∙ same ∙ quiet' ∙ quiet),
        )
