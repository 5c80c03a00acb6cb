-- ===== src/Main/Benched.antt =====
-- The mode bench of main on a machine where every call succeeds.
use mathlib.Core.List.{append-nil}
use cache_noise_visualizer.Base.{
  ℕ, ◌<◌, ◌≡◌, ◌^◌, refl, ap, ◌∙◌, true, false, List, [], ◌∷◌, ◌++◌, some, length, arith, replicate,
}
use cache_noise_visualizer.Base.Int.{ℤ, pos, int_eq, unsigned32}
use cache_noise_visualizer.Base.Text.{Bytes, codes, text_eq}
use cache_noise_visualizer.Result.{done}
use cache_noise_visualizer.SysInfo.Text.{show_int}
use cache_noise_visualizer.SysInfo.CacheInfo.{CacheInfo}
use cache_noise_visualizer.Sampling.Recorded.{measure_all}
use cache_noise_visualizer.Statistics.{Summary, benchmark_text}
use cache_noise_visualizer.Benchmark.Runs.{Ready, Sums, benchmark-runs}
use cache_noise_visualizer.Main.Flow.{Locals, next, exit_on_fail}
use cache_noise_visualizer.Main.Program.{System, is_nonneg, less_one, run_benchmark}
use cache_noise_visualizer.Main.Modes.{run_mode, kill_program, main}
use cache_noise_visualizer.Main.Info.{closed, at_finalize-closed}
use cache_noise_visualizer.Main.Smooth.{
  Smooth, joined, appended, appended-joined, binding_text, cache_texts, bye,
}
use cache_noise_visualizer.Main.Smooth.Before.{chosen, root-Goes, rdpmc-Goes, main-reaches}

-- The command line of the mode bench.
pub record ForBench (l : Locals) (iterations : ℕ) : Type 0 where
  pub mode : l.arguments.mode ≡ some (codes "bench")
  pub cpu : is_nonneg l.arguments.cpu ≡ true
  pub iter : l.arguments.iter ≡ pos iterations
  pub some_rounds : 0 < iterations
  pub small : iterations < 2 ^ 31
  pub pid : l.arguments.pid ≡ pos 0

abbrev pub bench_text : ℤ → Bytes
bench_text iterations =
    codes "Starting benchmark with "
    ++ (show_int iterations ++ (codes " iterations ..." ++ 10 ∷ []))

module _ {W D : Type 0} (system : System W D) (shown : W → Bytes) (l : Locals) (found : CacheInfo)
    (smooth : Smooth system shown l found)
    (ready : Ready system.cpu system.kernel system.memory system.console system.double system.qsort
      shown) where
  open system use {cpu, kernel, memory, console, double, qsort, process}

  -- What the benchmark comes to: the times, what it says of them, and where they were measured.
  pub record Benched (iterations : ℕ) : Type 0 where
    pub times : List ℕ
    pub summary : Summary
    pub first : W
    pub last : W
    pub measured :
        measure_all cpu (replicate iterations system.stack_buffer) first ≡ done times last
    pub rounds : length times ≡ iterations
    pub sums : Sums cpu kernel memory console double qsort shown iterations times summary

  run_benchmark-runs :
      (iterations : ℕ)
      → ForBench l iterations
      → ((n : ℕ) → length (system.stale_heap n) ≡ n)
      → (w : W)
      → (o : Benched iterations) × (v : W) × (run_benchmark system (chosen smooth) w
          ≡ next (chosen smooth) v)
        × (shown v
            ≡ appended (shown w) (
                bench_text l.arguments.iter
                ∷ benchmark_text double iterations o.sums.variance o.summary
                ∷ []))
  unfolding run_benchmark exit_on_fail
  run_benchmark-runs iterations bench stack w =
      let u = console.print_out (bench_text l.arguments.iter) w in
      let rounds : unsigned32 l.arguments.iter ≡ iterations =
        rw bench.iter (omega (arith, bench.small)) in
      let kept : less_one l.arguments.iter ≡ false =
        rw bench.iter (ground (arith, bench.some_rounds)) in
      let (times, s, first, last, v, measured, long, sums, run, text) =
        benchmark-runs cpu kernel memory console double qsort shown ready iterations
          system.stack_buffer (system.stale_heap iterations) u bench.some_rounds bench.small
          (stack iterations) in
      (
        record {
          times = times;
          summary = s;
          first = first;
          last = last;
          measured = measured;
          rounds = long;
          sums = sums;
        },
        v,
        rw (kept, rounds, run) refl,
        text
            ∙ ap (λ x. x ++ benchmark_text double iterations sums.variance s)
                (smooth.print_out (bench_text l.arguments.iter) w),
      )

  -- Suppose that the command line asks for the mode bench with 1 to 2 ^ 31 - 1 iterations, on a given
  -- CPU, without another process; that every call succeeds and only the calls that print add to the
  -- standard output; that the array that malloc answers has an entry for each iteration; that fewer
  -- than 2 ^ 31 cycles pass around a load; and that qsort sorts. Then main ends with 0. The standard
  -- output has taken the lines about the binding and the cache, the start line, what benchmark says of
  -- as many timed loads as there are iterations (the median and the two counts are right), and the
  -- last line; main then only closes the file of `output`, which nothing has set, if that happens to
  -- be of the type of an HDF5 file.
  pub main-bench :
      (iterations : ℕ)
      → ForBench l iterations
      → ((n : ℕ) → length (system.stale_heap n) ≡ n)
      → (w : W)
      → (o : Benched iterations) × (v : W) × (main system l w ≡ done 0 (closed system l.output v))
        × (shown v
            ≡ shown w
              ++ joined (
                  binding_text (process.getpid w) l.arguments.cpu
                  ∷ joined (cache_texts l.arguments.level l.arguments.cpu found)
                  ∷ bench_text l.arguments.iter
                  ∷ benchmark_text double iterations o.sums.variance o.summary
                  ∷ bye
                  ∷ []))
  unfolding run_mode text_eq kill_program
  main-bench iterations bench stack w =
      let (t, reached, text) = main-reaches smooth (codes "bench") bench.mode bench.cpu w in
      let (u, rooted, quiet) = (root-Goes smooth).at t in
      let (v, usable, quiet') = (rdpmc-Goes smooth).at u in
      let (o, r, ran, text') = run_benchmark-runs iterations bench stack v in
      let no_program : int_eq l.arguments.pid (pos 0) ≡ true = rw bench.pid refl in
      let rest =
        bench_text l.arguments.iter
        ∷ benchmark_text double iterations o.sums.variance o.summary
        ∷ [] in
      (
        o,
        console.print_out bye r,
        reached
            ∙ rw (rooted, usable, ran, no_program)
                (at_finalize-closed system (chosen smooth) (console.print_out bye r) refl),
        smooth.print_out bye r
            ∙ ap (λ s. s ++ bye)
                (text'
                  ∙ ap (λ s. appended s rest)
                      (quiet' ∙ append-nil (shown u) ∙ quiet ∙ append-nil (shown t) ∙ text))
            ∙ appended-joined (shown w) (
                binding_text (process.getpid w) l.arguments.cpu
                ∷ joined (cache_texts l.arguments.level l.arguments.cpu found)
                ∷ bench_text l.arguments.iter
                ∷ benchmark_text double iterations o.sums.variance o.summary
                ∷ bye
                ∷ []),
      )
