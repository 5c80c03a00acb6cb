-- ===== src/Tests/Modes.antt =====
-- The modes profile and bench of src/main.c on the machine where every call succeeds.
use cache_noise_visualizer.Base.{
  ℕ, ◌+◌, ◌≤◌, ◌^◌, ◌≡◌, refl, List, [], ◌∷◌, ◌++◌, length, arith, replicate, length-replicate,
}
use cache_noise_visualizer.Base.Int.{pos}
use cache_noise_visualizer.Result.{done}
use cache_noise_visualizer.Statistics.{benchmark_text, Summary}
use cache_noise_visualizer.Benchmark.{benchmark}
use cache_noise_visualizer.Sampling.Recorded.{measure_all}
use cache_noise_visualizer.Benchmark.Runs.{Sums, benchmark-runs}
use cache_noise_visualizer.Main.Modes.{main}
use cache_noise_visualizer.Main.Info.{closed}
use cache_noise_visualizer.Main.Smooth.{joined, binding_text, cache_texts, bye}
use cache_noise_visualizer.Alloc.Finds.{found_text}
use cache_noise_visualizer.Profile.Matrix.{matrices_text}
use cache_noise_visualizer.Main.Profiled.{Furnished, Shaped, ForProfile, start_texts}
use cache_noise_visualizer.Main.Profiled.Parts.{Measurement}
use cache_noise_visualizer.Main.Profiled.Whole.{ForRounds, main-profile}
use cache_noise_visualizer.Main.Profiled.Alarmed.{ForSeconds, Ringing, main-alarmed}
use cache_noise_visualizer.Base.Text.{codes}
use cache_noise_visualizer.Main.Benched.{ForBench, Benched, bench_text, main-bench}
use cache_noise_visualizer.Tests.Released.{locals}
use cache_noise_visualizer.Tests.Options.{whole}
use cache_noise_visualizer.Tests.Sorting.{insertion_sort}
use cache_noise_visualizer.Tests.Session.{
  system, alarmed, two_seconds, benching, smooth, furnished, ready,
}
use cache_noise_visualizer.Tests.Supply.{Session, fresh, found, misses, memory, same_session}

shaped : Shaped found (2 ^ 21)
shaped = record {
  total = refl;
  line_pos = omega arith;
  sets_pos = omega arith;
  ways_pos = omega arith;
  small = omega arith;
  page_pos = omega arith;
  page_room = omega arith;
}

whole_mode : ForProfile locals
whole_mode = record { mode = refl; cpu = refl; pid = refl; program = refl; output_file = refl }

timed_mode : ForProfile two_seconds
timed_mode = record { mode = refl; cpu = refl; pid = refl; program = refl; output_file = refl }

two_rounds : ForRounds locals 2
two_rounds = record { iter = refl; some_rounds = omega arith; small = omega arith; seconds = refl }

calm : Furnished system (λ w. w.shown) misses locals found (2 ^ 21) (2 ^ 21) 2
calm = furnished system.scheduler locals (λ v. refl) refl refl

main-profile_example :
    (o : Measurement system
      (λ w. w.shown)
      misses
      locals
      found
      (2 ^ 21)
      (2 ^ 21)
      2
      calm
      shaped
      (λ n. n ≡ 2))
    × (w' : Session) × (main system locals fresh ≡ done 0 w')
    × (w'.shown
        ≡ []
          ++ joined (
              binding_text 7 (pos 0)
              ∷ joined (cache_texts (pos 1) (pos 0) found)
              ∷ joined (start_texts (pos 2) (codes " iterations "))
              ∷ found_text 1
              ∷ matrices_text o.matrices
              ∷ bye
              ∷ []))
main-profile_example =
    main-profile system (λ w. w.shown) misses locals found (2 ^ 21) (2 ^ 21) 2 calm shaped 2
      two_rounds refl (λ n. length-replicate n 0) (λ v. refl) whole_mode fresh

limit : ForSeconds two_seconds 2
limit = record { limit = refl; some_seconds = omega arith; small = omega arith; iter = refl }

ringing : Ringing alarmed (λ w. w.shown) (λ w. w.ticks) 2 2
ringing = record {
  alarm = record {
    cpu_keeps = λ n. record {
      load =
          λ a w v e h. same_session (record w { cycles = w.cycles + 7 }) v (λ u. u.ticks ≤ n) e h;
      rdpmc = λ w h. h;
    };
    outlet_keeps = λ n. record {
      print = λ std text w h. h;
      create_dataspace = λ rows columns w h. h;
      create_dataset = λ file name space w h. h;
      write_dataset = λ d values w h. h;
      close_dataset = λ d w h. h;
      create_file = λ file w h. h;
      chmod = λ file w h. h;
      close_file = λ file w h. h;
    };
    ticks = λ n w h. omega arith;
    rings = λ w e. rw e refl;
  };
  set = λ v. omega arith;
  quiet = λ v. refl;
  kernel_keeps = record {
    sched_setaffinity = λ pid set w h. h;
    perf_event_open = λ cpu w h. h;
    ioctl = λ fd r w h. h;
    posix_spawnattr_init = λ w h. h;
    posix_spawnattr_setflags = λ w h. h;
    posix_spawn_file_actions_init = λ w h. h;
    wordexp = λ text w h. h;
    wordfree = λ w h. h;
    calloc = λ n w v e h. same_session w v (λ u. u.ticks ≤ 2) e h;
    free = λ w h. h;
    posix_spawnp = λ path argv w h. h;
  };
}

ticking : Furnished alarmed (λ w. w.shown) misses two_seconds found (2 ^ 21) (2 ^ 21) 2
ticking = furnished alarmed.scheduler two_seconds (λ v. refl) refl refl

main-alarmed_example :
    (o : Measurement alarmed
      (λ w. w.shown)
      misses
      two_seconds
      found
      (2 ^ 21)
      (2 ^ 21)
      2
      ticking
      shaped
      (λ n. n ≤ 2))
    × (w' : Session) × (main alarmed two_seconds fresh ≡ done 0 w')
    × (w'.shown
        ≡ []
          ++ joined (
              binding_text 7 (pos 0)
              ∷ joined (cache_texts (pos 1) (pos 0) found)
              ∷ joined (start_texts (pos 2) (codes " seconds "))
              ∷ found_text 1
              ∷ matrices_text o.matrices
              ∷ bye
              ∷ []))
main-alarmed_example =
    main-alarmed alarmed (λ w. w.shown) misses two_seconds found (2 ^ 21) (2 ^ 21) 2 ticking shaped
      2 limit (λ w. w.ticks) 2 ringing refl (λ n. length-replicate n 0) timed_mode fresh

bench : ForBench benching 2
bench = record {
  mode = refl;
  cpu = refl;
  iter = refl;
  some_rounds = omega arith;
  small = omega arith;
  pid = refl;
}

main-bench_example :
    (o : Benched system
      (λ w. w.shown)
      benching
      found
      (smooth system.scheduler benching refl refl)
      ready
      2)
    × (v : Session) × (main system benching fresh ≡ done 0 (closed system benching.output v))
    × (v.shown
        ≡ []
          ++ joined (
              binding_text 7 (pos 0)
              ∷ joined (cache_texts (pos 1) (pos 0) found)
              ∷ bench_text (pos 2)
              ∷ benchmark_text whole 2 o.sums.variance o.summary
              ∷ bye
              ∷ []))
main-bench_example =
    main-bench system (λ w. w.shown) benching found (smooth system.scheduler benching refl refl)
      ready 2 bench (λ n. length-replicate n 0) fresh

benchmark-runs_example :
    (times : List ℕ) × (s : Summary) × (u v w' : Session) × (measure_all system.cpu
        (replicate 2 4096)
        u
      ≡ done times v)
    × (length times ≡ 2)
    × (sums : Sums system.cpu system.kernel memory system.console whole insertion_sort
        (λ w. w.shown)
        2
        times
        s)
    × (benchmark system.cpu system.kernel memory system.console whole insertion_sort 2 4096
          (0 ∷ 0 ∷ [])
          fresh
        ≡ done tt w')
    × (w'.shown ≡ [] ++ benchmark_text whole 2 sums.variance s)
benchmark-runs_example =
    benchmark-runs system.cpu system.kernel memory system.console whole insertion_sort
      (λ w. w.shown) ready 2 4096 (0 ∷ 0 ∷ []) fresh (omega arith) (omega arith) refl
