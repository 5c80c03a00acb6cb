-- ===== src/Main/Profiled/Whole.antt =====
-- main in the mode profile, with a number of iterations.
use cache_noise_visualizer.Base.{
  ℕ, suc, ◌^◌, ◌<◌, ◌≡◌, ◌/◌, inl, inr, refl, true, false, List, ◌++◌, length, All, arith,
}
use cache_noise_visualizer.Base.Int.{pos, int_eq}
use cache_noise_visualizer.Base.Text.{Bytes, codes}
use cache_noise_visualizer.Result.{done}
use cache_noise_visualizer.SysInfo.CacheInfo.{CacheInfo}
use cache_noise_visualizer.Alloc.Finds.{Aligned}
use cache_noise_visualizer.Profile.Matrix.{IsMatrix, matrices_text}
use cache_noise_visualizer.Profile.Written.{profile_loop-Written}
use cache_noise_visualizer.Main.Flow.{Locals, next}
use cache_noise_visualizer.Main.Program.{System, less_one}
use cache_noise_visualizer.Main.Modes.{announce, set_alarm, measure_noise, main}
use cache_noise_visualizer.Main.Info.{print_all}
use cache_noise_visualizer.Main.Smooth.{Reaches, Goes, joined}
use cache_noise_visualizer.Main.Smooth.Before.{printed}
use cache_noise_visualizer.Main.Profiled.{Furnished, Shaped, ForProfile, start_texts, watched}
use cache_noise_visualizer.Main.Profiled.Measuring.{
  holding, streaming, geometry, measure_noise-runs, stack-fits,
}
use cache_noise_visualizer.Main.Profiled.Parts.{Measurement, Limited, session, main-measures}

-- The command line has a number of iterations, and no time limit.
pub record ForRounds (l : Locals) (iterations : ℕ) : Type 0 where
  pub iter : l.arguments.iter ≡ pos iterations
  pub some_rounds : 0 < iterations
  pub small : iterations < 2 ^ 31
  pub seconds : l.arguments.seconds ≡ pos 0

module _ {W D : Type 0} (system : System W D) (shown : W → Bytes) (misses : W → ℕ) (l : Locals)
    (found : CacheInfo) (h size max_tries : ℕ)
    (furnished : Furnished system shown misses l found h size max_tries) (shaped : Shaped found h)
    (iterations : ℕ) (rounds : ForRounds l iterations) (fuel : system.fuel ≡ suc iterations)
    (stack : (n : ℕ) → length (system.stale_stack n) ≡ n)
    (unset : (v : W) → system.scheduler.terminated v ≡ 0) where
  open system use {files, memory, cpu, outlet, scheduler, process}

  announce-Goes :
      Goes
        (watched misses shown)
        (streaming furnished shaped)
        (streaming furnished shaped)
        (joined (start_texts l.arguments.iter (codes " iterations ")))
        (announce system)
  unfolding announce
  announce-Goes =
      let some_rounds : int_eq l.arguments.iter (pos 0) ≡ false =
        rw rounds.iter (ground (arith, rounds.some_rounds)) in
      let no_seconds : int_eq l.arguments.seconds (pos 0) ≡ true = rw rounds.seconds refl in
      let texts = start_texts l.arguments.iter (codes " iterations ") in
      record {
        at = λ w. (
          print_all system texts w,
          rw (some_rounds, no_seconds) refl,
          printed furnished.smooth texts w,
        );
      }

  set_alarm-runs :
      (b : ℕ) (w : W)
      → set_alarm system (holding furnished shaped b) w ≡ next (holding furnished shaped b) w
  unfolding set_alarm
  set_alarm-runs b w =
      let no_alarm : less_one l.arguments.seconds ≡ true = rw rounds.seconds refl in
      rw no_alarm refl

  measure-runs :
      (b : ℕ)
      → Aligned files memory found h b
      → (w : W)
      → (matrices : List (List (List ℕ))) × All (IsMatrix cpu found b) matrices
        × (length matrices ≡ iterations)
        × Reaches shown
            (measure_noise system (holding furnished shaped b) w)
            (holding furnished shaped b)
            (shown w ++ matrices_text matrices)
  measure-runs b aligned w =
      measure_noise-runs furnished shaped (λ n. n ≡ iterations) iterations (suc iterations) b w
        (rw rounds.iter (omega (arith, rounds.small))) fuel
        (λ fd v opened.
          let (matrices, all, last, u, run, text, count) =
            profile_loop-Written cpu outlet scheduler found b shown
              (holding furnished shaped b).output (geometry furnished shaped b aligned)
              furnished.loads furnished.sched_yield refl furnished.takes iterations
              (system.stale_stack (found.total_size / found.line_size)) v rounds.some_rounds
              (omega (arith, rounds.small)) (stack-fits furnished shaped stack) in
          let ended : length matrices ≡ iterations = elim count [
            | inl all_done ↦ all_done
            | inr (fewer, stopped) ↦ cc (rw (unset u) at stopped)
          ] in
          (matrices, all, ended, last, u, run, text))

  pub limited :
      Limited system shown misses l found h size max_tries furnished shaped
        (start_texts l.arguments.iter (codes " iterations "))
        (λ n. n ≡ iterations)
  limited = record {
    announces = announce-Goes;
    measures = λ b aligned w.
        let (matrices, all, count, reached) = measure-runs b aligned w in
        (matrices, all, count, w, set_alarm-runs b w, reached);
  }

  -- Suppose that the command line asks for the mode profile with 1 to 2 ^ 31 - 1 iterations, on a given
  -- CPU, without a file, a time limit or another process; that every call succeeds, only the calls that
  -- print add to the standard output, and no signal sets `terminated`; that the lines of the cache fill
  -- it exactly, huge pages have at least one line, and the array on the stack has an entry for each
  -- line; and that the machine hands out some number of misaligned buffers, fewer than there are tries,
  -- and then an aligned one, whatever calls come before the search. Then main ends with 0. It has measured with a buffer whose pages start on
  -- the physical lines of their offsets, and the standard output has taken the lines about the binding
  -- and the cache, the start line, the line that gives this number of misaligned buffers, one matrix of
  -- measured times for each iteration, and the last line, in this order and nothing else.
  pub main-profile :
      (alone : ForProfile l) (w : W)
      → (o : Measurement system shown misses l found h size max_tries furnished shaped
          (λ n. n ≡ iterations))
        × (w' : W) × (main system l w ≡ done 0 w')
        × (shown w'
            ≡ shown w
              ++ joined (
                  session system shown misses l found h size max_tries furnished shaped
                    (start_texts l.arguments.iter (codes " iterations "))
                    (λ n. n ≡ iterations)
                    limited
                    alone
                    (process.getpid w)
                    (misses w)
                    o))
  main-profile alone w =
      main-measures system shown misses l found h size max_tries furnished shaped
        (start_texts l.arguments.iter (codes " iterations ")) (λ n. n ≡ iterations) limited alone w
