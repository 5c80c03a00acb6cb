-- ===== src/Main/Profiled/Alarmed.antt =====
-- main in the mode profile, with a time limit.
use cache_noise_visualizer.Base.{
  ℕ, suc, ◌^◌, ◌<◌, ◌≤◌, ◌≡◌, ◌/◌, refl, ap, ◌∙◌, subst, true, false, List, ◌++◌, length, All,
  arith,
}
use cache_noise_visualizer.Base.Int.{pos, int_eq, unsigned32}
use cache_noise_visualizer.Base.Text.{Bytes, codes}
use cache_noise_visualizer.Result.{done}
use cache_noise_visualizer.Result.Keeps.{Over}
use cache_noise_visualizer.SysInfo.CacheInfo.{CacheInfo}
use cache_noise_visualizer.Actions.Keeps.{KernelKeeps, enable-Keeps}
use cache_noise_visualizer.Alloc.Finds.{Aligned}
use cache_noise_visualizer.Profile.Matrix.{IsMatrix, matrices_text}
use cache_noise_visualizer.Profile.Stops.{Alarm, stops_from}
use cache_noise_visualizer.Main.Flow.{Locals, next}
use cache_noise_visualizer.Main.Program.{System, less_one}
use cache_noise_visualizer.Main.Modes.{announce, set_alarm, measure_noise, main}
use cache_noise_visualizer.Main.Info.{print_all}
use cache_noise_visualizer.Main.Smooth.{Reaches, Goes, joined}
use cache_noise_visualizer.Main.Smooth.Before.{printed}
use cache_noise_visualizer.Main.Profiled.{Furnished, Shaped, ForProfile, start_texts, watched}
use cache_noise_visualizer.Main.Profiled.Measuring.{
  holding, streaming, geometry, measure_noise-runs, stack-fits,
}
use cache_noise_visualizer.Main.Profiled.Parts.{Measurement, Limited, session, main-measures}

-- The command line has a time limit in seconds, and no number of iterations.
pub record ForSeconds (l : Locals) (seconds : ℕ) : Type 0 where
  pub limit : l.arguments.seconds ≡ pos seconds
  pub some_seconds : 0 < seconds
  pub small : seconds < 2 ^ 31
  pub iter : l.arguments.iter ≡ pos 0

-- The call of alarm sets a clock to `ticks` steps at most, and the calls for the counter do not set
-- it back.
pub record Ringing {W D : Type 0} (system : System W D) (shown : W → Bytes) (left : W → ℕ)
    (seconds ticks : ℕ) : Type 0 where
  pub alarm : Alarm system.cpu system.outlet system.scheduler left
  pub set : (v : W) → left (system.process.alarm seconds v) ≤ ticks
  pub quiet : (v : W) → shown (system.process.alarm seconds v) ≡ shown v
  pub kernel_keeps : KernelKeeps system.kernel (λ v. left v ≤ ticks)

module _ {W D : Type 0} (system : System W D) (shown : W → Bytes) (misses : W → ℕ) (l : Locals)
    (found : CacheInfo) (h size max_tries : ℕ)
    (furnished : Furnished system shown misses l found h size max_tries) (shaped : Shaped found h)
    (seconds : ℕ) (timed : ForSeconds l seconds) (left : W → ℕ) (ticks : ℕ)
    (ringing : Ringing system shown left seconds ticks) (fuel : system.fuel ≡ suc ticks)
    (stack : (n : ℕ) → length (system.stale_stack n) ≡ n) where
  open system use {files, memory, cpu, outlet, kernel, scheduler, process}

  announce-Goes :
      Goes
        (watched misses shown)
        (streaming furnished shaped)
        (streaming furnished shaped)
        (joined (start_texts l.arguments.seconds (codes " seconds ")))
        (announce system)
  unfolding announce
  announce-Goes =
      let no_rounds : int_eq l.arguments.iter (pos 0) ≡ true = rw timed.iter refl in
      let some_seconds : int_eq l.arguments.seconds (pos 0) ≡ false =
        rw timed.limit (ground (arith, timed.some_seconds)) in
      let texts = start_texts l.arguments.seconds (codes " seconds ") in
      record {
        at = λ w. (
          print_all system texts w,
          rw (no_rounds, some_seconds) refl,
          printed furnished.smooth texts w,
        );
      }

  set_alarm-runs :
      (b : ℕ) (w : W)
      → set_alarm system (holding furnished shaped b) w
        ≡ next (holding furnished shaped b) (process.alarm seconds w)
  unfolding set_alarm
  set_alarm-runs b w =
      let some_seconds : less_one l.arguments.seconds ≡ false =
        rw timed.limit (ground (arith, timed.some_seconds)) in
      let number : unsigned32 l.arguments.seconds ≡ seconds =
        rw timed.limit (omega (arith, timed.small)) in
      rw (some_seconds, number) refl

  measure-runs :
      (b : ℕ)
      → Aligned files memory found h b
      → (w : W) → left w ≤ ticks
      → (matrices : List (List (List ℕ))) × All (IsMatrix cpu found b) matrices
        × (length matrices ≤ ticks)
        × Reaches shown
            (measure_noise system (holding furnished shaped b) w)
            (holding furnished shaped b)
            (shown w ++ matrices_text matrices)
  measure-runs b aligned w early =
      measure_noise-runs furnished shaped (λ n. n ≤ ticks) 0 (suc ticks) b w (rw timed.iter refl)
        fuel
        (λ fd v opened.
          let c = unsigned32 l.arguments.cpu in
          let still : left v ≤ ticks =
            subst (Over (λ u. left u ≤ ticks)) opened
              ((enable-Keeps kernel (λ u. left u ≤ ticks) ringing.kernel_keeps c).at w early) in
          let (matrices, all, last, u, run, text, count, stop) =
            stops_from cpu outlet scheduler found b left ringing.alarm shown
              (holding furnished shaped b).output (geometry furnished shaped b aligned)
              furnished.loads furnished.sched_yield refl furnished.takes ticks
              (system.stale_stack (found.total_size / found.line_size)) v still
              (stack-fits furnished shaped stack) in
          (matrices, all, count, last, u, run, text))

  pub limited :
      Limited system shown misses l found h size max_tries furnished shaped
        (start_texts l.arguments.seconds (codes " seconds "))
        (λ n. n ≤ ticks)
  limited = record {
    announces = announce-Goes;
    measures = λ b aligned w.
        let v = process.alarm seconds w in
        let (matrices, all, count, (t, run, text)) = measure-runs b aligned v (ringing.set w) in
        (
          matrices,
          all,
          count,
          v,
          set_alarm-runs b w,
          (t, run, text ∙ ap (λ s. s ++ matrices_text matrices) (ringing.quiet w)),
        );
  }

  -- Suppose that the command line asks for the mode profile with a time limit of 1 to 2 ^ 31 - 1
  -- seconds, on a given CPU, without a file, a number of iterations or another process; that
  -- every call succeeds and only the calls that print add to the standard output; that the lines
  -- of the cache fill it exactly, huge pages have at least one line, and the array on the stack
  -- has an entry for each line; that the machine hands out some number of misaligned buffers,
  -- fewer than there are tries, and then an aligned one, whatever calls come before the search;
  -- and that the call of alarm sets a clock that sched_yield advances, that no call for the
  -- measurement sets back, and that sets `terminated` when it has run down. Then main ends with
  -- 0. It has measured with a buffer whose pages start on the physical lines of their offsets,
  -- and the standard output has taken the lines about the binding and the cache, the start line,
  -- the line that gives this number of misaligned buffers, whole matrices of measured times, at
  -- most as many as the clock had steps to go, and the last line, in this order and nothing else.
  pub main-alarmed :
      (alone : ForProfile l) (w : W)
      → (o : Measurement system shown misses l found h size max_tries furnished shaped
          (λ n. n ≤ ticks))
        × (w' : W) × (main system l w ≡ done 0 w')
        × (shown w'
            ≡ shown w
              ++ joined (
                  session system shown misses l found h size max_tries furnished shaped
                    (start_texts l.arguments.seconds (codes " seconds "))
                    (λ n. n ≤ ticks)
                    limited
                    alone
                    (process.getpid w)
                    (misses w)
                    o))
  main-alarmed alone w =
      main-measures system shown misses l found h size max_tries furnished shaped
        (start_texts l.arguments.seconds (codes " seconds ")) (λ n. n ≤ ticks) limited alone w
