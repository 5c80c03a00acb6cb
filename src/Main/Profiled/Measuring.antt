-- ===== src/Main/Profiled/Measuring.antt =====
-- The search for a buffer and the measurement of the mode profile.
use mathlib.Core.List.{append-nil}
use native.Mathlib.Nat.{div-eq_of_eq-mul_left, mul_comm}
use cache_noise_visualizer.Base.{
  All, ap, ℕ, ◌*◌, ◌/◌, ◌≡◌, refl, sym, ◌∙◌, true, false, List, [], ◌++◌, none, ◌==◌, arith, length,
}
use cache_noise_visualizer.Base.Int.{pos, negsuc, int_eq, unsigned32}
use cache_noise_visualizer.Base.Text.{Bytes}
use cache_noise_visualizer.Errors.{error_none}
use cache_noise_visualizer.Result.{done}
use cache_noise_visualizer.SysInfo.CacheInfo.{CacheInfo}
use cache_noise_visualizer.Output.{output_stdout, outputc_stdout}
use cache_noise_visualizer.Alloc.Finds.{Aligned, found_text, alloc_aligned-finds}
use cache_noise_visualizer.Sampling.Primes.{Geometry}
use cache_noise_visualizer.Actions.{enable_cpu_cycle_counter, disable_cpu_cycle_counter}
use cache_noise_visualizer.Actions.Enabled.{enable-runs, disable-runs}
use cache_noise_visualizer.Profile.Matrix.{IsMatrix, matrices_text}
use cache_noise_visualizer.Profile.{measured, profile, profile_loop}
use cache_noise_visualizer.Main.Flow.{Locals, next, exit_on_fail}
use cache_noise_visualizer.Main.Program.{System, allocate, create_output}
use cache_noise_visualizer.Main.Modes.{attach, start_program, measure_noise}
use cache_noise_visualizer.Main.Profiled.{Furnished, Shaped, watched}
use cache_noise_visualizer.Main.Smooth.{Reaches, Goes}
use cache_noise_visualizer.Main.Smooth.Before.{chosen}

module _ {W D : Type 0} {system : System W D} {shown : W → Bytes} {misses : W → ℕ} {l : Locals}
    {found : CacheInfo} {h size max_tries : ℕ}
    (furnished : Furnished system shown misses l found h size max_tries)
    (shaped : Shaped found h) where
  open system use {console, files, memory, cpu, outlet, kernel, scheduler}

  -- The output writes to the stream stdout.
  abbrev pub streaming : Locals
  streaming = record (chosen furnished.smooth) {
    output = record { type = output_stdout; std = system.stdout; h5 = negsuc 0; iter = 0 };
  }

  -- The variables behind the search for a buffer.
  abbrev pub holding : ℕ → Locals
  holding buffer = record streaming { buffer = buffer }

  pub create_output-Goes :
      l.arguments.output_file ≡ none
      → Goes
          (watched misses shown)
          (chosen furnished.smooth)
          streaming
          []
          (λ l. create_output system l.arguments.output_file l)
  unfolding create_output outputc_stdout exit_on_fail
  create_output-Goes unnamed = record {
    at = λ w. (w, rw unnamed refl, sym (append-nil (watched misses shown w)));
  }

  pub allocate-runs :
      (w : W)
      → (b : ℕ) × Aligned files memory found h b
        × Reaches shown
            (allocate system (holding 0) w)
            (holding b)
            (shown w ++ found_text (misses w))
  unfolding allocate exit_on_fail
  allocate-runs w =
      let (b, v, run, aligned, text) =
        alloc_aligned-finds files memory found h shown misses furnished.supply shaped.small
          shaped.line_pos shaped.page_pos shaped.page_room size furnished.releases system.stale_uint
          0 max_tries w (furnished.hugepages w) (furnished.enough w) in
      (b, aligned, (v, rw run refl, text))

  pub geometry :
      (b : ℕ)
      → Aligned files memory found h b
      → Geometry found.line_size found.set_count found.ways_of_associativity b
  geometry b aligned = record {
    line_pos = shaped.line_pos;
    sets_pos = shaped.sets_pos;
    ways_pos = shaped.ways_pos;
    size_fits = rw (← shaped.total) shaped.small;
    buffer_fits = rw (← shaped.total) aligned.fits;
  }

  -- A measurement whose parts succeed.
  measure_noise-next :
      (iterations fuel b fd : ℕ) (last : List ℕ) (w v u t : W)
      → unsigned32 l.arguments.iter ≡ iterations
      → system.fuel ≡ fuel
      → enable_cpu_cycle_counter kernel (unsigned32 l.arguments.cpu) w ≡ done fd v
      → profile_loop cpu outlet scheduler found iterations b fuel 0
          (system.stale_stack (found.total_size / found.line_size))
          (holding b).output
          v
        ≡ done (measured error_none last (holding b).output) u
      → disable_cpu_cycle_counter kernel fd u ≡ done tt t
      → measure_noise system (holding b) w ≡ next (holding b) t
  unfolding measure_noise exit_on_fail profile
  measure_noise-next iterations fuel b fd last w v u t rounds enough opened run closed =
      let sized : (found.line_size == 0) ≡ false = ground (arith, shaped.line_pos) in
      rw (sized, rounds, enough, opened, run, closed) refl

  -- A measurement whose loop ends, where the counter has been turned on, with so many matrices.
  pub measure_noise-runs :
      (Counts : ℕ → Type 0) (iterations fuel b : ℕ) (w : W)
      → unsigned32 l.arguments.iter ≡ iterations
      → system.fuel ≡ fuel
      → ((fd : ℕ) (v : W)
          → enable_cpu_cycle_counter kernel (unsigned32 l.arguments.cpu) w ≡ done fd v
          → (matrices : List (List (List ℕ))) × All (IsMatrix cpu found b) matrices
            × Counts (length matrices)
            × (last : List ℕ) × (u : W) × (profile_loop cpu outlet scheduler found iterations b fuel
                  0
                  (system.stale_stack (found.total_size / found.line_size))
                  (holding b).output
                  v
                ≡ done (measured error_none last (holding b).output) u)
            × (shown u ≡ shown v ++ matrices_text matrices))
      → (matrices : List (List (List ℕ))) × All (IsMatrix cpu found b) matrices
        × Counts (length matrices)
        × Reaches shown
            (measure_noise system (holding b) w)
            (holding b)
            (shown w ++ matrices_text matrices)
  measure_noise-runs Counts iterations fuel b w rounds enough loop =
      let (fd, v, opened, same) = enable-runs furnished.counting (unsigned32 l.arguments.cpu) w in
      let (matrices, all, count, last, u, run, text) = loop fd v opened in
      let (t, closed, same') = disable-runs furnished.counting fd u in
      (
        matrices,
        all,
        count,
        (
          t,
          measure_noise-next iterations fuel b fd last w v u t rounds enough opened run closed,
          same' ∙ text ∙ ap (λ s. s ++ matrices_text matrices) same,
        ),
      )

  -- The array on the stack has an entry for each line.
  pub stack-fits :
      ((n : ℕ) → length (system.stale_stack n) ≡ n)
      → length (system.stale_stack (found.total_size / found.line_size))
        ≡ found.set_count * found.ways_of_associativity
  stack-fits stack =
      stack (found.total_size / found.line_size)
      ∙ div-eq_of_eq-mul_left shaped.line_pos shaped.total
      ∙ mul_comm found.ways_of_associativity found.set_count

  pub attach-runs :
      (b : ℕ) (w : W)
      → l.arguments.pid ≡ pos 0
      → l.arguments.program ≡ none
      → attach system (holding b) w ≡ next (holding b) w
  unfolding attach start_program
  attach-runs b w unbound own =
      let not_bound : int_eq l.arguments.pid (pos 0) ≡ true = rw unbound refl in
      rw (not_bound, own) refl
