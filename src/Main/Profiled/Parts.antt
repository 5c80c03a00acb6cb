-- ===== src/Main/Profiled/Parts.antt =====
-- main in the mode profile, from the handlers to the release of the buffer, whatever ends the loop.
use mathlib.Core.List.{append-nil}
use cache_noise_visualizer.Base.{
  ℕ, ◌≡◌, inl, inr, refl, sym, ap, ◌∙◌, true, List, [], ◌∷◌, ◌++◌, ◌==◌, length, All, Bool-cases,
}
use cache_noise_visualizer.Base.Int.{pos, int_eq}
use cache_noise_visualizer.Base.Text.{Bytes, codes, text_eq}
use cache_noise_visualizer.Result.{done}
use cache_noise_visualizer.SysInfo.CacheInfo.{CacheInfo}
use cache_noise_visualizer.Alloc.Finds.{Aligned, found_text}
use cache_noise_visualizer.Output.{output_close}
use cache_noise_visualizer.Profile.Matrix.{IsMatrix, matrices_text}
use cache_noise_visualizer.Main.Flow.{Locals, next}
use cache_noise_visualizer.Main.Program.{System}
use cache_noise_visualizer.Main.Modes.{
  announce, set_alarm, measure_noise, run_profile, run_mode, kill_program, at_finalize, main,
}
use cache_noise_visualizer.Main.Smooth.{
  Smooth, Reaches, Goes, joined, appended, appended-joined, binding_text, cache_texts, bye,
}
use cache_noise_visualizer.Main.Smooth.Before.{chosen, root-Goes, rdpmc-Goes, main-reaches}
use cache_noise_visualizer.Main.Profiled.{Furnished, Shaped, ForProfile, watched}
use cache_noise_visualizer.Main.Profiled.Measuring.{
  holding, streaming, create_output-Goes, allocate-runs, attach-runs,
}

abbrev first_of : Bytes → ℕ
first_of [] = 0
first_of (x ∷ xs) = x

abbrev tail : Bytes → Bytes
tail [] = []
tail (x ∷ xs) = xs

module _ {W D : Type 0} (system : System W D) (shown : W → Bytes) (misses : W → ℕ) (l : Locals)
    (found : CacheInfo) (h size max_tries : ℕ)
    (furnished : Furnished system shown misses l found h size max_tries)
    (shaped : Shaped found h) where
  open system use {files, memory, cpu, console, process}

  -- The variables when the buffer is `b`.
  abbrev held : ℕ → Locals
  held = holding furnished shaped

  -- The output alone is observed.
  plain : Smooth system shown l found
  plain = record {
    willing = furnished.smooth.willing;
    root = furnished.smooth.root;
    rdpmc = furnished.smooth.rdpmc;
    print_out = λ text v. ap tail (furnished.smooth.print_out text v);
    signal = λ signo v. ap tail (furnished.smooth.signal signo v);
    sigaction = λ v. ap tail (furnished.smooth.sigaction v);
    sched_setaffinity = λ pid set v. ap tail (furnished.smooth.sched_setaffinity pid set v);
  }

  -- Neither the number of misaligned buffers to come, nor the output but for a text, has changed.
  unwatched :
      (v w : W) (text : Bytes)
      → watched misses shown v ≡ watched misses shown w ++ text
      → (misses v ≡ misses w) × (shown v ≡ shown w ++ text)
  unwatched v w text e = (ap first_of e, ap tail e)

  -- What the measurement comes to: the buffer, the matrices, and what is known of their number.
  pub record Measurement (Counts : ℕ → Type 0) : Type 0 where
    pub buffer : ℕ
    pub matrices : List (List (List ℕ))
    pub aligned : Aligned files memory found h buffer
    pub measured : All (IsMatrix cpu found buffer) matrices
    pub counts : Counts (length matrices)

  -- The parts of the mode that depend on what ends the loop of profile: the start line, and a
  -- measurement that ends with so many matrices.
  pub record Limited (texts : List Bytes) (Counts : ℕ → Type 0) : Type 0 where
    pub announces :
        Goes
          (watched misses shown)
          (streaming furnished shaped)
          (streaming furnished shaped)
          (joined texts)
          (announce system)
    pub measures :
        (b : ℕ)
        → Aligned files memory found h b
        → (w : W)
        → (matrices : List (List (List ℕ))) × All (IsMatrix cpu found b) matrices
          × Counts (length matrices)
          × (v : W) × (set_alarm system (held b) w ≡ next (held b) v)
          × Reaches shown
              (measure_noise system (held b) v)
              (held b)
              (shown w ++ matrices_text matrices)

  finalize-ends :
      (b : ℕ) (aligned : Aligned files memory found h b) (w : W)
      → (v : W) × (at_finalize system (held b) w ≡ done 0 v) × (shown v ≡ shown w)
  unfolding at_finalize output_close
  finalize-ends b aligned w = elim (Bool-cases (b == 0)) [
    | inl null ↦ (w, rw null refl, refl)
    | inr mapped ↦ (
      (memory.munmap b size w).1,
      rw (mapped, furnished.releases.released b w aligned.mapped) refl,
      furnished.supply.munmap b size w,
    )
  ]

  module _ (texts : List Bytes) (Counts : ℕ → Type 0) (limited : Limited texts Counts)
      (alone : ForProfile l) where
    -- The texts of the mode.
    abbrev mode_texts : ℕ → Measurement Counts → List Bytes
    mode_texts tries o = joined texts ∷ found_text tries ∷ matrices_text o.matrices ∷ []

    run_profile-runs :
        (w : W)
        → (o : Measurement Counts) × Reaches shown
            (run_profile system (chosen furnished.smooth) w)
            (held o.buffer)
            (appended (shown w) (mode_texts (misses w) o))
    unfolding run_profile
    run_profile-runs w =
        let (u, created, quiet) = (create_output-Goes furnished shaped alone.output_file).at w in
        let (v, announced, text) = limited.announces.at u in
        let before =
          unwatched v w (joined texts)
            (text ∙ ap (λ s. s ++ joined texts) (quiet ∙ append-nil (watched misses shown w))) in
        let (b, aligned, (t, allocated, text')) = allocate-runs furnished shaped v in
        let (matrices, all, count, s, set, (r, measured, text'')) = limited.measures b aligned t in
        (
          record {
            buffer = b;
            matrices = matrices;
            aligned = aligned;
            measured = all;
            counts = count;
          },
          (
            r,
            rw
                (
                  created,
                  announced,
                  allocated,
                  attach-runs furnished shaped b t alone.pid alone.program,
                  set,
                )
                measured,
            text''
                ∙ ap (λ s. s ++ matrices_text matrices)
                    (text' ∙ (λ i. (before.1 i) ++ found_text (before.0 i))),
          ),
        )

    profiling-runs :
        (w : W)
        → (o : Measurement Counts) × Reaches shown
            (run_mode system (codes "profile") (chosen furnished.smooth) w)
            (held o.buffer)
            (appended (shown w) (mode_texts (misses w) o) ++ bye)
    unfolding run_mode text_eq kill_program
    profiling-runs w =
        let (u, rooted, quiet) = (root-Goes furnished.smooth).at w in
        let (v, usable, quiet') = (rdpmc-Goes furnished.smooth).at u in
        let (o, (t, ran, text)) = run_profile-runs v in
        let no_program : int_eq l.arguments.pid (pos 0) ≡ true = rw alone.pid refl in
        let before = unwatched v w [] (quiet' ∙ append-nil (watched misses shown u) ∙ quiet) in
        (
          o,
          (
            console.print_out bye t,
            rw (rooted, usable, ran, no_program) refl,
            plain.print_out bye t
                ∙ ap (λ s. s ++ bye)
                    (text ∙ (λ i.
                      appended ((before.1 ∙ append-nil (shown w)) i) (mode_texts (before.0 i) o))),
          ),
        )

    -- The whole text, for the process id that getpid answers.
    abbrev pub session : ℕ → ℕ → Measurement Counts → List Bytes
    session pid tries o =
        binding_text pid l.arguments.cpu
        ∷ joined (cache_texts l.arguments.level l.arguments.cpu found)
        ∷ joined texts
        ∷ found_text tries
        ∷ matrices_text o.matrices
        ∷ bye
        ∷ []

    -- main ends with 0, and what it has shown is a session.
    pub main-measures :
        (w : W)
        → (o : Measurement Counts) × (w' : W) × (main system l w ≡ done 0 w')
          × (shown w' ≡ shown w ++ joined (session (process.getpid w) (misses w) o))
    main-measures w =
        let (v, reached, text) =
          main-reaches furnished.smooth (codes "profile") alone.mode alone.cpu w in
        let first =
          binding_text (process.getpid w) l.arguments.cpu
          ∷ joined (cache_texts l.arguments.level l.arguments.cpu found)
          ∷ [] in
        let before =
          unwatched v w (joined first) (text ∙ appended-joined (watched misses shown w) first) in
        let (o, (r, ran, text')) = profiling-runs v in
        let (w', ended, quiet) = finalize-ends o.buffer o.aligned r in
        (
          o,
          w',
          rw (reached, ran) ended,
          quiet
              ∙ text'
              ∙ (λ i.
                  appended ((before.1 ∙ sym (appended-joined (shown w) first)) i)
                    (mode_texts (before.0 i) o)
                  ++ bye)
              ∙ appended-joined (shown w) (session (process.getpid w) (misses w) o),
        )
