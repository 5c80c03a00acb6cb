-- ===== src/Main/Released/Modes.antt =====
-- The mappings behind every mode of main, up to FINALIZE.
use cache_noise_visualizer.Base.{
  ℕ, ◌≡◌, inl, inr, refl, sym, subst, ◌∙◌, Bool, false, Option, none, some,
}
use cache_noise_visualizer.Base.Text.{Bytes, codes, text_eq}
use cache_noise_visualizer.Alloc.Outcomes.{Mapper}
use cache_noise_visualizer.Main.Flow.{Locals, finalize, Step, ◌>>◌}
use cache_noise_visualizer.Main.Flows.{
  Flows, Flows-if, Flows-then, Flows-weaken, Flows-read, Ends-weaken,
}
use cache_noise_visualizer.Main.Program.{System, prepare, bind_cpu, choose_cache}
use cache_noise_visualizer.Main.Modes.{run_profile, run_mode, with_mode}
use cache_noise_visualizer.Main.Kept.{Frame, Kept}
use cache_noise_visualizer.Main.Kept.Steps.{say-Keeps}
use cache_noise_visualizer.Main.Kept.Before.{
  prepare-Keeps, bind_cpu-Keeps, choose_cache-Keeps, rdpmc-Keeps, require_root-Keeps,
  run_benchmark-Keeps,
}
use cache_noise_visualizer.Main.Kept.Profiling.{
  create_output-Keeps, announce-Keeps, attach-Keeps, set_alarm-Keeps, measure_noise-Keeps,
  kill_program-Keeps,
}
use cache_noise_visualizer.Main.Released.{Mapped, Left}
use cache_noise_visualizer.Main.Released.Allocate.{allocate-Left}

module _ {W D : Type 0} (system : System W D) (live : ℕ → W → Bool) (size : ℕ)
    (mapper : Mapper system.files system.memory live size)
    (frame : (m : ℕ → Bool) → Frame system (Mapped live m)) (start : ℕ → Bool) where
  open system use {files, memory, console, outlet}

  abbrev pub Before : Locals → W → Type 0
  Before = Kept (Mapped live start) 0

  abbrev pub After : Locals → W → Type 0
  After = Left live start

  abbrev pub Exited : W → Type 0
  Exited = Mapped live start

  Before-After : (l : Locals) (w : W) → Before l w → After l w
  Before-After l w h = record {
    lost = 0;
    settled = record { kept = λ a x y. h.world a; unmapped = inr (h.buffer, h.world) };
    small = h.small;
  }

  Kept-Left :
      (l l' : Locals) (w v : W)
      → After l w
      → Kept (Mapped live (λ a. live a w)) l.buffer l' v
      → After l' v
  Kept-Left l l' w v h k = record {
    lost = h.lost;
    settled = record {
      kept = λ a x y. k.world a ∙ h.settled.kept a x (λ e. y (e ∙ sym k.buffer));
      unmapped = elim h.settled.unmapped [
        | inl free ↦ inl (subst (λ b. start b ≡ false) (sym k.buffer) free)
        | inr (null, all) ↦ inr (k.buffer ∙ null, λ a. k.world a ∙ all a)
      ];
    };
    small = k.small;
  }

  -- A part that keeps every predicate of the mappings, behind the allocation.
  After-Keeps :
      (m : Step W)
      → ((f : ℕ → Bool) (b : ℕ)
          → Flows
              (Kept (Mapped live f) b)
              (Kept (Mapped live f) b)
              (Kept (Mapped live f) b)
              Exited
              m)
      → Flows After After After Exited m
  After-Keeps m k = record {
    at = λ l w h.
        Ends-weaken _ _ _ _ Exited Exited (m l w) (λ l' v. Kept-Left l l' w v h)
          (λ l' v. Kept-Left l l' w v h) (λ v i. i)
          ((k (λ a. live a w) l.buffer).at l w
            (record { world = λ a. refl; buffer = refl; small = h.small }));
  }

  -- A part before the allocation, with a jump or its end.
  Before-jumps :
      (m : Step W) → Flows Before Before Before Exited m → Flows Before Before After Exited m
  Before-jumps m s = Flows-weaken m (λ l w h. h) Before-After (λ w h. h) s

  Before-ends :
      (m : Step W) → Flows Before Before Before Exited m → Flows Before After After Exited m
  Before-ends m s = Flows-weaken m Before-After Before-After (λ w h. h) s

  run_profile-After : Flows Before After After Exited (run_profile system)
  unfolding run_profile
  run_profile-After =
      Flows-then _ _
        (Flows-then _ _
          (Flows-then _ _
            (Flows-then _ _
              (Flows-then _ _
                (Before-jumps _ (
                  Flows-read _ λ l.
                    create_output-Keeps system _ (frame start) 0 Exited l.arguments.output_file))
                (Before-jumps _ (announce-Keeps system _ (frame start) 0 Exited)))
              (allocate-Left system live size mapper frame start Exited))
            (After-Keeps _ (λ f b. attach-Keeps system _ (frame f) b Exited)))
          (After-Keeps _ (λ f b. set_alarm-Keeps system _ (frame f) b Exited)))
        (After-Keeps _ (λ f b. measure_noise-Keeps system _ (frame f) b Exited))

  unknown-After :
      (text : Bytes)
      → Flows Before After After Exited (λ l w. finalize l (console.print_err text w))
  unknown-After text = record {
    at = λ l w h. Before-After l _ (record {
      world = (frame start).print_err text w h.world;
      buffer = h.buffer;
      small = h.small;
    });
  }

  run_mode-After : (mode : Bytes) → Flows Before After After Exited (run_mode system mode)
  unfolding run_mode
  run_mode-After mode =
      Flows-if (text_eq mode (codes "info")) _ _
        (Before-ends _ (say-Keeps system _ (frame start) 0 Exited _))
        (Flows-then _ _
          (Flows-then _ _
            (Flows-then _ _
              (Flows-then _ _
                (Before-jumps _ (require_root-Keeps system _ (frame start) 0 Exited (λ w h. h)))
                (Before-jumps _ (rdpmc-Keeps system _ (frame start) 0 Exited)))
              (Flows-if (text_eq mode (codes "bench")) _ _
                (Before-ends _ (run_benchmark-Keeps system _ (frame start) 0 Exited))
                (Flows-if (text_eq mode (codes "profile")) _ _ run_profile-After
                  (unknown-After _))))
            (After-Keeps _ (λ f b. kill_program-Keeps system _ (frame f) b Exited)))
          (After-Keeps _ (λ f b. say-Keeps system _ (frame f) b Exited _)))

  with_mode-After : (mode : Option Bytes) → Flows Before After After Exited (with_mode system mode)
  with_mode-After none = record { at = λ l w h. tt }
  with_mode-After (some mode) = run_mode-After mode

  pub until_finalize :
      (this_pid : ℕ)
      → Flows Before After After Exited (
          prepare system
          >> bind_cpu system this_pid
          >> choose_cache system
          >> (λ l. with_mode system l.arguments.mode l))
  until_finalize this_pid =
      Flows-then _ _
        (Flows-then _ _
          (Flows-then _ _
            (Before-jumps _ (prepare-Keeps system _ (frame start) 0 Exited (λ w h. h)))
            (Before-jumps _ (bind_cpu-Keeps system _ (frame start) 0 Exited this_pid)))
          (Before-jumps _ (choose_cache-Keeps system _ (frame start) 0 Exited)))
        (Flows-read _ (λ l. with_mode-After l.arguments.mode))
