-- ===== src/Main/Smooth/Before.antt =====
-- The parts of main in front of the modes.
use mathlib.Core.List.{append-nil}
use cache_noise_visualizer.Base.{ℕ, ◌≡◌, refl, sym, ap, ◌∙◌, true, List, [], ◌∷◌, ◌++◌, some}
use cache_noise_visualizer.Base.Text.{Bytes}
use cache_noise_visualizer.SysInfo.CacheInfo.{CacheInfo}
use cache_noise_visualizer.SysInfo.CacheInfo.Left.{new_left}
use cache_noise_visualizer.SysInfo.Access.{can_use_rdpmc}
use cache_noise_visualizer.Actions.{focus_cpu_core}
use cache_noise_visualizer.Main.Flow.{Locals, exit_on_fail}
use cache_noise_visualizer.Main.Program.{
  System, is_nonneg, install, install_sigchld, prepare, bind_given, bind_cpu, choose_cache, checked,
  read_call,
}
use cache_noise_visualizer.Main.Modes.{require_root, run_mode, with_mode, conclude, main}
use cache_noise_visualizer.Main.Info.{installed, bound, print_all}
use cache_noise_visualizer.Main.Smooth.{
  Smooth, joined, binding_text, cache_texts, appended, Goes, print_all-joined,
}

module _ {W D : Type 0} {system : System W D} {shown : W → Bytes} {l : Locals} {found : CacheInfo}
    (smooth : Smooth system shown l found) where
  open system use {console, process, kernel}

  -- The variables behind argp_parse, and once the cache is chosen.
  abbrev pub start : Locals
  start = record l { buffer = 0 }

  abbrev pub chosen : Locals
  chosen = record l { buffer = 0; cache = found }

  pub prepare-Goes : Goes shown start start [] (prepare system)
  unfolding prepare install install_sigchld
  prepare-Goes = record {
    at = λ w. (
      installed system w,
      rw
          (
            smooth.willing.has_pid w,
            smooth.willing.signals 15 w,
            smooth.willing.signals 14 (process.signal 15 w).1,
            smooth.willing.signals 2 (process.signal 14 (process.signal 15 w).1).1,
            smooth.willing.sigaction
                (process.signal 2 (process.signal 14 (process.signal 15 w).1).1).1,
          )
          refl,
      smooth.sigaction _
          ∙ smooth.signal 2 _
          ∙ smooth.signal 14 _
          ∙ smooth.signal 15 w
          ∙ sym (append-nil (shown w)),
    );
  }

  pub bind_cpu-Goes :
      (pid : ℕ)
      → is_nonneg l.arguments.cpu ≡ true
      → Goes shown start start (binding_text pid l.arguments.cpu) (bind_cpu system pid)
  unfolding bind_cpu bind_given exit_on_fail focus_cpu_core
  bind_cpu-Goes pid given = record {
    at = λ w. (
      bound system pid l.arguments.cpu (console.print_out (binding_text pid l.arguments.cpu) w),
      rw (given, smooth.willing.binds) refl,
      smooth.sched_setaffinity _ _ _ ∙ smooth.print_out _ w,
    );
  }

  pub printed :
      (texts : List Bytes) (w : W) → shown (print_all system texts w) ≡ shown w ++ joined texts
  printed = print_all-joined shown system smooth.print_out

  pub choose_cache-Goes :
      Goes shown start chosen
        (joined (cache_texts l.arguments.level l.arguments.cpu found))
        (choose_cache system)
  unfolding choose_cache exit_on_fail new_left
  choose_cache-Goes = record {
    at = λ w. (
      _,
      rw smooth.willing.shows refl,
      printed (cache_texts l.arguments.level l.arguments.cpu found) w,
    );
  }

  pub root-Goes : Goes shown chosen chosen [] (require_root system)
  unfolding require_root
  root-Goes = record { at = λ w. (w, rw (smooth.root w) refl, sym (append-nil (shown w))) }

  pub rdpmc-Goes : Goes shown chosen chosen [] (
      checked system "While checking if the rdpmc instruction can be used in userspace"
        (λ l w. read_call (can_use_rdpmc system.files system.stale_uint w) l w))
  unfolding exit_on_fail
  rdpmc-Goes = record { at = λ w. (w, rw (smooth.rdpmc w) refl, sym (append-nil (shown w))) }

  -- main up to its mode.
  pub main-reaches :
      (mode : Bytes)
      → l.arguments.mode ≡ some mode
      → is_nonneg l.arguments.cpu ≡ true
      → (w : W)
      → (v : W) × (main system l w ≡ conclude system (run_mode system mode chosen v))
        × (shown v
            ≡ appended (shown w) (
                binding_text (process.getpid w) l.arguments.cpu
                ∷ joined (cache_texts l.arguments.level l.arguments.cpu found)
                ∷ []))
  unfolding main
  main-reaches mode asked given w =
      let (t, ready, quiet) = prepare-Goes.at w in
      let (u, bound, text) = (bind_cpu-Goes (process.getpid w) given).at t in
      let (v, shown_cache, text') = choose_cache-Goes.at u in
      (
        v,
        rw (ready, bound, shown_cache)
            (ap (λ m. conclude system (with_mode system m chosen v)) asked),
        text'
            ∙ ap (λ s. s ++ joined (cache_texts l.arguments.level l.arguments.cpu found))
                (text
                  ∙ ap (λ s. s ++ binding_text (process.getpid w) l.arguments.cpu)
                      (quiet ∙ append-nil (shown w))),
      )
