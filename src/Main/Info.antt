-- ===== src/Main/Info.antt =====
-- What the first calls of main answer, what it prints, and its end without a buffer.
use cache_noise_visualizer.Base.{
  ℕ, ◌≡◌, refl, true, false, List, [], ◌∷◌, Option, ◌==◌, if◌then◌else◌, Bool-cases, inl, inr,
}
use cache_noise_visualizer.Base.Int.{ℤ, pos, unsigned32}
use cache_noise_visualizer.Base.Text.{Bytes}
use cache_noise_visualizer.Result.{ok, done}
use cache_noise_visualizer.SysInfo.CacheInfo.{CacheInfo, cache_info_new}
use cache_noise_visualizer.Output.{Output, output_hd5_file, output_close, is_failure}
use cache_noise_visualizer.Actions.{cpu_set}
use cache_noise_visualizer.Main.Flow.{Locals}
use cache_noise_visualizer.Main.Program.{System}
use cache_noise_visualizer.Main.Modes.{at_finalize}

-- The signal handlers can be installed, the process can be bound to a CPU, and `found` is the cache
-- that the command line asks for.
pub record Willing {W D : Type 0} (system : System W D) (l : Locals) (found : CacheInfo)
    : Type 0 where
  pub has_pid : (v : W) → (system.process.getpid v == 0) ≡ false
  pub signals : (signo : ℕ) (v : W) → (system.process.signal signo v).0 ≡ true
  pub sigaction : (v : W) → (system.process.sigaction v).0 ≡ pos 0
  pub binds :
      (pid : ℕ) (set : Option ℕ) (v : W) → (system.kernel.sched_setaffinity pid set v).0 ≡ pos 0
  pub shows :
      (v : W)
      → cache_info_new system.files l.cache
          (unsigned32 l.arguments.cpu)
          (unsigned32 l.arguments.level)
          v
        ≡ ok found

module _ {W D : Type 0} (system : System W D) where
  open system use {console, process, kernel, outlet}

  abbrev pub print_all : List Bytes → W → W
  print_all [] v = v
  print_all (text ∷ texts) v = print_all texts (console.print_out text v)

  -- The world behind the installation of the signal handlers.
  abbrev pub installed : W → W
  installed v =
      (process.sigaction (process.signal 2 (process.signal 14 (process.signal 15 v).1).1).1).1

  abbrev pub bound : ℕ → ℤ → W → W
  bound pid cpu v = (kernel.sched_setaffinity pid (cpu_set (unsigned32 cpu)) v).1

  -- output_close closes a file exactly where the output says that it is one.
  abbrev pub closed : Output → W → W
  closed output v = if output.type == output_hd5_file then (outlet.close_file output.h5 v).1 else v

  pub at_finalize-closed :
      (l : Locals) (v : W) → l.buffer ≡ 0 → at_finalize system l v ≡ done 0 (closed l.output v)
  unfolding at_finalize output_close
  at_finalize-closed l v null = elim (Bool-cases (l.output.type == output_hd5_file)) [
    | inr other ↦ rw (other, null) refl
    | inl file ↦ elim (Bool-cases (is_failure (outlet.close_file l.output.h5 v).0)) [
      | inl refused ↦ rw (file, refused, null) refl
      | inr gone ↦ rw (file, gone, null) refl
    ]
  ]
