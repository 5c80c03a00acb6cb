-- ===== src/Main/Modes.antt =====
-- The modes of src/main.c, the cleanup at FINALIZE, and main.
use cache_noise_visualizer.Base.{
  ℕ, ◌/◌, ◌==◌, Bool, [], ◌∷◌, ◌++◌, Option, none, some, if◌then◌else◌,
}
use cache_noise_visualizer.Base.Int.{int_eq, unsigned32}
use cache_noise_visualizer.Base.Text.{Bytes, codes, text_eq}
use cache_noise_visualizer.Errors.{ErrorCode, error_none}
use cache_noise_visualizer.Result.{Run, done, failed, stuck, bad_access}
use cache_noise_visualizer.Result.Sys.{Sys, ◌>>=◌, pure, status}
use cache_noise_visualizer.SysInfo.Text.{show_int}
use cache_noise_visualizer.SysInfo.Access.{has_root_access, can_use_rdpmc}
use cache_noise_visualizer.Alloc.{free_aligned}
use cache_noise_visualizer.Output.{output_close}
use cache_noise_visualizer.Actions.{focus_cpu_core, run_program}
use cache_noise_visualizer.Profile.{profile}
use cache_noise_visualizer.Main.Flow.{
  Locals, Flow, next, finalize, exits, broken, Step, ◌>>◌, say, report_failure, exit_on_fail,
}
use cache_noise_visualizer.Main.Program.{
  System, is_set, less_one, with_locals, read_call, status_call, pid_stored, checked, prepare,
  bind_cpu, choose_cache, run_benchmark, create_output, allocate,
}

-- `if (value) print a text with it`
abbrev pub say_if : {W : Type 0} → Bool → Step W → Step W
say_if b step l w = if b then step l w else next l w

module _ {W D : Type 0} (system : System W D) where
  open system use {files, memory, cpu, outlet, kernel, scheduler, console, process}

  unfoldable pub announce : Step W
  announce =
      say console (codes "Start profiling ")
      >> (λ l.
          say_if (is_set l.arguments.iter)
            (say console (codes "for " ++ (show_int l.arguments.iter ++ codes " iterations "))) l)
      >> (λ l.
          say_if (is_set l.arguments.seconds)
            (say console (codes "for " ++ (show_int l.arguments.seconds ++ codes " seconds "))) l)
      >> say console (10 ∷ 10 ∷ [])

  unfoldable pub start_program : Option Bytes → Step W
  unfolding exit_on_fail
  start_program none = next
  start_program (some path) =
      say console (codes "Starting external program." ++ 10 ∷ [])
      >> checked system "Error while starting external program"
          (λ l w. pid_stored l (run_program kernel (some path) l.arguments.program_args w))
      >> (λ l.
          say console
            (codes "Started external program with PID "
              ++ (show_int l.arguments.pid ++ (b'.' ∷ 10 ∷ [])))
            l)

  unfoldable pub bind_process : Step W
  unfolding exit_on_fail
  bind_process =
      (λ l.
        say console
          (codes "Binding the given process("
            ++ (show_int l.arguments.pid
                ++ (codes ") to CPU " ++ (show_int l.arguments.cpu ++ (b'.' ∷ 10 ∷ [])))))
          l)
      >> checked system "Error while setting CPU affinity of the given process" (λ l.
        status_call
          (focus_cpu_core kernel (unsigned32 l.arguments.pid) (unsigned32 l.arguments.cpu)) l)

  -- The process of --pid is bound to the CPU, or the program of --program is started.
  unfoldable pub attach : Step W
  unfolding bind_process start_program
  attach l w =
      if is_set l.arguments.pid then bind_process l w else start_program l.arguments.program l w

  unfoldable pub set_alarm : Step W
  set_alarm l w =
      if less_one l.arguments.seconds
      then next l w
      else next l (process.alarm (unsigned32 l.arguments.seconds) w)

  unfoldable pub measure_noise : Step W
  unfolding exit_on_fail
  measure_noise = checked system "Error while profiling" (λ l w.
      with_locals (λ o. record l { output = o })
        (profile cpu outlet kernel scheduler l.cache (unsigned32 l.arguments.iter) l.buffer
          system.fuel (unsigned32 l.arguments.cpu)
          (system.stale_stack (l.cache.total_size / l.cache.line_size)) l.output w))

  unfoldable pub run_profile : Step W
  unfolding create_output announce allocate attach set_alarm measure_noise
  run_profile =
      (λ l. create_output system l.arguments.output_file l)
      >> announce
      >> allocate system
      >> attach
      >> set_alarm
      >> measure_noise

  abbrev pub end_program : Option Bytes → Step W
  end_program none l w = next l w
  end_program (some path) l w = next l (
      process.kill l.arguments.pid (
        console.print_out
          (codes "Sending SIGKILL to external process with PID "
            ++ (show_int l.arguments.pid ++ (b'.' ∷ 10 ∷ [])))
          w))

  unfoldable pub kill_program : Step W
  kill_program l w =
      if is_set l.arguments.pid then end_program l.arguments.program l w else next l w

  unfoldable pub require_root : Step W
  require_root l w =
      if has_root_access files w
      then next l w
      else exits 1
          (console.print_err (codes "ERROR this program needs root permissions" ++ 10 ∷ []) w)

  -- What follows the description of the cache, for the mode of the command line.
  unfoldable pub run_mode : Bytes → Step W
  unfolding exit_on_fail require_root run_benchmark run_profile kill_program text_eq
  run_mode mode =
      if text_eq mode (codes "info")
      then say console (codes "Do nothing ... done." ++ 10 ∷ [])
      else require_root
        >> checked system "While checking if the rdpmc instruction can be used in userspace"
            (λ l w. read_call (can_use_rdpmc files system.stale_uint w) l w)
        >> (if text_eq mode (codes "bench")
            then run_benchmark system
            else if text_eq mode (codes "profile")
            then run_profile
            else λ l w. finalize l (
                console.print_err (codes "Unknown operation mode " ++ (mode ++ (b'.' ∷ 10 ∷ [])))
                  w))
        >> kill_program
        >> say console (codes "Finished. Bye :)" ++ 10 ∷ [])

  -- The mode is set where argp_parse returns; strcmp of a null pointer is a fault.
  abbrev pub with_mode : Option Bytes → Step W
  with_mode none l w = broken bad_access
  with_mode (some mode) l w = run_mode mode l w

  -- FINALIZE: `(error_code = free_aligned(buffer, &cache))` is reported if it is not 0.
  abbrev pub freed : Run W ErrorCode → Run W ℕ
  freed (done e w) = done 0 (
      if int_eq e error_none
      then w
      else report_failure console (codes "Error while freeing buffer") e e w)
  freed (failed e w) = done 0 w
  freed (stuck x) = stuck x

  unfoldable pub at_finalize : Locals → Sys W ℕ
  unfolding report_failure
  at_finalize l = status (output_close outlet l.output) >>= λ _.
      if l.buffer == 0 then pure 0 else λ w.
      freed (status (free_aligned files memory l.buffer l.cache) w)

  -- The exit code of the program.
  abbrev pub conclude : Flow W → Run W ℕ
  conclude (next l w) = at_finalize l w
  conclude (finalize l w) = at_finalize l w
  conclude (exits n w) = done n w
  conclude (broken x) = stuck x

  -- main behind argp_parse, which has filled `l.arguments`. `l.output` and `l.cache` are what these
  -- variables happen to hold, and `buffer` is set to NULL.
  unfoldable pub main : Locals → Sys W ℕ
  unfolding prepare bind_cpu choose_cache run_mode at_finalize
  main l w = conclude (
      (prepare system
          >> bind_cpu system (process.getpid w)
          >> choose_cache system
          >> (λ l. with_mode l.arguments.mode l))
        (record l { buffer = 0 }) w)
