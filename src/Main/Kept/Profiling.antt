-- ===== src/Main/Kept/Profiling.antt =====
-- The parts of the mode profile in main, but the allocation, and the end of the program that it runs.
use cache_noise_visualizer.Base.{ℕ, ◌/◌, Bool, some, Option, none, String, Bool-cases, inl, inr}
use cache_noise_visualizer.Base.Int.{unsigned32}
use cache_noise_visualizer.Base.Text.{Bytes}
use cache_noise_visualizer.Output.Keeps.{outputc_stdout-Keeps, outputc_hd5_file-Keeps}
use cache_noise_visualizer.Actions.Keeps.{run_program-Keeps}
use cache_noise_visualizer.Profile.Keeps.{profile-Keeps}
use cache_noise_visualizer.Actions.{run_program}
use cache_noise_visualizer.Profile.{profile}
use cache_noise_visualizer.Output.{outputc_stdout, outputc_hd5_file}
use cache_noise_visualizer.Main.Flow.{Locals, next, Step, Call, ◌>>◌, say}
use cache_noise_visualizer.Main.Flows.{Flows, Calls, Flows-then, Flows-test, Flows-read, Flows-next}
use cache_noise_visualizer.Main.Program.{
  System, less_one, is_set, checked, create_output, with_locals, pid_stored,
}
use cache_noise_visualizer.Main.Modes.{
  say_if, announce, start_program, bind_process, attach, set_alarm, measure_noise, end_program,
  kill_program,
}
use cache_noise_visualizer.Main.Kept.{Frame, Kept, Kept-world, with_locals-Calls, pid_stored-Called}
use cache_noise_visualizer.Main.Kept.Steps.{say-Keeps, say_with-Keeps, checked-Keeps, focus-Calls}

module _ {W D : Type 0} (system : System W D) (M : W → Type 0) (frame : Frame system M) (b : ℕ)
    (X : W → Type 0) where
  open system use {files, console, process, outlet, kernel, scheduler, memory, cpu}

  abbrev P : Locals → W → Type 0
  P = Kept M b

  abbrev FlowKeeps : Step W → Type 0
  FlowKeeps m = Flows P P P X m

  -- A text of the variables.
  text-Keeps : (text : Locals → Bytes) → FlowKeeps (λ l. say console (text l) l)
  text-Keeps = say_with-Keeps system M frame b X

  FlowKeeps-both : (m k : Step W) → FlowKeeps m → FlowKeeps k → FlowKeeps (m >> k)
  FlowKeeps-both m k s t = Flows-then m k s t

  literal-Keeps : (text : Bytes) → FlowKeeps (say console text)
  literal-Keeps = say-Keeps system M frame b X

  call-Keeps :
      (message : String) (call : Call W) → Calls P call → FlowKeeps (checked system message call)
  call-Keeps = checked-Keeps system M frame b X

  ruleset step_rules = (FlowKeeps-both, literal-Keeps, text-Keeps, call-Keeps)

  stdout-Calls : Calls P (λ l w.
      with_locals (λ o. record l { output = o }) (outputc_stdout outlet l.output system.stdout w))
  stdout-Calls =
      with_locals-Calls M b (λ l o. record l { output = o })
        (λ l. outputc_stdout outlet l.output system.stdout)
        (λ l o v h. record { world = h.world; buffer = h.buffer; small = h.small })
        (λ l. outputc_stdout-Keeps outlet M frame.outlet l.output system.stdout)

  hd5_file-Calls :
      (file : Bytes)
      → Calls P (λ l w.
        with_locals (λ o. record l { output = o }) (outputc_hd5_file outlet l.output file w))
  hd5_file-Calls file =
      with_locals-Calls M b (λ l o. record l { output = o })
        (λ l. outputc_hd5_file outlet l.output file)
        (λ l o v h. record { world = h.world; buffer = h.buffer; small = h.small })
        (λ l. outputc_hd5_file-Keeps outlet M frame.outlet l.output file)

  pub create_output-Keeps : (file : Option Bytes) → FlowKeeps (create_output system file)
  unfolding create_output
  create_output-Keeps none = search (step_rules, stdout-Calls)
  create_output-Keeps (some file) = search (step_rules, hd5_file-Calls)

  if_text-Keeps :
      (b : Locals → Bool) (text : Locals → Bytes)
      → FlowKeeps (λ l. say_if (b l) (say console (text l)) l)
  if_text-Keeps b text =
      Flows-test b (λ l. say console (text l) l) next (text-Keeps text) Flows-next

  pub announce-Keeps : FlowKeeps (announce system)
  unfolding announce
  announce-Keeps = search (step_rules, if_text-Keeps) depth 12

  pid-Calls :
      (path : Bytes)
      → Calls P (λ l w. pid_stored l (run_program kernel (some path) l.arguments.program_args w))
  pid-Calls path = record {
    at = λ l w h.
        pid_stored-Called M b l _ (λ v. Kept-world M b l w v h)
          ((run_program-Keeps kernel M frame.kernel (some path) l.arguments.program_args).at w
            h.world);
  }

  start_program-Keeps : (path : Option Bytes) → FlowKeeps (start_program system path)
  unfolding start_program
  start_program-Keeps none = Flows-next
  start_program-Keeps (some path) = search (step_rules, pid-Calls)

  bind_process-Keeps : FlowKeeps (bind_process system)
  unfolding bind_process
  bind_process-Keeps =
      search (step_rules, focus-Calls system M frame b X (λ l. unsigned32 l.arguments.pid))

  pub attach-Keeps : FlowKeeps (attach system)
  unfolding attach
  attach-Keeps =
      Flows-test (λ l. is_set l.arguments.pid) (bind_process system)
        (λ l. start_program system l.arguments.program l) bind_process-Keeps
        (Flows-read (λ l. start_program system l.arguments.program)
          (λ l. start_program-Keeps l.arguments.program))

  pub set_alarm-Keeps : FlowKeeps (set_alarm system)
  unfolding set_alarm
  set_alarm-Keeps = record {
    at = λ l w h. elim (Bool-cases (less_one l.arguments.seconds)) [
      | inl unset ↦ rw unset h
      | inr given ↦
          rw given (Kept-world M b l w _ h (frame.alarm (unsigned32 l.arguments.seconds) w h.world))
    ];
  }

  profile-Calls : Calls P (λ l w.
      with_locals
        (λ o. record l { output = o })
        (profile cpu outlet kernel scheduler l.cache
          (unsigned32 l.arguments.iter)
          l.buffer
          system.fuel
          (unsigned32 l.arguments.cpu)
          (system.stale_stack (l.cache.total_size / l.cache.line_size))
          l.output
          w))
  profile-Calls =
      with_locals-Calls M b (λ l o. record l { output = o })
        (λ l.
          profile cpu outlet kernel scheduler l.cache (unsigned32 l.arguments.iter) l.buffer
            system.fuel (unsigned32 l.arguments.cpu)
            (system.stale_stack (l.cache.total_size / l.cache.line_size)) l.output)
        (λ l o v h. record { world = h.world; buffer = h.buffer; small = h.small })
        λ l.
          profile-Keeps cpu outlet scheduler M frame.cpu frame.outlet frame.sched_yield l.cache
            kernel frame.kernel (unsigned32 l.arguments.iter) l.buffer system.fuel
            (unsigned32 l.arguments.cpu)
            (system.stale_stack (l.cache.total_size / l.cache.line_size)) l.output

  pub measure_noise-Keeps : FlowKeeps (measure_noise system)
  unfolding measure_noise
  measure_noise-Keeps = search (step_rules, profile-Calls)

  end_program-Keeps : (path : Option Bytes) → FlowKeeps (end_program system path)
  end_program-Keeps none = Flows-next
  end_program-Keeps (some path) = record {
    at = λ l w h. Kept-world M b l w _ h (frame.kill _ _ (frame.print_out _ w h.world));
  }

  pub kill_program-Keeps : FlowKeeps (kill_program system)
  unfolding kill_program
  kill_program-Keeps =
      Flows-test (λ l. is_set l.arguments.pid) (λ l. end_program system l.arguments.program l) next
        (Flows-read (λ l. end_program system l.arguments.program)
          (λ l. end_program-Keeps l.arguments.program))
        Flows-next
