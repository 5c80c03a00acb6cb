-- ===== src/Main/Program.antt =====
-- The parts of the main function of src/main.c, up to the allocation of the buffer.
use cache_noise_visualizer.Base.{
  ℕ, ◌==◌, Bool, true, false, not, List, [], ◌∷◌, ◌++◌, Option, none, some, String, ltb,
  if◌then◌else◌,
}
use cache_noise_visualizer.Base.Int.{ℤ, pos, negsuc, int_eq, signed32, unsigned32}
use cache_noise_visualizer.Base.Text.{Bytes, codes}
use cache_noise_visualizer.Base.Text.Decimal.{decimal}
use cache_noise_visualizer.Errors.{ErrorCode, error_none}
use cache_noise_visualizer.Result.{Result, ok, err, fault, Run, done, failed, stuck}
use cache_noise_visualizer.Result.Sys.{Sys, ◌>>=◌, pure, status}
use cache_noise_visualizer.SysInfo.Files.{Files}
use cache_noise_visualizer.SysInfo.Text.{show_int}
use cache_noise_visualizer.SysInfo.CacheInfo.{cache_info_new}
use cache_noise_visualizer.SysInfo.CacheInfo.Left.{new_left}
use cache_noise_visualizer.SysInfo.CacheInfo.Print.{cache_info_print}
use cache_noise_visualizer.SysInfo.Access.{get_current_cpu_core}
use cache_noise_visualizer.Memory.{Memory}
use cache_noise_visualizer.Alloc.{alloc_aligned}
use cache_noise_visualizer.Cpu.{Cpu}
use cache_noise_visualizer.Console.{Console}
use cache_noise_visualizer.Output.{Outlet, outputc_stdout, outputc_hd5_file}
use cache_noise_visualizer.Actions.{Kernel, focus_cpu_core}
use cache_noise_visualizer.Profile.{Scheduler}
use cache_noise_visualizer.Statistics.{Double}
use cache_noise_visualizer.Benchmark.{benchmark}
use cache_noise_visualizer.Main.Flow.{Locals, next, exits, Step, Call, ◌>>◌, say, exit_on_fail}

-- The calls that only main makes of the system.
pub record Process (W : Type 0) : Type 0 where
  pub getpid : W → ℕ
  -- signal(signo, signal_handler); false is the answer SIG_ERR
  pub signal : ℕ → W → Bool × W
  -- sigaction(SIGCHLD, ...) with extern_process_signal_handler
  pub sigaction : W → ℤ × W
  pub alarm : ℕ → W → W
  -- kill(pid, SIGKILL)
  pub kill : ℤ → W → W

-- All that the program is given: the system, the arithmetic of double, the order in which the
-- compiler evaluates the arguments of a call, and what memory holds before it is written.
pub record System (W D : Type 0) : Type 0 where
  pub files : Files W
  pub memory : Memory W
  pub cpu : Cpu W
  pub outlet : Outlet W
  pub kernel : Kernel W
  pub scheduler : Scheduler W
  pub console : Console W
  pub process : Process W
  pub double : Double D
  pub qsort : (ℕ → ℕ → ℤ) → List ℕ → List ℕ
  pub left_first : Bool
  -- the variables `value` of can_use_rdpmc and `max_tries` of alloc_aligned
  pub stale_uint : ℕ
  -- the arrays `result` of profile, by their length, and of benchmark
  pub stale_stack : ℕ → List ℕ
  pub stale_heap : ℕ → List ℕ
  -- the address of the array `buffer` of benchmark, and the FILE pointer stdout
  pub stack_buffer : ℕ
  pub stdout : ℕ
  -- the fuel of the loop of profile
  pub fuel : ℕ

abbrev pub is_nonneg : ℤ → Bool
is_nonneg (pos n) = true
is_nonneg (negsuc n) = false

-- `value < 1` and `value > 0` of an int
abbrev pub less_one : ℤ → Bool
less_one (pos n) = ltb n 1
less_one (negsuc n) = true

-- An int as a condition.
abbrev pub is_set : ℤ → Bool
is_set value = not (int_eq value (pos 0))

abbrev pub with_locals :
    {W A : Type 0} → (A → Locals) → Run W (ErrorCode × A) → Run W (ErrorCode × Locals)
with_locals store (done (e, a) w) = done (e, store a) w
with_locals store (failed e w) = failed e w
with_locals store (stuck x) = stuck x

-- The code of a call that reads the system, with the variables that it leaves.
abbrev pub read_call : {W A : Type 0} → Result A → Locals → W → Run W (ErrorCode × Locals)
read_call (ok a) l w = done (error_none, l) w
read_call (err e) l w = done (e, l) w
read_call (fault x) l w = stuck x

abbrev pub status_call : {W : Type 0} → Sys W (Unit {0}) → Call W
status_call m l = status m >>= λ e. pure (e, l)

-- run_program stores the process id where it succeeds.
abbrev pub pid_stored : {W : Type 0} → Locals → Run W ℤ → Run W (ErrorCode × Locals)
pid_stored l (done pid w) =
    done (error_none, record l { arguments = record l.arguments { pid = pid } }) w
pid_stored l (failed e w) = failed e w
pid_stored l (stuck x) = stuck x

-- `arguments.cpu = core`, after get_current_cpu_core
abbrev pub core_stored : {W : Type 0} → Result ℕ → Locals → W → Run W (ErrorCode × Locals)
core_stored (ok core) l w =
    done (error_none, record l { arguments = record l.arguments { cpu = signed32 core } }) w
core_stored (err e) l w = done (e, l) w
core_stored (fault x) l w = stuck x

abbrev pub dashes : Bytes
dashes = codes " --------------------------------------------------------------" ++ 10 ∷ []

module _ {W D : Type 0} (system : System W D) where
  open system use {files, memory, cpu, outlet, kernel, scheduler, console, process}

  abbrev pub checked : String → Call W → Step W
  checked = exit_on_fail console system.left_first

  -- `if (signal(signo, signal_handler) == SIG_ERR) { printf(...); exit(EXIT_FAILURE); }`
  unfoldable pub install : ℕ → String → Step W
  install signo text l w =
      let r = process.signal signo w in
      if r.0 then next l r.1 else exits 1 (console.print_out (codes text) r.1)

  unfoldable pub install_sigchld : Step W
  install_sigchld l w =
      let r = process.sigaction w in
      if int_eq r.0 (pos 0)
      then next l r.1
      else exits 1 (console.print_out (codes "Error while setting signal handler SIGCHLD.") r.1)

  unfoldable pub prepare : Step W
  unfolding install install_sigchld
  prepare =
      (λ l w.
        if process.getpid w == 0
        then exits 1 (console.print_out (codes "Could not get the PID of this process.") w)
        else next l w)
      >> install 15 "Error while setting signal handler SIGTERM."
      >> install 14 "Error while setting signal handler SIGALRM."
      >> install 2 "Error while setting signal handler SIGINT."
      >> install_sigchld

  unfoldable pub bind_given : ℕ → Step W
  unfolding exit_on_fail
  bind_given this_pid =
      (λ l.
        say console
          (codes "Binding this process("
            ++ (decimal this_pid
                ++ (codes ") to CPU " ++ (show_int l.arguments.cpu ++ (b'.' ∷ 10 ∷ [])))))
          l)
      >> checked "Error while setting CPU affinity of this process"
          (λ l. status_call (focus_cpu_core kernel this_pid (unsigned32 l.arguments.cpu)) l)

  unfoldable pub ask_core : ℕ → Step W
  unfolding exit_on_fail
  ask_core this_pid =
      say console (
        codes "WARNING: you have to bind this process("
        ++ (decimal this_pid ++ (codes ") to a fixed CPU by yourself." ++ 10 ∷ [])))
      >> checked "Error while retrieving current CPU core"
          (λ l w. core_stored (get_current_cpu_core files w) l w)

  -- The process is bound to the CPU of the arguments, or asks for the one that it is on.
  unfoldable pub bind_cpu : ℕ → Step W
  unfolding bind_given ask_core
  bind_cpu this_pid l w =
      if is_nonneg l.arguments.cpu then bind_given this_pid l w else ask_core this_pid l w

  unfoldable pub choose_cache : Step W
  unfolding exit_on_fail
  choose_cache =
      say console dashes
      >> (λ l.
          say console
            (codes "Using L"
              ++ (show_int l.arguments.level
                  ++ (codes " cache on CPU " ++ (show_int l.arguments.cpu ++ 10 ∷ []))))
            l)
      >> checked "Error while initializing the cache info" (λ l w.
        let cpu_id = unsigned32 l.arguments.cpu in
        let level = unsigned32 l.arguments.level in
        read_call (cache_info_new files l.cache cpu_id level w)
          (record l { cache = new_left files l.cache cpu_id level w }) w)
      >> (λ l. say console (cache_info_print (some l.cache)).1 l)
      >> say console dashes

  unfoldable pub run_benchmark : Step W
  unfolding exit_on_fail
  run_benchmark =
      (λ l w.
        next
          (if less_one l.arguments.iter
            then record l { arguments = record l.arguments { iter = pos 1000000 } }
            else l)
          w)
      >> (λ l.
          say console
            (codes "Starting benchmark with "
              ++ (show_int l.arguments.iter ++ (codes " iterations ..." ++ 10 ∷ [])))
            l)
      >> checked "Error while benchmarking" (λ l.
        let iterations = unsigned32 l.arguments.iter in
        status_call
          (benchmark cpu kernel memory console system.double system.qsort iterations
            system.stack_buffer (system.stale_heap iterations))
          l)

  unfoldable pub create_output : Option Bytes → Step W
  unfolding exit_on_fail
  create_output none = checked "Error while creating output for stdout." (λ l w.
      with_locals (λ o. record l { output = o }) (outputc_stdout outlet l.output system.stdout w))
  create_output (some file) =
      checked "Error while creating output file for HDF5." (λ l w.
        with_locals (λ o. record l { output = o }) (outputc_hd5_file outlet l.output file w))

  unfoldable pub allocate : Step W
  unfolding exit_on_fail
  allocate = checked "Failed to allocate an aligned buffer." (λ l w.
      with_locals (λ b. record l { buffer = b })
        (alloc_aligned files memory system.stale_uint l.buffer l.cache w))
