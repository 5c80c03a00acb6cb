-- ===== src/Actions.antt =====
-- src/sys_action.c: binding to a CPU, the cycle counter, starting a program, and signal handlers.
pub mod Argv
pub mod Enabled
pub mod Keeps
pub mod Signals
use cache_noise_visualizer.Base.{
  ℕ, zero, suc, ◌+◌, ◌-◌, ◌*◌, ◌^◌, Bool, true, false, ◌||◌, List, [], ◌∷◌, Option, none, some, ltb,
  ◌==◌, if◌then◌else◌, length, set, replicate,
}
use cache_noise_visualizer.Base.Int.{ℤ, pos, negsuc, int_eq}
use cache_noise_visualizer.Base.Words.{u32}
use cache_noise_visualizer.Base.Text.{Bytes}
use cache_noise_visualizer.Errors.{
  ErrorCode, error_none, error_set_affinity, error_fd_cycle, error_fd_cycle_close,
  error_spawn_attr_init, error_spawn_file_init, error_spawn_spawn, error_spawn_path_null,
  error_allocation,
}
use cache_noise_visualizer.Result.{
  Result, ok, fault, Run, done, failed, stuck, bad_access, out_of_fuel,
}
use cache_noise_visualizer.Result.Sys.{Sys, ◌>>=◌, ◌>>◌, pure, fail, crash, run_result, answer}

-- The ioctl requests PERF_EVENT_IOC_RESET, _ENABLE and _DISABLE.
pub data Request : Type 0 where
  ioc_reset ioc_enable ioc_disable : Request

-- The system calls, and the calls of the C library that start a program.
pub record Kernel (W : Type 0) : Type 0 where
  -- sched_setaffinity(pid, ...) with a set of this one CPU, or with the empty set
  pub sched_setaffinity : ℕ → Option ℕ → W → ℤ × W
  -- perf_event_open of the cycle counter of this process on this CPU
  pub perf_event_open : ℕ → W → ℤ × W
  pub ioctl : ℕ → Request → W → ℤ × W
  pub posix_spawnattr_init : W → ℤ × W
  pub posix_spawnattr_setflags : W → W
  pub posix_spawn_file_actions_init : W → ℤ × W
  -- the words that wordexp leaves in its array
  pub wordexp : Bytes → W → List Bytes × W
  pub wordfree : W → W
  pub calloc : ℕ → W → Option W
  pub free : W → W
  pub basename : Bytes → Bytes
  -- posix_spawnp with this path and array of arguments: the answer, and what *pid holds by then
  pub posix_spawnp : Bytes → List (Option Bytes) → W → (ℤ × ℤ) × W
  -- waitpid(-1, &status, WNOHANG)
  pub waitpid : W → ℤ × W

-- CPU_SET of a set of 1024 CPUs leaves the set alone for other numbers.
abbrev pub cpu_set : ℕ → Option ℕ
cpu_set cpu = if ltb cpu 1024 then some cpu else none

-- The int 0 as a condition.
abbrev pub is_zero : ℤ → Bool
is_zero value = int_eq value (pos 0)

abbrev pub is_positive : ℤ → Bool
is_positive (pos n) = ltb 0 n
is_positive (negsuc n) = false

-- `*fd = perf_event_open(...)`: a uint32_t
abbrev pub descriptor : ℤ → ℕ
descriptor (pos n) = u32 n
descriptor (negsuc n) = u32 (2 ^ 32 - 1 - u32 n)

abbrev pub allocated : {W : Type 0} → Option W → W → Run W (Unit {0})
allocated none w = failed error_allocation w
allocated (some v) w = done tt v

-- A store into an array.
abbrev pub put : {A : Type 0} → ℕ → A → List A → Result (List A)
put i a array = if ltb i (length array) then ok (set array i a) else fault bad_access

-- `if (call(...)) return e`
abbrev pub unless_zero : {W : Type 0} → ErrorCode → ℤ × W → Run W (Unit {0})
unless_zero e (answer, w) = if is_zero answer then done tt w else failed e w

-- `*pid`, unless posix_spawnp answers an error
abbrev pub spawned : {W : Type 0} → (ℤ × ℤ) × W → Run W ℤ
spawned ((ret, pid), w) = if is_zero ret then done pid w else failed error_spawn_spawn w

abbrev pub opened_counter : {W : Type 0} → ℕ → Sys W ℕ
opened_counter fd = if fd == 2 ^ 32 - 1 then fail error_fd_cycle else pure fd

-- signal_handler: the value of `terminated` behind it. The numbers are SIGTERM, SIGALRM and SIGINT.
unfoldable pub signal_handler : ℕ → ℕ → ℕ
signal_handler signo terminated =
    if (signo == 15) || ((signo == 14) || (signo == 2)) then 1 else terminated

-- `for (i = ...; i < p.we_wordc; i++) argv[i + 1] = p.we_wordv[i]`
unfoldable pub fill_argv :
    {W : Type 0} → ℕ → List Bytes → List (Option Bytes) → Sys W (List (Option Bytes))
fill_argv i [] argv = pure argv
fill_argv i (word ∷ words) argv = do
  next ← run_result (put (i + 1) (some word) argv)
  fill_argv (i + 1) words next

module _ {W : Type 0} (kernel : Kernel W) where
  unfoldable pub focus_cpu_core : ℕ → ℕ → Sys W (Unit {0})
  focus_cpu_core pid cpu w =
      unless_zero error_set_affinity (kernel.sched_setaffinity pid (cpu_set cpu) w)

  abbrev pub request : ErrorCode → ℕ → Request → Sys W (Unit {0})
  request e fd r w = unless_zero e (kernel.ioctl fd r w)

  unfoldable pub enable_cpu_cycle_counter : ℕ → Sys W ℕ
  enable_cpu_cycle_counter cpu = do
    opened ← (λ w. answer (kernel.perf_event_open cpu w))
    fd ← opened_counter (descriptor opened)
    request error_fd_cycle fd ioc_reset
    request error_fd_cycle fd ioc_enable
    pure fd

  unfoldable pub disable_cpu_cycle_counter : ℕ → Sys W (Unit {0})
  disable_cpu_cycle_counter fd = request error_fd_cycle_close fd ioc_disable

  -- `char *argv[] = {basename(path), NULL}`, or the words of `arguments` behind the name.
  unfoldable pub spawn : Bytes → Option Bytes → Sys W ℤ
  unfolding fill_argv
  spawn path none =
      λ w. spawned (kernel.posix_spawnp path (some (kernel.basename path) ∷ none ∷ []) w)
  spawn path (some arguments) = do
    words ← (λ w. answer (kernel.wordexp arguments w))
    let argc = length words + 1
    (λ w. allocated (kernel.calloc (8 * (argc + 1)) w) w)
    named ← run_result (put 0 (some (kernel.basename path)) (replicate (argc + 1) none))
    filled ← fill_argv 0 words named
    argv ← run_result (put argc none filled)
    result ← (λ w. answer (kernel.posix_spawnp path argv w))
    (λ w. done tt (kernel.free (kernel.wordfree w)))
    (λ w. spawned (result, w))

  -- The value is `*pid`; the environment is the one of this process.
  unfoldable pub run_program : Option Bytes → Option Bytes → Sys W ℤ
  unfolding spawn
  run_program none arguments = fail error_spawn_path_null
  run_program (some path) arguments = do
    (λ w. unless_zero error_spawn_attr_init (kernel.posix_spawnattr_init w))
    (λ w. done tt (kernel.posix_spawnattr_setflags w))
    (λ w. unless_zero error_spawn_file_init (kernel.posix_spawn_file_actions_init w))
    spawn path arguments

  -- `while (pid > 0) pid = waitpid(-1, &status, WNOHANG)` on fuel
  unfoldable pub reap : ℕ → ℤ → Sys W (Unit {0})
  reap zero pid = crash out_of_fuel
  reap (suc fuel) pid = do
    let rest = (λ w. answer (kernel.waitpid w)) >>= λ next. reap fuel next
    if is_positive pid then rest else pure tt

  -- extern_process_signal_handler: the value of `terminated` behind it.
  unfoldable pub extern_process_signal_handler : ℕ → Sys W ℕ
  unfolding reap
  extern_process_signal_handler fuel = do reap fuel (pos 1); pure 1
