-- ===== src/Actions/Keeps.antt =====
-- The predicates of the world that the functions of src/sys_action.c keep.
use cache_noise_visualizer.Base.{
  ℕ, ◌+◌, ◌≡◌, List, [], ◌∷◌, Option, none, some, Bool-cases, Option-cases, inl, inr,
}
use cache_noise_visualizer.Base.Int.{ℤ}
use cache_noise_visualizer.Base.Text.{Bytes}
use cache_noise_visualizer.Errors.{ErrorCode}
use cache_noise_visualizer.Result.{done}
use cache_noise_visualizer.Result.Sys.{answer}
use cache_noise_visualizer.Result.Keeps.{Keeps, Over, Keeps-answer, Keeps-done, keeps_rules}
use cache_noise_visualizer.Actions.{
  Kernel, Request, is_zero, unless_zero, spawned, allocated, opened_counter, request, fill_argv,
  focus_cpu_core, enable_cpu_cycle_counter, disable_cpu_cycle_counter, spawn, run_program,
}

pub record KernelKeeps {W : Type 0} (kernel : Kernel W) (P : W → Type 0) : Type 0 where
  pub sched_setaffinity :
      (pid : ℕ) (set : Option ℕ) (w : W) → P w → P (kernel.sched_setaffinity pid set w).1
  pub perf_event_open : (cpu : ℕ) (w : W) → P w → P (kernel.perf_event_open cpu w).1
  pub ioctl : (fd : ℕ) (r : Request) (w : W) → P w → P (kernel.ioctl fd r w).1
  pub posix_spawnattr_init : (w : W) → P w → P (kernel.posix_spawnattr_init w).1
  pub posix_spawnattr_setflags : (w : W) → P w → P (kernel.posix_spawnattr_setflags w)
  pub posix_spawn_file_actions_init : (w : W) → P w → P (kernel.posix_spawn_file_actions_init w).1
  pub wordexp : (text : Bytes) (w : W) → P w → P (kernel.wordexp text w).1
  pub wordfree : (w : W) → P w → P (kernel.wordfree w)
  pub calloc : (n : ℕ) (w v : W) → kernel.calloc n w ≡ some v → P w → P v
  pub free : (w : W) → P w → P (kernel.free w)
  pub posix_spawnp :
      (path : Bytes) (argv : List (Option Bytes)) (w : W)
      → P w
      → P (kernel.posix_spawnp path argv w).1

module _ {W : Type 0} (P : W → Type 0) where
  Over-unless_zero : (e : ErrorCode) (r : ℤ × W) → P r.1 → Over P (unless_zero e r)
  Over-unless_zero e (value, w) h = elim (Bool-cases (is_zero value)) [
    | inl success ↦ rw success h
    | inr failure ↦ rw failure h
  ]

  Over-spawned : (r : (ℤ × ℤ) × W) → P r.1 → Over P (spawned r)
  Over-spawned ((ret, pid), w) h = elim (Bool-cases (is_zero ret)) [
    | inl success ↦ rw success h
    | inr failure ↦ rw failure h
  ]

  spawned-Keeps : (r : ℤ × ℤ) → Keeps P (λ w. spawned (r, w))
  spawned-Keeps r = record { at = λ w h. Over-spawned (r, w) h }

module _ {W : Type 0} (kernel : Kernel W) (P : W → Type 0) (keeps : KernelKeeps kernel P) where
  sched_setaffinity-Keeps :
      (e : ErrorCode) (pid : ℕ) (set : Option ℕ)
      → Keeps P (λ w. unless_zero e (kernel.sched_setaffinity pid set w))
  sched_setaffinity-Keeps e pid set = record {
    at = λ w h.
        Over-unless_zero P e (kernel.sched_setaffinity pid set w)
          (keeps.sched_setaffinity pid set w h);
  }

  perf_event_open-Keeps : (cpu : ℕ) → Keeps P (λ w. answer (kernel.perf_event_open cpu w))
  perf_event_open-Keeps cpu = Keeps-answer _ (keeps.perf_event_open cpu)

  opened_counter-Keeps : (fd : ℕ) → Keeps P (opened_counter fd)
  opened_counter-Keeps fd = search keeps_rules

  request-Keeps : (e : ErrorCode) (fd : ℕ) (r : Request) → Keeps P (request kernel e fd r)
  request-Keeps e fd r = record {
    at = λ w h. Over-unless_zero P e (kernel.ioctl fd r w) (keeps.ioctl fd r w h);
  }

  attr_init-Keeps : (e : ErrorCode) → Keeps P (λ w. unless_zero e (kernel.posix_spawnattr_init w))
  attr_init-Keeps e = record {
    at = λ w h.
        Over-unless_zero P e (kernel.posix_spawnattr_init w) (keeps.posix_spawnattr_init w h);
  }

  setflags-Keeps : Keeps P (λ w. done tt (kernel.posix_spawnattr_setflags w))
  setflags-Keeps = Keeps-done _ keeps.posix_spawnattr_setflags

  file_init-Keeps :
      (e : ErrorCode) → Keeps P (λ w. unless_zero e (kernel.posix_spawn_file_actions_init w))
  file_init-Keeps e = record {
    at = λ w h.
        Over-unless_zero P e (kernel.posix_spawn_file_actions_init w)
          (keeps.posix_spawn_file_actions_init w h);
  }

  wordexp-Keeps : (text : Bytes) → Keeps P (λ w. answer (kernel.wordexp text w))
  wordexp-Keeps text = Keeps-answer _ (keeps.wordexp text)

  calloc-Keeps : (n : ℕ) → Keeps P (λ w. allocated (kernel.calloc n w) w)
  calloc-Keeps n = record {
    at = λ w h. elim (Option-cases (kernel.calloc n w)) [
      | inl refused ↦ rw refused h
      | inr (v, given) ↦ rw given (keeps.calloc n w v given h)
    ];
  }

  freed-Keeps : Keeps P (λ w. done tt (kernel.free (kernel.wordfree w)))
  freed-Keeps = Keeps-done _ (λ w h. keeps.free _ (keeps.wordfree w h))

  posix_spawnp-Keeps :
      (path : Bytes) (argv : List (Option Bytes))
      → Keeps P (λ w. answer (kernel.posix_spawnp path argv w))
  posix_spawnp-Keeps path argv = Keeps-answer _ (keeps.posix_spawnp path argv)

  spawned_alone-Keeps :
      (path : Bytes) (argv : List (Option Bytes))
      → Keeps P (λ w. spawned (kernel.posix_spawnp path argv w))
  spawned_alone-Keeps path argv = record {
    at = λ w h. Over-spawned P (kernel.posix_spawnp path argv w) (keeps.posix_spawnp path argv w h);
  }

  ruleset kernel_rules = (
    keeps_rules, sched_setaffinity-Keeps, perf_event_open-Keeps, opened_counter-Keeps,
    request-Keeps, attr_init-Keeps, setflags-Keeps, file_init-Keeps, wordexp-Keeps, calloc-Keeps,
    freed-Keeps, posix_spawnp-Keeps, spawned_alone-Keeps, spawned-Keeps,
  )

  pub focus_cpu_core-Keeps : (pid cpu : ℕ) → Keeps P (focus_cpu_core kernel pid cpu)
  unfolding focus_cpu_core
  focus_cpu_core-Keeps pid cpu = search kernel_rules

  pub enable-Keeps : (cpu : ℕ) → Keeps P (enable_cpu_cycle_counter kernel cpu)
  unfolding enable_cpu_cycle_counter
  enable-Keeps cpu = search kernel_rules

  pub disable-Keeps : (fd : ℕ) → Keeps P (disable_cpu_cycle_counter kernel fd)
  unfolding disable_cpu_cycle_counter
  disable-Keeps fd = search kernel_rules

  fill_argv-Keeps :
      (i : ℕ) (words : List Bytes) (argv : List (Option Bytes)) → Keeps P (fill_argv i words argv)
  unfolding fill_argv
  fill_argv-Keeps i [] argv = search kernel_rules
  fill_argv-Keeps i (word ∷ words) argv = search (kernel_rules, fill_argv-Keeps (i + 1) words)

  spawn-Keeps : (path : Bytes) (arguments : Option Bytes) → Keeps P (spawn kernel path arguments)
  unfolding spawn
  spawn-Keeps path none = search kernel_rules
  spawn-Keeps path (some arguments) = search (kernel_rules, fill_argv-Keeps) depth 15

  pub run_program-Keeps :
      (path arguments : Option Bytes) → Keeps P (run_program kernel path arguments)
  unfolding run_program
  run_program-Keeps none arguments = search kernel_rules
  run_program-Keeps (some path) arguments = search (kernel_rules, spawn-Keeps)
