-- ===== src/Main/Kept.antt =====
-- What every part of main but the allocation keeps: the buffer, a bound on the size of the cache, and
-- each predicate of the world that the calls of the system keep.
pub mod Before
pub mod Profiling
pub mod Steps
use cache_noise_visualizer.Base.{
  ℕ, ◌+◌, ◌^◌, ◌<◌, ◌≡◌, ◌==◌, Bool, true, false, some, Option, none, if◌then◌else◌, List,
}
use cache_noise_visualizer.Base.Int.{ℤ, pos}
use cache_noise_visualizer.Base.Text.{Bytes}
use cache_noise_visualizer.Errors.{ErrorCode, error_none}
use cache_noise_visualizer.Result.{Result, ok, err, fault, Run, done, failed, stuck}
use cache_noise_visualizer.Result.Sys.{Sys, code_of, and_then, pure, status}
use cache_noise_visualizer.Result.Keeps.{Keeps, Over}
use cache_noise_visualizer.Sampling.Keeps.{CpuKeeps}
use cache_noise_visualizer.Output.Keeps.{OutletKeeps}
use cache_noise_visualizer.Actions.Keeps.{KernelKeeps}
use cache_noise_visualizer.Main.Flow.{Locals, Step, Call, say}
use cache_noise_visualizer.Main.Flows.{Flows, Calls, Called}
use cache_noise_visualizer.Main.Program.{
  System, Process, read_call, status_call, with_locals, pid_stored, core_stored,
}

-- The calls of the system, but those of mmap, munmap and stores, keep `M`.
pub record Frame {W D : Type 0} (system : System W D) (M : W → Type 0) : Type 0 where
  pub cpu : CpuKeeps system.cpu M
  pub outlet : OutletKeeps system.outlet M
  pub kernel : KernelKeeps system.kernel M
  pub sched_yield : (w : W) → M w → M (system.scheduler.sched_yield w)
  pub malloc : (n : ℕ) (w v : W) → system.memory.malloc n w ≡ some v → M w → M v
  pub free : (w : W) → M w → M (system.memory.free w)
  pub print_out : (text : Bytes) (w : W) → M w → M (system.console.print_out text w)
  pub print_err : (text : Bytes) (w : W) → M w → M (system.console.print_err text w)
  pub signal : (signo : ℕ) (w : W) → M w → M (system.process.signal signo w).1
  pub sigaction : (w : W) → M w → M (system.process.sigaction w).1
  pub alarm : (seconds : ℕ) (w : W) → M w → M (system.process.alarm seconds w)
  pub kill : (pid : ℤ) (w : W) → M w → M (system.process.kill pid w)

module _ {W : Type 0} (M : W → Type 0) (b : ℕ) where
  pub record Kept (l : Locals) (w : W) : Type 0 where
    pub world : M w
    pub buffer : l.buffer ≡ b
    pub small : l.cache.total_size < 2 ^ 32

  pub Kept-world : (l : Locals) (w v : W) → Kept l w → M v → Kept l v
  Kept-world l w v h m = record { world = m; buffer = h.buffer; small = h.small }

  Called-status :
      (l : Locals) (r : Run W (Unit {0}))
      → ((v : W) → M v → Kept l v)
      → Over M r
      → Called Kept l (and_then (code_of r) λ e. pure (e, l))
  Called-status l (done a v) k h = k v h
  Called-status l (failed e v) k h = k v h
  Called-status l (stuck x) k h = tt

  -- A call whose code alone is used.
  pub status_call-Calls :
      (m : Locals → Sys W (Unit {0}))
      → ((l : Locals) → Keeps M (m l))
      → Calls Kept (λ l. status_call (m l) l)
  status_call-Calls m k = record {
    at = λ l w h. Called-status l (m l w) (λ v. Kept-world l w v h) ((k l).at w h.world);
  }

  Called-with_locals :
      {A : Type 0} (l : Locals) (store : A → Locals) (r : Run W (ErrorCode × A))
      → ((v : W) → M v → Kept l v)
      → ((a : A) (v : W) → M v → Kept (store a) v)
      → Over M r
      → Called Kept l (with_locals store r)
  Called-with_locals l store (done (e, a) v) k s h = s a v h
  Called-with_locals l store (failed e v) k s h = k v h
  Called-with_locals l store (stuck x) k s h = tt

  -- A call that stores the output.
  pub with_locals-Calls :
      {A : Type 0} (store : Locals → A → Locals) (m : Locals → Sys W (ErrorCode × A))
      → ((l : Locals) (a : A) (v : W) → Kept l v → Kept (store l a) v)
      → ((l : Locals) → Keeps M (m l))
      → Calls Kept (λ l w. with_locals (store l) (m l w))
  with_locals-Calls store m s k = record {
    at = λ l w h.
        Called-with_locals l (store l) (m l w) (λ v. Kept-world l w v h)
          (λ a v i. s l a v (Kept-world l w v h i)) ((k l).at w h.world);
  }

  pub read_call-Called :
      {A : Type 0} (l l' : Locals) (r : Result A) (w : W)
      → Kept l' w
      → Called Kept l (read_call r l' w)
  read_call-Called l l' (ok a) w h = h
  read_call-Called l l' (err e) w h = h
  read_call-Called l l' (fault x) w h = tt

  pub pid_stored-Called :
      (l : Locals) (r : Run W ℤ)
      → ((v : W) → M v → Kept l v)
      → Over M r
      → Called Kept l (pid_stored l r)
  pid_stored-Called l (done pid v) k h =
      let i = k v h in record { world = h; buffer = i.buffer; small = i.small }
  pid_stored-Called l (failed e v) k h = k v h
  pid_stored-Called l (stuck x) k h = tt

  pub core_stored-Called :
      (l : Locals) (r : Result ℕ) (w : W) → Kept l w → Called Kept l (core_stored r l w)
  core_stored-Called l (ok core) w h = record {
    world = h.world;
    buffer = h.buffer;
    small = h.small;
  }
  core_stored-Called l (err e) w h = h
  core_stored-Called l (fault x) w h = tt
