-- ===== src/Main/Kept/Before.antt =====
-- The parts of main before the modes, and the mode bench.
use cache_noise_visualizer.Base.{ℕ, ◌==◌, if◌then◌else◌, String, Bool-cases, inl, inr}
use cache_noise_visualizer.Base.Int.{pos, int_eq, unsigned32}
use cache_noise_visualizer.Base.Text.{Bytes, codes}
use cache_noise_visualizer.SysInfo.Access.{has_root_access, get_current_cpu_core, can_use_rdpmc}
use cache_noise_visualizer.SysInfo.CacheInfo.{cache_info_new}
use cache_noise_visualizer.SysInfo.CacheInfo.Left.{new_left}
use cache_noise_visualizer.SysInfo.CacheInfo.Left.Small.{Small, new_left-Small}
use cache_noise_visualizer.Benchmark.{benchmark}
use cache_noise_visualizer.Benchmark.Keeps.{benchmark-Keeps}
use cache_noise_visualizer.Main.Flow.{Locals, next, exits, Step, Call, ◌>>◌, say}
use cache_noise_visualizer.Main.Flows.{Flows, Calls, Flows-then, Flows-test}
use cache_noise_visualizer.Main.Program.{
  System, is_nonneg, less_one, checked, install, install_sigchld, prepare, bind_given, ask_core,
  bind_cpu, choose_cache, run_benchmark, read_call, status_call, core_stored,
}
use cache_noise_visualizer.Main.Modes.{require_root}
use cache_noise_visualizer.Main.Kept.{
  Frame, Kept, Kept-world, status_call-Calls, read_call-Called, core_stored-Called,
}
use cache_noise_visualizer.Main.Kept.Steps.{say-Keeps, say_with-Keeps, checked-Keeps, focus-Calls}

module _ {W D : Type 0} (system : System W D) (M : W → Type 0) (frame : Frame system M) (b : ℕ)
    (X : W → Type 0) where
  open system use {files, console, process, outlet, kernel, scheduler, memory, cpu}

  abbrev P : Locals → W → Type 0
  P = Kept M b

  abbrev FlowKeeps : Step W → Type 0
  FlowKeeps m = Flows P P P X m

  -- A text of the variables.
  text-Keeps : (text : Locals → Bytes) → FlowKeeps (λ l. say console (text l) l)
  text-Keeps = say_with-Keeps system M frame b X

  FlowKeeps-both : (m k : Step W) → FlowKeeps m → FlowKeeps k → FlowKeeps (m >> k)
  FlowKeeps-both m k s t = Flows-then m k s t

  literal-Keeps : (text : Bytes) → FlowKeeps (say console text)
  literal-Keeps = say-Keeps system M frame b X

  call-Keeps :
      (message : String) (call : Call W) → Calls P call → FlowKeeps (checked system message call)
  call-Keeps = checked-Keeps system M frame b X

  ruleset step_rules = (FlowKeeps-both, literal-Keeps, text-Keeps, call-Keeps)

  core-Calls : Calls P (λ l w. core_stored (get_current_cpu_core files w) l w)
  core-Calls = record { at = λ l w h. core_stored-Called M b l (get_current_cpu_core files w) w h }

  -- The parts of main from which the program can exit.
  module _ (leave : (w : W) → M w → X w) where
    install-Keeps : (signo : ℕ) (text : String) → FlowKeeps (install system signo text)
    unfolding install
    install-Keeps signo text = record {
      at = λ l w h.
          let kept = frame.signal signo w h.world in
          elim (Bool-cases (process.signal signo w).0) [
            | inl set ↦ rw set (Kept-world M b l w _ h kept)
            | inr refused ↦ rw refused (leave _ (frame.print_out (codes text) _ kept))
          ];
    }

    install_sigchld-Keeps : FlowKeeps (install_sigchld system)
    unfolding install_sigchld
    install_sigchld-Keeps = record {
      at = λ l w h.
          let kept = frame.sigaction w h.world in
          elim (Bool-cases (int_eq (process.sigaction w).0 (pos 0))) [
            | inl set ↦ rw set (Kept-world M b l w _ h kept)
            | inr refused ↦ rw refused (leave _ (frame.print_out _ _ kept))
          ];
    }

    pub require_root-Keeps : FlowKeeps (require_root system)
    unfolding require_root
    require_root-Keeps = record {
      at = λ l w h. elim (Bool-cases (has_root_access files w)) [
        | inl root ↦ rw root h
        | inr other ↦ rw other (leave _ (frame.print_err _ w h.world))
      ];
    }

    pub prepare-Keeps : FlowKeeps (prepare system)
    unfolding prepare
    prepare-Keeps =
        Flows-then _ _
          (Flows-then _ _
            (Flows-then _ _
              (Flows-then _ _ has_pid
                (install-Keeps 15 "Error while setting signal handler SIGTERM."))
              (install-Keeps 14 "Error while setting signal handler SIGALRM."))
            (install-Keeps 2 "Error while setting signal handler SIGINT."))
          install_sigchld-Keeps
      where
        has_pid : FlowKeeps (λ l w.
            if process.getpid w == 0
            then exits 1 (console.print_out (codes "Could not get the PID of this process.") w)
            else next l w)
        has_pid = record {
          at = λ l w h. elim (Bool-cases (process.getpid w == 0)) [
            | inl no_pid ↦ rw no_pid (leave _ (frame.print_out _ w h.world))
            | inr some_pid ↦ rw some_pid h
          ];
        }

  bind_given-Keeps : (this_pid : ℕ) → FlowKeeps (bind_given system this_pid)
  unfolding bind_given
  bind_given-Keeps this_pid = search (step_rules, focus-Calls system M frame b X (λ l. this_pid))

  ask_core-Keeps : (this_pid : ℕ) → FlowKeeps (ask_core system this_pid)
  unfolding ask_core
  ask_core-Keeps this_pid = search (step_rules, core-Calls)

  pub bind_cpu-Keeps : (this_pid : ℕ) → FlowKeeps (bind_cpu system this_pid)
  unfolding bind_cpu
  bind_cpu-Keeps this_pid =
      Flows-test (λ l. is_nonneg l.arguments.cpu) (bind_given system this_pid)
        (ask_core system this_pid) (bind_given-Keeps this_pid) (ask_core-Keeps this_pid)

  info-Calls : Calls P (λ l w.
      let cpu_id = unsigned32 l.arguments.cpu in
      let level = unsigned32 l.arguments.level in
      read_call
        (cache_info_new files l.cache cpu_id level w)
        (record l { cache = new_left files l.cache cpu_id level w })
        w)
  info-Calls = record {
    at = λ l w h.
        let cpu_id = unsigned32 l.arguments.cpu in
        let level = unsigned32 l.arguments.level in
        let kept : Small (new_left files l.cache cpu_id level w) =
          new_left-Small files l.cache cpu_id level w (record { total = h.small }) in
        read_call-Called M b l (record l { cache = new_left files l.cache cpu_id level w })
          (cache_info_new files l.cache cpu_id level w) w
          (record { world = h.world; buffer = h.buffer; small = kept.total });
  }

  pub choose_cache-Keeps : FlowKeeps (choose_cache system)
  unfolding choose_cache
  choose_cache-Keeps = search (step_rules, info-Calls) depth 12

  rdpmc-Calls : Calls P (λ l w. read_call (can_use_rdpmc files system.stale_uint w) l w)
  rdpmc-Calls = record {
    at = λ l w h. read_call-Called M b l l (can_use_rdpmc files system.stale_uint w) w h;
  }

  pub rdpmc-Keeps : FlowKeeps (
      checked system "While checking if the rdpmc instruction can be used in userspace"
        (λ l w. read_call (can_use_rdpmc files system.stale_uint w) l w))
  rdpmc-Keeps = checked-Keeps system M frame b X _ _ rdpmc-Calls

  benchmark-Calls : Calls P (λ l.
      let iterations = unsigned32 l.arguments.iter in
      status_call
        (benchmark cpu kernel memory console system.double system.qsort iterations
          system.stack_buffer
          (system.stale_heap iterations))
        l)
  benchmark-Calls =
      status_call-Calls M b
        (λ l.
          benchmark cpu kernel memory console system.double system.qsort
            (unsigned32 l.arguments.iter) system.stack_buffer
            (system.stale_heap (unsigned32 l.arguments.iter)))
        λ l.
          benchmark-Keeps cpu kernel memory console system.double system.qsort M frame.cpu
            frame.kernel frame.malloc frame.free frame.print_out (unsigned32 l.arguments.iter)
            system.stack_buffer (system.stale_heap (unsigned32 l.arguments.iter))

  defaulted-Keeps : FlowKeeps (λ l w.
      next
        (if less_one l.arguments.iter
          then record l { arguments = record l.arguments { iter = pos 1000000 } }
          else l)
        w)
  defaulted-Keeps = record {
    at = λ l w h. elim (Bool-cases (less_one l.arguments.iter)) [
      | inl unset ↦ rw unset (record { world = h.world; buffer = h.buffer; small = h.small })
      | inr given ↦ rw given h
    ];
  }

  pub run_benchmark-Keeps : FlowKeeps (run_benchmark system)
  unfolding run_benchmark
  run_benchmark-Keeps = search (step_rules, defaulted-Keeps, benchmark-Calls) depth 12
