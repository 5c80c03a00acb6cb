-- ===== src/Main/Kept/Steps.antt =====
-- What the parts of main are built of: printing, and calls behind EXIT_ON_FAIL.
use cache_noise_visualizer.Base.{ℕ, String}
use cache_noise_visualizer.Base.Int.{unsigned32}
use cache_noise_visualizer.Base.Text.{Bytes}
use cache_noise_visualizer.Actions.Keeps.{focus_cpu_core-Keeps}
use cache_noise_visualizer.Actions.{focus_cpu_core}
use cache_noise_visualizer.Main.Flow.{Locals, Step, Call, say}
use cache_noise_visualizer.Main.Flows.{Flows, Calls, Flows-read, exit_on_fail-Flows}
use cache_noise_visualizer.Main.Program.{System, checked, status_call}
use cache_noise_visualizer.Main.Kept.{Frame, Kept, Kept-world, status_call-Calls}

module _ {W D : Type 0} (system : System W D) (M : W → Type 0) (frame : Frame system M) (b : ℕ)
    (X : W → Type 0) where
  open system use {files, console, process, outlet, kernel, scheduler, memory, cpu}

  abbrev P : Locals → W → Type 0
  P = Kept M b

  abbrev FlowKeeps : Step W → Type 0
  FlowKeeps m = Flows P P P X m

  pub say-Keeps : (text : Bytes) → FlowKeeps (say console text)
  say-Keeps text = record { at = λ l w h. Kept-world M b l w _ h (frame.print_out text w h.world) }

  pub say_with-Keeps : (text : Locals → Bytes) → FlowKeeps (λ l. say console (text l) l)
  say_with-Keeps text = Flows-read (λ l. say console (text l)) (λ l. say-Keeps (text l))

  pub checked-Keeps :
      (message : String) (call : Call W) → Calls P call → FlowKeeps (checked system message call)
  checked-Keeps message call calls =
      exit_on_fail-Flows console P X
        (λ l text w h. Kept-world M b l w _ h (frame.print_err text w h.world)) system.left_first
        message call calls

  pub focus-Calls :
      (pid : Locals → ℕ)
      → Calls P (λ l. status_call (focus_cpu_core kernel (pid l) (unsigned32 l.arguments.cpu)) l)
  focus-Calls pid =
      status_call-Calls M b (λ l. focus_cpu_core kernel (pid l) (unsigned32 l.arguments.cpu))
        (λ l. focus_cpu_core-Keeps kernel M frame.kernel (pid l) (unsigned32 l.arguments.cpu))
