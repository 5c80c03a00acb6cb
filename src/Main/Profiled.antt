-- ===== src/Main/Profiled.antt =====
-- The mode profile of main on a machine where every call succeeds.
pub mod Measuring
pub mod Parts
pub mod Whole
pub mod Alarmed
use cache_noise_visualizer.Base.{ℕ, ◌*◌, ◌/◌, ◌^◌, ◌<◌, ◌≡◌, List, [], ◌∷◌, ◌++◌, true, some, none}
use cache_noise_visualizer.Base.Int.{ℤ, pos}
use cache_noise_visualizer.Base.Text.{Bytes, codes}
use cache_noise_visualizer.Result.{ok}
use cache_noise_visualizer.SysInfo.Text.{show_int}
use cache_noise_visualizer.SysInfo.Hugepages.{get_hugepagenr}
use cache_noise_visualizer.SysInfo.CacheInfo.{CacheInfo}
use cache_noise_visualizer.Alloc.Masking.{Releases}
use cache_noise_visualizer.Alloc.Finds.{Supply}
use cache_noise_visualizer.Output.Rows.{Takes}
use cache_noise_visualizer.Actions.Enabled.{Counting}
use cache_noise_visualizer.Profile.Quiet.{Quiet}
use cache_noise_visualizer.Main.Flow.{Locals}
use cache_noise_visualizer.Main.Program.{System, is_nonneg}
use cache_noise_visualizer.Main.Smooth.{Smooth}

-- What is observed before the search: the number of misaligned buffers to come, and the output.
abbrev pub watched : {W : Type 0} → (W → ℕ) → (W → Bytes) → W → Bytes
watched misses shown v = misses v ∷ shown v

-- The same of the calls of the mode profile, where those before the search change nothing of the
-- misaligned buffers to come; a huge page has `h` bytes, and a release unmaps `size`.
pub record Furnished {W D : Type 0} (system : System W D) (shown : W → Bytes) (misses : W → ℕ)
    (l : Locals) (found : CacheInfo) (h size max_tries : ℕ) : Type 0 where
  pub smooth : Smooth system (watched misses shown) l found
  pub hugepages : (v : W) → get_hugepagenr system.files system.stale_uint v ≡ ok max_tries
  pub enough : (v : W) → misses v < max_tries
  pub supply : Supply system.files system.memory found h shown misses
  pub releases : Releases system.files system.memory found h size
  pub loads : Quiet system.cpu shown
  pub takes : Takes system.outlet system.stdout shown
  pub counting : Counting system.kernel shown
  pub sched_yield : (v : W) → shown (system.scheduler.sched_yield v) ≡ shown v

-- A cache whose lines fill it exactly, and huge pages of at least one line.
pub record Shaped (found : CacheInfo) (h : ℕ) : Type 0 where
  pub total : found.total_size ≡ found.ways_of_associativity * found.set_count * found.line_size
  pub line_pos : 0 < found.line_size
  pub sets_pos : 0 < found.set_count
  pub ways_pos : 0 < found.ways_of_associativity
  pub small : found.total_size < 2 ^ 32
  pub page_pos : 0 < h / found.line_size
  pub page_room : h / found.line_size < 2 ^ 63

-- The start line, for a number of iterations or of seconds.
abbrev pub start_texts : ℤ → Bytes → List Bytes
start_texts number unit =
    codes "Start profiling " ∷ (codes "for " ++ (show_int number ++ unit)) ∷ (10 ∷ 10 ∷ []) ∷ []

-- The command line of the mode profile, on a given CPU, without a file or another process.
pub record ForProfile (l : Locals) : Type 0 where
  pub mode : l.arguments.mode ≡ some (codes "profile")
  pub cpu : is_nonneg l.arguments.cpu ≡ true
  pub pid : l.arguments.pid ≡ pos 0
  pub program : l.arguments.program ≡ none
  pub output_file : l.arguments.output_file ≡ none
