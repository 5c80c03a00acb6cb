-- ===== src/SysInfo/Files.antt =====
-- The part of the operating system that src/sys_info.c reads; its functions only look at the world.
use cache_noise_visualizer.Base.{ℕ, Bool, List, Option}
use cache_noise_visualizer.Base.Int.{ℤ}
use cache_noise_visualizer.Base.Text.{Bytes}

pub record Files (W : Type 0) : Type 0 where
  -- the content of the file that fopen opens at this path
  pub open_read : Bytes → W → Option Bytes
  -- the names that readdir lists
  pub open_dir : Bytes → W → Option (List Bytes)
  -- sysconf(_SC_PAGESIZE), converted to uint64_t
  pub page_size : W → ℕ
  -- /proc/self/pagemap: whether fopen and fseek succeed, and the word that fread reads
  pub pagemap_open : W → Bool
  pub pagemap_seek : ℕ → W → Bool
  pub pagemap_word : ℕ → W → Option ℕ
  pub uid : W → ℕ
  -- sched_getcpu()
  pub cpu_core : W → ℤ
  -- the text that an array on the stack happens to hold before it is written
  pub stale_line : W → Bytes
