-- ===== src/SysInfo/Access.antt =====
-- has_root_access, get_current_cpu_core and can_use_rdpmc of src/sys_info.c.
use cache_noise_visualizer.Base.{ℕ, Bool, if◌then◌else◌, ◌==◌}
use cache_noise_visualizer.Base.Int.{ℤ, pos, negsuc}
use cache_noise_visualizer.Base.Text.{codes}
use cache_noise_visualizer.Errors.{error_get_cpu_core, error_io_rdpmc, error_rdpmc}
use cache_noise_visualizer.Result.{Result, ok, err}
use cache_noise_visualizer.Result.Pure.{◌>>=◌}
use cache_noise_visualizer.SysInfo.Files.{Files}
use cache_noise_visualizer.SysInfo.CacheInfo.{read_prop}

abbrev pub core_number : ℤ → Result ℕ
core_number (pos core) = ok core
core_number (negsuc _) = err error_get_cpu_core

module _ {W : Type 0} (files : Files W) where
  unfoldable pub has_root_access : W → Bool
  has_root_access w = files.uid w == 0

  unfoldable pub get_current_cpu_core : W → Result ℕ
  get_current_cpu_core w = core_number (files.cpu_core w)

  -- `stale` is what the variable `value` happens to hold.
  unfoldable pub can_use_rdpmc : ℕ → W → Result (Unit {0})
  can_use_rdpmc stale w = do
    value ←
        read_prop files (codes "/sys/bus/event_source/devices/cpu/") (codes "rdpmc") stale
          error_io_rdpmc w
    if value == 2 then ok tt else err error_rdpmc
