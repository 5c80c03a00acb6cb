-- ===== src/SysInfo/CacheInfo/Left.antt =====
-- What `*info` holds behind cache_info_fill and cache_info_new of src/sys_info.c, also where they
-- return an error and have stored a part of the fields.
pub mod Agrees
pub mod Small
use cache_noise_visualizer.Base.{ℕ, zero, suc, ◌+◌, ◌*◌, ◌==◌, ◌&&◌, ◌++◌, if◌then◌else◌}
use cache_noise_visualizer.Base.Words.{u8, u32}
use cache_noise_visualizer.Base.Text.{codes}
use cache_noise_visualizer.Errors.{
  error_io_line_size, error_io_total_size, error_io_set_number, error_io_levels,
  error_io_associativity,
}
use cache_noise_visualizer.Result.{Result, ok, err, fault}
use cache_noise_visualizer.SysInfo.Files.{Files}
use cache_noise_visualizer.SysInfo.Text.{cache_index_path}
use cache_noise_visualizer.SysInfo.CacheInfo.{
  CacheInfo, read_prop, read_type, cache_info_fill, cache_count, cache_info_new, holds_data,
}

-- The rest of a function behind a call: nothing more is stored if the call fails.
abbrev pub left_by : {A : Type 0} → Result A → CacheInfo → (A → CacheInfo) → CacheInfo
left_by (ok a) info rest = rest a
left_by (err e) info rest = info
left_by (fault x) info rest = info

-- The result of a call that succeeds, or else what the failing call has stored.
abbrev pub result_or : Result CacheInfo → CacheInfo → CacheInfo
result_or (ok found) stored = found
result_or (err e) stored = stored
result_or (fault x) stored = stored

module _ {W : Type 0} (files : Files W) where
  -- The fields, in the order in which cache_info_fill stores them.
  unfoldable pub fill_stored : CacheInfo → ℕ → ℕ → W → CacheInfo
  fill_stored info cache cpu w =
      let path = cache_index_path cpu cache in
      left_by
        (read_prop files path (codes "coherency_line_size") info.line_size error_io_line_size w)
        info
        λ line.
          let sized = record info { line_size = line } in
          left_by (read_prop files path (codes "size") info.total_size error_io_total_size w) sized
            λ size.
              let totalled = record sized { total_size = u32 (size * 1024) } in
              left_by
                (read_prop files path (codes "number_of_sets") info.set_count error_io_set_number w)
                totalled
                λ sets.
                  let counted = record totalled { set_count = sets } in
                  left_by (read_prop files path (codes "level") info.level error_io_levels w)
                    counted
                    λ level.
                      let levelled = record counted { level = level } in
                      left_by
                        (read_prop files path (codes "ways_of_associativity")
                          info.ways_of_associativity error_io_associativity w)
                        levelled
                        λ ways.
                          let numbered = record levelled {
                            ways_of_associativity = ways;
                            cpu_id = cpu;
                            cache_id = cache;
                          } in
                          left_by (read_type (files.open_read (path ++ codes "type") w)) numbered
                            λ type. record numbered { type = type }

  unfoldable pub fill_left : CacheInfo → ℕ → ℕ → W → CacheInfo
  unfolding fill_stored
  fill_left info cache cpu w =
      result_or (cache_info_fill files info cache cpu w) (fill_stored info cache cpu w)

  -- The loop of cache_info_new, up to a cache that is taken or a call that fails.
  unfoldable pub until_stored : ℕ → ℕ → ℕ → ℕ → CacheInfo → W → CacheInfo
  until_stored zero i cpu level info w = info
  until_stored (suc left) i cpu level info w =
      let now = fill_left info i cpu w in
      let rest = until_stored left (i + 1) cpu level now w in
      left_by (cache_info_fill files info i cpu w) now
        λ found. if holds_data found.type && (level == found.level) then found else rest

  -- The stores of cache_info_new, in their order.
  unfoldable pub new_stored : CacheInfo → ℕ → ℕ → W → CacheInfo
  unfolding until_stored
  new_stored info cpu level w =
      left_by (cache_count files (u8 cpu) w) info
        λ count. until_stored count 0 (u8 cpu) (u8 level) info w

  unfoldable pub new_left : CacheInfo → ℕ → ℕ → W → CacheInfo
  unfolding new_stored
  new_left info cpu level w =
      result_or (cache_info_new files info cpu level w) (new_stored info cpu level w)
