-- ===== src/SysInfo/CacheInfo.antt =====
-- cache_info_fill, cache_count and cache_info_new of src/sys_info.c; cache_info_print is in Print.
pub mod Fill
pub mod Left
pub mod Print
pub mod Select
use cache_noise_visualizer.Base.{
  ℕ, zero, suc, ◌+◌, ◌*◌, Bool, true, false, ◌&&◌, ◌||◌, List, [], ◌∷◌, ◌++◌, Option, none, some,
  ◌==◌, if◌then◌else◌,
}
use cache_noise_visualizer.Base.Words.{u8, u32}
use cache_noise_visualizer.Base.Text.{Bytes, codes}
use cache_noise_visualizer.Errors.{
  ErrorCode, error_fmt, error_io_line_size, error_io_total_size, error_io_set_number,
  error_io_levels, error_io_associativity, error_io_sys_cpu, error_cache_not_exists,
}
use cache_noise_visualizer.Result.{Result, ok, err, fault, null_stream}
use cache_noise_visualizer.Result.Pure.{◌>>=◌}
use cache_noise_visualizer.Stdio.{Scan, end_of_file, no_match, number, scan_unsigned}
use cache_noise_visualizer.SysInfo.Files.{Files}
use cache_noise_visualizer.SysInfo.Text.{cache_index_path, cpu_cache_path, str_starts_with}

-- cache_type_t
pub data CacheType : Type 0 where
  data_cache instruction unified unknown : CacheType

-- cache_info_t
pub record CacheInfo : Type 0 where
  pub line_size : ℕ
  pub total_size : ℕ
  pub cache_id : ℕ
  pub cpu_id : ℕ
  pub set_count : ℕ
  pub ways_of_associativity : ℕ
  pub level : ℕ
  pub type : CacheType

-- The letters after the 'U' in the file "type".
unified_letters : Bytes → CacheType
unified_letters [] = unknown
unified_letters (n ∷ []) = unknown
unified_letters (n ∷ i ∷ rest) =
    if n == b'n' then (if i == b'i' then unified else unknown) else unknown

-- The letters that fgetc reads from the file "type"; at its end it reads no letter that is tested.
unfoldable pub parse_cache_type : Bytes → CacheType
unfolding unified_letters
parse_cache_type [] = unknown
parse_cache_type (c ∷ cs) =
    if c == b'D'
    then data_cache
    else if c == b'I'
    then instruction
    else if c == b'U'
    then unified_letters cs
    else unknown

abbrev pub stored : ℕ → Scan → Result ℕ
stored old end_of_file = err error_fmt
stored old no_match = ok old
stored old (number n) = ok n

abbrev pub read_stored : ℕ → ErrorCode → Option Bytes → Result ℕ
read_stored old io_error none = err io_error
read_stored old io_error (some text) = stored old (scan_unsigned text)

abbrev pub read_type : Option Bytes → Result CacheType
read_type none = fault null_stream
read_type (some text) = ok (parse_cache_type text)

-- The test of the loop in cache_info_new: a cache that holds data.
abbrev pub holds_data : CacheType → Bool
holds_data data_cache = true
holds_data instruction = false
holds_data unified = true
holds_data unknown = false

-- The loop over readdir.
unfoldable pub count_index : ℕ → List Bytes → ℕ
count_index n [] = n
count_index n (name ∷ names) =
    count_index (if str_starts_with (codes "index") name then u32 (n + 1) else n) names

abbrev pub counted : Option (List Bytes) → Result ℕ
counted none = err error_io_sys_cpu
counted (some names) = ok (count_index 0 names)

module _ {W : Type 0} (files : Files W) where
  -- READ_PROP_PUT(path, filename, write_back, suffix): `old` is what write_back points to.
  unfoldable pub read_prop : Bytes → Bytes → ℕ → ErrorCode → W → Result ℕ
  read_prop path filename old io_error w =
      read_stored old io_error (files.open_read (path ++ filename) w)

  unfoldable pub cache_info_fill : CacheInfo → ℕ → ℕ → W → Result CacheInfo
  cache_info_fill info cache cpu w = do
    let path = cache_index_path cpu cache
    line ← read_prop path (codes "coherency_line_size") info.line_size error_io_line_size w
    size ← read_prop path (codes "size") info.total_size error_io_total_size w
    sets ← read_prop path (codes "number_of_sets") info.set_count error_io_set_number w
    level ← read_prop path (codes "level") info.level error_io_levels w
    ways ←
        read_prop path (codes "ways_of_associativity") info.ways_of_associativity
          error_io_associativity w
    type ← read_type (files.open_read (path ++ codes "type") w)
    ok (record {
      line_size = line;
      total_size = u32 (size * 1024);
      cache_id = cache;
      cpu_id = cpu;
      set_count = sets;
      ways_of_associativity = ways;
      level = level;
      type = type;
    })

  unfoldable pub cache_count : ℕ → W → Result ℕ
  unfolding count_index
  cache_count cpu w = counted (files.open_dir (cpu_cache_path cpu) w)

  -- The loop of cache_info_new: `left` rounds from index `i`.
  unfoldable pub fill_until : ℕ → ℕ → ℕ → ℕ → CacheInfo → W → Result CacheInfo
  fill_until zero i cpu level info w = ok info
  fill_until (suc left) i cpu level info w = cache_info_fill info i cpu w >>= λ found.
      let rest = fill_until left (i + 1) cpu level found w in
      if holds_data found.type && (level == found.level) then ok found else rest

  unfoldable pub checked_level : ℕ → CacheInfo → Result CacheInfo
  checked_level level info = if level == info.level then ok info else err error_cache_not_exists

  -- The parameters `cpu` and `level` are uint8_t, so that an int given for them is cut to 8 bits.
  unfoldable pub cache_info_new : CacheInfo → ℕ → ℕ → W → Result CacheInfo
  unfolding fill_until checked_level
  cache_info_new info cpu level w = do
    count ← cache_count (u8 cpu) w
    found ← fill_until count 0 (u8 cpu) (u8 level) info w
    checked_level (u8 level) found
