-- ===== src/SysInfo/CacheInfo/Fill.antt =====
-- cache_info_fill against a description of the files that Linux shows for a cache.
use cache_noise_visualizer.Base.{ℕ, ◌*◌, ◌^◌, ◌<◌, ◌≡◌, refl, [], ◌∷◌, ◌++◌, some, arith, ap}
use cache_noise_visualizer.Base.Text.{Bytes, codes}
use cache_noise_visualizer.Base.Text.Decimal.{decimal}
use cache_noise_visualizer.Errors.{ErrorCode}
use cache_noise_visualizer.Result.{ok}
use cache_noise_visualizer.Stdio.Unsigned.{NoDigit, scan-decimal}
use cache_noise_visualizer.SysInfo.Files.{Files}
use cache_noise_visualizer.SysInfo.Text.{cache_index_path}
use cache_noise_visualizer.SysInfo.CacheInfo.{
  CacheType, CacheInfo, data_cache, instruction, unified, unknown, parse_cache_type, read_prop,
  cache_info_fill,
}

-- A cache as Linux describes it; the size is in KiB.
pub record Described : Type 0 where
  pub line : ℕ
  pub kib : ℕ
  pub sets : ℕ
  pub level : ℕ
  pub ways : ℕ
  pub type : CacheType

-- The word in the file "type". Linux has no file for a type that it does not know.
abbrev pub type_word : CacheType → Bytes
type_word data_cache = codes "Data"
type_word instruction = codes "Instruction"
type_word unified = codes "Unified"
type_word unknown = []

abbrev pub newline : Bytes
newline = 10 ∷ []

module _ {W : Type 0} (files : Files W) where
  -- The directory at `path` holds the files that describe the cache `d`.
  pub record Shows (path : Bytes) (d : Described) (w : W) : Type 0 where
    pub line_shown :
        files.open_read (path ++ codes "coherency_line_size") w ≡ some (decimal d.line ++ newline)
    pub kib_shown :
        files.open_read (path ++ codes "size") w ≡ some (decimal d.kib ++ (b'K' ∷ newline))
    pub sets_shown :
        files.open_read (path ++ codes "number_of_sets") w ≡ some (decimal d.sets ++ newline)
    pub level_shown : files.open_read (path ++ codes "level") w ≡ some (decimal d.level ++ newline)
    pub ways_shown :
        files.open_read (path ++ codes "ways_of_associativity") w ≡ some (decimal d.ways ++ newline)
    pub type_shown : files.open_read (path ++ codes "type") w ≡ some (type_word d.type ++ newline)

-- The numbers fit the fields of cache_info_t, the size in bytes too.
pub record Fits (d : Described) : Type 0 where
  pub line_fits : d.line < 2 ^ 32
  pub kib_fits : d.kib < 2 ^ 22
  pub sets_fits : d.sets < 2 ^ 32
  pub level_fits : d.level < 2 ^ 32
  pub ways_fits : d.ways < 2 ^ 32

abbrev pub info_of : Described → ℕ → ℕ → CacheInfo
info_of d cache cpu = record {
  line_size = d.line;
  total_size = d.kib * 1024;
  cache_id = cache;
  cpu_id = cpu;
  set_count = d.sets;
  ways_of_associativity = d.ways;
  level = d.level;
  type = d.type;
}

parse-type_word : (t : CacheType) → parse_cache_type (type_word t ++ newline) ≡ t
unfolding parse_cache_type
parse-type_word data_cache = refl
parse-type_word instruction = refl
parse-type_word unified = refl
parse-type_word unknown = refl

module _ {W : Type 0} (files : Files W) where
  read_prop-decimal :
      (path filename : Bytes) (old : ℕ) (io_error : ErrorCode) (w : W) (n : ℕ) (rest : Bytes)
      → files.open_read (path ++ filename) w ≡ some (decimal n ++ rest)
      → n < 2 ^ 32
      → NoDigit rest
      → read_prop files path filename old io_error w ≡ ok n
  unfolding read_prop
  read_prop-decimal path filename old io_error w n rest shown fits free =
      rw (shown, scan-decimal n rest fits free)

  -- cache_info_fill reads back the cache that the files describe, whatever the structure held before,
  -- if the numbers fit its fields: the size is given in KiB and stored in bytes.
  pub fill-Shows :
      (info : CacheInfo) (cache cpu : ℕ) (w : W) (d : Described)
      → Shows files (cache_index_path cpu cache) d w
      → Fits d
      → cache_info_fill files info cache cpu w ≡ ok (info_of d cache cpu)
  unfolding cache_info_fill
  fill-Shows info cache cpu w d s f =
      let read = read_prop-decimal (cache_index_path cpu cache) in
      rw
        (
          read _ info.line_size _ w d.line newline s.line_shown f.line_fits refl,
          read _ info.total_size _ w d.kib (b'K' ∷ newline) s.kib_shown (omega arith) refl,
          read _ info.set_count _ w d.sets newline s.sets_shown f.sets_fits refl,
          read _ info.level _ w d.level newline s.level_shown f.level_fits refl,
          read _ info.ways_of_associativity _ w d.ways newline s.ways_shown f.ways_fits refl,
          s.type_shown,
          parse-type_word d.type,
        )
        (ap (λ total. ok (record (info_of d cache cpu) { total_size = total })) (omega arith))
