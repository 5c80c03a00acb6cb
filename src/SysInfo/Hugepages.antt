-- ===== src/SysInfo/Hugepages.antt =====
-- get_hugepagenr and get_hugepagesize of src/sys_info.c.
pub mod Size
use cache_noise_visualizer.Base.{
  ℕ, zero, suc, ◌+◌, ◌*◌, ◌<◌, Bool, true, false, List, [], ◌∷◌, Option, none, some, if◌then◌else◌,
  length,
}
use cache_noise_visualizer.Base.Words.{u32, sign_extend}
use cache_noise_visualizer.Base.Text.{Bytes, codes, is_digit}
use cache_noise_visualizer.Errors.{error_io_hugepage_number, error_io_proc_meminfo}
use cache_noise_visualizer.Result.{Result, ok, err, fault, out_of_fuel}
use cache_noise_visualizer.Result.Pure.{◌>>=◌}
use cache_noise_visualizer.Stdio.{get_line, after_line, atoi_digits}
use cache_noise_visualizer.SysInfo.Files.{Files}
use cache_noise_visualizer.SysInfo.Text.{str_starts_with}
use cache_noise_visualizer.SysInfo.CacheInfo.{read_prop}

abbrev pub key : Bytes
key = codes "Hugepagesize:"

-- The loop over fgets: it ends with the array `line` at the first line that begins with the key, or
-- else at the last line. The text gets shorter in each round, so its length bounds the rounds.
unfoldable pub find_line : ℕ → Bytes → Bytes → Bytes
find_line fuel line [] = line
find_line zero line (c ∷ cs) = line
find_line (suc fuel) line (c ∷ cs) =
    let next = get_line 98 (c ∷ cs) in
    let rest = find_line fuel next (after_line 98 (c ∷ cs)) in
    if str_starts_with key next then next else rest

-- The digits of the line, one after another, into `number`.
unfoldable pub digits_of : Bytes → Bytes
digits_of [] = []
digits_of (c ∷ cs) = if is_digit c then c ∷ digits_of cs else digits_of cs

-- `*size = atoi(number) * 1024`: a product of ints, converted to uint64_t.
unfoldable pub size_of_line : Bytes → Result ℕ
size_of_line line =
    if str_starts_with key line
    then ok (sign_extend (u32 (atoi_digits (digits_of line) * 1024)))
    else err error_io_proc_meminfo

abbrev pub meminfo_size : Bytes → Option Bytes → Result ℕ
meminfo_size stale none = err error_io_proc_meminfo
meminfo_size stale (some text) = size_of_line (find_line (length text) stale text)

module _ {W : Type 0} (files : Files W) where
  -- `old` is what `nr` points to.
  unfoldable pub get_hugepagenr : ℕ → W → Result ℕ
  get_hugepagenr old w =
      read_prop files (codes "/proc/sys/vm/") (codes "nr_hugepages") old error_io_hugepage_number w

  unfoldable pub get_hugepagesize : W → Result ℕ
  unfolding find_line size_of_line
  get_hugepagesize w = meminfo_size (files.stale_line w) (files.open_read (codes "/proc/meminfo") w)
