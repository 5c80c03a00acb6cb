-- ===== src/Tests/SysInfo.antt =====
-- src/sys_info.c on the small machine.
use cache_noise_visualizer.Base.{
  ℕ, List, true, ◌++◌, ◌+◌, ◌*◌, ◌^◌, ◌≤◌, ◌≡◌, refl, ◌↔◌, [], ◌∷◌, arith, length,
}
use cache_noise_visualizer.Base.Text.{codes}
use cache_noise_visualizer.Base.Text.Decimal.{decimal}
use cache_noise_visualizer.Errors.{error_sysconf}
use cache_noise_visualizer.Result.{ok, err}
use cache_noise_visualizer.Stdio.{scan_unsigned, no_match, end_of_file}
use cache_noise_visualizer.SysInfo.Text.{
  cpu_cache_path, cache_index_path, str_starts_with, str_starts_with_iff, cache_index_path-fits,
}
use cache_noise_visualizer.SysInfo.CacheInfo.{
  CacheInfo, data_cache, instruction, unified, unknown, parse_cache_type, cache_info_fill,
  cache_count, cache_info_new,
}
use cache_noise_visualizer.SysInfo.CacheInfo.Fill.{Described, Shows, Fits, info_of, fill-Shows}
use cache_noise_visualizer.SysInfo.CacheInfo.Select.{
  first_data, last_cache, chosen, cache_info_new-ShowsAll,
}
use cache_noise_visualizer.SysInfo.Pagemap.{PagemapEntry, pagemap_entry_of, get_physical_address}
use cache_noise_visualizer.SysInfo.Pagemap.Fields.{kernel_word, entry_of-kernel_word}
use cache_noise_visualizer.SysInfo.Pagemap.Translate.{
  get_physical_address-present, get_physical_address-sysconf,
}
use cache_noise_visualizer.SysInfo.Hugepages.{get_hugepagesize}
use cache_noise_visualizer.SysInfo.Hugepages.Size.{get_hugepagesize-size_line}
use cache_noise_visualizer.Tests.Machine.{start, files}

scan_letters : scan_unsigned (codes " x1") ≡ no_match
unfolding scan_unsigned
scan_letters = refl

scan_nothing : scan_unsigned (codes "  ") ≡ end_of_file
unfolding scan_unsigned
scan_nothing = refl

unified_type : parse_cache_type (codes "Unified") ≡ unified
unfolding parse_cache_type
unified_type = refl

unknown_type : parse_cache_type (codes "Unknown") ≡ unknown
unfolding parse_cache_type
unknown_type = refl

str_starts_with_iff_example :
    (str_starts_with (codes "index") (codes "index3") ≡ true)
    ↔ ((rest : List ℕ) × (codes "index3" ≡ codes "index" ++ rest))
str_starts_with_iff_example = str_starts_with_iff (codes "index") (codes "index3")

cache_index_path-fits_example : length (cache_index_path 255 4294967295) + 1 ≤ 60
cache_index_path-fits_example = cache_index_path-fits 255 4294967295 (omega arith) (omega arith)

abbrev blank : CacheInfo
blank = record {
  line_size = 0;
  total_size = 0;
  cache_id = 0;
  cpu_id = 0;
  set_count = 0;
  ways_of_associativity = 0;
  level = 7;
  type = unknown;
}

abbrev data_first : Described
data_first = record { line = 64; kib = 32; sets = 64; level = 1; ways = 8; type = data_cache }

abbrev instruction_only : Described
instruction_only = record {
  line = 64;
  kib = 16;
  sets = 64;
  level = 1;
  ways = 4;
  type = instruction;
}

data_first-Shows : Shows files (cache_index_path 0 0) data_first start
unfolding cache_index_path decimal
data_first-Shows = record {
  line_shown = refl;
  kib_shown = refl;
  sets_shown = refl;
  level_shown = refl;
  ways_shown = refl;
  type_shown = refl;
}

data_first-Fits : Fits data_first
data_first-Fits = omega arith

instruction_only-Shows : Shows files (cache_index_path 1 0) instruction_only start
unfolding cache_index_path decimal
instruction_only-Shows = record {
  line_shown = refl;
  kib_shown = refl;
  sets_shown = refl;
  level_shown = refl;
  ways_shown = refl;
  type_shown = refl;
}

instruction_only-Fits : Fits instruction_only
instruction_only-Fits = omega arith

one_cache_0 : cache_count files 0 start ≡ ok 1
unfolding cache_count cpu_cache_path decimal str_starts_with
one_cache_0 = refl

one_cache_1 : cache_count files 1 start ≡ ok 1
unfolding cache_count cpu_cache_path decimal str_starts_with
one_cache_1 = refl

fill-Shows_example : cache_info_fill files blank 0 0 start ≡ ok (info_of data_first 0 0)
fill-Shows_example = fill-Shows files blank 0 0 start data_first data_first-Shows data_first-Fits

cache_info_new-ShowsAll_example :
    cache_info_new files blank 256 1 start
    ≡ chosen 1 (first_data 0 1 0 (data_first ∷ [])) (last_cache 0 0 blank (data_first ∷ []))
cache_info_new-ShowsAll_example =
    cache_info_new-ShowsAll files blank 256 1 (data_first ∷ []) start one_cache_0
      (data_first-Shows, data_first-Fits, tt)

abbrev dirty_entry : PagemapEntry
dirty_entry = record {
  page_frame_number = 5;
  soft_dirty = 1;
  file_page = 0;
  swapped = 0;
  present = 1;
}

entry_of-kernel_word_example :
    pagemap_entry_of (kernel_word dirty_entry) ≡ record dirty_entry { soft_dirty = 0 }
entry_of-kernel_word_example = entry_of-kernel_word dirty_entry (omega arith)

get_physical_address-present_example : get_physical_address files 8200 start ≡ ok 8200
unfolding pagemap_entry_of
get_physical_address-present_example =
    get_physical_address-present files 12 8200 (2 ^ 63 + 2) start refl (omega arith) (omega arith)
      (omega arith) refl refl refl refl (omega arith)

get_physical_address-sysconf_example :
    (get_physical_address files 8200 start ≡ err error_sysconf) ↔ (files.page_size start ≡ 0)
get_physical_address-sysconf_example = get_physical_address-sysconf files 8200 start

get_hugepagesize-size_line_example : get_hugepagesize files start ≡ ok (2048 * 1024)
unfolding str_starts_with decimal
get_hugepagesize-size_line_example =
    get_hugepagesize-size_line files (codes "MemTotal:  8 kB" ∷ []) 5 2048 [] start refl
      ((omega arith, refl), tt) (omega arith) (omega arith)
