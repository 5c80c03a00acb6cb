-- ===== src/SysInfo/Pagemap.antt =====
-- pagemap_entry_from and get_physical_address of src/sys_info.c.
pub mod Fields
pub mod Translate
use cache_noise_visualizer.Base.{
  ℕ, zero, suc, ◌+◌, ◌*◌, ◌/◌, ◌%◌, ◌^◌, Bool, true, false, Option, none, some, ltb, ◌==◌,
  if◌then◌else◌,
}
use cache_noise_visualizer.Base.Words.{u64}
use cache_noise_visualizer.Errors.{error_io_proc_self_pagemap, error_page_entry, error_sysconf}
use cache_noise_visualizer.Result.{Result, ok, err, fault, overflow, out_of_fuel}
use cache_noise_visualizer.Result.Pure.{◌>>=◌}
use cache_noise_visualizer.SysInfo.Files.{Files}

-- PAGE_ENTRY_SIZE
abbrev pub page_entry_size : ℕ
page_entry_size = 8

-- pagemap_entry_t
pub record PagemapEntry : Type 0 where
  pub page_frame_number : ℕ
  pub soft_dirty : ℕ
  pub file_page : ℕ
  pub swapped : ℕ
  pub present : ℕ

-- `word & ((1 << 54) - 1)` and `(word >> k) & 1`
unfoldable pub pagemap_entry_of : ℕ → PagemapEntry
pagemap_entry_of word = record {
  page_frame_number = word % 2 ^ 54;
  soft_dirty = word / 2 ^ 54 % 2;
  file_page = word / 2 ^ 61 % 2;
  swapped = word / 2 ^ 62 % 2;
  present = word / 2 ^ 63 % 2;
}

abbrev pub entry_read : Option ℕ → Result PagemapEntry
entry_read none = err error_io_proc_self_pagemap
entry_read (some word) = ok (pagemap_entry_of word)

-- `for (counter = page_size; counter > 1; counter = counter >> 1) page_shift += 1` on fuel: a 64-bit
-- counter is halved at most 64 times.
unfoldable pub page_shift_loop : ℕ → ℕ → ℕ → Result ℕ
page_shift_loop zero counter shift = fault out_of_fuel
page_shift_loop (suc fuel) counter shift =
    let rest = page_shift_loop fuel (counter / 2) (shift + 1) in
    if ltb 1 counter then rest else ok shift

-- The address that the entry gives. page_frame_number is a bit field of 54 bits, and gcc computes `<<`
-- in the width of the field: what does not fit 54 bits is dropped.
abbrev pub frame_address : PagemapEntry → ℕ → ℕ → ℕ → Result ℕ
frame_address entry shift page_size addr =
    if entry.present == 0
    then err error_page_entry
    else if ltb shift 54
    then ok (u64 (entry.page_frame_number * 2 ^ shift % 2 ^ 54 + addr % page_size))
    else fault overflow

module _ {W : Type 0} (files : Files W) where
  unfoldable pub pagemap_entry_from : ℕ → W → Result PagemapEntry
  unfolding pagemap_entry_of
  pagemap_entry_from offset w =
      if files.pagemap_open w
      then (if files.pagemap_seek offset w
          then entry_read (files.pagemap_word offset w)
          else err error_io_proc_self_pagemap)
      else err error_io_proc_self_pagemap

  unfoldable pub get_physical_address : ℕ → W → Result ℕ
  unfolding page_shift_loop
  get_physical_address addr w =
      let page_size = files.page_size w in
      if ltb page_size 1 then err error_sysconf else do
        shift ← page_shift_loop 65 page_size 0
        entry ← pagemap_entry_from (u64 (addr / page_size * page_entry_size)) w
        frame_address entry shift page_size addr
