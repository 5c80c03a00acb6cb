-- ===== src/Alloc.antt =====
-- src/alloc.c: a search for a buffer of huge pages that is aligned to the cache.
pub mod Length
pub mod Alignment
pub mod Decides
pub mod Keeps
pub mod Finds
pub mod Masking
pub mod Ledger
pub mod Searched
pub mod Leaks
pub mod Outcomes
use cache_noise_visualizer.Base.{
  ℕ, zero, suc, ◌+◌, ◌*◌, ◌/◌, ◌%◌, Bool, true, false, ◌&&◌, List, [], ◌∷◌, ◌++◌, Option, none,
  some, ltb, ◌==◌, if◌then◌else◌,
}
use cache_noise_visualizer.Base.Int.{int_eq}
use cache_noise_visualizer.Base.Words.{u64}
use cache_noise_visualizer.Errors.{
  ErrorCode, error_none, error_munmap, error_mmap, error_not_aligned, error_no_hugepages,
  error_allocation,
}
use cache_noise_visualizer.Result.{
  Result, ok, err, fault, Run, done, failed, stuck, out_of_fuel, division_by_zero, bad_access,
}
use cache_noise_visualizer.Result.Sys.{
  Sys, ◌>>=◌, ◌>>◌, pure, fail, crash, run_result, reading, status, answer,
}
use cache_noise_visualizer.SysInfo.Files.{Files}
use cache_noise_visualizer.SysInfo.CacheInfo.{CacheInfo}
use cache_noise_visualizer.SysInfo.Pagemap.{get_physical_address}
use cache_noise_visualizer.SysInfo.Hugepages.{get_hugepagenr, get_hugepagesize}
use cache_noise_visualizer.Memory.{Memory, Message, found_after, not_found_after, map_failed}

-- `while (length < total_size) length += hugepagesize` on fuel.
unfoldable pub length_loop : ℕ → ℕ → ℕ → ℕ → Result ℕ
length_loop zero hugepagesize total_size length = fault out_of_fuel
length_loop (suc fuel) hugepagesize total_size length =
    let rest = length_loop fuel hugepagesize total_size (u64 (length + hugepagesize)) in
    if ltb length total_size then rest else ok length

-- The variables that the search loop of alloc_aligned leaves.
pub record Search : Type 0 where
  pub tries : ℕ
  pub old_buffers : List ℕ
  pub buffer : ℕ
  pub error : ErrorCode

abbrev pub search_state : ℕ → List ℕ → ℕ → ErrorCode → Search
search_state t olds b e = record { tries = t; old_buffers = olds; buffer = b; error = e }

abbrev pub if_mapped : {W : Type 0} → Option W → Run W (Unit {0})
if_mapped none = stuck bad_access
if_mapped (some w) = done tt w

-- FORWARD_ON_FAIL in alloc_aligned: the caller sees the code and what its pointer holds by then.
abbrev pub forward :
    {W A : Type 0} → ℕ → Result A → (A → Sys W (ErrorCode × ℕ)) → Sys W (ErrorCode × ℕ)
forward buffer (ok a) f = f a
forward buffer (err e) f = pure (e, buffer)
forward buffer (fault x) f = crash x

abbrev pub if_allocated :
    {W : Type 0} → ℕ → W → Option W → Sys W (ErrorCode × ℕ) → Run W (ErrorCode × ℕ)
if_allocated buffer w none f = done (error_allocation, buffer) w
if_allocated buffer w (some w') f = f w'

module _ {W : Type 0} (files : Files W) (memory : Memory W) where
  abbrev pub store_int : ℕ → Sys W (Unit {0})
  store_int address w = if_mapped (memory.store address w)

  -- One round of test_alignment: the page of the line is brought into memory and looked up.
  unfoldable pub check_line : ℕ → ℕ → CacheInfo → Sys W (Unit {0})
  check_line current_line buffer info = do
    let address = u64 (buffer + u64 (current_line * info.line_size))
    store_int address
    physical_address ← reading (get_physical_address files address)
    if current_line == physical_address % info.total_size / info.line_size
        then pure tt
        else fail error_not_aligned

  -- The loop of test_alignment on fuel; the line counter grows by the lines of a page.
  unfoldable pub align_loop : ℕ → ℕ → ℕ → CacheInfo → ℕ → Sys W (Unit {0})
  align_loop zero current_line buffer info page_size = crash out_of_fuel
  align_loop (suc fuel) current_line buffer info page_size =
      let rest =
        align_loop fuel (u64 (current_line + page_size / info.line_size)) buffer info page_size in
      if ltb current_line (info.total_size / info.line_size)
      then (check_line current_line buffer info >> rest)
      else pure tt

  unfoldable pub test_alignment : ℕ → CacheInfo → ℕ → Sys W (Unit {0})
  unfolding align_loop check_line
  test_alignment buffer info page_size =
      if info.line_size == 0
      then crash division_by_zero
      else align_loop (suc (info.total_size / info.line_size)) 0 buffer info page_size

  unfoldable pub free_aligned : ℕ → CacheInfo → Sys W (Unit {0})
  unfolding length_loop
  free_aligned buffer cache = do
    hugepagesize ← reading (get_hugepagesize files)
    length ←
        run_result (length_loop (suc cache.total_size) hugepagesize cache.total_size hugepagesize)
    unmapped ← (λ w. answer (memory.munmap buffer length w))
    if unmapped then pure tt else fail error_munmap

  -- The search loop of alloc_aligned with `left` tries to go.
  unfoldable pub search_loop : ℕ → Search → CacheInfo → ℕ → Sys W Search
  search_loop zero s cache hugepagesize = pure s
  search_loop (suc left) s cache hugepagesize = do
    buffer ← (λ w. answer (memory.mmap cache.total_size w))
    if buffer == map_failed then pure (search_state s.tries s.old_buffers buffer error_mmap) else do
      error ← status (test_alignment buffer cache hugepagesize)
      let rest =
          search_loop left (search_state (s.tries + 1) (s.old_buffers ++ buffer ∷ []) buffer error)
            cache hugepagesize
      if int_eq error error_not_aligned
          then rest
          else pure (search_state s.tries s.old_buffers buffer error)

  -- `for (i = 0; i < tries; i++) err = free_aligned(old_buffers[i], cache)`
  unfoldable pub free_old : List ℕ → ErrorCode → CacheInfo → Sys W ErrorCode
  free_old [] error cache = pure error
  free_old (b ∷ bs) error cache = do next ← status (free_aligned b cache); free_old bs next cache

  -- What follows the loops: the message, and the release of a buffer that is not handed out.
  unfoldable pub finish : ℕ → Search → ErrorCode → CacheInfo → Sys W (ErrorCode × ℕ)
  finish max_tries s error cache =
      if ltb s.tries max_tries && int_eq error error_none
      then (λ w. done (error, s.buffer) (memory.report (found_after s.tries) w))
      else (do
        released ← status (if s.buffer == map_failed then pure tt else free_aligned s.buffer cache)
        if int_eq released error_none
            then (λ w. done (error, s.buffer) (memory.report (not_found_after s.tries) w))
            else pure (released, s.buffer))

  -- `*buffer` is `buffer` at the call, and `stale` is what max_tries happens to hold. The result is
  -- the code that is returned and the final `*buffer`.
  unfoldable pub alloc_aligned : ℕ → ℕ → CacheInfo → Sys W (ErrorCode × ℕ)
  unfolding search_loop free_old finish
  alloc_aligned stale buffer cache w =
      forward buffer (get_hugepagenr files stale w)
        (λ max_tries. if ltb max_tries 1 then pure (error_no_hugepages, buffer) else λ w.
          forward buffer (get_hugepagesize files w)
            (λ hugepagesize w. if_allocated buffer w (memory.malloc (8 * max_tries) w) (do
              s ← search_loop max_tries (search_state 0 [] buffer error_none) cache hugepagesize
              error ← free_old s.old_buffers s.error cache
              (λ w. done tt (memory.free w))
              finish max_tries s error cache))
            w)
        w
