-- ===== src/Alloc/Length.antt =====
-- The length that free_aligned unmaps.
use cache_noise_visualizer.Base.{
  ℕ, zero, suc, ◌+◌, ◌*◌, ◌^◌, ◌≤◌, ◌<◌, ◌≡◌, ◌⊎◌, inl, inr, refl, ltb, if◌then◌else◌, arith,
  Bool-cases, ltb→lt, le→ltb,
}
use cache_noise_visualizer.Base.Words.{u64}
use cache_noise_visualizer.Errors.{error_munmap}
use cache_noise_visualizer.Result.{ok, done, failed}
use cache_noise_visualizer.SysInfo.Files.{Files}
use cache_noise_visualizer.SysInfo.CacheInfo.{CacheInfo}
use cache_noise_visualizer.SysInfo.Hugepages.{get_hugepagesize}
use cache_noise_visualizer.Memory.{Memory}
use cache_noise_visualizer.Alloc.{length_loop, free_aligned}

-- The least number of whole huge pages, at least one, that covers `total` bytes.
pub record Covers (hugepagesize total length : ℕ) : Type 0 where
  pub pages : ℕ
  pub whole : length ≡ pages * hugepagesize
  pub some_page : 0 < pages
  pub enough : total ≤ length
  pub least : (length ≡ hugepagesize) ⊎ (length < total + hugepagesize)

grow :
    (pages hugepagesize total length : ℕ)
    → 0 < hugepagesize
    → total < 2 ^ 32
    → hugepagesize < 2 ^ 63
    → length < total
    → length ≡ pages * hugepagesize
    → u64 (length + hugepagesize) ≡ suc pages * hugepagesize
grow pages h total length pos t hh lt e = omega (arith)

module _ (hugepagesize total : ℕ) (pos : 0 < hugepagesize) (room : hugepagesize < 2 ^ 63)
    (small : total < 2 ^ 32) where
  -- The loop with a multiple of the huge page in hand, and rounds for what is missing.
  length_loop-Covers_from :
      (fuel pages length : ℕ)
      → total ≤ length + fuel
      → length ≡ pages * hugepagesize
      → 0 < pages
      → (length ≡ hugepagesize) ⊎ (length < total + hugepagesize)
      → (l : ℕ) × (length_loop (suc fuel) hugepagesize total length ≡ ok l)
        × Covers hugepagesize total l
  unfolding length_loop
  length_loop-Covers_from zero pages length enough e p least = (
    length,
    rw (le→ltb length total (omega arith)),
    record { pages = pages; whole = e; some_page = p; enough = omega arith; least = least },
  )
  length_loop-Covers_from (suc fuel) pages length enough e p least =
      elim (Bool-cases (ltb length total)) [
        | inl short ↦
            let h = ltb→lt length total short in
            rw short (
              length_loop-Covers_from fuel (suc pages) (u64 (length + hugepagesize)) (omega arith)
                (grow pages hugepagesize total length pos small room h e) (omega arith)
                (inr (omega arith)))
        | inr long ↦ (
          length,
          rw long,
          record { pages = pages; whole = e; some_page = p; enough = ground arith; least = least },
        )
      ]

  pub length_loop-Covers :
      (l : ℕ) × (length_loop (suc total) hugepagesize total hugepagesize ≡ ok l)
      × Covers hugepagesize total l
  length_loop-Covers =
      length_loop-Covers_from total 1 hugepagesize (omega arith) (omega arith) (omega arith)
        (inl refl)

module _ {W : Type 0} (files : Files W) (memory : Memory W) where
  -- With a huge page size between 1 and 2 ^ 63 - 1 free_aligned ends, and calls munmap once, for the
  -- least number of whole huge pages (at least one) that covers the cache; it returns ERROR_MUNMAP
  -- exactly if munmap fails.
  pub free_aligned-Covers :
      (buffer : ℕ) (cache : CacheInfo) (w : W) (h : ℕ)
      → get_hugepagesize files w ≡ ok h
      → 0 < h
      → h < 2 ^ 63
      → cache.total_size < 2 ^ 32
      → (l : ℕ) × Covers h cache.total_size l
        × (free_aligned files memory buffer cache w ≡ (
            let r = memory.munmap buffer l w in
            if r.0 then done tt r.1 else failed error_munmap r.1))
  unfolding free_aligned
  free_aligned-Covers buffer cache w h shown pos room small =
      let (l, run, covers) = length_loop-Covers h cache.total_size pos room small in
      (l, covers, rw (shown, run) (ground arith))
