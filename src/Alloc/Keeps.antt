-- ===== src/Alloc/Keeps.antt =====
-- What test_alignment keeps: it does nothing to the world but stores into the buffer.
use cache_noise_visualizer.Base.{ℕ, zero, suc, ◌/◌, ◌≡◌, refl, Option, none, some}
use cache_noise_visualizer.Result.Keeps.{Over, Keeps, keeps_rules}
use cache_noise_visualizer.SysInfo.Files.{Files}
use cache_noise_visualizer.SysInfo.CacheInfo.{CacheInfo}
use cache_noise_visualizer.Memory.{Memory}
use cache_noise_visualizer.Alloc.{if_mapped, store_int, check_line, align_loop, test_alignment}

module _ {W : Type 0} (files : Files W) (memory : Memory W) (P : W → Type 0)
    (stores : (a : ℕ) (w v : W) → memory.store a w ≡ some v → P w → P v) where
  Over-if_mapped : (o : Option W) → ((v : W) → o ≡ some v → P v) → Over P (if_mapped o)
  Over-if_mapped none h = tt
  Over-if_mapped (some v) h = h v refl

  store_int-Keeps : (a : ℕ) → Keeps P (store_int files memory a)
  store_int-Keeps a = record {
    at = λ w h. Over-if_mapped (memory.store a w) (λ v e. stores a w v e h);
  }

  check_line-Keeps :
      (line buffer : ℕ) (info : CacheInfo) → Keeps P (check_line files memory line buffer info)
  unfolding check_line
  check_line-Keeps line buffer info = search (keeps_rules, store_int-Keeps) depth 12

  align_loop-Keeps :
      (fuel line buffer : ℕ) (info : CacheInfo) (page_size : ℕ)
      → Keeps P (align_loop files memory fuel line buffer info page_size)
  unfolding align_loop
  align_loop-Keeps zero line buffer info page_size = search (keeps_rules)
  align_loop-Keeps (suc fuel) line buffer info page_size =
      search (keeps_rules, check_line-Keeps, align_loop-Keeps fuel) depth 12

  pub test_alignment-Keeps :
      (buffer : ℕ) (info : CacheInfo) (page_size : ℕ)
      → Keeps P (test_alignment files memory buffer info page_size)
  unfolding test_alignment
  test_alignment-Keeps buffer info page_size =
      search (keeps_rules, align_loop-Keeps (suc (info.total_size / info.line_size))) depth 12
