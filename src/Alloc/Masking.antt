-- ===== src/Alloc/Masking.antt =====
-- The code that alloc_aligned returns, and the world that it leaves, when every release succeeds.
use cache_noise_visualizer.Base.{
  ℕ, zero, suc, ◌+◌, ◌++◌, All, All-append, false, ◌*◌, ◌<◌, ◌≡◌, refl, ◌&&◌, List, [], ◌∷◌, some,
  ltb, ◌==◌, if◌then◌else◌, Bool-cases, inl, inr, le→ltb,
}
use cache_noise_visualizer.Base.Int.{int_eq}
use cache_noise_visualizer.Errors.{ErrorCode, error_none, error_not_aligned}
use cache_noise_visualizer.Result.{ok, done}
use cache_noise_visualizer.Result.Sys.{and_then-done, done-subst, status}
use cache_noise_visualizer.SysInfo.Files.{Files}
use cache_noise_visualizer.SysInfo.CacheInfo.{CacheInfo}
use cache_noise_visualizer.SysInfo.Hugepages.{get_hugepagenr, get_hugepagesize}
use cache_noise_visualizer.Memory.{Memory, found_after, not_found_after, map_failed}
use cache_noise_visualizer.Alloc.{
  Search, search_state, test_alignment, free_aligned, search_loop, free_old, finish, alloc_aligned,
}

-- The last status of the releases, which overwrites the status of the search.
abbrev pub masked : List ℕ → ErrorCode → ErrorCode
masked [] error = error
masked (b ∷ bs) error = error_none

module _ {W : Type 0} (files : Files W) (memory : Memory W) (cache : CacheInfo) where
  -- A machine on which the huge page size can always be read, and munmap fails at most for MAP_FAILED,
  -- which is no address of a page.
  pub record Releases (h l : ℕ) : Type 0 where
    pub readable : (v : W) → get_hugepagesize files v ≡ ok h
    pub released :
        (b : ℕ) (v : W)
        → (b == map_failed) ≡ false
        → free_aligned files memory b cache v ≡ done tt (memory.munmap b l v).1

-- Addresses that mmap has answered for mappings.
abbrev pub Answered : List ℕ → Type 0
Answered bs = All (λ b. (b == map_failed) ≡ false) bs

module _ {W : Type 0} (files : Files W) (memory : Memory W) (cache : CacheInfo) (h : ℕ) where
  -- The search puts only such addresses aside.
  search_loop-Answered :
      (left : ℕ) (s s' : Search) (v v' : W)
      → Answered s.old_buffers
      → search_loop files memory left s cache h v ≡ done s' v'
      → Answered s'.old_buffers
  unfolding search_loop
  search_loop-Answered zero s s' v v' all run =
      done-subst (λ (t : Search) _. Answered t.old_buffers) run all
  search_loop-Answered (suc left) s s' v v' all run =
      let buffer = (memory.mmap cache.total_size v).0 in
      elim (Bool-cases (buffer == map_failed)) [
        | inl unmapped ↦
            done-subst (λ (t : Search) _. Answered t.old_buffers) (rw unmapped at run) all
        | inr mapped ↦
            let (error, v₂, tested, rest) =
              and_then-done
                (status (test_alignment files memory buffer cache h)
                  (memory.mmap cache.total_size v).1)
                _ (rw mapped at run) in
            elim (Bool-cases (int_eq error error_not_aligned)) [
              | inl refused ↦
                  search_loop-Answered left
                    (search_state (s.tries + 1) (s.old_buffers ++ buffer ∷ []) buffer error) s' v₂
                    v' (All-append _ s.old_buffers (buffer ∷ []) all (mapped, tt))
                    (rw refused at rest)
              | inr accepted ↦
                  done-subst (λ (t : Search) _. Answered t.old_buffers) (rw accepted at rest) all
            ]
      ]

module _ {W : Type 0} (memory : Memory W) (l : ℕ) where
  abbrev pub unmap : ℕ → W → W
  unmap b v = (memory.munmap b l v).1

  abbrev pub unmap_all : List ℕ → W → W
  unmap_all [] v = v
  unmap_all (b ∷ bs) v = unmap_all bs (unmap b v)

  -- The world behind `finish`.
  abbrev pub finished : ℕ → Search → ErrorCode → W → W
  finished max_tries s error v =
      if ltb s.tries max_tries && int_eq error error_none
      then memory.report (found_after s.tries) v
      else memory.report (not_found_after s.tries)
          (if s.buffer == map_failed then v else unmap s.buffer v)

module _ {W : Type 0} (files : Files W) (memory : Memory W) (cache : CacheInfo) (h l : ℕ)
    (always : Releases files memory cache h l) where
  free_old-masked :
      (bs : List ℕ) (error : ErrorCode) (w : W)
      → Answered bs
      → free_old files memory bs error cache w ≡ done (masked bs error) (unmap_all memory l bs w)
  unfolding free_old
  free_old-masked [] error w all = refl
  free_old-masked (b ∷ []) error w (h, hs) = rw (always.released b w h)
  free_old-masked (b ∷ c ∷ bs) error w (h, hs) =
      rw (always.released b w h) (free_old-masked (c ∷ bs) error_none _ hs)

  finish-finished :
      (max_tries : ℕ) (s : Search) (error : ErrorCode) (w : W)
      → finish files memory max_tries s error cache w
        ≡ done (error, s.buffer) (finished memory l max_tries s error w)
  unfolding finish
  finish-finished max_tries s error w =
      elim (Bool-cases (ltb s.tries max_tries && int_eq error error_none)) [
        | inl hit ↦ rw hit
        | inr miss ↦ rw miss (elim (Bool-cases (s.buffer == map_failed)) [
          | inl none_mapped ↦ rw none_mapped
          | inr some_mapped ↦ rw (some_mapped, always.released s.buffer w some_mapped)
        ])
      ]

  -- If a release of a mapping always succeeds, then however the search of alloc_aligned ends, the code that it
  -- returns is ERROR_NONE as soon as one buffer was put aside, and the code of the search otherwise:
  -- the releases overwrite the code of a search whose later mmap or address translation failed, or
  -- that ran out of tries. `*buffer` is the last buffer of the search in every case.
  pub alloc_aligned-masked :
      (stale buffer max_tries : ℕ) (w w₁ w₂ : W) (s : Search)
      → get_hugepagenr files stale w ≡ ok max_tries
      → 0 < max_tries
      → memory.malloc (8 * max_tries) w ≡ some w₁
      → search_loop files memory max_tries (search_state 0 [] buffer error_none) cache h w₁
        ≡ done s w₂
      → alloc_aligned files memory stale buffer cache w
        ≡ done
            (masked s.old_buffers s.error, s.buffer)
            (finished memory l max_tries s
              (masked s.old_buffers s.error)
              (memory.free (unmap_all memory l s.old_buffers w₂)))
  unfolding alloc_aligned
  alloc_aligned-masked stale buffer max_tries w w₁ w₂ s number some_tries allocated searched =
      rw
        (
          number,
          le→ltb max_tries 1 some_tries,
          always.readable w,
          allocated,
          searched,
          free_old-masked s.old_buffers s.error w₂ (
              search_loop-Answered files memory cache h max_tries
                (search_state 0 [] buffer error_none) s w₁ w₂ tt searched),
        )
        (finish-finished max_tries s (masked s.old_buffers s.error) _)
