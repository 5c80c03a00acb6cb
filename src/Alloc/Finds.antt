-- ===== src/Alloc/Finds.antt =====
-- alloc_aligned where one of the buffers that mmap hands out is aligned.
use cache_noise_visualizer.Base.{
  ℕ, zero, suc, ◌+◌, ◌*◌, ◌/◌, ◌^◌, ◌≤◌, ◌<◌, ◌≡◌, ◌⊎◌, inl, inr, refl, ap, subst, ◌∙◌, true, false,
  List, [], ◌∷◌, ◌++◌, some, ltb, ◌==◌, arith, lt→ltb,
}
use cache_noise_visualizer.Base.Text.{Bytes, codes}
use cache_noise_visualizer.Base.Text.Decimal.{decimal}
use cache_noise_visualizer.Errors.{ErrorCode, error_none, error_not_aligned}
use cache_noise_visualizer.Result.{ok, done}
use cache_noise_visualizer.Result.Sys.{status}
use cache_noise_visualizer.Result.Keeps.{Over}
use cache_noise_visualizer.SysInfo.Files.{Files}
use cache_noise_visualizer.SysInfo.CacheInfo.{CacheInfo}
use cache_noise_visualizer.SysInfo.Hugepages.{get_hugepagenr}
use cache_noise_visualizer.Memory.{Memory, found_after, map_failed}
use cache_noise_visualizer.Alloc.{Search, search_state, test_alignment, search_loop, alloc_aligned}
use cache_noise_visualizer.Alloc.Decides.{Backed, OnLine, test_alignment-decides}
use cache_noise_visualizer.Alloc.Keeps.{test_alignment-Keeps}
use cache_noise_visualizer.Alloc.Masking.{Releases, masked, unmap, unmap_all, alloc_aligned-masked}

-- `printf("Found buffer after %lu tries.\n", tries)`
abbrev pub found_text : ℕ → Bytes
found_text tries = codes "Found buffer after " ++ (decimal tries ++ (codes " tries." ++ 10 ∷ []))

module _ {W : Type 0} (files : Files W) (memory : Memory W) (cache : CacheInfo) (h : ℕ) where
  -- The lines of a huge page.
  abbrev pub step : ℕ
  step = h / cache.line_size

  -- Memory at this address whose pages start on the physical lines of their offsets.
  pub record Aligned (buffer : ℕ) : Type 0 where
    pub mapped : (buffer == map_failed) ≡ false
    pub fits : buffer + cache.total_size ≤ 2 ^ 64
    pub phys : ℕ → ℕ
    pub backed : Backed files memory phys buffer cache.total_size
    pub on_line :
        (j : ℕ)
        → j * step < cache.total_size / cache.line_size
        → OnLine phys buffer cache (j * step)

  pub record Misaligned (buffer : ℕ) : Type 0 where
    pub mapped : (buffer == map_failed) ≡ false
    pub fits : buffer + cache.total_size ≤ 2 ^ 64
    pub phys : ℕ → ℕ
    pub backed : Backed files memory phys buffer cache.total_size
    pub page : ℕ
    pub inside : page * step < cache.total_size / cache.line_size
    pub off_line : ¬ OnLine phys buffer cache (page * step)

  -- A machine that hands out `misses w` misaligned buffers and then an aligned one; `shown` is what
  -- the standard output has taken.
  pub record Supply (shown : W → Bytes) (misses : W → ℕ) : Type 0 where
    pub mmap :
        (v : W)
        → (let (buffer, v') = memory.mmap cache.total_size v in
            (shown v' ≡ shown v)
            × (((misses v ≡ 0) × Aligned buffer)
                ⊎ ((misses v ≡ suc (misses v')) × Misaligned buffer)))
    pub store :
        (a : ℕ) (v v' : W)
        → memory.store a v ≡ some v'
        → (shown v' ≡ shown v) × (misses v' ≡ misses v)
    pub malloc :
        (n : ℕ) (v : W)
        → (v' : W) × (memory.malloc n v ≡ some v') × (shown v' ≡ shown v) × (misses v' ≡ misses v)
    pub munmap : (b n : ℕ) (v : W) → shown (memory.munmap b n v).1 ≡ shown v
    pub free : (v : W) → shown (memory.free v) ≡ shown v
    pub report : (n : ℕ) (v : W) → shown (memory.report (found_after n) v) ≡ shown v ++ found_text n

  module _ (shown : W → Bytes) (misses : W → ℕ) (supply : Supply shown misses)
      (small : cache.total_size < 2 ^ 32) (line_pos : 0 < cache.line_size) (step_pos : 0 < step)
      (room : step < 2 ^ 63) where
    -- The test of a buffer shows nothing and uses no buffer up.
    abbrev Same : W → W → Type 0
    Same w v = (shown v ≡ shown w) × (misses v ≡ misses w)

    test-Same : (buffer : ℕ) (w : W) → Over (Same w) (test_alignment files memory buffer cache h w)
    test-Same buffer w =
        (test_alignment-Keeps files memory (Same w)
            (λ a u v e s. let t = supply.store a u v e in (t.0 ∙ s.0, t.1 ∙ s.1)) buffer cache h).at
          w (refl, refl)

    accepts :
        (buffer : ℕ) (w : W)
        → Aligned buffer
        → (v : W) × (status (test_alignment files memory buffer cache h) w ≡ done error_none v)
          × Same w v
    accepts buffer w a =
        elim (test_alignment-decides files memory a.phys buffer cache h a.backed a.fits small
          line_pos w step_pos room) [
            | inl (v, run, all) ↦ (v, rw run refl, subst (Over (Same w)) run (test-Same buffer w))
            | inr (v, run, j, inside, off) ↦ absurd (off (a.on_line j inside))
          ]

    refuses :
        (buffer : ℕ) (w : W)
        → Misaligned buffer
        → (v : W) × (status (test_alignment files memory buffer cache h) w
            ≡ done error_not_aligned v)
          × Same w v
    refuses buffer w a =
        elim (test_alignment-decides files memory a.phys buffer cache h a.backed a.fits small
          line_pos w step_pos room) [
            | inl (v, run, all) ↦ absurd (a.off_line (all a.page (omega arith) a.inside))
            | inr (v, run, j, inside, off) ↦
                (v, rw run refl, subst (Over (Same w)) run (test-Same buffer w))
          ]

    -- The search goes through the misaligned buffers.
    search_loop-finds :
        (n left t : ℕ) (olds : List ℕ) (b : ℕ) (e : ErrorCode) (v : W)
        → misses v ≡ n
        → n < left
        → (s : Search) × (v' : W) × (search_loop files memory left
              (search_state t olds b e)
              cache
              h
              v
            ≡ done s v')
          × (s.tries ≡ t + n)
          × (s.error ≡ error_none)
          × Aligned s.buffer
          × (shown v' ≡ shown v)
    unfolding search_loop
    search_loop-finds n zero t olds b e v count more = absurd (omega arith)
    search_loop-finds n (suc left) t olds b e v count more =
        let next = memory.mmap cache.total_size v in
        let (quiet, which) = supply.mmap v in
        elim which [
          | inl (none_left, a) ↦
              let (u, run, same) = accepts next.0 next.1 a in
              (
                search_state t olds next.0 error_none,
                u,
                rw (a.mapped, run) refl,
                omega arith,
                refl,
                a,
                same.0 ∙ quiet,
              )
          | inr (used, a) ↦
              let (u, run, same) = refuses next.0 next.1 a in
              let (s, v', rest, tries, fine, found, same') =
                search_loop-finds (misses next.1) left (t + 1) (olds ++ next.0 ∷ []) next.0
                  error_not_aligned u same.1 (omega (arith, used)) in
              (
                s,
                v',
                rw (a.mapped, run) rest,
                omega (arith, tries, used),
                fine,
                found,
                same' ∙ same.0 ∙ quiet,
              )
        ]

    masked-none : (olds : List ℕ) (e : ErrorCode) → e ≡ error_none → masked olds e ≡ error_none
    masked-none [] e h = h
    masked-none (b ∷ bs) e h = refl

    shown-unmap_all : (l : ℕ) (bs : List ℕ) (v : W) → shown (unmap_all memory l bs v) ≡ shown v
    shown-unmap_all l [] v = refl
    shown-unmap_all l (b ∷ bs) v = shown-unmap_all l bs (unmap memory l b v) ∙ supply.munmap b l v

    -- Suppose that releases succeed and that memory can be allocated, and that the machine hands out
    -- some number of buffers with a page that is not on its line, fewer than there are tries, and then
    -- one whose pages are. Then alloc_aligned succeeds with a buffer whose pages start on the physical
    -- lines of their offsets, and all that it prints is that it found one after this number of tries.
    pub alloc_aligned-finds :
        (l : ℕ)
        → Releases files memory cache h l
        → (stale buffer max_tries : ℕ) (w : W) → get_hugepagenr files stale w ≡ ok max_tries
        → misses w < max_tries
        → (found : ℕ) × (w' : W) × (alloc_aligned files memory stale buffer cache w
            ≡ done (error_none, found) w')
          × Aligned found
          × (shown w' ≡ shown w ++ found_text (misses w))
    alloc_aligned-finds l releases stale buffer max_tries w number enough =
        let (v, allocated, quiet, same) = supply.malloc (8 * max_tries) w in
        let (s, u, searched, tries, fine, found, quiet') =
          search_loop-finds (misses w) max_tries 0 [] buffer error_none v same enough in
        let run =
          alloc_aligned-masked files memory cache h l releases stale buffer max_tries w v u s number
            (omega arith) allocated searched in
        let code = masked-none s.old_buffers s.error fine in
        let count : s.tries ≡ misses w = omega (arith, tries) in
        let hit : ltb s.tries max_tries ≡ true = lt→ltb _ _ (omega arith) in
        let freed = memory.free (unmap_all memory l s.old_buffers u) in
        (
          s.buffer,
          memory.report (found_after s.tries) freed,
          (rw (code, hit) at run),
          found,
          supply.report s.tries freed
              ∙ rw (count) (
                  ap (λ t. t ++ found_text (misses w))
                    (supply.free (unmap_all memory l s.old_buffers u)
                      ∙ shown-unmap_all l s.old_buffers u
                      ∙ quiet'
                      ∙ quiet)),
        )
