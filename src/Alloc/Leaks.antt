-- ===== src/Alloc/Leaks.antt =====
-- The mappings that alloc_aligned leaves, when every release succeeds.
use cache_noise_visualizer.Base.{
  ℕ, ◌*◌, ◌<◌, ◌≡◌, ◌≢◌, refl, ap, sym, subst, ◌∙◌, Bool, true, false, not, ◌&&◌, ◌||◌, List, [],
  ◌∷◌, some, ltb, ◌==◌, if◌then◌else◌, arith, inl, inr, Bool-cases, ==_iff, lt→ltb,
}
use cache_noise_visualizer.Base.Int.{int_eq, int_eq_iff}
use cache_noise_visualizer.Errors.{ErrorCode, error_none}
use cache_noise_visualizer.Result.{ok, done}
use cache_noise_visualizer.SysInfo.Files.{Files}
use cache_noise_visualizer.SysInfo.CacheInfo.{CacheInfo}
use cache_noise_visualizer.SysInfo.Hugepages.{get_hugepagenr}
use cache_noise_visualizer.Memory.{Memory, found_after, not_found_after, map_failed}
use cache_noise_visualizer.Alloc.{Search, search_state, search_loop, alloc_aligned}
use cache_noise_visualizer.Alloc.Ledger.{Ledger}
use cache_noise_visualizer.Alloc.Masking.{
  Releases, masked, unmap, unmap_all, finished, alloc_aligned-masked,
}
use cache_noise_visualizer.Alloc.Searched.{
  has, Ended, no_mapping, holding, exhausted, search_loop-Ended_from,
}

module _ {W : Type 0} (memory : Memory W) (l : ℕ) (live : ℕ → W → Bool)
    (ledger : Ledger memory l live) where
  live-unmap_all :
      (bs : List ℕ) (v : W) (a : ℕ)
      → live a (unmap_all memory l bs v) ≡ (not (has a bs) && live a v)
  live-unmap_all [] v a = refl
  live-unmap_all (b ∷ bs) v a =
      ground (arith, live-unmap_all bs (unmap memory l b v) a, ledger.munmap_live b v a)

  -- What is live behind the releases and the message.
  live-finished :
      (max_tries : ℕ) (s : Search) (error : ErrorCode) (v : W) (a : ℕ)
      → live a (finished memory l max_tries s error v) ≡ (
          if ltb s.tries max_tries && int_eq error error_none
          then live a v
          else if s.buffer == map_failed
          then live a v
          else (not (a == s.buffer) && live a v))
  live-finished max_tries s error v a = ground (
    arith,
    ledger.report_live (found_after s.tries) v a,
    ledger.report_live (not_found_after s.tries) v a,
    ledger.report_live (not_found_after s.tries) (unmap memory l s.buffer v) a,
    ledger.munmap_live s.buffer v a,
  )

  live-freed :
      (bs : List ℕ) (v : W) (a : ℕ)
      → live a (memory.free (unmap_all memory l bs v)) ≡ (not (has a bs) && live a v)
  live-freed bs v a = ledger.free_live (unmap_all memory l bs v) a ∙ live-unmap_all bs v a

masked-none : (bs : List ℕ) (error : ErrorCode) → error ≡ error_none → masked bs error ≡ error_none
masked-none [] error e = e
masked-none (b ∷ bs) error e = refl

masked-has :
    (a : ℕ) (bs : List ℕ) (error : ErrorCode) → has a bs ≡ true → masked bs error ≡ error_none
masked-has a [] error h = cc
masked-has a (b ∷ bs) error h = refl

int_eq-ne : (a b : ErrorCode) → a ≢ b → int_eq a b ≡ false
int_eq-ne a b h = elim (Bool-cases (int_eq a b)) [
  | inl same ↦ absurd (h ((int_eq_iff a b).0 same))
  | inr other ↦ other
]

module _ {W : Type 0} (files : Files W) (memory : Memory W) (cache : CacheInfo) (h l : ℕ)
    (always : Releases files memory cache h l) (live : ℕ → W → Bool) (ledger : Ledger memory l live)
    (stale buffer max_tries : ℕ) (w w₁ w₂ : W) (s : Search)
    (number : get_hugepagenr files stale w ≡ ok max_tries) (some_tries : 0 < max_tries)
    (allocated : memory.malloc (8 * max_tries) w ≡ some w₁)
    (searched : search_loop files memory max_tries (search_state 0 [] buffer error_none) cache h w₁
      ≡ done s w₂) where
  abbrev code : ErrorCode
  code = masked s.old_buffers s.error

  abbrev end : W
  end = finished memory l max_tries s code (memory.free (unmap_all memory l s.old_buffers w₂))

  runs : alloc_aligned files memory stale buffer cache w ≡ done (code, s.buffer) end
  runs =
      alloc_aligned-masked files memory cache h l always stale buffer max_tries w w₁ w₂ s number
        some_tries allocated searched

  ended : Ended live (λ a. live a w) max_tries s w₂
  ended =
      search_loop-Ended_from files memory l live ledger cache h max_tries (λ a. live a w) max_tries
        (search_state 0 [] buffer error_none) s w₁ w₂
        (record { owned = λ a. ledger.malloc_live _ w w₁ a allocated; fresh = λ a e. cc })
        (omega arith) (inr some_tries) searched

  live-end :
      (a : ℕ)
      → live a end ≡ (
          let left = not (has a s.old_buffers) && live a w₂ in
          if ltb s.tries max_tries && int_eq code error_none
          then left
          else if s.buffer == map_failed
          then left
          else (not (a == s.buffer) && left))
  live-end a =
      live-finished memory l live ledger max_tries s code _ a
      ∙ rw (live-freed memory l live ledger s.old_buffers w₂ a) refl

  live-end_kept :
      (a : ℕ)
      → live a w₂ ≡ (has a s.old_buffers || live a w)
      → (has a s.old_buffers ≡ true → live a w ≡ false)
      → a ≢ s.buffer
      → live a end ≡ live a w
  live-end_kept a owned fresh other = live-end a ∙ ground (arith, ==_iff a s.buffer)

  -- Suppose the search with at least one try ended. If every release succeeds and mmap and munmap
  -- keep their promises, then alloc_aligned leaves each address but the one that it returns mapped
  -- exactly if it was mapped before, whatever the search met.
  pub alloc_aligned-no_leak :
      (a : ℕ)
      → a ≢ s.buffer
      → (alloc_aligned files memory stale buffer cache w ≡ done (code, s.buffer) end)
        × (live a end ≡ live a w)
  alloc_aligned-no_leak a other = (runs, keep ended)
    where
      keep : Ended live (λ b. live b w) max_tries s w₂ → live a end ≡ live a w
      keep (no_mapping o _ _ _) = live-end_kept a (o.owned a) (o.fresh a) other
      keep (exhausted o _ _) = live-end_kept a (o.owned a) (o.fresh a) other
      keep (holding o _) =
          live-end_kept a (o.held a ∙ ground (arith, ==_iff a s.buffer)) (o.fresh_olds a) other

  -- If the search ended before its last try with a buffer that passed the test, and releases succeed
  -- as above, then alloc_aligned returns ERROR_NONE and that buffer, which is mapped now and was not
  -- mapped before.
  pub alloc_aligned-found :
      s.error ≡ error_none
      → s.tries < max_tries
      → (alloc_aligned files memory stale buffer cache w ≡ done (error_none, s.buffer) end)
        × (live s.buffer end ≡ true)
        × (live s.buffer w ≡ false)
  alloc_aligned-found accepted early =
      let none_code : code ≡ error_none = masked-none s.old_buffers s.error accepted in
      (runs ∙ ap (λ c. done (c, s.buffer) end) none_code, (fresh ended).0, (fresh ended).1)
    where
      fresh :
          Ended live (λ b. live b w) max_tries s w₂
          → (live s.buffer end ≡ true) × (live s.buffer w ≡ false)
      fresh (no_mapping o _ e _) = cc (e, accepted)
      fresh (exhausted o _ e) = absurd (omega arith)
      fresh (holding o _) =
          let none_code : code ≡ error_none = masked-none s.old_buffers s.error accepted in
          (
            live-end s.buffer
                ∙ rw (lt→ltb s.tries max_tries early, none_code)
                    (ground (arith, o.held s.buffer, o.fresh_buffer.0)),
            o.fresh_buffer.1,
          )

  -- If no try found an aligned buffer, and releases succeed as above, then alloc_aligned returns
  -- ERROR_NONE all the same, with an address that it has unmapped.
  pub alloc_aligned-dangling :
      s.tries ≡ max_tries
      → (alloc_aligned files memory stale buffer cache w ≡ done (error_none, s.buffer) end)
        × (live s.buffer end ≡ false)
  alloc_aligned-dangling all_refused = unmapped ended
    where
      unmapped :
          Ended live (λ b. live b w) max_tries s w₂
          → (alloc_aligned files memory stale buffer cache w ≡ done (error_none, s.buffer) end)
            × (live s.buffer end ≡ false)
      unmapped (no_mapping o _ _ lt) = absurd (omega arith)
      unmapped (holding o lt) = absurd (omega arith)
      unmapped (exhausted o member _) = (
        runs ∙ ap (λ c. done (c, s.buffer) end) (masked-has s.buffer s.old_buffers s.error member),
        live-end s.buffer ∙ ground arith,
      )

  -- The address that alloc_aligned returns was not mapped before, and with an error code it is not
  -- mapped behind it either.
  pub alloc_aligned-closed :
      ((v : W) → live map_failed v ≡ false)
      → (alloc_aligned files memory stale buffer cache w ≡ done (code, s.buffer) end)
        × (live s.buffer w ≡ false)
        × (code ≢ error_none → live s.buffer end ≡ false)
  alloc_aligned-closed unmappable = (runs, (closed ended).0, (closed ended).1)
    where
      closed :
          Ended live (λ b. live b w) max_tries s w₂
          → (live s.buffer w ≡ false) × (code ≢ error_none → live s.buffer end ≡ false)
      closed (no_mapping o e _ _) = (
        subst (λ b. live b w ≡ false) (sym e) (unmappable w),
        λ f. subst (λ b. live b end ≡ false) (sym e) (unmappable end),
      )
      closed (exhausted o member _) = (
        o.fresh s.buffer member,
        λ f. absurd (f (masked-has s.buffer s.old_buffers s.error member)),
      )
      closed (holding o _) = (
        o.fresh_buffer.1,
        λ f.
            let bad : int_eq code error_none ≡ false = int_eq-ne code error_none f in
            let kept : (s.buffer == map_failed) ≡ false =
              ground (arith, o.mapped, ==_iff s.buffer map_failed) in
            live-end s.buffer ∙ rw (bad, kept) (ground (arith)),
      )
