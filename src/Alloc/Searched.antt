-- ===== src/Alloc/Searched.antt =====
-- How the search loop of alloc_aligned can end.
use cache_noise_visualizer.Base.{
  ℕ, zero, suc, ◌+◌, ◌<◌, ◌≡◌, ◌≢◌, ◌⊎◌, refl, subst, ◌∙◌, Bool, true, false, ◌||◌, List, [], ◌∷◌,
  ◌++◌, ◌==◌, arith, Bool-cases, inl, inr, ==_iff,
}
use cache_noise_visualizer.Base.Int.{int_eq, int_eq_iff}
use cache_noise_visualizer.Errors.{ErrorCode, error_mmap, error_not_aligned}
use cache_noise_visualizer.Result.{done}
use cache_noise_visualizer.Result.Sys.{status, and_then-done, done-subst}
use cache_noise_visualizer.SysInfo.Files.{Files}
use cache_noise_visualizer.SysInfo.CacheInfo.{CacheInfo}
use cache_noise_visualizer.Memory.{Memory, map_failed}
use cache_noise_visualizer.Alloc.{Search, search_state, test_alignment, search_loop}
use cache_noise_visualizer.Alloc.Ledger.{
  Ledger, KeepsLive, test_alignment-KeepsLive, status-KeepsLive,
}

abbrev pub has : ℕ → List ℕ → Bool
has a [] = false
has a (b ∷ bs) = (a == b) || has a bs

has-append : (a b : ℕ) (bs : List ℕ) → has a (bs ++ b ∷ []) ≡ ((a == b) || has a bs)
has-append a b [] = refl
has-append a b (c ∷ bs) = ground (arith, has-append a b bs)

module _ {W : Type 0} (live : ℕ → W → Bool) (live₀ : ℕ → Bool) where
  -- The buffers put aside are live besides what was live before, and they are new.
  pub record Owns (olds : List ℕ) (v : W) : Type 0 where
    pub owned : (a : ℕ) → live a v ≡ (has a olds || live₀ a)
    pub fresh : (a : ℕ) → has a olds ≡ true → live₀ a ≡ false

  -- The buffer of the last try is live as well, and the alignment test did not refuse it.
  pub record Holds (s : Search) (v : W) : Type 0 where
    pub held : (a : ℕ) → live a v ≡ ((a == s.buffer) || (has a s.old_buffers || live₀ a))
    pub fresh_olds : (a : ℕ) → has a s.old_buffers ≡ true → live₀ a ≡ false
    pub fresh_buffer : (has s.buffer s.old_buffers ≡ false) × (live₀ s.buffer ≡ false)
    pub mapped : s.buffer ≢ map_failed
    pub accepted : s.error ≢ error_not_aligned

  pub data Ended (max_tries : ℕ) (s : Search) (v : W) : Type 0 where
    no_mapping :
        Owns s.old_buffers v
        → s.buffer ≡ map_failed
        → s.error ≡ error_mmap
        → s.tries < max_tries
        → Ended max_tries s v
    holding : Holds s v → s.tries < max_tries → Ended max_tries s v
    exhausted :
        Owns s.old_buffers v
        → has s.buffer s.old_buffers ≡ true
        → s.tries ≡ max_tries
        → Ended max_tries s v

module _ {W : Type 0} (files : Files W) (memory : Memory W) (l : ℕ) (live : ℕ → W → Bool)
    (ledger : Ledger memory l live) (cache : CacheInfo) (h max_tries : ℕ) (live₀ : ℕ → Bool) where
  -- The world behind a successful mmap and the alignment test of its buffer.
  tried :
      (olds : List ℕ) (v v' : W) (error : ErrorCode) (a : ℕ)
      → Owns live live₀ olds v
      → ((memory.mmap cache.total_size v).0 == map_failed) ≡ false
      → status
          (test_alignment files memory (memory.mmap cache.total_size v).0 cache h)
          (memory.mmap cache.total_size v).1
        ≡ done error v'
      → live a v' ≡ ((a == (memory.mmap cache.total_size v).0) || (has a olds || live₀ a))
  tried olds v v' error a owns mapped tested =
      let b = (memory.mmap cache.total_size v).0 in
      let v₁ = (memory.mmap cache.total_size v).1 in
      let kept = subst (KeepsLive live a (live a v₁)) tested (
        status-KeepsLive live a (live a v₁) (test_alignment files memory b cache h v₁)
          (test_alignment-KeepsLive files memory l live ledger b cache a h v₁)) in
      kept ∙ ledger.mmap_live cache.total_size v a ∙ rw (mapped, owns.owned a) refl

  -- A new buffer that was refused joins those put aside.
  Owns-append :
      (olds : List ℕ) (v v' : W) (error : ErrorCode)
      → Owns live live₀ olds v
      → ((memory.mmap cache.total_size v).0 == map_failed) ≡ false
      → status
          (test_alignment files memory (memory.mmap cache.total_size v).0 cache h)
          (memory.mmap cache.total_size v).1
        ≡ done error v'
      → Owns live live₀ (olds ++ (memory.mmap cache.total_size v).0 ∷ []) v'
  Owns-append olds v v' error owns mapped tested = record {
    owned = λ a. ground (
      arith,
      tried olds v v' error a owns mapped tested,
      has-append a (memory.mmap cache.total_size v).0 olds,
    );
    fresh = λ a member. ground (
      arith,
      has-append a (memory.mmap cache.total_size v).0 olds,
      owns.fresh a,
      ledger.mmap_fresh cache.total_size v,
      owns.owned (memory.mmap cache.total_size v).0,
      ==_iff a (memory.mmap cache.total_size v).0,
    );
  }

  Holds-try :
      (t : ℕ) (olds : List ℕ) (v v' : W) (error : ErrorCode)
      → Owns live live₀ olds v
      → ((memory.mmap cache.total_size v).0 == map_failed) ≡ false
      → status
          (test_alignment files memory (memory.mmap cache.total_size v).0 cache h)
          (memory.mmap cache.total_size v).1
        ≡ done error v'
      → int_eq error error_not_aligned ≡ false
      → Holds live live₀ (search_state t olds (memory.mmap cache.total_size v).0 error) v'
  Holds-try t olds v v' error owns mapped tested accepted = record {
    held = λ a. tried olds v v' error a owns mapped tested;
    fresh_olds = owns.fresh;
    fresh_buffer = ground (
      arith,
      ledger.mmap_fresh cache.total_size v,
      owns.owned (memory.mmap cache.total_size v).0,
    );
    mapped = ground arith;
    accepted = λ e. cc (accepted, (int_eq_iff error error_not_aligned).1 e);
  }

  Owns-unmapped :
      (olds : List ℕ) (v : W)
      → Owns live live₀ olds v
      → ((memory.mmap cache.total_size v).0 == map_failed) ≡ true
      → Owns live live₀ olds (memory.mmap cache.total_size v).1
  Owns-unmapped olds v owns unmapped = record {
    owned = λ a. ledger.mmap_live cache.total_size v a ∙ rw unmapped (owns.owned a);
    fresh = owns.fresh;
  }

  pub search_loop-Ended_from :
      (left : ℕ) (s s' : Search) (v v' : W)
      → Owns live live₀ s.old_buffers v
      → s.tries + left ≡ max_tries
      → (has s.buffer s.old_buffers ≡ true) ⊎ (0 < left)
      → search_loop files memory left s cache h v ≡ done s' v'
      → Ended live live₀ max_tries s' v'
  unfolding search_loop
  search_loop-Ended_from zero s s' v v' owns count start run =
      done-subst (Ended live live₀ max_tries) run (exhausted owns (ground arith) (omega arith))
  search_loop-Ended_from (suc left) s s' v v' owns count start run =
      elim (Bool-cases ((memory.mmap cache.total_size v).0 == map_failed)) [
        | inl unmapped ↦ done-subst (Ended live live₀ max_tries) (rw unmapped at run) (
            no_mapping (Owns-unmapped s.old_buffers v owns unmapped) ((==_iff _ _).0 unmapped) refl
              (omega arith))
        | inr mapped ↦
            let (error, v₂, tested, rest) =
              and_then-done
                (status (test_alignment files memory (memory.mmap cache.total_size v).0 cache h)
                  (memory.mmap cache.total_size v).1)
                _ (rw mapped at run) in
            elim (Bool-cases (int_eq error error_not_aligned)) [
              | inl refused ↦
                  search_loop-Ended_from left
                    (search_state (s.tries + 1)
                      (s.old_buffers ++ (memory.mmap cache.total_size v).0 ∷ [])
                      (memory.mmap cache.total_size v).0 error)
                    s' v₂ v' (Owns-append s.old_buffers v v₂ error owns mapped tested) (omega arith)
                    (inl (
                      ground (
                        arith,
                        has-append (memory.mmap cache.total_size v).0
                            (memory.mmap cache.total_size v).0 s.old_buffers,
                      )))
                    (rw refused at rest)
              | inr accepted ↦ done-subst (Ended live live₀ max_tries) (rw accepted at rest) (
                  holding (Holds-try s.tries s.old_buffers v v₂ error owns mapped tested accepted)
                    (omega arith))
            ]
      ]
