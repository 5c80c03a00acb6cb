-- ===== src/Alloc/Outcomes.antt =====
-- All the ways in which alloc_aligned can return, for the mappings of the world.
use cache_noise_visualizer.Base.{
  ℕ, zero, suc, ◌+◌, ◌*◌, ◌<◌, ◌≡◌, ◌≢◌, inl, inr, refl, sym, subst, Bool, true, false, [], ◌∷◌,
  ◌++◌, some, ltb, ◌==◌, if◌then◌else◌, arith, Bool-cases, Option-cases, ◌^◌, le→ltb,
}
use cache_noise_visualizer.Base.Int.{int_eq}
use cache_noise_visualizer.Errors.{ErrorCode, error_none, error_not_aligned}
use cache_noise_visualizer.Result.{Fault, Run, done, failed, stuck, Result-cases, ok}
use cache_noise_visualizer.Result.Sys.{Sys, code_of, and_then}
use cache_noise_visualizer.SysInfo.Files.{Files}
use cache_noise_visualizer.SysInfo.CacheInfo.{CacheInfo}
use cache_noise_visualizer.SysInfo.Hugepages.{get_hugepagenr, get_hugepagesize}
use cache_noise_visualizer.Memory.{Memory, map_failed}
use cache_noise_visualizer.Alloc.{
  Search, search_state, test_alignment, search_loop, alloc_aligned, free_aligned,
}
use cache_noise_visualizer.Alloc.Ledger.{Ledger}
use cache_noise_visualizer.Alloc.Leaks.{alloc_aligned-no_leak, alloc_aligned-closed}
use cache_noise_visualizer.Alloc.Length.{length_loop-Covers}
use cache_noise_visualizer.Alloc.Masking.{Releases}

-- A run that is not over with an error: it returns its code as a value.
record Settles {W A : Type 0} (r : Run W A) : Type 0 where
  never : (e : ErrorCode) (w : W) → r ≢ failed e w

Settles-done : {W A : Type 0} (a : A) (w : W) → Settles (done a w)
Settles-done a w = record { never = λ e v p. cc }

Settles-stuck : {W A : Type 0} (x : Fault) → Settles {W = W} {A = A} (stuck x)
Settles-stuck x = record { never = λ e v p. cc }

Settles-status :
    {W B : Type 0} (r : Run W (Unit {0})) (f : ErrorCode → Sys W B)
    → ((e : ErrorCode) (w : W) → Settles (f e w))
    → Settles (and_then (code_of r) f)
Settles-status (done a w) f k = k error_none w
Settles-status (failed e w) f k = k e w
Settles-status (stuck x) f k = Settles-stuck x

Settles-if :
    {W A : Type 0} (b : Bool) (r s : Run W A) → Settles r → Settles s → Settles (if b then r else s)
Settles-if true r s h k = h
Settles-if false r s h k = k

module _ {W : Type 0} (files : Files W) (memory : Memory W) (cache : CacheInfo) (h : ℕ) where
  search_loop-Settles :
      (left : ℕ) (s : Search) (w : W) → Settles (search_loop files memory left s cache h w)
  unfolding search_loop
  search_loop-Settles zero s w = Settles-done s w
  search_loop-Settles (suc left) s w =
      let buffer = (memory.mmap cache.total_size w).0 in
      let v = (memory.mmap cache.total_size w).1 in
      elim (Bool-cases (buffer == map_failed)) [
        | inl unmapped ↦ rw unmapped (Settles-done _ v)
        | inr mapped ↦ rw mapped (
            Settles-status (test_alignment files memory buffer cache h v) _ λ error u.
              elim (Bool-cases (int_eq error error_not_aligned)) [
                | inl refused ↦ rw refused (
                    search_loop-Settles left
                      (search_state (s.tries + 1) (s.old_buffers ++ buffer ∷ []) buffer error) u)
                | inr accepted ↦ rw accepted (Settles-done _ u)
              ])
      ]

-- What the program relies on of the huge pages and of munmap, for the test `live a v` that the world
-- `v` has a mapping at the address `a`: the size of the huge pages can always be read and is between
-- 1 and 2 ^ 63 - 1, munmap succeeds for every address but MAP_FAILED, and neither MAP_FAILED nor the
-- null pointer is the address of a mapping.
pub record Mapper {W : Type 0} (files : Files W) (memory : Memory W) (live : ℕ → W → Bool) (h : ℕ)
    : Type 0 where
  pub readable : (v : W) → get_hugepagesize files v ≡ ok h
  pub page_pos : 0 < h
  pub page_room : h < 2 ^ 63
  pub unmaps : (b l : ℕ) (v : W) → (b == map_failed) ≡ false → (memory.munmap b l v).0 ≡ true
  pub unmappable : (v : W) → live map_failed v ≡ false
  pub null_unmapped : (v : W) → live 0 v ≡ false
  pub ledger : (l : ℕ) → Ledger memory l live

-- What alloc_aligned returns and leaves: the pointer and the mappings as they were, or the address of
-- a try, which was not mapped before, and the other mappings as they were; with an error code, that
-- address is not mapped now either.
pub data Outcome {W : Type 0} (live : ℕ → W → Bool) (buffer : ℕ) (w : W) (e : ErrorCode) (b : ℕ)
    (v : W) : Type 0 where
  untried : b ≡ buffer → ((a : ℕ) → live a v ≡ live a w) → Outcome live buffer w e b v
  tried :
      live b w ≡ false
      → ((a : ℕ) → a ≢ b → live a v ≡ live a w)
      → (e ≢ error_none → live b v ≡ false)
      → Outcome live buffer w e b v

abbrev pub Returns : {W : Type 0} → (ℕ → W → Bool) → ℕ → W → Run W (ErrorCode × ℕ) → Type 0
Returns live buffer w (done (e, b) v) = Outcome live buffer w e b v
Returns live buffer w (failed e v) = true ≡ false
Returns live buffer w (stuck x) = Unit

module _ {W : Type 0} (files : Files W) (memory : Memory W) (live : ℕ → W → Bool) (h : ℕ)
    (mapper : Mapper files memory live h) (cache : CacheInfo)
    (small : cache.total_size < 2 ^ 32) where
  pub releases : (l : ℕ) × Releases files memory cache h l
  unfolding free_aligned
  releases =
      let (l, run, covers) =
        length_loop-Covers h cache.total_size mapper.page_pos mapper.page_room small in
      (
        l,
        record {
          readable = mapper.readable;
          released = λ b v mapped. rw (mapper.readable v, run, mapper.unmaps b l v mapped) refl;
        },
      )

  searched-Outcome :
      (stale buffer max_tries : ℕ) (w w₁ w₂ : W) (s : Search)
      → get_hugepagenr files stale w ≡ ok max_tries
      → 0 < max_tries
      → memory.malloc (8 * max_tries) w ≡ some w₁
      → search_loop files memory max_tries (search_state 0 [] buffer error_none) cache h w₁
        ≡ done s w₂
      → Returns live buffer w (alloc_aligned files memory stale buffer cache w)
  searched-Outcome stale buffer max_tries w w₁ w₂ s number some_tries allocated searched =
      let (l, always) = releases in
      let (run, fresh, closed) =
        alloc_aligned-closed files memory cache h l always live (mapper.ledger l) stale buffer
          max_tries w w₁ w₂ s number some_tries allocated searched mapper.unmappable in
      subst (Returns live buffer w) (sym run) (
        tried fresh
          (λ a other.
            (alloc_aligned-no_leak files memory cache h l always live (mapper.ledger l) stale buffer
              max_tries w w₁ w₂ s number some_tries allocated searched a other).1)
          closed)

  searched-Returns :
      (stale buffer max_tries : ℕ) (w w₁ : W) (r : Run W Search)
      → get_hugepagenr files stale w ≡ ok max_tries
      → 0 < max_tries
      → memory.malloc (8 * max_tries) w ≡ some w₁
      → search_loop files memory max_tries (search_state 0 [] buffer error_none) cache h w₁ ≡ r
      → Settles r
      → Returns live buffer w (alloc_aligned files memory stale buffer cache w)
  unfolding alloc_aligned
  searched-Returns stale buffer max_tries w w₁ (done s w₂) number pos allocated searched settles =
      searched-Outcome stale buffer max_tries w w₁ w₂ s number pos allocated searched
  searched-Returns stale buffer max_tries w w₁ (failed e v) number pos allocated searched settles =
      absurd (settles.never e v refl)
  searched-Returns stale buffer max_tries w w₁ (stuck x) number pos allocated searched settles =
      rw (number, le→ltb max_tries 1 pos, mapper.readable w, allocated, searched) tt

  -- However alloc_aligned returns, it has one of these outcomes; it always returns a code.
  pub alloc_aligned-Returns :
      (stale buffer : ℕ) (w : W)
      → Returns live buffer w (alloc_aligned files memory stale buffer cache w)
  unfolding alloc_aligned
  alloc_aligned-Returns stale buffer w = elim (Result-cases (get_hugepagenr files stale w)) [
    | inl (max_tries, number) ↦ elim (Bool-cases (ltb max_tries 1)) [
      | inl no_pages ↦ rw (number, no_pages) (untried refl (λ a. refl))
      | inr some_pages ↦ elim (Option-cases (memory.malloc (8 * max_tries) w)) [
        | inl refused ↦
            rw (number, some_pages, mapper.readable w, refused) (untried refl (λ a. refl))
        | inr (w₁, allocated) ↦
            searched-Returns stale buffer max_tries w w₁ _ number (ground arith) allocated refl (
              search_loop-Settles files memory cache h max_tries
                (search_state 0 [] buffer error_none) w₁)
      ]
    ]
    | inr (inl (e, refused)) ↦ rw refused (untried refl (λ a. refl))
    | inr (inr (x, stopped)) ↦ rw stopped tt
  ]
