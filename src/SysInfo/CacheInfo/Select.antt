-- ===== src/SysInfo/CacheInfo/Select.antt =====
-- Which cache cache_info_new picks.
use cache_noise_visualizer.Base.{
  ℕ, ◌+◌, ◌≡◌, refl, ap, ◌∙◌, inl, inr, true, false, ◌&&◌, List, [], ◌∷◌, Option, none, some, ◌==◌,
  if◌then◌else◌, arith, Bool-cases, Option-cases, length, ◌++◌, ==_iff,
}
use cache_noise_visualizer.SysInfo.Text.{cache_index_path}
use cache_noise_visualizer.SysInfo.CacheInfo.Fill.{Described, Shows, Fits, info_of, fill-Shows}
use cache_noise_visualizer.Base.Words.{u8}
use cache_noise_visualizer.Errors.{error_cache_not_exists}
use cache_noise_visualizer.Result.{Result, ok, err}
use cache_noise_visualizer.SysInfo.Files.{Files}
use cache_noise_visualizer.SysInfo.CacheInfo.{
  CacheInfo, cache_count, fill_until, checked_level, cache_info_new, holds_data,
}

-- The caches of a CPU from index `i` on, as the files describe them.
module _ {W : Type 0} (files : Files W) where
  abbrev pub ShowsAll : ℕ → ℕ → List Described → W → Type 0
  ShowsAll cpu i [] w = Unit
  ShowsAll cpu i (d ∷ ds) w =
      Shows files (cache_index_path cpu i) d w × Fits d × ShowsAll cpu (i + 1) ds w

-- The first cache that holds data at the level.
unfoldable pub first_data : ℕ → ℕ → ℕ → List Described → Option CacheInfo
first_data cpu level i [] = none
first_data cpu level i (d ∷ ds) =
    if holds_data d.type && (level == d.level)
    then some (info_of d i cpu)
    else first_data cpu level (i + 1) ds

-- The last cache, or `info` if there is none.
unfoldable pub last_cache : ℕ → ℕ → CacheInfo → List Described → CacheInfo
last_cache cpu i info [] = info
last_cache cpu i info (d ∷ ds) = last_cache cpu (i + 1) (info_of d i cpu) ds

abbrev pub first_or : Option CacheInfo → CacheInfo → CacheInfo
first_or (some c) last = c
first_or none last = last

abbrev pub chosen : ℕ → Option CacheInfo → CacheInfo → Result CacheInfo
chosen level (some c) last = ok c
chosen level none last = if level == last.level then ok last else err error_cache_not_exists

last_cache-append :
    (cpu i : ℕ) (info : CacheInfo) (ds : List Described) (d : Described)
    → last_cache cpu i info (ds ++ d ∷ []) ≡ info_of d (i + length ds) cpu
unfolding last_cache
last_cache-append cpu i info [] d = ap (λ j. info_of d j cpu) (omega arith)
last_cache-append cpu i info (e ∷ ds) d =
    last_cache-append cpu (i + 1) (info_of e i cpu) ds d ∙ ap (λ j. info_of d j cpu) (omega arith)

first_data-append_none :
    (cpu level i : ℕ) (ds : List Described) (d : Described)
    → first_data cpu level i (ds ++ d ∷ []) ≡ none
    → (holds_data d.type && (level == d.level)) ≡ false
unfolding first_data
first_data-append_none cpu level i [] d e = ground arith
first_data-append_none cpu level i (c ∷ ds) d e =
    first_data-append_none cpu level (i + 1) ds d (ground arith)

first_data-level :
    (cpu level i : ℕ) (ds : List Described) (c : CacheInfo)
    → first_data cpu level i ds ≡ some c
    → (holds_data c.type ≡ true) × (level ≡ c.level)
unfolding first_data
first_data-level cpu level i [] c e = cc
first_data-level cpu level i (d ∷ ds) c e =
    elim (Bool-cases (holds_data d.type && (level == d.level))) [
      | inl hit ↦ ground arith
      | inr miss ↦ first_data-level cpu level (i + 1) ds c (rw miss at e)
    ]

module _ {W : Type 0} (files : Files W) where
  fill_until-ShowsAll :
      (cpu level i : ℕ) (info : CacheInfo) (ds : List Described) (w : W)
      → ShowsAll files cpu i ds w
      → fill_until files (length ds) i cpu level info w
        ≡ ok (first_or (first_data cpu level i ds) (last_cache cpu i info ds))
  unfolding fill_until first_data last_cache
  fill_until-ShowsAll cpu level i info [] w s = refl
  fill_until-ShowsAll cpu level i info (d ∷ ds) w s =
      rw (fill-Shows files info i cpu w d s.0 s.1)
        (elim (Bool-cases (holds_data d.type && (level == d.level))) [
          | inl hit ↦ rw hit
          | inr miss ↦ rw (miss, fill_until-ShowsAll cpu level (i + 1) (info_of d i cpu) ds w s.2)
        ])

  -- If the files describe the caches `ds` of the CPU and the directory lists that many, then
  -- cache_info_new returns the first cache of the requested level that holds data; without one it
  -- returns the last cache of the directory, whatever its type, if that has the level (without any
  -- cache it compares the old content of the structure), and fails with ERROR_CACHE_NOT_EXISTS
  -- otherwise. CPU number and level are those of the call cut to 8 bits.
  pub cache_info_new-ShowsAll :
      (info : CacheInfo) (cpu level : ℕ) (ds : List Described) (w : W)
      → cache_count files (u8 cpu) w ≡ ok (length ds)
      → ShowsAll files (u8 cpu) 0 ds w
      → cache_info_new files info cpu level w
        ≡ chosen (u8 level) (first_data (u8 cpu) (u8 level) 0 ds) (last_cache (u8 cpu) 0 info ds)
  unfolding cache_info_new checked_level
  cache_info_new-ShowsAll info cpu level ds w listed s =
      rw (listed, fill_until-ShowsAll (u8 cpu) (u8 level) 0 info ds w s)
        (elim (Option-cases (first_data (u8 cpu) (u8 level) 0 ds)) [
          | inl e ↦ rw e
          | inr (c, e) ↦ rw e (ground (arith, first_data-level (u8 cpu) (u8 level) 0 ds c e))
        ])

  -- When no cache of the requested level holds data, but the last cache of the directory has that
  -- level, cache_info_new succeeds with that cache, which does not hold data.
  cache_info_new-no_data :
      (info : CacheInfo) (cpu level : ℕ) (d : Described) (ds : List Described) (w : W)
      → cache_count files (u8 cpu) w ≡ ok (length (ds ++ d ∷ []))
      → ShowsAll files (u8 cpu) 0 (ds ++ d ∷ []) w
      → first_data (u8 cpu) (u8 level) 0 (ds ++ d ∷ []) ≡ none
      → u8 level ≡ d.level
      → (c : CacheInfo) × (cache_info_new files info cpu level w ≡ ok c)
        × (c.type ≡ d.type)
        × (holds_data c.type ≡ false)
  cache_info_new-no_data info cpu level d ds w listed s none_holds same =
      let miss = first_data-append_none (u8 cpu) (u8 level) 0 ds d none_holds in
      let last = last_cache-append (u8 cpu) 0 info ds d in
      let hit = (==_iff (u8 level) d.level).1 same in
      (
        info_of d (0 + length ds) (u8 cpu),
        cache_info_new-ShowsAll info cpu level (ds ++ d ∷ []) w listed s
            ∙ rw (none_holds, last, hit) refl,
        refl,
        ground (arith, ==_iff (u8 level) d.level),
      )
