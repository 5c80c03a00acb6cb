-- ===== src/SysInfo/CacheInfo/Left/Small.antt =====
-- The size of a cache stays a 32-bit number.
use cache_noise_visualizer.Base.{
  ℕ, zero, suc, ◌+◌, ◌^◌, ◌<◌, ◌==◌, ◌≡◌, refl, inl, inr, Bool, true, false, ◌&&◌, arith,
  if◌then◌else◌,
}
use cache_noise_visualizer.Base.Words.{u8, u32}
use cache_noise_visualizer.Errors.{error_cache_not_exists}
use cache_noise_visualizer.Result.{Result, ok, err, fault, Result-cases}
use cache_noise_visualizer.Result.Yields.{
  Yields, Yields-ok, Yields-err, Yields-if, Yields-after, Yields-bind,
}
use cache_noise_visualizer.SysInfo.Files.{Files}
use cache_noise_visualizer.SysInfo.CacheInfo.{
  CacheInfo, CacheType, cache_info_fill, cache_info_new, fill_until, checked_level, cache_count,
  holds_data,
}
use cache_noise_visualizer.SysInfo.CacheInfo.Left.{
  left_by, result_or, fill_stored, fill_left, until_stored, new_left,
}

pub record Small (info : CacheInfo) : Type 0 where
  pub total : info.total_size < 2 ^ 32

u32-Small : (n : ℕ) (info : CacheInfo) → info.total_size ≡ u32 n → Small info
u32-Small n info e = record { total = omega arith }

-- The fields of a cache whose size is a 32-bit word.
u32_with-Small :
    (line n cache cpu sets ways level : ℕ) (type : CacheType)
    → Small (record {
      line_size = line;
      total_size = u32 n;
      cache_id = cache;
      cpu_id = cpu;
      set_count = sets;
      ways_of_associativity = ways;
      level = level;
      type = type;
    })
u32_with-Small line n cache cpu sets ways level type = u32-Small n _ refl

lined-Small :
    (info : CacheInfo) → Small info → (line : ℕ) → Small (record info { line_size = line })
lined-Small info h line = record { total = h.total }

left_by-Small :
    {A : Type 0} (r : Result A) (info : CacheInfo) (rest : A → CacheInfo)
    → Small info
    → ((a : A) → Small (rest a))
    → Small (left_by r info rest)
left_by-Small (ok a) info rest h k = k a
left_by-Small (err e) info rest h k = h
left_by-Small (fault x) info rest h k = h

if-Small : (b : Bool) (i j : CacheInfo) → Small i → Small j → Small (if b then i else j)
if-Small true i j h k = h
if-Small false i j h k = k

result_or-Small :
    (r : Result CacheInfo) (left : CacheInfo)
    → Yields Small r
    → Small left
    → Small (result_or r left)
result_or-Small (ok found) left h k = h.at found refl
result_or-Small (err e) left h k = k
result_or-Small (fault x) left h k = k

module _ {W : Type 0} (files : Files W) where
  cache_info_fill-Small :
      (info : CacheInfo) (cache cpu : ℕ) (w : W)
      → Yields Small (cache_info_fill files info cache cpu w)
  unfolding cache_info_fill
  cache_info_fill-Small info cache cpu w = search (Yields-after, Yields-ok, u32_with-Small) depth 12

  fill_stored-Small :
      (info : CacheInfo) (cache cpu : ℕ) (w : W)
      → Small info
      → Small (fill_stored files info cache cpu w)
  unfolding fill_stored
  fill_stored-Small info cache cpu w h =
      search (left_by-Small, lined-Small info h, u32_with-Small) depth 15

  fill_left-Small :
      (info : CacheInfo) (cache cpu : ℕ) (w : W)
      → Small info
      → Small (fill_left files info cache cpu w)
  unfolding fill_left
  fill_left-Small info cache cpu w h =
      result_or-Small (cache_info_fill files info cache cpu w) _
        (cache_info_fill-Small info cache cpu w) (fill_stored-Small info cache cpu w h)

  fill_until-Small :
      (left i cpu level : ℕ) (info : CacheInfo) (w : W)
      → Small info
      → Yields Small (fill_until files left i cpu level info w)
  unfolding fill_until
  fill_until-Small zero i cpu level info w h = Yields-ok info h
  fill_until-Small (suc left) i cpu level info w h =
      Yields-bind (cache_info_fill files info i cpu w) _ (cache_info_fill-Small info i cpu w)
        λ found k.
          Yields-if (holds_data found.type && (level == found.level)) _ _ (Yields-ok found k)
            (fill_until-Small left (i + 1) cpu level found w k)

  until_stored-Small :
      (left i cpu level : ℕ) (info : CacheInfo) (w : W)
      → Small info
      → Small (until_stored files left i cpu level info w)
  unfolding until_stored
  until_stored-Small zero i cpu level info w h = h
  until_stored-Small (suc left) i cpu level info w h =
      elim (Result-cases (cache_info_fill files info i cpu w)) [
        | inl (found, filled) ↦ rw filled (
            if-Small (holds_data found.type && (level == found.level)) _ _
              ((cache_info_fill-Small info i cpu w).at found filled)
              (until_stored-Small left (i + 1) cpu level _ w (fill_left-Small info i cpu w h)))
        | inr (inl (e, refused)) ↦ rw refused (fill_left-Small info i cpu w h)
        | inr (inr (x, stopped)) ↦ rw stopped (fill_left-Small info i cpu w h)
      ]

  checked_level-Small :
      (level : ℕ) (info : CacheInfo) → Small info → Yields Small (checked_level files level info)
  unfolding checked_level
  checked_level-Small level info h =
      Yields-if (level == info.level) (ok info) (err error_cache_not_exists) (Yields-ok info h)
        (Yields-err error_cache_not_exists)

  cache_info_new-Small :
      (info : CacheInfo) (cpu level : ℕ) (w : W)
      → Small info
      → Yields Small (cache_info_new files info cpu level w)
  unfolding cache_info_new
  cache_info_new-Small info cpu level w h = Yields-after (cache_count files (u8 cpu) w) _ λ count.
      Yields-bind (fill_until files count 0 (u8 cpu) (u8 level) info w)
        (checked_level files (u8 level)) (fill_until-Small count 0 (u8 cpu) (u8 level) info w h)
        (checked_level-Small (u8 level))

  pub new_left-Small :
      (info : CacheInfo) (cpu level : ℕ) (w : W)
      → Small info
      → Small (new_left files info cpu level w)
  unfolding new_left
  new_left-Small info cpu level w h =
      result_or-Small (cache_info_new files info cpu level w) _
        (cache_info_new-Small info cpu level w h)
        (left_by-Small (cache_count files (u8 cpu) w) info _ h
          λ count. until_stored-Small count 0 (u8 cpu) (u8 level) info w h)
