-- ===== src/SysInfo/CacheInfo/Left/Agrees.antt =====
-- The stores of cache_info_fill and cache_info_new against the results of these functions.
use cache_noise_visualizer.Base.{
  ℕ, zero, suc, ◌+◌, ◌==◌, ◌≡◌, Bool, true, false, ◌&&◌, if◌then◌else◌, inl, inr, Bool-cases,
}
use cache_noise_visualizer.Base.Words.{u8}
use cache_noise_visualizer.Errors.{ErrorCode}
use cache_noise_visualizer.Result.{Result, ok, err, fault, Result-cases}
use cache_noise_visualizer.Result.Pure.{◌>>=◌}
use cache_noise_visualizer.SysInfo.Files.{Files}
use cache_noise_visualizer.SysInfo.CacheInfo.{
  CacheInfo, cache_info_fill, cache_count, fill_until, checked_level, cache_info_new, holds_data,
}
use cache_noise_visualizer.SysInfo.CacheInfo.Left.{
  left_by, fill_stored, fill_left, until_stored, new_stored,
}

-- Where the result is `ok`, it is what has been stored.
pub record Agrees (r : Result CacheInfo) (stored : CacheInfo) : Type 0 where
  pub at : (found : CacheInfo) → r ≡ ok found → stored ≡ found

Agrees-ok : (found : CacheInfo) → Agrees (ok found) found
Agrees-ok found = record { at = λ other e. cc }

Agrees-err : (e : ErrorCode) (stored : CacheInfo) → Agrees (err e) stored
Agrees-err e stored = record { at = λ other p. cc }

Agrees-bind :
    {A : Type 0} (r : Result A) (info : CacheInfo) (f : A → Result CacheInfo) (rest : A → CacheInfo)
    → ((a : A) → Agrees (f a) (rest a))
    → Agrees (r >>= f) (left_by r info rest)
Agrees-bind (ok a) info f rest k = k a
Agrees-bind (err e) info f rest k = Agrees-err e info
Agrees-bind (fault x) info f rest k = record { at = λ other p. cc }

Agrees-if :
    (b : Bool) (r q : Result CacheInfo) (i j : CacheInfo)
    → Agrees r i
    → Agrees q j
    → Agrees (if b then r else q) (if b then i else j)
Agrees-if true r q i j h k = h
Agrees-if false r q i j h k = k

module _ {W : Type 0} (files : Files W) where
  cache_info_fill-Agrees :
      (info : CacheInfo) (cache cpu : ℕ) (w : W)
      → Agrees (cache_info_fill files info cache cpu w) (fill_stored files info cache cpu w)
  unfolding cache_info_fill fill_stored
  cache_info_fill-Agrees info cache cpu w = search (Agrees-bind, Agrees-ok) depth 12

  fill_until-Agrees :
      (left i cpu level : ℕ) (info : CacheInfo) (w : W)
      → Agrees
          (fill_until files left i cpu level info w)
          (until_stored files left i cpu level info w)
  unfolding fill_until until_stored fill_left
  fill_until-Agrees zero i cpu level info w = Agrees-ok info
  fill_until-Agrees (suc left) i cpu level info w =
      elim (Result-cases (cache_info_fill files info i cpu w)) [
        | inl (found, filled) ↦ rw filled (
            Agrees-if (holds_data found.type && (level == found.level)) _ _ _ _ (Agrees-ok found)
              (fill_until-Agrees left (i + 1) cpu level found w))
        | inr (inl (e, refused)) ↦ rw refused (Agrees-err e _)
        | inr (inr (x, stopped)) ↦ rw stopped (record { at = λ other p. cc })
      ]

  -- The test of the level stores nothing.
  Agrees-checked :
      (level : ℕ) (r : Result CacheInfo) (c : CacheInfo)
      → Agrees r c
      → Agrees (r >>= checked_level files level) c
  unfolding checked_level
  Agrees-checked level (ok info) c h = record {
    at = λ found e. elim (Bool-cases (level == info.level)) [
      | inl same ↦ h.at found (rw same at e)
      | inr other ↦ cc (rw other at e)
    ];
  }
  Agrees-checked level (err e) c h = Agrees-err e c
  Agrees-checked level (fault x) c h = record { at = λ other p. cc }

  -- Where cache_info_new returns ERROR_NONE, what it has stored in `*info`, call by call and field by
  -- field, is the cache of its result.
  pub new_stored-result :
      (info found : CacheInfo) (cpu level : ℕ) (w : W)
      → cache_info_new files info cpu level w ≡ ok found
      → new_stored files info cpu level w ≡ found
  unfolding cache_info_new new_stored
  new_stored-result info found cpu level w run =
      (Agrees-bind (cache_count files (u8 cpu) w) info _ _ λ count.
          Agrees-checked (u8 level) (fill_until files count 0 (u8 cpu) (u8 level) info w) _
            (fill_until-Agrees count 0 (u8 cpu) (u8 level) info w)).at
        found run
