-- ===== src/Alloc/Ledger.antt =====
-- A ledger of live mappings, and the calls that leave it as it is.
use cache_noise_visualizer.Base.{
  ℕ, zero, suc, ◌/◌, ◌*◌, ◌+◌, ◌≡◌, refl, Bool, false, not, ◌&&◌, ◌||◌, some, ltb, ◌==◌,
  if◌then◌else◌, arith, Bool-cases, Option-cases, inl, inr,
}
use cache_noise_visualizer.Base.Words.{u64}
use cache_noise_visualizer.Result.{Result-cases, Run, done, failed, stuck}
use cache_noise_visualizer.Result.Sys.{Sys, and_then, code_of}
use cache_noise_visualizer.SysInfo.Files.{Files}
use cache_noise_visualizer.SysInfo.CacheInfo.{CacheInfo}
use cache_noise_visualizer.SysInfo.Pagemap.{get_physical_address}
use cache_noise_visualizer.Memory.{Memory, Message, map_failed}
use cache_noise_visualizer.Alloc.{check_line, align_loop, test_alignment}

-- What the program relies on of mmap and munmap, for a test `live a v` that the world `v` has a
-- mapping at the address `a`: mmap answers MAP_FAILED or a new address, munmap removes the address
-- that it is given, and no other call changes the mappings.
pub record Ledger {W : Type 0} (memory : Memory W) (l : ℕ) (live : ℕ → W → Bool) : Type 0 where
  pub mmap_fresh : (n : ℕ) (v : W) → live (memory.mmap n v).0 v ≡ false
  pub mmap_live :
      (n : ℕ) (v : W) (a : ℕ)
      → live a (memory.mmap n v).1 ≡ (
          if (memory.mmap n v).0 == map_failed
          then live a v
          else (a == (memory.mmap n v).0) || live a v)
  pub munmap_live :
      (b : ℕ) (v : W) (a : ℕ) → live a (memory.munmap b l v).1 ≡ (not (a == b) && live a v)
  pub store_live : (p : ℕ) (v v' : W) (a : ℕ) → memory.store p v ≡ some v' → live a v' ≡ live a v
  pub malloc_live : (n : ℕ) (v v' : W) (a : ℕ) → memory.malloc n v ≡ some v' → live a v' ≡ live a v
  pub free_live : (v : W) (a : ℕ) → live a (memory.free v) ≡ live a v
  pub report_live : (m : Message) (v : W) (a : ℕ) → live a (memory.report m v) ≡ live a v

-- A run that is over has the address `a` live exactly if it was.
abbrev pub KeepsLive : {W A : Type 0} → (ℕ → W → Bool) → ℕ → Bool → Run W A → Type 0
KeepsLive live a b (done _ v) = live a v ≡ b
KeepsLive live a b (failed _ v) = live a v ≡ b
KeepsLive live a b (stuck _) = Unit

and_then-KeepsLive :
    {W A B : Type 0} (live : ℕ → W → Bool) (a : ℕ) (b : Bool) (r : Run W A) (f : A → Sys W B)
    → KeepsLive live a b r
    → ((x : A) (v : W) → live a v ≡ b → KeepsLive live a b (f x v))
    → KeepsLive live a b (and_then r f)
and_then-KeepsLive live a b (done x v) f h k = k x v h
and_then-KeepsLive live a b (failed e v) f h k = h
and_then-KeepsLive live a b (stuck x) f h k = tt

module _ {W : Type 0} (files : Files W) (memory : Memory W) (l : ℕ) (live : ℕ → W → Bool)
    (ledger : Ledger memory l live) (buffer : ℕ) (info : CacheInfo) (a : ℕ) where
  check_line-KeepsLive :
      (line : ℕ) (w : W) → KeepsLive live a (live a w) (check_line files memory line buffer info w)
  unfolding check_line
  check_line-KeepsLive line w =
      elim (Option-cases (memory.store (u64 (buffer + u64 (line * info.line_size))) w)) [
        | inl unmapped ↦ rw unmapped tt
        | inr (v, mapped) ↦
            let kept = ledger.store_live _ w v a mapped in
            rw mapped
              (elim (Result-cases
                (get_physical_address files (u64 (buffer + u64 (line * info.line_size))) v)) [
                  | inl (p, found) ↦ rw found (ground arith)
                  | inr (inl (e, found)) ↦ rw found kept
                  | inr (inr (x, found)) ↦ rw found tt
                ])
      ]

  align_loop-KeepsLive :
      (fuel line page_size : ℕ) (w : W) (b : Bool)
      → live a w ≡ b
      → KeepsLive live a b (align_loop files memory fuel line buffer info page_size w)
  unfolding align_loop
  align_loop-KeepsLive zero line page_size w b h = tt
  align_loop-KeepsLive (suc fuel) line page_size w b h =
      elim (Bool-cases (ltb line (info.total_size / info.line_size))) [
        | inl more ↦ rw more (
            and_then-KeepsLive live a b (check_line files memory line buffer info w) _
              (rw h at (check_line-KeepsLive line w))
              (λ _ v kept.
                align_loop-KeepsLive fuel (u64 (line + page_size / info.line_size)) page_size v b
                  kept))
        | inr over ↦ rw over h
      ]

  pub test_alignment-KeepsLive :
      (page_size : ℕ) (w : W)
      → KeepsLive live a (live a w) (test_alignment files memory buffer info page_size w)
  unfolding test_alignment
  test_alignment-KeepsLive page_size w = elim (Bool-cases (info.line_size == 0)) [
    | inl none_sized ↦ rw none_sized tt
    | inr sized ↦ rw sized (
        align_loop-KeepsLive (suc (info.total_size / info.line_size)) 0 page_size w (live a w) refl)
  ]

pub status-KeepsLive :
    {W : Type 0} (live : ℕ → W → Bool) (a : ℕ) (b : Bool) (r : Run W (Unit {0}))
    → KeepsLive live a b r
    → KeepsLive live a b (code_of r)
status-KeepsLive live a b (done x v) h = h
status-KeepsLive live a b (failed e v) h = h
status-KeepsLive live a b (stuck x) h = h
