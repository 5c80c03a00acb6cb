-- ===== src/Tests/Supply.antt =====
-- The search of src/alloc.c on a machine that hands out one misaligned buffer at most.
use cache_noise_visualizer.Base.{
  ℕ, suc, ◌+◌, ◌^◌, ◌≤◌, ◌≡◌, ◌⊎◌, refl, inl, inr, Bool, true, false, [], ◌++◌, some, arith,
  if◌then◌else◌, subst,
}
use cache_noise_visualizer.Base.Text.{Bytes}
use cache_noise_visualizer.Errors.{error_none}
use cache_noise_visualizer.Result.{done}
use cache_noise_visualizer.SysInfo.CacheInfo.{CacheInfo, data_cache}
use cache_noise_visualizer.Memory.{Memory, Message, found_after, not_found_after}
use cache_noise_visualizer.Alloc.{alloc_aligned}
use cache_noise_visualizer.Alloc.Decides.{Backed}
use cache_noise_visualizer.Alloc.Masking.{Releases}
use cache_noise_visualizer.Alloc.Finds.{
  Aligned, Misaligned, Supply, found_text, alloc_aligned-finds,
}
use cache_noise_visualizer.Tests.Machine.{files}
use cache_noise_visualizer.Tests.Alloc.{release-Releases, number, translates}

-- The cycles so far, the steps that the alarm has to go, whether a misaligned buffer is still to come,
-- and what the standard output has taken.
pub record Session : Type 0 where
  pub cycles : ℕ
  pub ticks : ℕ
  pub missing : Bool
  pub shown : Bytes

abbrev pub fresh : Session
fresh = record { cycles = 40; ticks = 0; missing = true; shown = [] }

abbrev pub found : CacheInfo
found = record {
  line_size = 64;
  total_size = 32768;
  cache_id = 0;
  cpu_id = 0;
  set_count = 64;
  ways_of_associativity = 8;
  level = 1;
  type = data_cache;
}

abbrev pub misses : Session → ℕ
misses w = if w.missing then 1 else 0

-- The first buffer starts on the second page of the cache, the others on its first.
abbrev hand_out : Bool → Session → ℕ × Session
hand_out true w = (4096, record w { missing = false })
hand_out false w = (32768, w)

abbrev report : Message → Session → Session
report (found_after n) w = record w { shown = w.shown ++ found_text n }
report (not_found_after n) w = w

abbrev pub memory : Memory Session
memory = record {
  malloc = λ n w. some w;
  free = λ w. w;
  mmap = λ n w. hand_out w.missing w;
  munmap = λ b n w. (true, w);
  store = λ p w. some w;
  report = report;
}

backed : (b : ℕ) → b + 32768 ≤ 2 ^ 48 → Backed files memory (λ a. a) b 32768
backed b h = record { touched = λ offset v k. (v, refl, translates (b + offset) v (omega arith)) }

first-Misaligned : Misaligned files memory found (2 ^ 21) 4096
first-Misaligned = record {
  mapped = refl;
  fits = omega arith;
  phys = λ a. a;
  backed = backed 4096 (omega arith);
  page = 0;
  inside = omega arith;
  off_line = λ e. omega arith;
}

other-Aligned : Aligned files memory found (2 ^ 21) 32768
other-Aligned = record {
  mapped = refl;
  fits = omega arith;
  phys = λ a. a;
  backed = backed 32768 (omega arith);
  on_line = λ j inside. omega arith;
}

pub same_session : (w v : Session) (P : Session → Type 0) → some w ≡ some v → P w → P v
same_session w v P e h = let same : w ≡ v = cc in subst P same h

handed :
    (b : Bool) (v : Session)
    → v.missing ≡ b
    → (let (buffer, v') = hand_out b v in
        (v'.shown ≡ v.shown)
        × (((misses v ≡ 0) × Aligned files memory found (2 ^ 21) buffer)
            ⊎ ((misses v ≡ suc (misses v')) × Misaligned files memory found (2 ^ 21) buffer)))
handed true v e = (refl, inr (rw e refl, first-Misaligned))
handed false v e = (refl, inl (rw e refl, other-Aligned))

pub supply : Supply files memory found (2 ^ 21) (λ w. w.shown) misses
supply = record {
  mmap = λ v. handed v.missing v refl;
  store = λ a v v' e.
      same_session v v' (λ u. (u.shown ≡ v.shown) × (misses u ≡ misses v)) e (refl, refl);
  malloc = λ n v. (v, refl, refl, refl);
  munmap = λ b n v. refl;
  free = λ v. refl;
  report = λ n v. refl;
}

pub releases : Releases files memory found (2 ^ 21) (2 ^ 21)
releases = release-Releases memory found (λ b n v. refl) (omega arith)

alloc_aligned-finds_example :
    (b : ℕ) × (w' : Session) × (alloc_aligned files memory 0 0 found fresh
      ≡ done (error_none, b) w')
    × Aligned files memory found (2 ^ 21) b
    × (w'.shown ≡ [] ++ found_text 1)
alloc_aligned-finds_example =
    alloc_aligned-finds files memory found (2 ^ 21) (λ w. w.shown) misses supply (omega arith)
      (omega arith) (omega arith) (omega arith) (2 ^ 21) releases 0 0 2 fresh (number fresh)
      (omega arith)
