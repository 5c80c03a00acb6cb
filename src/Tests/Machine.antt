-- ===== src/Tests/Machine.antt =====
-- A small machine: files by path, buffers at rising addresses, and a counter of cycles.
use Prim.Native.Nat.{max}
use cache_noise_visualizer.Base.{
  ℕ, ◌+◌, ◌*◌, ◌/◌, ◌^◌, ◌<◌, ◌≡◌, refl, Bool, true, false, not, ◌&&◌, ◌||◌, List, [], ◌∷◌, ◌++◌,
  Option, none, some, ◌==◌, if◌then◌else◌, arith, Bool-cases, inl, inr, ==_iff,
}
use cache_noise_visualizer.Base.Int.{pos}
use cache_noise_visualizer.Base.Text.{Bytes, codes}
use cache_noise_visualizer.SysInfo.Files.{Files}
use cache_noise_visualizer.Memory.{Memory, map_failed}
use cache_noise_visualizer.Cpu.{Cpu}
use cache_noise_visualizer.Alloc.Ledger.{Ledger}
use cache_noise_visualizer.Alloc.Searched.{has}

-- The addresses that were mapped and not unmapped, and the cycles so far.
pub record World : Type 0 where
  pub held : List ℕ
  pub cycles : ℕ

abbrev pub start : World
start = record { held = []; cycles = 100 }

abbrev pub same_text : Bytes → Bytes → Bool
same_text [] [] = true
same_text [] (c ∷ cs) = false
same_text (b ∷ bs) [] = false
same_text (b ∷ bs) (c ∷ cs) = (b == c) && same_text bs cs

abbrev pub content : Bytes → List (Bytes × Bytes) → Option Bytes
content path [] = none
content path ((p, text) ∷ rest) = if same_text p path then some text else content path rest

abbrev pub line_of : Bytes → Bytes
line_of text = text ++ 10 ∷ []

-- CPU 0 has a data and an instruction cache, CPU 1 an instruction cache only.
abbrev pub paths : List (Bytes × Bytes)
paths =
    (codes "/sys/devices/system/cpu/cpu0/cache/index0/coherency_line_size", line_of (codes "64"))
    ∷ (codes "/sys/devices/system/cpu/cpu0/cache/index0/size", line_of (codes "32K"))
    ∷ (codes "/sys/devices/system/cpu/cpu0/cache/index0/number_of_sets", line_of (codes "64"))
    ∷ (codes "/sys/devices/system/cpu/cpu0/cache/index0/level", line_of (codes "1"))
    ∷ (codes "/sys/devices/system/cpu/cpu0/cache/index0/ways_of_associativity", line_of (codes "8"))
    ∷ (codes "/sys/devices/system/cpu/cpu0/cache/index0/type", line_of (codes "Data"))
    ∷ (codes "/sys/devices/system/cpu/cpu1/cache/index0/coherency_line_size", line_of (codes "64"))
    ∷ (codes "/sys/devices/system/cpu/cpu1/cache/index0/size", line_of (codes "16K"))
    ∷ (codes "/sys/devices/system/cpu/cpu1/cache/index0/number_of_sets", line_of (codes "64"))
    ∷ (codes "/sys/devices/system/cpu/cpu1/cache/index0/level", line_of (codes "1"))
    ∷ (codes "/sys/devices/system/cpu/cpu1/cache/index0/ways_of_associativity", line_of (codes "4"))
    ∷ (codes "/sys/devices/system/cpu/cpu1/cache/index0/type", line_of (codes "Instruction"))
    ∷ (codes "/sys/bus/event_source/devices/cpu/rdpmc", line_of (codes "2"))
    ∷ (codes "/proc/sys/vm/nr_hugepages", line_of (codes "2"))
    ∷ (
      codes "/proc/meminfo",
      line_of (codes "MemTotal:  8 kB") ++ line_of (codes "Hugepagesize:     2048 kB"),
    )
    ∷ []

abbrev pub directories : Bytes → Option (List Bytes)
directories path =
    if same_text path (codes "/sys/devices/system/cpu/cpu0/cache/")
      || same_text path (codes "/sys/devices/system/cpu/cpu1/cache/")
    then some (codes "." ∷ codes "index0" ∷ codes "power" ∷ [])
    else none

-- Every page is present in the frame of its own number.
abbrev pub files : {W : Type 0} → Files W
files = record {
  open_read = λ path w. content path paths;
  open_dir = λ path w. directories path;
  page_size = λ w. 2 ^ 12;
  pagemap_open = λ w. true;
  pagemap_seek = λ offset w. true;
  pagemap_word = λ offset w. some (2 ^ 63 + offset / 8);
  uid = λ w. 0;
  cpu_core = λ w. pos 0;
  stale_line = λ w. [];
}

abbrev pub without : ℕ → List ℕ → List ℕ
without b [] = []
without b (c ∷ cs) = if c == b then without b cs else c ∷ without b cs

-- A page above all that is held.
abbrev pub above : List ℕ → ℕ
above [] = 4096
above (x ∷ xs) = max (above xs) ((x / 4096 + 1) * 4096)

abbrev pub map_next : World → ℕ × World
map_next w =
    if above w.held == map_failed
    then (map_failed, w)
    else (above w.held, record w { held = above w.held ∷ w.held })

abbrev pub memory : Memory World
memory = record {
  malloc = λ n w. some w;
  free = λ w. w;
  mmap = λ n w. map_next w;
  munmap = λ b n w. (true, record w { held = without b w.held });
  store = λ p w. some w;
  report = λ m w. w;
}

abbrev pub live : ℕ → World → Bool
live a w = has a w.held && (not (a == map_failed) && not (a == 0))

has-without : (a b : ℕ) (xs : List ℕ) → has a (without b xs) ≡ (not (a == b) && has a xs)
has-without a b [] = ground arith
has-without a b (x ∷ xs) = ground (arith, has-without a b xs)

lt-above : (a : ℕ) (xs : List ℕ) → has a xs ≡ true → a < above xs
lt-above a [] h = cc
lt-above a (x ∷ xs) h = ground (arith, lt-above a xs, ==_iff a x)

above_fresh : (xs : List ℕ) → has (above xs) xs ≡ false
above_fresh xs = elim (Bool-cases (has (above xs) xs)) [
  | inl held ↦ absurd (omega (arith, lt-above (above xs) xs held))
  | inr free ↦ free
]

above_pos : (xs : List ℕ) → 0 < above xs
above_pos [] = omega arith
above_pos (x ∷ xs) = ground (arith, above_pos xs)

map_next-fresh : (v : World) → live (map_next v).0 v ≡ false
map_next-fresh v = ground (arith, above_fresh v.held)

map_next-live :
    (v : World) (a : ℕ)
    → live a (map_next v).1
      ≡ (if (map_next v).0 == map_failed then live a v else (a == (map_next v).0) || live a v)
map_next-live v a = elim (Bool-cases (above v.held == map_failed)) [
  | inl full ↦ rw full
  | inr room ↦ ground (arith, above_pos v.held, ==_iff (above v.held) 0)
]

pub ledger : (l : ℕ) → Ledger memory l live
ledger l = record {
  mmap_fresh = λ n v. map_next-fresh v;
  mmap_live = λ n v a. map_next-live v a;
  munmap_live = λ b v a. ground (arith, has-without a b v.held);
  store_live = λ p v v' a e. ground arith;
  malloc_live = λ n v v' a e. ground arith;
  free_live = λ v a. refl;
  report_live = λ m v a. refl;
}

-- Every load is served and takes seven cycles.
abbrev pub cpu : Cpu World
cpu = record { load = λ a w. some (record w { cycles = w.cycles + 7 }); rdpmc = λ w. (w.cycles, w) }
