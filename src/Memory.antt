-- ===== src/Memory.antt =====
-- The memory calls that src/alloc.c makes of the operating system and the C library.
use cache_noise_visualizer.Base.{ℕ, ◌-◌, ◌^◌, Bool, Option}

-- MAP_FAILED is (void *) -1.
abbrev pub map_failed : ℕ
map_failed = 2 ^ 64 - 1

-- What alloc_aligned prints at its end.
pub data Message : Type 0 where
  found_after : ℕ → Message
  not_found_after : ℕ → Message

pub record Memory (W : Type 0) : Type 0 where
  -- malloc of so many bytes; none is the null pointer
  pub malloc : ℕ → W → Option W
  pub free : W → W
  -- mmap of so many bytes of anonymous huge pages: an address or MAP_FAILED
  pub mmap : ℕ → W → ℕ × W
  -- munmap(address, length); false is the answer -1
  pub munmap : ℕ → ℕ → W → Bool × W
  -- a store through a pointer; none is the signal for an address that is not mapped
  pub store : ℕ → W → Option W
  pub report : Message → W → W
