-- ===== src/Cpu.antt =====
-- The instructions of the inline assembly of src/profile.c: the load, and the performance counter.
use cache_noise_visualizer.Base.{ℕ, Option}

pub record Cpu (W : Type 0) : Type 0 where
  -- mov from an address into a register; none is the signal for an address that is not mapped
  pub load : ℕ → W → Option W
  -- rdpmc with the counter of CPU cycles: the low half of its answer, in eax
  pub rdpmc : W → ℕ × W
