-- ===== src/Console.antt =====
-- The streams that the program prints to for its user, and errno.
use cache_noise_visualizer.Base.Int.{ℤ}
use cache_noise_visualizer.Base.Text.{Bytes}

pub record Console (W : Type 0) : Type 0 where
  -- printf, and fprintf to stderr
  pub print_out : Bytes → W → W
  pub print_err : Bytes → W → W
  pub errno : W → ℤ
  pub strerror : ℤ → Bytes
