-- ===== src/Profile/Stored.antt =====
-- The data sets that the loop of profile writes to an HDF5 file.
use cache_noise_visualizer.Base.{
  ℕ, ◌+◌, ◌<◌, ◌≡◌, ◌⊎◌, false, List, [], ◌∷◌, map, Option, some, length, All, ◌==◌,
}
use cache_noise_visualizer.Base.Int.{ℤ}
use cache_noise_visualizer.Base.Text.{Bytes}
use cache_noise_visualizer.Base.Text.Decimal.{decimal}
use cache_noise_visualizer.Errors.{ErrorCode, error_none, error_hdf5_error}
use cache_noise_visualizer.Result.{Run, done}
use cache_noise_visualizer.SysInfo.CacheInfo.{CacheInfo}
use cache_noise_visualizer.Cpu.{Cpu}
use cache_noise_visualizer.Sampling.Primes.{Geometry}
use cache_noise_visualizer.Output.{Outlet, Output}
use cache_noise_visualizer.Output.Rows.{concat}
use cache_noise_visualizer.Output.Outcomes.{Datasets, stored_uint}
use cache_noise_visualizer.Profile.{Scheduler, Measured, measured}
use cache_noise_visualizer.Profile.Quiet.{Quiet}
use cache_noise_visualizer.Profile.Matrix.{IsMatrix}

module _ {W : Type 0} (stored : Bytes → W → Option (List ℕ)) where
  abbrev pub contents : W → Bytes → Option (List ℕ)
  contents w name = stored name w

  -- The matrices are the data sets with the numbers from `i` on.
  abbrev pub AllStored : ℕ → List (List (List ℕ)) → W → Type 0
  AllStored i [] w = Unit
  AllStored i (rows ∷ more) w =
      (stored (decimal i) w ≡ some (map stored_uint (concat rows))) × AllStored (i + 1) more w

  -- The data sets with smaller numbers are what they were.
  abbrev pub KeptBelow : ℕ → W → W → Type 0
  KeptBelow i w w' = (k : ℕ) → k < i → stored (decimal k) w' ≡ stored (decimal k) w

module _ {W : Type 0} (cpu : Cpu W) (outlet : Outlet W) (scheduler : Scheduler W)
    (cache : CacheInfo) (buffer : ℕ) (file : ℤ) (stored : Bytes → W → Option (List ℕ))
    (opened : ℤ → W → Option Bytes) (datasets : Datasets outlet file stored opened)
    (g : Geometry cache.line_size cache.set_count cache.ways_of_associativity buffer)
    (quiet : Quiet cpu (contents stored))
    (yields : (w : W) → contents stored (scheduler.sched_yield w) ≡ contents stored w) where
  -- How the loop ends with so many rounds to go.
  abbrev pub Ended : ℕ → List (List (List ℕ)) → ErrorCode → W → Type 0
  Ended left matrices e w' =
      ((e ≡ error_none)
        × ((length matrices ≡ left)
            ⊎ ((length matrices < left) × ((scheduler.terminated w' == 0) ≡ false))))
      ⊎ ((e ≡ error_hdf5_error) × (length matrices < left))

  -- What the loop with so many rounds to go comes to, from the world `w`.
  abbrev pub Stores : ℕ → Output → W → Run W Measured → Type 0
  Stores left output w run =
      (matrices : List (List (List ℕ))) × All (IsMatrix cpu cache buffer) matrices
      × (e : ErrorCode) × (last : List ℕ) × (left_output : Output) × (w' : W) × (run
          ≡ done (measured e last left_output) w')
      × AllStored stored output.iter matrices w'
      × KeptBelow stored output.iter w w'
      × Ended left matrices e w'
