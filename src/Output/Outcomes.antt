-- ===== src/Output/Outcomes.antt =====
-- What outputw_mat_ui32 returns and leaves, and the data sets that it stores in an HDF5 file.
use cache_noise_visualizer.Base.{
  ℕ, ◌≡◌, ◌≢◌, ◌⊎◌, map, ◌^◌, ltb, if◌then◌else◌, false, List, Option, some,
}
use cache_noise_visualizer.Base.Int.{ℤ, pos, negsuc}
use cache_noise_visualizer.Base.Text.{Bytes}
use cache_noise_visualizer.Base.Text.Decimal.{decimal}
use cache_noise_visualizer.Errors.{ErrorCode, error_none, error_hdf5_error}
use cache_noise_visualizer.Result.{Run, done, failed, stuck}
use cache_noise_visualizer.Output.{Outlet, Output, is_failure}

-- HDF5 converts an int to H5T_STD_U32BE so that a negative one becomes 0.
abbrev pub stored_int : ℤ → ℕ
stored_int (pos n) = n
stored_int (negsuc n) = 0

-- So an entry of 2 ^ 31 or more, which is negative as an int, is stored as 0.
abbrev pub stored_uint : ℕ → ℕ
stored_uint v = if ltb v (2 ^ 31) then v else 0

-- The data sets of the open files, by their names, and the names of the open data sets. HDF5 keeps
-- them by these rules: creating a data set opens it under its name, writing to an open data set
-- stores the values under its name and leaves the other data sets alone, and no other call changes
-- what is stored.
pub record Datasets {W : Type 0} (outlet : Outlet W) (file : ℤ)
    (stored : Bytes → W → Option (List ℕ)) (opened : ℤ → W → Option Bytes) : Type 0 where
  pub create_opens :
      (name : Bytes) (space : ℤ) (w : W)
      → is_failure (outlet.create_dataset file name space w).0 ≡ false
      → opened
          (outlet.create_dataset file name space w).0
          (outlet.create_dataset file name space w).1
        ≡ some name
  pub create_keeps :
      (name other : Bytes) (space : ℤ) (w : W)
      → other ≢ name
      → stored other (outlet.create_dataset file name space w).1 ≡ stored other w
  pub write_stores :
      (d : ℤ) (name : Bytes) (values : List ℤ) (w : W)
      → opened d w ≡ some name
      → is_failure (outlet.write_dataset d values w).0 ≡ false
      → stored name (outlet.write_dataset d values w).1 ≡ some (map stored_int values)
  pub write_keeps :
      (d : ℤ) (name other : Bytes) (values : List ℤ) (w : W)
      → opened d w ≡ some name
      → other ≢ name
      → stored other (outlet.write_dataset d values w).1 ≡ stored other w
  pub close_keeps :
      (d : ℤ) (name : Bytes) (w : W) → stored name (outlet.close_dataset d w).1 ≡ stored name w
  pub space_keeps :
      (rows columns : ℕ) (name : Bytes) (w : W)
      → stored name (outlet.create_dataspace rows columns w).1 ≡ stored name w

-- What holds of the code and the world behind a run.
abbrev pub Ends : {W : Type 0} → (ErrorCode → W → Type 0) → Run W (Unit {0}) → Type 0
Ends P (done _ w) = P error_none w
Ends P (failed e w) = P e w
Ends P (stuck x) = ⊥

module _ {W : Type 0} (stored : Bytes → W → Option (List ℕ)) where
  -- After a matrix with the number `iter`: the values are stored if the code is ERROR_NONE, and the
  -- data sets of other numbers are what they were in `w`.
  abbrev pub Stored : ℕ → List ℕ → W → ErrorCode → W → Type 0
  Stored iter values w e w' =
      (e ≡ error_none → stored (decimal iter) w' ≡ some values)
      × ((k : ℕ) → k ≢ iter → stored (decimal k) w' ≡ stored (decimal k) w)
      × ((e ≡ error_none) ⊎ (e ≡ error_hdf5_error))
