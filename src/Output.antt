-- ===== src/Output.antt =====
-- src/output.c: matrices of measured times, written as text to a stream or as data sets to an HDF5
-- file.
pub mod Distinct
pub mod Keeps
pub mod Rows
pub mod Outcomes
use cache_noise_visualizer.Base.{
  ℕ, zero, suc, ◌+◌, ◌-◌, ◌*◌, Bool, true, false, List, [], ◌∷◌, Option, none, some, ◌==◌, ◌++◌,
  map, if◌then◌else◌, get_elem?,
}
use cache_noise_visualizer.Base.Int.{ℤ, pos, negsuc, int_eq, signed32}
use cache_noise_visualizer.Base.Words.{u64}
use cache_noise_visualizer.Base.Text.{Bytes, codes}
use cache_noise_visualizer.Base.Text.Decimal.{decimal}
use cache_noise_visualizer.Errors.{
  ErrorCode, error_none, error_io_hdf, error_hdf5_error, error_not_supported_output, error_chmod,
}
use cache_noise_visualizer.Result.{Result, ok, fault, Run, done, failed, bad_access}
use cache_noise_visualizer.Result.Sys.{Sys, ◌>>=◌, ◌>>◌, pure, fail, run_result, status, answer}

-- The calls of the C library and of HDF5. A stream is the number of a FILE pointer.
pub record Outlet (W : Type 0) : Type 0 where
  -- fprintf(stream, ...) of this text; false is a negative answer
  pub print : ℕ → Bytes → W → Bool × W
  -- H5Screate_simple(2, {rows, columns}, NULL)
  pub create_dataspace : ℕ → ℕ → W → ℤ × W
  -- H5Dcreate(file, name, H5T_STD_U32BE, dataspace, ...)
  pub create_dataset : ℤ → Bytes → ℤ → W → ℤ × W
  -- H5Dwrite(dataset, H5T_NATIVE_INT, ..., data), which reads the entries of `data` as int
  pub write_dataset : ℤ → List ℤ → W → ℤ × W
  pub close_dataset : ℤ → W → ℤ × W
  -- H5Fcreate(file, H5F_ACC_TRUNC, ...)
  pub create_file : Bytes → W → ℤ × W
  -- chmod(file, 0666)
  pub chmod : Bytes → W → ℤ × W
  pub close_file : ℤ → W → ℤ × W

abbrev pub output_stdout : ℕ
output_stdout = 1

abbrev pub output_hd5_file : ℕ
output_hd5_file = 2

-- output_t
pub record Output : Type 0 where
  pub type : ℕ
  pub std : ℕ
  pub h5 : ℤ
  pub iter : ℕ

-- The answer -1 of an HDF5 call.
abbrev pub is_failure : ℤ → Bool
is_failure answer = int_eq answer (negsuc 0)

abbrev pub element : Option ℕ → Result ℕ
element none = fault bad_access
element (some value) = ok value

abbrev pub printed : {W : Type 0} → Bool × W → Run W (Unit {0})
printed (true, w) = done tt w
printed (false, w) = failed error_io_hdf w

module _ {W : Type 0} (outlet : Outlet W) where
  abbrev pub print : ℕ → Bytes → Sys W (Unit {0})
  print std text w = printed (outlet.print std text w)

  -- `for (way = ...; way < dim_x; way++)` with `left` rounds to go
  unfoldable pub print_ways : ℕ → List ℕ → ℕ → ℕ → ℕ → ℕ → Sys W (Unit {0})
  print_ways std values dim_x set zero way = pure tt
  print_ways std values dim_x set (suc left) way = do
    value ← run_result (element (get_elem? values (u64 (set * dim_x + way))))
    print std (b',' ∷ decimal value)
    print_ways std values dim_x set left (way + 1)

  unfoldable pub print_row : ℕ → List ℕ → ℕ → ℕ → Sys W (Unit {0})
  unfolding print_ways
  print_row std values dim_x set = do
    print std (codes "set " ++ (decimal set ++ codes ": "))
    value ← run_result (element (get_elem? values (u64 (set * dim_x))))
    print std (decimal value)
    print_ways std values dim_x set (dim_x - 1) 1
    print std (10 ∷ [])

  -- `for (set = ...; set < dim_y; set++)` with `left` rounds to go
  unfoldable pub print_rows : ℕ → List ℕ → ℕ → ℕ → ℕ → Sys W (Unit {0})
  unfolding print_row
  print_rows std values dim_x zero set = pure tt
  print_rows std values dim_x (suc left) set = do
    print_row std values dim_x set
    print_rows std values dim_x left (set + 1)

  -- The data set is named by the number of the matrix.
  unfoldable pub write_matrix : ℤ → ℕ → List ℕ → ℕ → ℕ → Sys W (Unit {0})
  write_matrix h5 iter values dim_x dim_y = do
    dataspace ← (λ w. answer (outlet.create_dataspace dim_y dim_x w))
    dataset ← (λ w. answer (outlet.create_dataset h5 (decimal iter) dataspace w))
    if is_failure dataset then fail error_hdf5_error else do
      written ← (λ w. answer (outlet.write_dataset dataset (map signed32 values) w))
      if is_failure written then fail error_hdf5_error else do
        closed ← (λ w. answer (outlet.close_dataset dataset w))
        if is_failure closed then fail error_hdf5_error else pure tt

  -- The code that is returned, and `*output` by then.
  unfoldable pub outputw_mat_ui32 : Output → List ℕ → ℕ → ℕ → Sys W (ErrorCode × Output)
  unfolding print_rows write_matrix
  outputw_mat_ui32 output values dim_x dim_y =
      if output.type == output_stdout
      then (do error ← status (print_rows output.std values dim_x dim_y 0); pure (error, output))
      else if output.type == output_hd5_file
      then (do
        error ← status (write_matrix output.h5 output.iter values dim_x dim_y)
        pure (error, record output { iter = u64 (output.iter + 1) }))
      else pure (error_not_supported_output, output)

  unfoldable pub outputc_stdout : Output → ℕ → Sys W (ErrorCode × Output)
  outputc_stdout output file =
      pure (error_none, record { type = output_stdout; std = file; h5 = negsuc 0; iter = 0 })

  -- The null pointer is 0.
  unfoldable pub outputc_hd5_file : Output → Bytes → Sys W (ErrorCode × Output)
  outputc_hd5_file output file = do
    file_id ← (λ w. answer (outlet.create_file file w))
    changed ← (λ w. answer (outlet.chmod file w))
    if int_eq changed (pos 0)
        then (if is_failure file_id
            then pure (error_hdf5_error, output)
            else pure
                (error_none, record { type = output_hd5_file; std = 0; h5 = file_id; iter = 0 }))
        else pure (error_chmod, output)

  unfoldable pub output_close : Output → Sys W (Unit {0})
  output_close output =
      if output.type == output_hd5_file
      then (do
        closed ← (λ w. answer (outlet.close_file output.h5 w))
        if is_failure closed then fail error_hdf5_error else pure tt)
      else pure tt
