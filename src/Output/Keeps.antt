-- ===== src/Output/Keeps.antt =====
-- The predicates of the world that the functions of src/output.c keep.
use cache_noise_visualizer.Base.{ℕ, zero, suc, Bool, true, false, List}
use cache_noise_visualizer.Base.Int.{ℤ}
use cache_noise_visualizer.Base.Text.{Bytes}
use cache_noise_visualizer.Result.Sys.{answer}
use cache_noise_visualizer.Result.Keeps.{Keeps, Over, Keeps-answer, keeps_rules}
use cache_noise_visualizer.Output.{
  Outlet, Output, printed, print, print_ways, print_row, print_rows, write_matrix, outputw_mat_ui32,
  outputc_stdout, outputc_hd5_file, output_close,
}

pub record OutletKeeps {W : Type 0} (outlet : Outlet W) (P : W → Type 0) : Type 0 where
  pub print : (std : ℕ) (text : Bytes) (w : W) → P w → P (outlet.print std text w).1
  pub create_dataspace :
      (rows columns : ℕ) (w : W) → P w → P (outlet.create_dataspace rows columns w).1
  pub create_dataset :
      (file : ℤ) (name : Bytes) (space : ℤ) (w : W)
      → P w
      → P (outlet.create_dataset file name space w).1
  pub write_dataset :
      (dataset : ℤ) (values : List ℤ) (w : W) → P w → P (outlet.write_dataset dataset values w).1
  pub close_dataset : (dataset : ℤ) (w : W) → P w → P (outlet.close_dataset dataset w).1
  pub create_file : (file : Bytes) (w : W) → P w → P (outlet.create_file file w).1
  pub chmod : (file : Bytes) (w : W) → P w → P (outlet.chmod file w).1
  pub close_file : (file : ℤ) (w : W) → P w → P (outlet.close_file file w).1

Over-printed : {W : Type 0} (P : W → Type 0) (r : Bool × W) → P r.1 → Over P (printed r)
Over-printed P (true, w) h = h
Over-printed P (false, w) h = h

module _ {W : Type 0} (outlet : Outlet W) (P : W → Type 0) (keeps : OutletKeeps outlet P) where
  print-Keeps : (std : ℕ) (text : Bytes) → Keeps P (print outlet std text)
  print-Keeps std text = record {
    at = λ w h. Over-printed P (outlet.print std text w) (keeps.print std text w h);
  }

  create_dataspace-Keeps :
      (rows columns : ℕ) → Keeps P (λ w. answer (outlet.create_dataspace rows columns w))
  create_dataspace-Keeps rows columns = Keeps-answer _ (keeps.create_dataspace rows columns)

  create_dataset-Keeps :
      (file : ℤ) (name : Bytes) (space : ℤ)
      → Keeps P (λ w. answer (outlet.create_dataset file name space w))
  create_dataset-Keeps file name space = Keeps-answer _ (keeps.create_dataset file name space)

  write_dataset-Keeps :
      (dataset : ℤ) (values : List ℤ)
      → Keeps P (λ w. answer (outlet.write_dataset dataset values w))
  write_dataset-Keeps dataset values = Keeps-answer _ (keeps.write_dataset dataset values)

  close_dataset-Keeps : (dataset : ℤ) → Keeps P (λ w. answer (outlet.close_dataset dataset w))
  close_dataset-Keeps dataset = Keeps-answer _ (keeps.close_dataset dataset)

  create_file-Keeps : (file : Bytes) → Keeps P (λ w. answer (outlet.create_file file w))
  create_file-Keeps file = Keeps-answer _ (keeps.create_file file)

  chmod-Keeps : (file : Bytes) → Keeps P (λ w. answer (outlet.chmod file w))
  chmod-Keeps file = Keeps-answer _ (keeps.chmod file)

  close_file-Keeps : (file : ℤ) → Keeps P (λ w. answer (outlet.close_file file w))
  close_file-Keeps file = Keeps-answer _ (keeps.close_file file)

  ruleset outlet_rules = (
    keeps_rules, print-Keeps, create_dataspace-Keeps, create_dataset-Keeps, write_dataset-Keeps,
    close_dataset-Keeps, create_file-Keeps, chmod-Keeps, close_file-Keeps,
  )

  print_ways-Keeps :
      (std : ℕ) (values : List ℕ) (dim_x set left way : ℕ)
      → Keeps P (print_ways outlet std values dim_x set left way)
  unfolding print_ways
  print_ways-Keeps std values dim_x set zero way = search outlet_rules
  print_ways-Keeps std values dim_x set (suc left) way =
      search (outlet_rules, print_ways-Keeps std values dim_x set left)

  print_row-Keeps :
      (std : ℕ) (values : List ℕ) (dim_x set : ℕ) → Keeps P (print_row outlet std values dim_x set)
  unfolding print_row
  print_row-Keeps std values dim_x set = search (outlet_rules, print_ways-Keeps)

  print_rows-Keeps :
      (std : ℕ) (values : List ℕ) (dim_x left set : ℕ)
      → Keeps P (print_rows outlet std values dim_x left set)
  unfolding print_rows
  print_rows-Keeps std values dim_x zero set = search outlet_rules
  print_rows-Keeps std values dim_x (suc left) set =
      search (outlet_rules, print_row-Keeps, print_rows-Keeps std values dim_x left)

  write_matrix-Keeps :
      (h5 : ℤ) (iter : ℕ) (values : List ℕ) (dim_x dim_y : ℕ)
      → Keeps P (write_matrix outlet h5 iter values dim_x dim_y)
  unfolding write_matrix
  write_matrix-Keeps h5 iter values dim_x dim_y = search outlet_rules depth 12

  pub outputw_mat_ui32-Keeps :
      (output : Output) (values : List ℕ) (dim_x dim_y : ℕ)
      → Keeps P (outputw_mat_ui32 outlet output values dim_x dim_y)
  unfolding outputw_mat_ui32
  outputw_mat_ui32-Keeps output values dim_x dim_y =
      search (outlet_rules, print_rows-Keeps, write_matrix-Keeps)

  pub outputc_stdout-Keeps :
      (output : Output) (file : ℕ) → Keeps P (outputc_stdout outlet output file)
  unfolding outputc_stdout
  outputc_stdout-Keeps output file = search outlet_rules

  pub outputc_hd5_file-Keeps :
      (output : Output) (file : Bytes) → Keeps P (outputc_hd5_file outlet output file)
  unfolding outputc_hd5_file
  outputc_hd5_file-Keeps output file = search outlet_rules

  pub output_close-Keeps : (output : Output) → Keeps P (output_close outlet output)
  unfolding output_close
  output_close-Keeps output = search outlet_rules
