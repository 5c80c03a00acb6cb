-- ===== src/Output/Rows.antt =====
-- The text that outputw_mat_ui32 writes to a stream.
use mathlib.Core.List.{append_assoc, append-nil}
use cache_noise_visualizer.Base.{
  ℕ, zero, suc, ◌+◌, ◌-◌, ◌*◌, ◌^◌, ◌<◌, ◌≡◌, refl, sym, ap, ◌∙◌, Bool, true, false, List, [], ◌∷◌,
  ◌++◌, some, get_elem?, length, length-append, All, arith,
}
use cache_noise_visualizer.Base.Words.{u64}
use cache_noise_visualizer.Base.Text.{Bytes, codes}
use cache_noise_visualizer.Base.Text.Decimal.{decimal}
use cache_noise_visualizer.Errors.{error_none}
use cache_noise_visualizer.Result.{done}
use cache_noise_visualizer.Result.Sys.{Sys, ◌>>◌, pure}
use cache_noise_visualizer.Output.{
  Outlet, Output, output_stdout, print, printed, print_ways, print_row, print_rows,
  outputw_mat_ui32,
}

-- Every value behind a comma.
unfoldable pub comma_values : List ℕ → Bytes
comma_values [] = []
comma_values (value ∷ values) = b',' ∷ (decimal value ++ comma_values values)

-- The values of a row with commas between them.
unfoldable pub row_text : List ℕ → Bytes
row_text [] = []
row_text (value ∷ values) = decimal value ++ comma_values values

unfoldable pub line_text : ℕ → List ℕ → Bytes
line_text set row = (codes "set " ++ (decimal set ++ codes ": ")) ++ (row_text row ++ 10 ∷ [])

-- The rows, numbered from `set` on.
unfoldable pub rows_text : ℕ → List (List ℕ) → Bytes
rows_text set [] = []
rows_text set (row ∷ rows) = line_text set row ++ rows_text (set + 1) rows

unfoldable pub concat : List (List ℕ) → List ℕ
concat [] = []
concat (row ∷ rows) = row ++ concat rows

get-middle :
    (front back : List ℕ) (x i : ℕ) → i ≡ length front → get_elem? (front ++ x ∷ back) i ≡ some x
get-middle [] back x zero e = refl
get-middle [] back x (suc i) e = absurd (omega arith)
get-middle (y ∷ front) back x zero e = absurd (omega arith)
get-middle (y ∷ front) back x (suc i) e = get-middle front back x i (omega arith)

printed-true : {W : Type 0} (r : Bool × W) → r.0 ≡ true → printed r ≡ done tt r.1
printed-true (true, w) e = refl
printed-true (false, w) e = cc

-- The next value, where the index does not wrap.
next_value :
    (values front rest : List ℕ) (x i : ℕ)
    → values ≡ front ++ x ∷ rest
    → length front ≡ i
    → length values < 2 ^ 64
    → get_elem? values (u64 i) ≡ some x
next_value values front rest x i e at_i room =
    let bound : i < length values = rw e (omega (arith, length-append front (x ∷ rest))) in
    let small : u64 i ≡ i = omega arith in rw (small, e) (get-middle front rest x i (sym at_i))

-- A stream that takes every text: `shown` is what it has taken.
pub record Takes {W : Type 0} (outlet : Outlet W) (std : ℕ) (shown : W → Bytes) : Type 0 where
  pub succeeds : (text : Bytes) (w : W) → (outlet.print std text w).0 ≡ true
  pub appends : (text : Bytes) (w : W) → shown (outlet.print std text w).1 ≡ shown w ++ text

module _ {W : Type 0} (outlet : Outlet W) (std : ℕ) (shown : W → Bytes)
    (takes : Takes outlet std shown) where
  -- Code that is done, and has then written this text.
  abbrev Prints : Bytes → Sys W (Unit {0}) → Type 0
  Prints text f = (w : W) → (w' : W) × (f w ≡ done tt w') × (shown w' ≡ shown w ++ text)

  print-Prints : (text : Bytes) → Prints text (print outlet std text)
  print-Prints text w = (_, printed-true _ (takes.succeeds text w), takes.appends text w)

  then-Prints :
      (s t : Bytes) (f g : Sys W (Unit {0})) → Prints s f → Prints t g → Prints (s ++ t) (f >> g)
  then-Prints s t f g first second w =
      let (v, run, text) = first w in
      let (u, run', text') = second v in
      (u, rw (run, run'), text' ∙ ap (λ r. r ++ t) text ∙ append_assoc (shown w) s t)

  nothing-Prints : Prints [] (pure tt)
  nothing-Prints w = (w, refl, sym (append-nil (shown w)))

  print_ways-Prints :
      (values front ws back : List ℕ) (dim_x set way : ℕ)
      → values ≡ front ++ (ws ++ back)
      → length front ≡ set * dim_x + way
      → length values < 2 ^ 64
      → Prints (comma_values ws) (print_ways outlet std values dim_x set (length ws) way)
  unfolding print_ways comma_values
  print_ways-Prints values front [] back dim_x set way e at_way room = nothing-Prints
  print_ways-Prints values front (x ∷ ws) back dim_x set way e at_way room =
      rw (next_value values front (ws ++ back) x (set * dim_x + way) e at_way room) (
        then-Prints (b',' ∷ decimal x) (comma_values ws) _ _ (print-Prints _) (
          print_ways-Prints values (front ++ x ∷ []) ws back dim_x set (way + 1)
            (e ∙ sym (append_assoc front (x ∷ []) (ws ++ back)))
            (omega (arith, length-append front (x ∷ []))) room))

  -- One row, which stands at its place among the values.
  print_row-Prints :
      (values front row back : List ℕ) (dim_x set : ℕ)
      → values ≡ front ++ (row ++ back)
      → length front ≡ set * dim_x
      → length row ≡ dim_x
      → 0 < dim_x
      → length values < 2 ^ 64
      → Prints (line_text set row) (print_row outlet std values dim_x set)
  unfolding print_row row_text line_text
  print_row-Prints values front [] back dim_x set e at_set wide some_way room = absurd (omega arith)
  print_row-Prints values front (x ∷ ws) back dim_x set e at_set wide some_way room =
      let ways : dim_x - 1 ≡ length ws = omega arith in
      rw
        (
          next_value values front (ws ++ back) x (set * dim_x) e at_set room,
          ways,
          append_assoc (decimal x) (comma_values ws) (10 ∷ []),
        )
        (then-Prints _ _ _ _ (print-Prints _) (
          then-Prints (decimal x) _ _ _ (print-Prints (decimal x)) (
            then-Prints (comma_values ws) _ _ _
              (print_ways-Prints values (front ++ x ∷ []) ws back dim_x set 1
                (e ∙ sym (append_assoc front (x ∷ []) (ws ++ back)))
                (omega (arith, length-append front (x ∷ []))) room)
              (print-Prints (10 ∷ [])))))

  print_rows-Prints :
      (values front : List ℕ) (rows : List (List ℕ)) (dim_x set : ℕ)
      → values ≡ front ++ concat rows
      → length front ≡ set * dim_x
      → All (λ row. length row ≡ dim_x) rows
      → 0 < dim_x
      → length values < 2 ^ 64
      → Prints (rows_text set rows) (print_rows outlet std values dim_x (length rows) set)
  unfolding print_rows rows_text concat
  print_rows-Prints values front [] dim_x set e at_set wide some_way room = nothing-Prints
  print_rows-Prints values front (row ∷ rows) dim_x set e at_set (w, wide) some_way room =
      then-Prints (line_text set row) (rows_text (set + 1) rows) _ _
        (print_row-Prints values front row (concat rows) dim_x set e at_set w some_way room)
        (print_rows-Prints values (front ++ row) rows dim_x (set + 1)
          (e ∙ sym (append_assoc front row (concat rows))) (omega (arith, length-append front row))
          wide some_way room)

  -- If the stream takes every text, then for an output of the type OUTPUT_STDOUT and a matrix that is
  -- a list of rows, each of dim_x > 0 values, stored one after another, outputw_mat_ui32 returns
  -- ERROR_NONE, leaves the output as it was, and has written one line for each row: its number, and
  -- its values with commas between them.
  pub outputw_mat_ui32-rows :
      (output : Output) (rows : List (List ℕ)) (dim_x : ℕ) (w : W)
      → output.type ≡ output_stdout
      → output.std ≡ std
      → All (λ row. length row ≡ dim_x) rows
      → 0 < dim_x
      → length (concat rows) < 2 ^ 64
      → (w' : W) × (outputw_mat_ui32 outlet output (concat rows) dim_x (length rows) w
          ≡ done (error_none, output) w')
        × (shown w' ≡ shown w ++ rows_text 0 rows)
  unfolding outputw_mat_ui32
  outputw_mat_ui32-rows output rows dim_x w type stream wide some_way room =
      let (w', run, text) =
        print_rows-Prints (concat rows) [] rows dim_x 0 refl (omega arith) wide some_way room w in
      (w', rw (type, stream, run), text)
