-- ===== src/Output/Distinct.antt =====
-- Matrices, and the texts that are written for them.
use mathlib.Core.List.{append_assoc}
use cache_noise_visualizer.Base.{
  ℕ, ◌+◌, ◌^◌, ◌<◌, ◌≡◌, refl, sym, ap, ◌∙◌, true, false, List, [], ◌∷◌, ◌++◌, All, arith, length,
}
use cache_noise_visualizer.Base.Text.{Bytes, codes, is_digit}
use cache_noise_visualizer.Base.Text.Decimal.{
  IsDigits, decimal, decimal-IsDigits, decimal-injective,
}
use cache_noise_visualizer.Errors.{ErrorCode}
use cache_noise_visualizer.Result.{done}
use cache_noise_visualizer.Result.Sys.{done-subst}
use cache_noise_visualizer.Output.{Outlet, Output, output_stdout, outputw_mat_ui32}
use cache_noise_visualizer.Output.Rows.{
  Takes, concat, outputw_mat_ui32-rows, comma_values, row_text, line_text, rows_text,
}

-- A text that goes on with something else than a digit.
abbrev Stops : Bytes → Type 0
Stops [] = ⊥
Stops (c ∷ cs) = is_digit c ≡ false

digit_clash : (c y : ℕ) → c ≡ y → is_digit c ≡ false → is_digit y ≡ true → ⊥
digit_clash c y e h k = ground arith

digits-Stops :
    (ds es r s : Bytes)
    → IsDigits ds
    → IsDigits es
    → Stops r
    → Stops s
    → ds ++ r ≡ es ++ s
    → (ds ≡ es) × (r ≡ s)
digits-Stops [] [] r s h k l m e = (refl, e)
digits-Stops [] (y ∷ es) [] s h k l m e = absurd l
digits-Stops [] (y ∷ es) (c ∷ r) s h (k, ks) l m e = absurd (digit_clash c y (cc e) l k)
digits-Stops (x ∷ ds) [] r [] h k l m e = absurd m
digits-Stops (x ∷ ds) [] r (c ∷ s) (h, hs) k l m e = absurd (digit_clash c x (cc e) m h)
digits-Stops (x ∷ ds) (y ∷ es) r s (h, hs) (k, ks) l m e =
    let first : x ≡ y = cc in
    let rest : ds ++ r ≡ es ++ s = cc in
    let (a, b) = digits-Stops ds es r s hs ks l m rest in (cc, b)

append-cancel : (xs r s : Bytes) → xs ++ r ≡ xs ++ s → r ≡ s
append-cancel [] r s e = e
append-cancel (x ∷ xs) r s e = append-cancel xs r s cc

comma_values-Stops : (xs : List ℕ) (r : Bytes) → Stops (comma_values xs ++ 10 ∷ r)
unfolding comma_values
comma_values-Stops [] r = refl
comma_values-Stops (x ∷ xs) r = refl

-- The values behind commas, up to the end of the line.
comma_values-injective :
    (xs ys : List ℕ) (r s : Bytes)
    → comma_values xs ++ 10 ∷ r ≡ comma_values ys ++ 10 ∷ s
    → (xs ≡ ys) × (r ≡ s)
unfolding comma_values
comma_values-injective [] [] r s e = (refl, cc)
comma_values-injective [] (y ∷ ys) r s e = cc
comma_values-injective (x ∷ xs) [] r s e = cc
comma_values-injective (x ∷ xs) (y ∷ ys) r s e =
    let behind : (decimal x ++ comma_values xs) ++ 10 ∷ r
        ≡ (decimal y ++ comma_values ys) ++ 10 ∷ s =
      cc in
    let (d, rest) =
      digits-Stops (decimal x) (decimal y) (comma_values xs ++ 10 ∷ r) (comma_values ys ++ 10 ∷ s)
        (decimal-IsDigits x) (decimal-IsDigits y) (comma_values-Stops xs r)
        (comma_values-Stops ys s)
        (sym (append_assoc (decimal x) (comma_values xs) (10 ∷ r))
          ∙ behind
          ∙ append_assoc (decimal y) (comma_values ys) (10 ∷ s)) in
    let (same, end) = comma_values-injective xs ys r s rest in
    ((λ i. decimal-injective x y d i ∷ same i), end)

-- A row of one value or more.
row_text-injective :
    (xs ys : List ℕ) (r s : Bytes)
    → 0 < length xs
    → 0 < length ys
    → row_text xs ++ 10 ∷ r ≡ row_text ys ++ 10 ∷ s
    → (xs ≡ ys) × (r ≡ s)
unfolding row_text
row_text-injective [] ys r s h k e = absurd (omega arith)
row_text-injective (x ∷ xs) [] r s h k e = absurd (omega arith)
row_text-injective (x ∷ xs) (y ∷ ys) r s h k e =
    let (d, rest) =
      digits-Stops (decimal x) (decimal y) (comma_values xs ++ 10 ∷ r) (comma_values ys ++ 10 ∷ s)
        (decimal-IsDigits x) (decimal-IsDigits y) (comma_values-Stops xs r)
        (comma_values-Stops ys s)
        (sym (append_assoc (decimal x) (comma_values xs) (10 ∷ r))
          ∙ e
          ∙ append_assoc (decimal y) (comma_values ys) (10 ∷ s)) in
    let (same, end) = comma_values-injective xs ys r s rest in
    ((λ i. decimal-injective x y d i ∷ same i), end)

line_text-split :
    (set : ℕ) (row : List ℕ) (rest : Bytes)
    → line_text set row ++ rest
      ≡ (codes "set " ++ (decimal set ++ codes ": ")) ++ (row_text row ++ 10 ∷ rest)
unfolding line_text
line_text-split set row rest =
    append_assoc (codes "set " ++ (decimal set ++ codes ": ")) (row_text row ++ 10 ∷ []) rest
    ∙ ap (λ t. (codes "set " ++ (decimal set ++ codes ": ")) ++ t)
        (append_assoc (row_text row) (10 ∷ []) rest)

rows_text-injective :
    (set : ℕ) (rows rows' : List (List ℕ))
    → All (λ row. 0 < length row) rows
    → All (λ row. 0 < length row) rows'
    → rows_text set rows ≡ rows_text set rows'
    → rows ≡ rows'
unfolding rows_text line_text
rows_text-injective set [] [] h k e = refl
rows_text-injective set [] (row ∷ rows') h k e = cc
rows_text-injective set (row ∷ rows) [] h k e = cc
rows_text-injective set (row ∷ rows) (row' ∷ rows') (h, hs) (k, ks) e =
    let (same, rest) =
      row_text-injective row row' (rows_text (set + 1) rows) (rows_text (set + 1) rows') h k (
        append-cancel (codes "set " ++ (decimal set ++ codes ": ")) _ _ (
          sym (line_text-split set row (rows_text (set + 1) rows))
          ∙ e
          ∙ line_text-split set row' (rows_text (set + 1) rows'))) in
    (λ i. same i ∷ rows_text-injective (set + 1) rows rows' hs ks rest i)

All-pos :
    (n : ℕ) (rows : List (List ℕ))
    → 0 < n
    → All (λ row. length row ≡ n) rows
    → All (λ row. 0 < length row) rows
All-pos n [] h hs = tt
All-pos n (row ∷ rows) h (k, ks) = (omega arith, All-pos n rows h ks)

module _ {W : Type 0} (outlet : Outlet W) (std : ℕ) (shown : W → Bytes)
    (takes : Takes outlet std shown) (output : Output) (type : output.type ≡ output_stdout)
    (stream : output.std ≡ std) where
  -- What the stream shows behind a run on a matrix of rows.
  shown_after :
      (rows : List (List ℕ)) (dim_x : ℕ) (w w' : W) (code : ErrorCode)
      → All (λ row. length row ≡ dim_x) rows
      → 0 < dim_x
      → length (concat rows) < 2 ^ 64
      → outputw_mat_ui32 outlet output (concat rows) dim_x (length rows) w ≡ done (code, output) w'
      → shown w' ≡ shown w ++ rows_text 0 rows
  shown_after rows dim_x w w' code wide some_way room run =
      let (v, ends, text) =
        outputw_mat_ui32-rows outlet std shown takes output rows dim_x w type stream wide some_way
          room in
      done-subst (λ _ (u : W). shown u ≡ shown w ++ rows_text 0 rows) (sym ends ∙ run) text

  -- On a stream that takes every text, let outputw_mat_ui32 write two matrices, each a list of rows of
  -- one value or more, from the same state. If the stream then shows the same text, the matrices are
  -- the same, their numbers of rows and of columns included.
  pub outputw_mat_ui32-injective :
      (rows rows' : List (List ℕ)) (dim_x dim_x' : ℕ) (w v v' : W) (code code' : ErrorCode)
      → All (λ row. length row ≡ dim_x) rows
      → All (λ row. length row ≡ dim_x') rows'
      → 0 < dim_x
      → 0 < dim_x'
      → length (concat rows) < 2 ^ 64
      → length (concat rows') < 2 ^ 64
      → outputw_mat_ui32 outlet output (concat rows) dim_x (length rows) w ≡ done (code, output) v
      → outputw_mat_ui32 outlet output (concat rows') dim_x' (length rows') w
        ≡ done (code', output) v'
      → shown v ≡ shown v'
      → rows ≡ rows'
  outputw_mat_ui32-injective rows rows' dim_x dim_x' w v v' code code' wide wide' pos pos' room
        room' run run' same =
      rows_text-injective 0 rows rows' (All-pos dim_x rows pos wide)
        (All-pos dim_x' rows' pos' wide')
        (append-cancel (shown w) (rows_text 0 rows) (rows_text 0 rows') (
          sym (shown_after rows dim_x w v code wide pos room run)
          ∙ same
          ∙ shown_after rows' dim_x' w v' code' wide' pos' room' run'))
