-- ===== src/Profile/Matrix.antt =====
-- The matrices that profile writes, as lists of rows.
use cache_noise_visualizer.Base.{
  ℕ, zero, suc, ◌+◌, ◌*◌, ◌≤◌, ◌<◌, ◌≡◌, refl, ap, ◌∙◌, List, [], ◌∷◌, ◌++◌, length, length-append,
  All, arith,
}
use cache_noise_visualizer.Base.Text.{Bytes}
use cache_noise_visualizer.SysInfo.CacheInfo.{CacheInfo}
use cache_noise_visualizer.Cpu.{Cpu}
use cache_noise_visualizer.Sampling.Recorded.{Timed}
use cache_noise_visualizer.Output.Rows.{concat, rows_text}

-- A long enough list is a front of this length and the rest.
split_front :
    (n : ℕ) (xs : List ℕ)
    → n ≤ length xs
    → (front : List ℕ) × (rest : List ℕ) × (xs ≡ front ++ rest) × (length front ≡ n)
split_front zero xs h = ([], xs, refl, refl)
split_front (suc n) [] h = absurd (omega arith)
split_front (suc n) (x ∷ xs) h =
    let (front, rest, e, l) = split_front n xs (omega arith) in
    (x ∷ front, rest, ap (λ t. x ∷ t) e, ap suc l)

-- A list of `sets * ways` values is a matrix.
pub rows_of :
    (sets ways : ℕ) (xs : List ℕ)
    → length xs ≡ sets * ways
    → (rows : List (List ℕ)) × (xs ≡ concat rows)
      × (length rows ≡ sets)
      × All (λ row. length row ≡ ways) rows
unfolding concat
rows_of zero ways [] h = ([], refl, refl, tt)
rows_of zero ways (x ∷ xs) h = absurd (omega arith)
rows_of (suc sets) ways xs h =
    let (row, rest, e, wide) = split_front ways xs (omega arith) in
    let long : length xs ≡ length row + length rest = rw e (length-append row rest) in
    let (rows, e', high, all) = rows_of sets ways rest (omega arith) in
    (row ∷ rows, e ∙ ap (λ t. row ++ t) e', ap suc high, (wide, all))

-- One matrix after another.
unfoldable pub matrices_text : List (List (List ℕ)) → Bytes
matrices_text [] = []
matrices_text (rows ∷ more) = rows_text 0 rows ++ matrices_text more

-- The number of values of a matrix.
length-concat :
    (ways : ℕ) (rows : List (List ℕ))
    → All (λ row. length row ≡ ways) rows
    → length (concat rows) ≡ length rows * ways
unfolding concat
length-concat ways [] wide = omega arith
length-concat ways (row ∷ rows) (w, wide) =
    omega (arith, length-append row (concat rows), length-concat ways rows wide)

module _ {W : Type 0} (cpu : Cpu W) (cache : CacheInfo) (buffer : ℕ) where
  -- A matrix with a row for each set and a column for each way, whose entry is the time that a load of
  -- the line of the set and the way took.
  pub record IsMatrix (rows : List (List ℕ)) : Type 0 where
    pub sets : length rows ≡ cache.set_count
    pub ways : All (λ row. length row ≡ cache.ways_of_associativity) rows
    pub times :
        (set way : ℕ)
        → set < cache.set_count
        → way < cache.ways_of_associativity
        → Timed cpu
            (buffer + (way * cache.set_count + set) * cache.line_size)
            (set * cache.ways_of_associativity + way)
            (concat rows)

  pub matrix-length :
      (rows : List (List ℕ))
      → IsMatrix rows
      → length (concat rows) ≡ cache.set_count * cache.ways_of_associativity
  matrix-length rows matrix =
      length-concat cache.ways_of_associativity rows matrix.ways
      ∙ ap (λ n. n * cache.ways_of_associativity) matrix.sets
