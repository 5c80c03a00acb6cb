-- ===== src/Statistics/Loops.antt =====
-- The loops of benchmark over the sorted times.
use cache_noise_visualizer.Base.{
  ℕ, zero, suc, ◌+◌, ◌^◌, ◌≤◌, ◌<◌, ◌≡◌, refl, ap, ◌∙◌, true, false, not, List, [], ◌∷◌, some, ltb,
  ◌==◌, get_elem?, length, count_if, arith, Bool-cases, inl, inr, lt→ltb, le→ltb,
}
use cache_noise_visualizer.Base.Words.{u32, u64}
use cache_noise_visualizer.Result.{Result, ok, fault, out_of_fuel}
use cache_noise_visualizer.Statistics.{accumulate, count_loop, Double, variance_loop}

-- The list `rest` stands in `result` from the index `i` on.
abbrev pub StandsAt : List ℕ → ℕ → List ℕ → Type 0
StandsAt result i rest = (k : ℕ) → get_elem? result (i + k) ≡ get_elem? rest k

StandsAt-first :
    (result rest : List ℕ) (i x : ℕ) → StandsAt result i (x ∷ rest) → get_elem? result i ≡ some x
StandsAt-first result rest i x stands = ap (get_elem? result) (omega arith) ∙ stands 0

StandsAt-next :
    (result rest : List ℕ) (i x : ℕ) → StandsAt result i (x ∷ rest) → StandsAt result (i + 1) rest
StandsAt-next result rest i x stands = λ k. ap (get_elem? result) (omega arith) ∙ stands (suc k)

pub StandsAt-all : (result : List ℕ) → StandsAt result 0 result
StandsAt-all result = λ k. ap (get_elem? result) (omega arith)

pub in_bounds : (xs : List ℕ) (i : ℕ) → i < length xs → (v : ℕ) × (get_elem? xs i ≡ some v)
in_bounds [] i h = absurd (omega arith)
in_bounds (x ∷ xs) zero h = (x, refl)
in_bounds (x ∷ xs) (suc i) h = in_bounds xs i (omega arith)

counted : {a b c d : ℕ} → a ≡ b → c ≡ d → Path (Result (ℕ × ℕ)) (ok (a, c)) (ok (b, d))
counted p q = λ t. ok (p t, q t)

-- The sum in 64 bits.
abbrev pub summed : ℕ → List ℕ → ℕ
summed accumulator [] = accumulator
summed accumulator (x ∷ xs) = summed (u64 (accumulator + x)) xs

module _ (iterations : ℕ) (result : List ℕ) where
  -- With fewer than 2 ^ 32 iterations the loop of the mean sums up.
  pub accumulate-summed :
      (rest : List ℕ) (fuel i accumulator : ℕ)
      → StandsAt result i rest
      → i + length rest ≡ iterations
      → iterations < 2 ^ 32
      → length rest < fuel
      → accumulate iterations result fuel i accumulator ≡ ok (summed accumulator rest)
  unfolding accumulate
  accumulate-summed rest zero i accumulator stands all small room = absurd (omega arith)
  accumulate-summed [] (suc fuel) i accumulator stands all small room =
      let over : ltb i iterations ≡ false = le→ltb i iterations (omega arith) in rw over refl
  accumulate-summed (x ∷ rest) (suc fuel) i accumulator stands all small room =
      let more : ltb i iterations ≡ true = lt→ltb i iterations (omega arith) in
      let next : u32 (i + 1) ≡ i + 1 = omega arith in
      rw (more, StandsAt-first result rest i x stands, next)
        (accumulate-summed rest fuel (i + 1) (u64 (accumulator + x))
          (StandsAt-next result rest i x stands) (omega arith) small (omega arith))

  -- With fewer than 2 ^ 31 iterations the last loop counts, and no int overflows.
  pub count_loop-counts :
      (median : ℕ) (rest : List ℕ) (fuel i others over : ℕ)
      → StandsAt result i rest
      → i + length rest ≡ iterations
      → iterations < 2 ^ 31
      → length rest < fuel
      → others ≤ i
      → over ≤ i
      → count_loop iterations result median fuel i others over
        ≡ ok (
          others + count_if (λ x. not (x == median)) rest,
          over + count_if (λ x. ltb 1000 x) rest,
        )
  unfolding count_loop
  count_loop-counts median rest zero i others over stands all small room few few_over =
      absurd (omega arith)
  count_loop-counts median [] (suc fuel) i others over stands all small room few few_over =
      let done : ltb i iterations ≡ false = le→ltb i iterations (omega arith) in
      rw done (counted (omega arith) (omega arith))
  count_loop-counts median (x ∷ rest) (suc fuel) i others over stands all small room few few_over =
      let more : ltb i iterations ≡ true = lt→ltb i iterations (omega arith) in
      let next : ltb (i + 1) (2 ^ 31) ≡ true = lt→ltb (i + 1) (2 ^ 31) (omega arith) in
      let one : ltb (others + 1) (2 ^ 31) ≡ true = lt→ltb (others + 1) (2 ^ 31) (omega arith) in
      let two : ltb (over + 1) (2 ^ 31) ≡ true = lt→ltb (over + 1) (2 ^ 31) (omega arith) in
      let from = λ (o v : ℕ) (h : o ≤ i + 1) (k : v ≤ i + 1).
        count_loop-counts median rest fuel (i + 1) o v (StandsAt-next result rest i x stands)
          (omega arith) small (omega arith) h k in
      rw (more, StandsAt-first result rest i x stands)
        (elim (Bool-cases (x == median)) [
          | inl same ↦ elim (Bool-cases (ltb 1000 x)) [
            | inl big ↦
                rw (same, big, two, next)
                  (from others (over + 1) (omega arith) (omega arith)
                    ∙ counted (omega arith) (omega arith))
            | inr low ↦
                rw (same, low, next)
                  (from others over (omega arith) (omega arith)
                    ∙ counted (omega arith) (omega arith))
          ]
          | inr other ↦ elim (Bool-cases (ltb 1000 x)) [
            | inl big ↦
                rw (other, big, one, two, next)
                  (from (others + 1) (over + 1) (omega arith) (omega arith)
                    ∙ counted (omega arith) (omega arith))
            | inr low ↦
                rw (other, low, one, next)
                  (from (others + 1) over (omega arith) (omega arith)
                    ∙ counted (omega arith) (omega arith))
          ]
        ])

module _ {D : Type 0} (double : Double D) (mean : D) where
  -- The square that the loop of the variance is left with.
  abbrev pub last_square : D → List ℕ → D
  last_square s2 [] = s2
  last_square s2 (x ∷ xs) =
      last_square (double.pow (double.sub (double.of_uint x) mean) (double.of_uint 2)) xs

module _ {D : Type 0} (double : Double D) (iterations : ℕ) (result : List ℕ) (mean : D) where
  pub variance_loop-last_square :
      (rest : List ℕ) (fuel i : ℕ) (s2 : D)
      → StandsAt result i rest
      → i + length rest ≡ iterations
      → iterations < 2 ^ 32
      → length rest < fuel
      → variance_loop double iterations result mean fuel i s2 ≡ ok (last_square double mean s2 rest)
  unfolding variance_loop
  variance_loop-last_square rest zero i s2 stands all small room = absurd (omega arith)
  variance_loop-last_square [] (suc fuel) i s2 stands all small room =
      let over : ltb i iterations ≡ false = le→ltb i iterations (omega arith) in rw over refl
  variance_loop-last_square (x ∷ rest) (suc fuel) i s2 stands all small room =
      let more : ltb i iterations ≡ true = lt→ltb i iterations (omega arith) in
      let next : u32 (i + 1) ≡ i + 1 = omega arith in
      rw (more, StandsAt-first result rest i x stands, next)
        (variance_loop-last_square rest fuel (i + 1) _ (StandsAt-next result rest i x stands)
          (omega arith) small (omega arith))

  -- From 2 ^ 32 iterations on the index of 32 bits never reaches their number.
  pub variance_loop-endless :
      (fuel i : ℕ) (s2 : D)
      → 2 ^ 32 ≤ iterations
      → length result ≡ iterations
      → i < 2 ^ 32
      → variance_loop double iterations result mean fuel i s2 ≡ fault out_of_fuel
  unfolding variance_loop
  variance_loop-endless zero i s2 many all small = refl
  variance_loop-endless (suc fuel) i s2 many all small =
      let more : ltb i iterations ≡ true = lt→ltb i iterations (omega arith) in
      let (x, at_i) = in_bounds result i (omega arith) in
      rw (more, at_i) (variance_loop-endless fuel (u32 (i + 1)) _ many all (omega arith))
