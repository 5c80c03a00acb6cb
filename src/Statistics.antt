-- ===== src/Statistics.antt =====
-- What benchmark of src/profile.c computes from the sorted times, and the text that it prints. The
-- arithmetic of double is a parameter.
pub mod Loops
use cache_noise_visualizer.Base.{
  ℕ, zero, suc, ◌+◌, ◌-◌, ◌*◌, ◌/◌, ◌^◌, Bool, true, false, List, [], ◌∷◌, Option, none, some, ltb,
  ◌==◌, ◌++◌, if◌then◌else◌, get_elem?,
}
use cache_noise_visualizer.Base.Int.{ℤ, signed32}
use cache_noise_visualizer.Base.Words.{u32, u64}
use cache_noise_visualizer.Base.Text.{Bytes, codes}
use cache_noise_visualizer.Base.Text.Decimal.{decimal}
use cache_noise_visualizer.Result.{Result, ok, fault, bad_access, out_of_fuel, int_suc}
use cache_noise_visualizer.Result.Pure.{◌>>=◌}

-- `*(int *)a - *(int *)b`, as the int that the machine computes
unfoldable pub cmpfunc : ℕ → ℕ → ℤ
cmpfunc a b = signed32 (u32 (a + (2 ^ 32 - b)))

-- The integers that benchmark prints, and the sum that it divides for the mean.
pub record Summary : Type 0 where
  pub median : ℕ
  pub accumulator : ℕ
  pub over_1000_counter : ℕ
  pub other_median_counter : ℕ

abbrev pub loaded_value : Option ℕ → Result ℕ
loaded_value none = fault bad_access
loaded_value (some x) = ok x

-- `result[i]`
abbrev pub value_at : List ℕ → ℕ → Result ℕ
value_at result i = loaded_value (get_elem? result i)

module _ (iterations : ℕ) (result : List ℕ) where
  -- `for (uint32_t i = 0; i < iterations; i++)`, entered with `i`; iterations has 64 bits.
  unfoldable pub accumulate : ℕ → ℕ → ℕ → Result ℕ
  accumulate zero i accumulator = fault out_of_fuel
  accumulate (suc fuel) i accumulator =
      let rest = value_at result i >>= λ x. accumulate fuel (u32 (i + 1)) (u64 (accumulator + x)) in
      if ltb i iterations then rest else ok accumulator

  -- `for (int i = 0; i < iterations; i++)`, entered with `i` and the counters of the values that differ
  -- from the median and of those above 1000.
  unfoldable pub count_loop : ℕ → ℕ → ℕ → ℕ → ℕ → Result (ℕ × ℕ)
  count_loop median zero i others over = fault out_of_fuel
  count_loop median (suc fuel) i others over =
      let rest = do
        x ← value_at result i
        others_next ← (if x == median then ok others else int_suc others)
        over_next ← (if ltb 1000 x then int_suc over else ok over)
        i_next ← int_suc i
        count_loop median fuel i_next others_next over_next
      in if ltb i iterations then rest else ok (others, over)

abbrev pub summarised : ℕ → ℕ → ℕ × ℕ → Summary
summarised median accumulator (others, over) = record {
  median = median;
  accumulator = accumulator;
  over_1000_counter = over;
  other_median_counter = others;
}

-- `middle` is iterations / 2, a whole number, so that floor and ceil agree. The loops have a round more
-- than there are iterations.
unfoldable pub summary_of : ℕ → List ℕ → Result Summary
unfolding accumulate count_loop
summary_of iterations result = do
  median ← value_at result (iterations / 2)
  accumulator ← accumulate iterations result (suc iterations) 0 0
  counters ← count_loop iterations result median (suc iterations) 0 0 0
  ok (summarised median accumulator counters)

-- double: conversion from an unsigned integer, the operations that benchmark uses, and %lf.
pub record Double (D : Type 0) : Type 0 where
  pub of_uint : ℕ → D
  pub sub : D → D → D
  pub div : D → D → D
  pub pow : D → D → D
  pub show : D → Bytes

module _ {D : Type 0} (double : Double D) where
  -- `for (uint32_t i = 0; i < iterations; i++) s2 = pow(((double)result[i]) - arithmetic_mean, 2)`,
  -- entered with `i`
  unfoldable pub variance_loop : ℕ → List ℕ → D → ℕ → ℕ → D → Result D
  variance_loop iterations result arithmetic_mean zero i s2 = fault out_of_fuel
  variance_loop iterations result arithmetic_mean (suc fuel) i s2 =
      let rest = value_at result i >>= λ x.
      variance_loop iterations result arithmetic_mean fuel (u32 (i + 1))
        (double.pow (double.sub (double.of_uint x) arithmetic_mean) (double.of_uint 2)) in
      if ltb i iterations then rest else ok s2

  unfoldable pub variance_of : D → ℕ → List ℕ → Result D
  unfolding variance_loop
  variance_of arithmetic_mean iterations result =
      variance_loop iterations result arithmetic_mean (suc iterations) 0 (double.of_uint 0)
      >>= λ s2. ok (double.div s2 (double.sub (double.of_uint iterations) (double.of_uint 1)))

  unfoldable pub arithmetic_mean_of : ℕ → ℕ → D
  arithmetic_mean_of iterations accumulator =
      double.div (double.of_uint accumulator) (double.of_uint iterations)

  unfoldable pub benchmark_text : ℕ → D → Summary → Bytes
  unfolding arithmetic_mean_of
  benchmark_text iterations variance summary =
      let arithmetic_mean = arithmetic_mean_of iterations summary.accumulator in
      codes "median: "
      ++ (decimal summary.median
          ++ 10
            ∷ (codes "arithmetic mean: "
                ++ (double.show arithmetic_mean
                    ++ 10
                      ∷ (codes "empirical variance: "
                          ++ (double.show variance
                              ++ 10
                                ∷ (decimal summary.over_1000_counter
                                    ++ (codes " values are bigger than 1000 (probably reschedules)"
                                        ++ 10
                                          ∷ (decimal summary.other_median_counter
                                              ++ (codes " values differ from the median(%"
                                                  ++ (double.show (
                                                        double.div
                                                          (double.of_uint
                                                            summary.other_median_counter)
                                                          (double.of_uint iterations))
                                                      ++ (codes ")" ++ 10 ∷ [])))))))))))
