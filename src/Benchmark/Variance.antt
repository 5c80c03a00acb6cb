-- ===== src/Benchmark/Variance.antt =====
-- The variance that benchmark prints.
use cache_noise_visualizer.Base.{
  ℕ, suc, ◌^◌, ◌≡◌, refl, List, [], ◌∷◌, ◌++◌, length, ltb, if◌then◌else◌, arith, Bool-cases, inl,
  inr, ltb→lt,
}
use cache_noise_visualizer.Result.{ok, fault, out_of_fuel}
use cache_noise_visualizer.Statistics.{Double, variance_of}
use cache_noise_visualizer.Statistics.Loops.{
  StandsAt-all, last_square, variance_loop-last_square, variance_loop-endless,
}

module _ {D : Type 0} (double : Double D) where
  last_square-append :
      (mean : D) (results : List ℕ) (last : ℕ) (s2 : D)
      → last_square double mean s2 (results ++ last ∷ [])
        ≡ double.pow (double.sub (double.of_uint last) mean) (double.of_uint 2)
  last_square-append mean [] last s2 = refl
  last_square-append mean (x ∷ results) last s2 =
      last_square-append mean results last
        (double.pow (double.sub (double.of_uint x) mean) (double.of_uint 2))

  -- Whatever the arithmetic of double does, the variance that benchmark prints for results with the
  -- same number of iterations, the same mean and the same last (greatest) result is the same, however
  -- the other results lie: it is the squared distance of the last result from the mean, divided by
  -- the number of iterations less one. From 2 ^ 32 iterations on the loop does not end.
  pub variance_of-last :
      (mean : D) (iterations : ℕ) (results : List ℕ) (last : ℕ)
      → length (results ++ last ∷ []) ≡ iterations
      → variance_of double mean iterations (results ++ last ∷ []) ≡ (
          if ltb iterations (2 ^ 32)
          then ok (
              double.div
                (double.pow (double.sub (double.of_uint last) mean) (double.of_uint 2))
                (double.sub (double.of_uint iterations) (double.of_uint 1)))
          else fault out_of_fuel)
  unfolding variance_of
  variance_of-last mean iterations results last long =
      let all = results ++ last ∷ [] in
      elim (Bool-cases (ltb iterations (2 ^ 32))) [
        | inl few ↦
            rw
              (
                few,
                variance_loop-last_square double iterations all mean all (suc iterations) 0
                    (double.of_uint 0) (StandsAt-all all) (omega (arith, long))
                    (ltb→lt iterations (2 ^ 32) few) (omega (arith, long)),
                last_square-append mean results last (double.of_uint 0),
              )
              refl
        | inr many ↦
            rw
              (
                many,
                variance_loop-endless double iterations all mean (suc iterations) 0
                    (double.of_uint 0) (ground arith) long (omega arith),
              )
              refl
      ]
