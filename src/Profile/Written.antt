-- ===== src/Profile/Written.antt =====
-- The text that the loop of profile writes to a stream.
use native.Mathlib.Nat.{mul_comm}
use mathlib.Core.List.{append_assoc, append-nil}
use cache_noise_visualizer.Base.{
  ℕ, zero, suc, ◌*◌, ◌^◌, ◌<◌, ◌≡◌, ◌⊎◌, inl, inr, refl, sym, ap, ◌∙◌, false, List, [], ◌∷◌, ◌++◌,
  length, All, arith, ◌==◌, Bool-cases,
}
use cache_noise_visualizer.Base.Text.{Bytes}
use cache_noise_visualizer.Errors.{error_none}
use cache_noise_visualizer.Result.{done}
use cache_noise_visualizer.SysInfo.CacheInfo.{CacheInfo}
use cache_noise_visualizer.Cpu.{Cpu}
use cache_noise_visualizer.Sampling.Primes.{Geometry, lines_fit}
use cache_noise_visualizer.Output.{Outlet, Output, output_stdout}
use cache_noise_visualizer.Output.Rows.{Takes, concat, rows_text, outputw_mat_ui32-rows}
use cache_noise_visualizer.Profile.{Scheduler, measured, round, profile_loop}
use cache_noise_visualizer.Profile.Quiet.{Quiet}
use cache_noise_visualizer.Profile.Measures.{round-measures}
use cache_noise_visualizer.Profile.Rounds.{rounds, profile_loop-rounds}
use cache_noise_visualizer.Profile.Matrix.{matrices_text, IsMatrix, matrix-length}

module _ {W : Type 0} (cpu : Cpu W) (outlet : Outlet W) (scheduler : Scheduler W)
    (cache : CacheInfo) (buffer : ℕ) where
  module _ (shown : W → Bytes) (output : Output)
      (g : Geometry cache.line_size cache.set_count cache.ways_of_associativity buffer)
      (quiet : Quiet cpu shown) (yields : (w : W) → shown (scheduler.sched_yield w) ≡ shown w)
      (stream : output.type ≡ output_stdout) (takes : Takes outlet output.std shown) where
    pub round-Written :
        (result : List ℕ) (w : W)
        → length result ≡ cache.set_count * cache.ways_of_associativity
        → (rows : List (List ℕ)) × IsMatrix cpu cache buffer rows
          × (w' : W) × (round cpu outlet scheduler cache buffer result output w
              ≡ done (measured error_none (concat rows) output) w')
          × (shown w' ≡ shown w ++ rows_text 0 rows)
    unfolding round
    round-Written result w long =
        let (rows, matrix, v, t, primed, probed, same) =
          round-measures cpu scheduler cache buffer shown g quiet yields result w long in
        let room : length (concat rows) < 2 ^ 64 = omega (
          arith,
          matrix-length cpu cache buffer rows matrix,
          lines_fit g,
          mul_comm cache.set_count cache.ways_of_associativity,
        ) in
        let (w', written, text) =
          outputw_mat_ui32-rows outlet output.std shown takes output rows
            cache.ways_of_associativity t stream refl matrix.ways g.ways_pos room in
        (
          rows,
          matrix,
          w',
          rw (primed, probed, rw matrix.sets at written),
          text ∙ ap (λ s. s ++ rows_text 0 rows) same,
        )

    rounds-Written :
        (left : ℕ) (result : List ℕ) (w : W)
        → length result ≡ cache.set_count * cache.ways_of_associativity
        → (matrices : List (List (List ℕ))) × All (IsMatrix cpu cache buffer) matrices
          × (last : List ℕ) × (w' : W) × (rounds cpu outlet scheduler cache buffer left result
                output w
              ≡ done (measured error_none last output) w')
          × (shown w' ≡ shown w ++ matrices_text matrices)
          × ((length matrices ≡ left)
              ⊎ ((length matrices < left) × (scheduler.terminated w' == 0 ≡ false)))
    unfolding rounds matrices_text
    rounds-Written zero result w long =
        ([], tt, result, w, refl, sym (append-nil (shown w)), inl refl)
    rounds-Written (suc left) result w long = elim (Bool-cases (scheduler.terminated w == 0)) [
      | inr stop ↦ ([], tt, result, w, rw stop, sym (append-nil (shown w)), inr (omega arith, stop))
      | inl on ↦
          let (rows, matrix, v, run, text) = round-Written result w long in
          let (more, all, last, w', runs, texts, count) =
            rounds-Written left (concat rows) v (matrix-length cpu cache buffer rows matrix) in
          (
            rows ∷ more,
            (matrix, all),
            last,
            w',
            rw (on, run) runs,
            texts
                ∙ ap (λ s. s ++ matrices_text more) text
                ∙ append_assoc (shown w) (rows_text 0 rows) (matrices_text more),
            longer (length more) left count,
          )
    ]
      where
        longer :
            {A : Type 0} (n m : ℕ)
            → (n ≡ m) ⊎ ((n < m) × A)
            → (suc n ≡ suc m) ⊎ ((suc n < suc m) × A)
        longer n m (inl e) = inl (ap suc e)
        longer n m (inr (h, a)) = inr (omega arith, a)

    -- For a cache whose lines fill the buffer, an array with an entry for each line, loads that do not
    -- fault and a stream that takes every text, the loop of profile with 1 to 2 ^ 31 - 1 iterations
    -- ends with ERROR_NONE and the output as it was. It has written one matrix after another to the
    -- stream, as many as there are iterations, or fewer if `terminated` is set by then; and the entry
    -- in the row of a set and the column of a way is the time that a load of the line of this set and
    -- way took.
    pub profile_loop-Written :
        (iterations : ℕ) (result : List ℕ) (w : W)
        → 0 < iterations
        → iterations < 2 ^ 31
        → length result ≡ cache.set_count * cache.ways_of_associativity
        → (matrices : List (List (List ℕ))) × All (IsMatrix cpu cache buffer) matrices
          × (last : List ℕ) × (w' : W) × (profile_loop cpu outlet scheduler cache iterations buffer
                (suc iterations)
                0
                result
                output
                w
              ≡ done (measured error_none last output) w')
          × (shown w' ≡ shown w ++ matrices_text matrices)
          × ((length matrices ≡ iterations)
              ⊎ ((length matrices < iterations) × (scheduler.terminated w' == 0 ≡ false)))
    profile_loop-Written iterations result w pos small long =
        rw
          (profile_loop-rounds cpu outlet scheduler cache buffer iterations result output w pos
            small)
          (rounds-Written iterations result w long)
