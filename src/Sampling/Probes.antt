-- ===== src/Sampling/Probes.antt =====
-- The loops of probe, the order `probe_lines`, and the array of the times.
use mathlib.Core.Path.{fun_ext}
use mathlib.Core.List.{map-append, append-nil}
use native.Mathlib.Nat.{mul_comm}
use cache_noise_visualizer.Base.{
  ℕ, zero, suc, ◌+◌, ◌-◌, ◌*◌, ◌<◌, ◌≡◌, refl, ap, ◌∙◌, sym, true, false, List, [], ◌∷◌, arith,
  lt→ltb, le→ltb, length, set, get_elem?, some,
}
use cache_noise_visualizer.Base.Words.{u64}
use cache_noise_visualizer.Result.{done}
use cache_noise_visualizer.Result.Sys.{◌>>=◌, pure, run_result}
use cache_noise_visualizer.Cpu.{Cpu}
use cache_noise_visualizer.Sampling.{
  signed_lt, Probe, probe_state, write_result, measure, probe_inner, probe_outer, probe,
}
use cache_noise_visualizer.Sampling.Order.{
  ascending, probe_lines_from, probe_lines, length-probe_lines, get-probe_lines,
}
use cache_noise_visualizer.Sampling.Primes.{
  Geometry, lines_fit, sets_fit, ways_fit, offset_of_line, addresses, and_then_assoc,
}
use cache_noise_visualizer.Sampling.Recorded.{
  and_then-pure, measure_all, record_all, record_all-append, TimedIn, get-measure_all,
  record_all-measured, length-addresses,
}

module _ {W : Type 0} (cpu : Cpu W) {line_size sets ways buffer : ℕ}
    (g : Geometry line_size sets ways buffer) where
  probe_inner-ascending :
      (fuel left way set : ℕ) (p : Probe)
      → left < fuel
      → way + suc left ≡ ways
      → set < sets
      → probe_inner cpu line_size sets ways buffer fuel way set p
        ≡ record_all cpu (addresses buffer line_size (ascending sets (suc left) way set)) p
  unfolding probe_inner record_all ascending
  probe_inner-ascending zero left way set p f h k = absurd (omega arith)
  probe_inner-ascending (suc fuel) zero way set p f h k =
      let stop : signed_lt (u64 (way + 1)) ways ≡ false = le→ltb _ _ (omega (arith, ways_fit g)) in
      rw (stop, offset_of_line g way set (omega arith) k)
  probe_inner-ascending (suc fuel) (suc left) way set p f h k =
      let go : signed_lt (u64 (way + 1)) ways ≡ true = lt→ltb _ _ (omega (arith, ways_fit g)) in
      let next : u64 (way + 1) ≡ way + 1 = omega (arith, ways_fit g) in
      rw (go, offset_of_line g way set (omega arith) k, next)
        (λ i. measure cpu (buffer + (way * sets + set) * line_size) >>= λ time.
          run_result (write_result p.result_index time p.result) >>= λ result.
          probe_inner-ascending fuel left (way + 1) set
            (probe_state (u64 (p.result_index + 1)) result) (omega arith) (omega arith) k i)

  probe_set :
      (set : ℕ) (p : Probe)
      → set < sets
      → probe_inner cpu line_size sets ways buffer (suc ways) 0 set p
        ≡ record_all cpu (addresses buffer line_size (ascending sets ways 0 set)) p
  probe_set set p h =
      let more : suc (ways - 1) ≡ ways = omega (arith, g.ways_pos) in
      probe_inner-ascending (suc ways) (ways - 1) 0 set p (omega arith) (omega (arith, g.ways_pos))
        h
      ∙ ap (λ (t : ℕ). record_all cpu (addresses buffer line_size (ascending sets t 0 set)) p) more

  probe_outer-lines :
      (fuel left set : ℕ) (p : Probe)
      → left < fuel
      → set + suc left ≡ sets
      → probe_outer cpu line_size sets ways buffer fuel set p
        ≡ record_all cpu (addresses buffer line_size (probe_lines_from sets ways (suc left) set)) p
  unfolding probe_outer probe_lines_from
  probe_outer-lines zero left set p f h = absurd (omega arith)
  probe_outer-lines (suc fuel) zero set p f h =
      let stop : signed_lt (u64 (set + 1)) sets ≡ false = le→ltb _ _ (omega (arith, sets_fit g)) in
      rw (stop, probe_set set p (omega arith), append-nil) (fun_ext λ v. and_then-pure _)
  probe_outer-lines (suc fuel) (suc left) set p f h =
      let go : signed_lt (u64 (set + 1)) sets ≡ true = lt→ltb _ _ (omega (arith, sets_fit g)) in
      let next : u64 (set + 1) ≡ set + 1 = omega (arith, sets_fit g) in
      let first = addresses buffer line_size (ascending sets ways 0 set) in
      rw (go, probe_set set p (omega arith), next)
        ((λ i. record_all cpu first p >>= λ q.
            probe_outer-lines fuel left (set + 1) q (omega arith) (omega arith) i)
          ∙ sym (
              record_all-append cpu first
                (addresses buffer line_size (probe_lines_from sets ways (suc left) (set + 1))) p)
          ∙ ap (λ (t : List ℕ). record_all cpu t p)
              (sym (
                map-append _ (ascending sets ways 0 set)
                  (probe_lines_from sets ways (suc left) (set + 1)))))

module _ {W : Type 0} (cpu : Cpu W) {line_size sets ways buffer : ℕ}
    (g : Geometry line_size sets ways buffer) where
  -- For every buffer of whole sets whose size fits uint32_t and an array with an entry for each line,
  -- probe ends: it is a row of timed loads of the lines of the buffer, set by set and way by way,
  -- which a load that faults cuts short, and it leaves their times in the array in that order,
  -- whatever the array held before.
  pub probe-lines :
      (result : List ℕ)
      → length result ≡ sets * ways
      → probe cpu line_size sets ways buffer result
        ≡ measure_all cpu (addresses buffer line_size (probe_lines sets ways))
  unfolding probe probe_lines
  probe-lines result same =
      let e : suc (sets - 1) ≡ sets = omega (arith, g.sets_pos) in
      let all = addresses buffer line_size (probe_lines sets ways) in
      (λ i. looped e i >>= λ p. pure p.result)
      ∙ (λ i. recorded i >>= λ p. pure p.result)
      ∙ (fun_ext
          λ v. and_then_assoc (measure_all cpu all v) _ _ ∙ and_then-pure (measure_all cpu all v))
    where
      entries : length (addresses buffer line_size (probe_lines sets ways)) ≡ sets * ways
      entries =
          length-addresses buffer line_size (probe_lines sets ways) ∙ length-probe_lines sets ways

      recorded :
          record_all cpu (addresses buffer line_size (probe_lines sets ways)) (probe_state 0 result)
          ≡ (measure_all cpu (addresses buffer line_size (probe_lines sets ways)) >>= λ times.
              pure (
                probe_state
                  (0 + length (addresses buffer line_size (probe_lines sets ways)))
                  times))
      recorded =
          record_all-measured cpu (addresses buffer line_size (probe_lines sets ways)) [] result 0
            refl (entries ∙ sym same) (omega (arith, entries, lines_fit g, mul_comm sets ways))

      looped :
          suc (sets - 1) ≡ sets
          → probe_outer cpu line_size sets ways buffer (suc sets) 0 (probe_state 0 result)
            ≡ record_all cpu
                (addresses buffer line_size (probe_lines sets ways))
                (probe_state 0 result)
      looped e =
          probe_outer-lines cpu g (suc sets) (sets - 1) 0 (probe_state 0 result) (omega arith)
            (omega (arith, g.sets_pos))
          ∙ ap
              (λ (t : ℕ).
                record_all cpu (addresses buffer line_size (probe_lines_from sets ways t 0))
                  (probe_state 0 result))
              e

  -- For every buffer of whole sets whose size fits uint32_t and an array with an entry for each line,
  -- if probe is done, then the run is one of timed loads of the lines of the buffer, and the entry
  -- `set * ways + way`, which outputw_mat_ui32 shows in the row of the set and the column of the way,
  -- is the time of the load of line `way * sets + set` in this run: as many loads have gone before it
  -- in the run as there are entries in front of it.
  pub probe-Timed :
      (result times : List ℕ) (w w' : W) (set way : ℕ)
      → length result ≡ sets * ways
      → set < sets
      → way < ways
      → probe cpu line_size sets ways buffer result w ≡ done times w'
      → TimedIn cpu
          (addresses buffer line_size (probe_lines sets ways))
          (buffer + (way * sets + set) * line_size)
          (set * ways + way)
          times
          w
          w'
  probe-Timed result times w w' set way same h k run =
      get-measure_all cpu (addresses buffer line_size (probe_lines sets ways)) times
        (set * ways + way) (buffer + (way * sets + set) * line_size) w w'
        (rw (probe-lines result same) at run)
        (get-map (probe_lines sets ways) (set * ways + way) (way * sets + set)
          (get-probe_lines sets ways set way h k))
    where
      get-map :
          (xs : List ℕ) (i x : ℕ)
          → get_elem? xs i ≡ some x
          → get_elem? (addresses buffer line_size xs) i ≡ some (buffer + x * line_size)
      get-map [] i x e = cc
      get-map (y ∷ ys) zero x e = ground arith
      get-map (y ∷ ys) (suc i) x e = get-map ys i x e
