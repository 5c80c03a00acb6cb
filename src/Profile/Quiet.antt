-- ===== src/Profile/Quiet.antt =====
-- prime and probe on memory that is mapped, and what they leave alone of the world.
use cache_noise_visualizer.Base.{
  ℕ, suc, ◌+◌, ◌-◌, ◌*◌, ◌^◌, ◌≡◌, refl, ap, ◌∙◌, List, [], ◌∷◌, some, length,
}
use cache_noise_visualizer.Base.Words.{u32}
use cache_noise_visualizer.Result.{done}
use cache_noise_visualizer.Result.Sys.{Sys}
use cache_noise_visualizer.Cpu.{Cpu}
use cache_noise_visualizer.Sampling.{access, measure, prime, probe}
use cache_noise_visualizer.Sampling.Order.{prime_lines, probe_lines, length-probe_lines}
use cache_noise_visualizer.Sampling.Primes.{Geometry, load_all, addresses, prime-once}
use cache_noise_visualizer.Sampling.Recorded.{measure_all, length-addresses}
use cache_noise_visualizer.Sampling.Probes.{probe-lines}

-- Loads of mapped memory and reads of the counter leave alone what `shown` sees of the world: a stream,
-- or the data sets of a file.
pub record Quiet {W B : Type 0} (cpu : Cpu W) (shown : W → B) : Type 0 where
  pub load : (a : ℕ) (w : W) → (w' : W) × (cpu.load a w ≡ some w') × (shown w' ≡ shown w)
  pub rdpmc : (w : W) → shown (cpu.rdpmc w).1 ≡ shown w

module _ {W B : Type 0} (cpu : Cpu W) (shown : W → B) (quiet : Quiet cpu shown) where
  -- Code that is done and has changed nothing of it.
  abbrev pub Silent : {A : Type 0} → Sys W A → Type 0
  Silent {A} f = (w : W) → (a : A) × (w' : W) × (f w ≡ done a w') × (shown w' ≡ shown w)

  access-Silent : (a : ℕ) → Silent (access cpu a)
  access-Silent a w = let (v, run, same) = quiet.load a w in (tt, v, rw run, same)

  measure-Silent : (a : ℕ) → Silent (measure cpu a)
  unfolding measure
  measure-Silent a w =
      let (v, run, same) = quiet.load a (cpu.rdpmc w).1 in
      (
        u32 ((cpu.rdpmc v).0 + (2 ^ 32 - u32 (cpu.rdpmc w).0)),
        (cpu.rdpmc v).1,
        rw run,
        quiet.rdpmc v ∙ same ∙ quiet.rdpmc w,
      )

  load_all-Silent : (xs : List ℕ) → Silent (load_all cpu xs)
  unfolding load_all
  load_all-Silent [] w = (tt, w, refl, refl)
  load_all-Silent (x ∷ xs) w =
      let (_, v, run, same) = access-Silent x w in
      let (_, u, run', same') = load_all-Silent xs v in (tt, u, rw run run', same' ∙ same)

  measure_all-Silent :
      (xs : List ℕ) (w : W)
      → (times : List ℕ) × (w' : W) × (measure_all cpu xs w ≡ done times w')
        × (shown w' ≡ shown w)
        × (length times ≡ length xs)
  unfolding measure_all
  measure_all-Silent [] w = ([], w, refl, refl, refl)
  measure_all-Silent (x ∷ xs) w =
      let (t, v, run, same) = measure-Silent x w in
      let (ts, u, run', same', long) = measure_all-Silent xs v in
      (t ∷ ts, u, rw (run, run'), same' ∙ same, ap suc long)

  module _ {line_size sets ways buffer : ℕ} (g : Geometry line_size sets ways buffer) where
    pub prime-Silent :
        (w : W)
        → (w' : W) × (prime cpu line_size sets ways buffer w ≡ done tt w') × (shown w' ≡ shown w)
    prime-Silent w =
        let (_, w', run, same) =
          load_all-Silent (addresses buffer line_size (prime_lines sets ways)) w in
        (w', rw ((prime-once cpu g 0).0) run, same)

    pub probe-Silent :
        (result : List ℕ) (w : W)
        → length result ≡ sets * ways
        → (times : List ℕ) × (w' : W) × (probe cpu line_size sets ways buffer result w
            ≡ done times w')
          × (shown w' ≡ shown w)
          × (length times ≡ sets * ways)
    probe-Silent result w same_length =
        let (times, w', run, same, long) =
          measure_all-Silent (addresses buffer line_size (probe_lines sets ways)) w in
        (
          times,
          w',
          rw (probe-lines cpu g result same_length) run,
          same,
          long
              ∙ length-addresses buffer line_size (probe_lines sets ways)
              ∙ length-probe_lines sets ways,
        )
