-- ===== src/Sampling/Keeps.antt =====
-- The predicates of the world that prime and probe keep.
use cache_noise_visualizer.Base.{ℕ, zero, suc, ◌≡◌, List, some, Option-cases, inl, inr}
use cache_noise_visualizer.Result.Keeps.{Keeps, keeps_rules}
use cache_noise_visualizer.Cpu.{Cpu}
use cache_noise_visualizer.Sampling.{
  access, measure, prime_inner, prime_outer, prime, probe_inner, probe_outer, probe, Probe,
  counter_read,
}

pub record CpuKeeps {W : Type 0} (cpu : Cpu W) (P : W → Type 0) : Type 0 where
  pub load : (a : ℕ) (w v : W) → cpu.load a w ≡ some v → P w → P v
  pub rdpmc : (w : W) → P w → P (cpu.rdpmc w).1

module _ {W : Type 0} (cpu : Cpu W) (P : W → Type 0) (keeps : CpuKeeps cpu P) where
  pub access-Keeps : (a : ℕ) → Keeps P (access cpu a)
  access-Keeps a = record {
    at = λ w h. elim (Option-cases (cpu.load a w)) [
      | inl none_loaded ↦ rw none_loaded tt
      | inr (v, loaded) ↦ rw loaded (keeps.load a w v loaded h)
    ];
  }

  rdpmc-Keeps : Keeps P (λ w. counter_read (cpu.rdpmc w))
  rdpmc-Keeps = record { at = λ w h. keeps.rdpmc w h }

  ruleset cpu_rules = (keeps_rules, access-Keeps, rdpmc-Keeps)

  pub measure-Keeps : (a : ℕ) → Keeps P (measure cpu a)
  unfolding measure
  measure-Keeps a = search cpu_rules

  module _ (line_size sets ways buffer : ℕ) where
    prime_inner-Keeps :
        (fuel way set : ℕ) → Keeps P (prime_inner cpu line_size sets ways buffer fuel way set)
    unfolding prime_inner
    prime_inner-Keeps zero way set = search cpu_rules
    prime_inner-Keeps (suc fuel) way set = search (cpu_rules, prime_inner-Keeps fuel)

    prime_outer-Keeps :
        (fuel set : ℕ) → Keeps P (prime_outer cpu line_size sets ways buffer fuel set)
    unfolding prime_outer
    prime_outer-Keeps zero set = search cpu_rules
    prime_outer-Keeps (suc fuel) set = search (cpu_rules, prime_outer-Keeps fuel, prime_inner-Keeps)

    pub prime-Keeps : Keeps P (prime cpu line_size sets ways buffer)
    unfolding prime
    prime-Keeps = prime_outer-Keeps (suc sets) 0

    probe_inner-Keeps :
        (fuel way set : ℕ) (p : Probe)
        → Keeps P (probe_inner cpu line_size sets ways buffer fuel way set p)
    unfolding probe_inner
    probe_inner-Keeps zero way set p = search cpu_rules
    probe_inner-Keeps (suc fuel) way set p =
        search (cpu_rules, measure-Keeps, probe_inner-Keeps fuel)

    probe_outer-Keeps :
        (fuel set : ℕ) (p : Probe) → Keeps P (probe_outer cpu line_size sets ways buffer fuel set p)
    unfolding probe_outer
    probe_outer-Keeps zero set p = search cpu_rules
    probe_outer-Keeps (suc fuel) set p =
        search (cpu_rules, probe_inner-Keeps, probe_outer-Keeps fuel)

    pub probe-Keeps : (result : List ℕ) → Keeps P (probe cpu line_size sets ways buffer result)
    unfolding probe
    probe-Keeps result = search (cpu_rules, probe_outer-Keeps)
