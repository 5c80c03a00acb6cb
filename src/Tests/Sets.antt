-- ===== src/Tests/Sets.antt =====
-- The sets that src/profile.c fills and measures, for a buffer that src/alloc.c accepts.
use cache_noise_visualizer.Base.{
  ℕ, ◌+◌, ◌*◌, ◌/◌, ◌%◌, ◌<◌, ◌≡◌, refl, List, arith, some, true, replicate, count_if, ◌==◌,
}
use cache_noise_visualizer.Result.{done}
use cache_noise_visualizer.SysInfo.Pagemap.{
  get_physical_address, pagemap_entry_of, pagemap_entry_from,
}
use cache_noise_visualizer.Memory.{Memory}
use cache_noise_visualizer.Alloc.{test_alignment}
use cache_noise_visualizer.Sampling.{prime, probe}
use cache_noise_visualizer.Sampling.Order.{prime_lines, probe_lines}
use cache_noise_visualizer.Sampling.Primes.{load_all, addresses}
use cache_noise_visualizer.Sampling.Recorded.{TimedIn}
use cache_noise_visualizer.Profile.Sets.{Tested, prime-fills, probe-sets}
use cache_noise_visualizer.Tests.Machine.{files}
use cache_noise_visualizer.Tests.Alloc.{translates, ok-injective}
use cache_noise_visualizer.Tests.Profile.{six_lines}
use cache_noise_visualizer.Tests.Desk.{Desk, empty_desk, desk_cpu, desk-Quiet}

abbrev desk_memory : Memory Desk
desk_memory = record {
  malloc = λ n w. some w;
  free = λ w. w;
  mmap = λ n w. (12288, w);
  munmap = λ b n w. (true, w);
  store = λ p w. some w;
  report = λ m w. w;
}

tested : Tested {W = Desk} files six_lines 12288 4096 (λ a. a)
tested = record {
  step = 64;
  total = omega arith;
  page = omega arith;
  step_pos = omega arith;
  room = omega arith;
  geometry = omega arith;
  stable = λ offset p v h found.
      ok-injective p (12288 + offset) _ found (translates (12288 + offset) v (omega arith));
  huge = record { contiguous = λ i r h. omega arith; frame = λ i. (i + 3, omega arith) };
}

passed : test_alignment files desk_memory 12288 six_lines 4096 empty_desk ≡ done tt empty_desk
unfolding test_alignment pagemap_entry_of get_physical_address pagemap_entry_from
passed = refl

prime-fills_example :
    (prime desk_cpu 64 2 3 12288 ≡ load_all desk_cpu (addresses 12288 64 (prime_lines 2 3)))
    × (count_if (λ a. a / 64 % 2 == 1) (addresses 12288 64 (prime_lines 2 3)) ≡ 3)
prime-fills_example =
    prime-fills files desk_memory six_lines 12288 4096 (λ a. a) tested empty_desk empty_desk passed
      desk_cpu 1 (omega arith)

probe-sets_example :
    (times : List ℕ) × (t : Desk) × (probe desk_cpu 64 2 3 12288 (replicate 6 0) empty_desk
      ≡ done times t)
    × ((set way : ℕ)
        → set < 2
        → way < 3
        → (a : ℕ) × TimedIn desk_cpu
            (addresses 12288 64 (probe_lines 2 3))
            a
            (set * 3 + way)
            times
            empty_desk
            t
          × (a / 64 % 2 ≡ set))
probe-sets_example =
    probe-sets files desk_memory six_lines 12288 4096 (λ a. a) tested empty_desk empty_desk passed
      desk_cpu (λ w. w.shown) desk-Quiet (replicate 6 0) empty_desk refl
