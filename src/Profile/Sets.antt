-- ===== src/Profile/Sets.antt =====
-- The sets of the cache that prime fills and that the rows of a matrix stand for.
use native.Mathlib.Nat.{
  mul-add-div_right, div-eq_of_lt, add-zero, mul-add-mod_self_right, mod-eq_of_lt, div-add-mod',
  mod-lt, mul-div_left,
}
use mathlib.Core.List.{map-append}
use cache_noise_visualizer.Base.{
  ℕ, zero, suc, ◌+◌, ◌*◌, ◌/◌, ◌%◌, ◌^◌, ◌≤◌, ◌<◌, ◌≡◌, sym, ap, ◌∙◌, Bool, ◌&&◌, List, length, ltb,
  leb, ◌==◌, if◌then◌else◌, arith, count_if, count_if-append, line_lt, scaled_lt,
}
use cache_noise_visualizer.Result.{ok, done}
use cache_noise_visualizer.SysInfo.Files.{Files}
use cache_noise_visualizer.SysInfo.CacheInfo.{CacheInfo}
use cache_noise_visualizer.SysInfo.Pagemap.{get_physical_address}
use cache_noise_visualizer.Memory.{Memory}
use cache_noise_visualizer.Cpu.{Cpu}
use cache_noise_visualizer.Alloc.{test_alignment}
use cache_noise_visualizer.Alloc.Alignment.{IsHugeMapping, test_alignment_sound}
use cache_noise_visualizer.Sampling.{prime, probe}
use cache_noise_visualizer.Sampling.Order.{descending, prime_lines_from, prime_lines, probe_lines}
use cache_noise_visualizer.Sampling.Primes.{Geometry, load_all, addresses, prime-once}
use cache_noise_visualizer.Sampling.Recorded.{TimedIn}
use cache_noise_visualizer.Sampling.Probes.{probe-Timed}
use cache_noise_visualizer.Profile.Quiet.{Quiet, probe-Silent}

-- The set of a physical address: its line, modulo the number of sets.
abbrev pub set_of : CacheInfo → ℕ → ℕ
set_of cache physical = physical / cache.line_size % cache.set_count

regroup :
    (q ways sets line k r : ℕ)
    → q * (ways * sets * line) + (k * line + r) ≡ (q * ways * sets + k) * line + r
regroup q ways sets line k r = grind arith

-- A position in the cache gives the set, whatever the multiple of the cache's size in front of it.
set_of_position :
    (p ways sets line k : ℕ)
    → 0 < line
    → p % (ways * sets * line) / line ≡ k
    → p / line % sets ≡ k % sets
set_of_position p ways sets line k pos at_k =
    let q = p / (ways * sets * line) in
    let r = p % (ways * sets * line) in
    let parts : k * line + r % line ≡ r = rw (← at_k) (div-add-mod' r line) in
    let whole : p ≡ (q * ways * sets + k) * line + r % line =
      sym (div-add-mod' p (ways * sets * line))
      ∙ ap (λ (t : ℕ). q * (ways * sets * line) + t) (sym parts)
      ∙ regroup q ways sets line k (r % line) in
    let line_of : p / line ≡ q * ways * sets + k =
      ap (λ (t : ℕ). t / line) whole
      ∙ mul-add-div_right pos (q * ways * sets + k) (r % line)
      ∙ ap (λ (t : ℕ). q * ways * sets + k + t) (div-eq_of_lt (mod-lt r pos))
      ∙ add-zero (q * ways * sets + k) in
    ap (λ (t : ℕ). t % sets) line_of ∙ mul-add-mod_self_right (q * ways) sets k

-- A buffer with the physical addresses `phys` that test_alignment is run on: the lines of the cache
-- fill it, pages are a positive number of lines, and the translation is that of huge pages and does
-- not change.
pub record Tested {W : Type 0} (files : Files W) (cache : CacheInfo) (buffer page_size : ℕ)
    (phys : ℕ → ℕ) : Type 0 where
  pub step : ℕ
  pub total : cache.total_size ≡ cache.ways_of_associativity * cache.set_count * cache.line_size
  pub page : page_size ≡ step * cache.line_size
  pub step_pos : 0 < step
  pub room : step < 2 ^ 63
  pub geometry : Geometry cache.line_size cache.set_count cache.ways_of_associativity buffer
  pub stable :
      (offset p : ℕ) (v : W)
      → offset < cache.total_size
      → get_physical_address files (buffer + offset) v ≡ ok p
      → p ≡ phys (buffer + offset)
  pub huge : IsHugeMapping phys buffer page_size

module _ {W : Type 0} (files : Files W) (memory : Memory W) (cache : CacheInfo)
    (buffer page_size : ℕ) (phys : ℕ → ℕ) (tested : Tested files cache buffer page_size phys)
    (w w' : W) (passed : test_alignment files memory buffer cache page_size w ≡ done tt w') where
  -- The first byte of a line lies in the set of the line.
  line_in_set :
      (k : ℕ)
      → k < cache.ways_of_associativity * cache.set_count
      → set_of cache (phys (buffer + k * cache.line_size)) ≡ k % cache.set_count
  line_in_set k h =
      let g = tested.geometry in
      let lines = cache.ways_of_associativity * cache.set_count in
      let inside : k * cache.line_size < cache.total_size =
        rw tested.total (scaled_lt k lines cache.line_size h g.line_pos) in
      let placed =
        test_alignment_sound files memory buffer cache page_size lines tested.step phys w w'
          tested.total tested.page g.line_pos tested.step_pos (rw tested.total g.size_fits)
          tested.room (rw tested.total g.buffer_fits) tested.stable tested.huge passed
          (k * cache.line_size) inside in
      set_of_position (phys (buffer + k * cache.line_size)) cache.ways_of_associativity
        cache.set_count cache.line_size k g.line_pos
        ((rw tested.total at placed) ∙ mul-div_left k g.line_pos)

  abbrev pub in_set : ℕ → ℕ → Bool
  in_set set a = set_of cache (phys a) == set

  count-descending :
      (n set s : ℕ)
      → n ≤ cache.ways_of_associativity
      → set < cache.set_count
      → count_if (in_set s) (addresses buffer cache.line_size (descending cache.set_count n set))
        ≡ (if set == s then n else 0)
  unfolding descending
  count-descending zero set s h k = ground arith
  count-descending (suc n) set s h k =
      let g = tested.geometry in
      let line = n * cache.set_count + set in
      let placed : set_of cache (phys (buffer + line * cache.line_size)) ≡ set =
        line_in_set line (line_lt cache.set_count cache.ways_of_associativity n set h k)
        ∙ mul-add-mod_self_right n cache.set_count set
        ∙ mod-eq_of_lt k in
      rw placed (ground (arith, count-descending n set s (omega arith) k))

  count-sets :
      (left set s : ℕ)
      → set + left ≤ cache.set_count
      → count_if (in_set s) (
          addresses buffer cache.line_size
            (prime_lines_from cache.set_count cache.ways_of_associativity left set))
        ≡ (if leb set s && ltb s (set + left) then cache.ways_of_associativity else 0)
  unfolding prime_lines_from
  count-sets zero set s h = ground arith
  count-sets (suc left) set s h =
      ap (count_if (in_set s))
        (map-append _ (descending cache.set_count cache.ways_of_associativity set) _)
      ∙ count_if-append (in_set s)
          (addresses buffer cache.line_size
            (descending cache.set_count cache.ways_of_associativity set))
          _
      ∙ ground (
        arith,
        count-descending cache.ways_of_associativity set s (omega arith) (omega arith),
        count-sets left (set + 1) s (omega arith),
      )

  -- The addresses of prime, in its order.
  abbrev pub primed : List ℕ
  primed =
      addresses buffer cache.line_size (prime_lines cache.set_count cache.ways_of_associativity)

  -- Let the lines of the cache fill a buffer whose size fits uint32_t, pages be a positive number of
  -- lines, and the translation of the buffer's addresses be that of huge pages and not change during
  -- the test. Suppose that test_alignment accepts the buffer. Then prime is a row of loads, and for
  -- every set of the cache exactly as many of the loaded addresses lie in this set, by their physical addresses, as
  -- it has ways: prime fills the cache.
  pub prime-fills :
      (cpu : Cpu W) (set : ℕ)
      → set < cache.set_count
      → (prime cpu cache.line_size cache.set_count cache.ways_of_associativity buffer
          ≡ load_all cpu primed)
        × (count_if (in_set set) primed ≡ cache.ways_of_associativity)
  unfolding prime_lines
  prime-fills cpu set h = (
    (prime-once cpu tested.geometry 0).0,
    count-sets cache.set_count 0 set (omega arith) ∙ ground arith,
  )

  -- Let the lines of the cache fill a buffer whose size fits uint32_t, pages be a positive number of
  -- lines, and the translation of the buffer's addresses be that of huge pages and not change during
  -- the test. Suppose that test_alignment accepts the buffer, that loads do not fault, and that the
  -- array has an entry for each line. Then probe ends, and every entry that outputw_mat_ui32 shows in
  -- the row of a set is the time that the load at its place in the run took, of an address which lies
  -- in this set of the cache, by its physical address.
  pub probe-sets :
      {B : Type 0} (cpu : Cpu W) (shown : W → B)
      → Quiet cpu shown
      → (result : List ℕ) (v : W) → length result ≡ cache.set_count * cache.ways_of_associativity
      → (times : List ℕ) × (t : W) × (probe cpu cache.line_size cache.set_count
            cache.ways_of_associativity buffer result v
          ≡ done times t)
        × ((set way : ℕ)
            → set < cache.set_count
            → way < cache.ways_of_associativity
            → (a : ℕ) × TimedIn cpu
                (addresses buffer cache.line_size
                  (probe_lines cache.set_count cache.ways_of_associativity))
                a
                (set * cache.ways_of_associativity + way)
                times
                v
                t
              × (set_of cache (phys a) ≡ set))
  probe-sets cpu shown quiet result v long =
      let g = tested.geometry in
      let (times, t, probed, same, entries) = probe-Silent cpu shown quiet g result v long in
      (
        times,
        t,
        probed,
        (λ set way h k.
            let line = way * cache.set_count + set in
            (
              buffer + line * cache.line_size,
              probe-Timed cpu g result times v t set way long h k probed,
              line_in_set line (line_lt cache.set_count cache.ways_of_associativity way set k h)
                  ∙ mul-add-mod_self_right way cache.set_count set
                  ∙ mod-eq_of_lt h,
            )),
      )
