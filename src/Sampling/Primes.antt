-- ===== src/Sampling/Primes.antt =====
-- The loops of prime, and the order `prime_lines`.
use mathlib.Core.Path.{fun_ext}
use mathlib.Core.List.{map-append, append-nil}
use cache_noise_visualizer.Base.{
  ℕ, zero, suc, ◌+◌, ◌-◌, ◌*◌, ◌^◌, ◌≤◌, ◌<◌, ◌≡◌, refl, ap, ◌∙◌, sym, true, false, List, [], ◌∷◌,
  ◌++◌, map, ltb, if◌then◌else◌, arith, lt→ltb, le→ltb, le-mul, line_lt, scaled_lt,
}
use cache_noise_visualizer.Base.Words.{u64}
use cache_noise_visualizer.Result.{Run, done, failed, stuck}
use cache_noise_visualizer.Result.Sys.{Sys, ◌>>◌, pure, and_then}
use cache_noise_visualizer.Cpu.{Cpu}
use cache_noise_visualizer.Sampling.{
  signed_lt, dec64, buffer_offset, access, prime_inner, prime_outer, prime,
}
use cache_noise_visualizer.Sampling.Order.{
  descending, prime_lines_from, prime_lines, count, count-prime_lines,
}

-- The sizes that the loops are run with: a buffer of whole sets that lies in the address space, with
-- a size that fits uint32_t.
pub record Geometry (line_size sets ways buffer : ℕ) : Type 0 where
  pub line_pos : 0 < line_size
  pub sets_pos : 0 < sets
  pub ways_pos : 0 < ways
  pub size_fits : ways * sets * line_size < 2 ^ 32
  pub buffer_fits : buffer + ways * sets * line_size ≤ 2 ^ 64

wrapped_offset :
    (buffer x size : ℕ)
    → x < size
    → size < 2 ^ 32
    → buffer + size ≤ 2 ^ 64
    → u64 (buffer + u64 x) ≡ buffer + x
wrapped_offset buffer x size h k l = omega arith

module _ {line_size sets ways buffer : ℕ} (g : Geometry line_size sets ways buffer) where
  pub lines_fit : ways * sets < 2 ^ 32
  lines_fit = omega (arith, le-mul (ways * sets) line_size g.line_pos, g.size_fits)

  pub sets_fit : sets < 2 ^ 32
  sets_fit = grind (arith, lines_fit, g.ways_pos)

  pub ways_fit : ways < 2 ^ 32
  ways_fit = grind (arith, lines_fit, g.sets_pos)

  -- The register arithmetic does not wrap.
  pub offset_of_line :
      (way set : ℕ)
      → way < ways
      → set < sets
      → u64 (buffer + buffer_offset line_size sets way set)
        ≡ buffer + (way * sets + set) * line_size
  offset_of_line way set h k =
      let line_in = line_lt sets ways way set h k in
      let byte_in = scaled_lt (way * sets + set) (ways * sets) line_size line_in g.line_pos in
      let line : u64 (u64 (way * sets) + set) ≡ way * sets + set = omega (arith, lines_fit) in
      rw line (
        wrapped_offset buffer ((way * sets + set) * line_size) (ways * sets * line_size) byte_in
          g.size_fits g.buffer_fits)

module _ {W : Type 0} (cpu : Cpu W) where
  -- Loads of the addresses one after another.
  unfoldable pub load_all : List ℕ → Sys W (Unit {0})
  load_all [] = pure tt
  load_all (x ∷ xs) = access cpu x >> load_all xs

abbrev pub addresses : ℕ → ℕ → List ℕ → List ℕ
addresses buffer line_size = map (λ line. buffer + line * line_size)

pub and_then_assoc :
    {W A B C : Type 0} (r : Run W A) (f : A → Sys W B) (k : B → Sys W C)
    → and_then (and_then r f) k ≡ and_then r (λ a v. and_then (f a v) k)
and_then_assoc (done a v) f k = refl
and_then_assoc (failed e v) f k = refl
and_then_assoc (stuck x) f k = refl

and_then-tt : {W : Type 0} (r : Run W (Unit {0})) → and_then r (λ _. pure tt) ≡ r
and_then-tt (done a v) = refl
and_then-tt (failed e v) = refl
and_then-tt (stuck x) = refl

load_all-append :
    {W : Type 0} (cpu : Cpu W) (xs ys : List ℕ)
    → load_all cpu (xs ++ ys) ≡ (load_all cpu xs >> load_all cpu ys)
unfolding load_all
load_all-append cpu [] ys = refl
load_all-append cpu (x ∷ xs) ys = fun_ext λ v.
    ap (λ k. (access cpu x >> k) v) (load_all-append cpu xs ys)
    ∙ sym (and_then_assoc (access cpu x v) (λ _. load_all cpu xs) (λ _. load_all cpu ys))

module _ {W : Type 0} (cpu : Cpu W) {line_size sets ways buffer : ℕ}
    (g : Geometry line_size sets ways buffer) where
  prime_inner-descending :
      (fuel way set : ℕ)
      → way < fuel
      → way < ways
      → set < sets
      → prime_inner cpu line_size sets ways buffer fuel way set
        ≡ load_all cpu (addresses buffer line_size (descending sets (suc way) set))
  unfolding prime_inner load_all descending
  prime_inner-descending zero way set f h k = absurd (omega arith)
  prime_inner-descending (suc fuel) zero set f h k = rw (offset_of_line g 0 set h k)
  prime_inner-descending (suc fuel) (suc way) set f h k =
      let down : dec64 (suc way) ≡ way = omega (arith, ways_fit g) in
      let nonneg : signed_lt way 0 ≡ false = le→ltb _ _ (omega (arith, ways_fit g)) in
      rw (
        offset_of_line g (suc way) set h k,
        down,
        nonneg,
        prime_inner-descending fuel way set (omega arith) (omega arith) k,
      )

  prime_set :
      (set : ℕ)
      → set < sets
      → prime_inner cpu line_size sets ways buffer (suc ways) (dec64 ways) set
        ≡ load_all cpu (addresses buffer line_size (descending sets ways set))
  prime_set set h =
      let last : dec64 ways ≡ ways - 1 = omega (arith, ways_fit g, g.ways_pos) in
      let more : suc (ways - 1) ≡ ways = omega (arith, g.ways_pos) in
      ap (λ (t : ℕ). prime_inner cpu line_size sets ways buffer (suc ways) t set) last
      ∙ prime_inner-descending (suc ways) (ways - 1) set (omega (arith)) (omega (arith, g.ways_pos))
          h
      ∙ ap (λ (t : ℕ). load_all cpu (addresses buffer line_size (descending sets t set))) more

  prime_outer-lines :
      (fuel left set : ℕ)
      → left < fuel
      → set + suc left ≡ sets
      → prime_outer cpu line_size sets ways buffer fuel set
        ≡ load_all cpu (addresses buffer line_size (prime_lines_from sets ways (suc left) set))
  unfolding prime_outer prime_lines_from
  prime_outer-lines zero left set f h = absurd (omega arith)
  prime_outer-lines (suc fuel) zero set f h =
      let stop : signed_lt (u64 (set + 1)) sets ≡ false = le→ltb _ _ (omega (arith, sets_fit g)) in
      rw (stop, prime_set set (omega arith), append-nil)
        (fun_ext
          λ v. and_then-tt (load_all cpu (addresses buffer line_size (descending sets ways set)) v))
  prime_outer-lines (suc fuel) (suc left) set f h =
      let go : signed_lt (u64 (set + 1)) sets ≡ true = lt→ltb _ _ (omega (arith, sets_fit g)) in
      let next : u64 (set + 1) ≡ set + 1 = omega (arith, sets_fit g) in
      rw
        (
          go,
          prime_set set (omega arith),
          next,
          prime_outer-lines fuel left (set + 1) (omega arith) (omega arith),
        )
        (sym (load_all-append cpu (addresses buffer line_size (descending sets ways set)) _)
          ∙ ap (load_all cpu) (
              sym (
                map-append _ (descending sets ways set)
                  (prime_lines_from sets ways (suc left) (set + 1)))))

  prime-lines :
      prime cpu line_size sets ways buffer
      ≡ load_all cpu (addresses buffer line_size (prime_lines sets ways))
  unfolding prime prime_lines
  prime-lines =
      let e : suc (sets - 1) ≡ sets = omega (arith, g.sets_pos) in
      prime_outer-lines (suc sets) (sets - 1) 0 (omega arith) (omega (arith, g.sets_pos))
      ∙ ap (λ (t : ℕ). load_all cpu (addresses buffer line_size (prime_lines_from sets ways t 0))) e

  -- For every buffer of whole sets whose size fits uint32_t, prime ends and is a row of loads (which a
  -- load that faults cuts short) of the first bytes of lines of the buffer, and the row has every line
  -- of the buffer exactly once and no other line.
  pub prime-once :
      (k : ℕ)
      → (prime cpu line_size sets ways buffer
          ≡ load_all cpu (addresses buffer line_size (prime_lines sets ways)))
        × (count k (prime_lines sets ways) ≡ (if ltb k (ways * sets) then 1 else 0))
  prime-once k = (prime-lines, count-prime_lines sets ways k g.sets_pos)
