-- ===== src/Sampling.antt =====
-- The inline assembly of src/profile.c: prime loads every line of the buffer, probe times a load of
-- every line. The registers are 64-bit words, and the jumps jl and jnl compare them as signed.
-- Fences and cpuid order the instructions, which stand in program order here.
pub mod Keeps
pub mod Order
pub mod Primes
pub mod Recorded
pub mod Probes
use cache_noise_visualizer.Base.{
  ℕ, zero, suc, ◌+◌, ◌-◌, ◌*◌, ◌^◌, ◌%◌, Bool, List, Option, none, some, ltb, if◌then◌else◌, length,
  set,
}
use cache_noise_visualizer.Base.Words.{u64, u32}
use cache_noise_visualizer.Result.{
  Result, ok, err, fault, Run, done, failed, stuck, bad_access, out_of_fuel,
}
use cache_noise_visualizer.Result.Sys.{Sys, ◌>>=◌, ◌>>◌, pure, crash, run_result}
use cache_noise_visualizer.Cpu.{Cpu}

-- jl: the first word is less than the second as signed numbers.
abbrev pub signed_lt : ℕ → ℕ → Bool
signed_lt a b = ltb (u64 (a + 2 ^ 63)) (u64 (b + 2 ^ 63))

-- dec
abbrev pub dec64 : ℕ → ℕ
dec64 a = u64 (a + (2 ^ 64 - 1))

-- buffer_offset = (way * set_count + set) * line_size, by imulq, add and imulq
abbrev pub buffer_offset : ℕ → ℕ → ℕ → ℕ → ℕ
buffer_offset line_size set_count way set = u64 (u64 (u64 (way * set_count) + set) * line_size)

-- movnti of a 32-bit word into the array `result`
abbrev pub write_result : ℕ → ℕ → List ℕ → Result (List ℕ)
write_result index value results =
    if ltb index (length results) then ok (set results index value) else fault bad_access

abbrev pub if_loaded : {W : Type 0} → Option W → Run W (Unit {0})
if_loaded none = stuck bad_access
if_loaded (some w) = done tt w

abbrev pub counter_read : {W : Type 0} → ℕ × W → Run W ℕ
counter_read (value, w) = done value w

-- The variables that the loops of probe change, besides the registers of the measurement.
pub record Probe : Type 0 where
  pub result_index : ℕ
  pub result : List ℕ

abbrev pub probe_state : ℕ → List ℕ → Probe
probe_state i r = record { result_index = i; result = r }

module _ {W : Type 0} (cpu : Cpu W) where
  abbrev pub access : ℕ → Sys W (Unit {0})
  access address w = if_loaded (cpu.load address w)

  -- The time of one load: sub of the two counter values in 32 bits.
  unfoldable pub measure : ℕ → Sys W ℕ
  measure address = do
    start ← (λ w. counter_read (cpu.rdpmc w))
    access address
    stop ← (λ w. counter_read (cpu.rdpmc w))
    pure (u32 (stop + (2 ^ 32 - u32 start)))

module _ {W : Type 0} (cpu : Cpu W) (line_size set_count way_count buffer : ℕ) where
  -- primeinnerloop, entered with the register `way`
  unfoldable pub prime_inner : ℕ → ℕ → ℕ → Sys W (Unit {0})
  prime_inner zero way set = crash out_of_fuel
  prime_inner (suc fuel) way set =
      let rest = prime_inner fuel (dec64 way) set in
      access cpu (u64 (buffer + buffer_offset line_size set_count way set))
      >> (if signed_lt (dec64 way) 0 then pure tt else rest)

  -- primeouterloop, entered with the register `set`
  unfoldable pub prime_outer : ℕ → ℕ → Sys W (Unit {0})
  prime_outer zero set = crash out_of_fuel
  prime_outer (suc fuel) set =
      let rest = prime_outer fuel (u64 (set + 1)) in
      prime_inner (suc way_count) (dec64 way_count) set
      >> (if signed_lt (u64 (set + 1)) set_count then rest else pure tt)

  unfoldable pub prime : Sys W (Unit {0})
  unfolding prime_outer prime_inner
  prime = prime_outer (suc set_count) 0

  -- innerloop of probe, entered with the register `way`
  unfoldable pub probe_inner : ℕ → ℕ → ℕ → Probe → Sys W Probe
  probe_inner zero way set p = crash out_of_fuel
  probe_inner (suc fuel) way set p = do
    time ← measure cpu (u64 (buffer + buffer_offset line_size set_count way set))
    result ← run_result (write_result p.result_index time p.result)
    let next = probe_state (u64 (p.result_index + 1)) result
    let rest = probe_inner fuel (u64 (way + 1)) set next
    if signed_lt (u64 (way + 1)) way_count then rest else pure next

  -- outerloop of probe, entered with the register `set`
  unfoldable pub probe_outer : ℕ → ℕ → Probe → Sys W Probe
  probe_outer zero set p = crash out_of_fuel
  probe_outer (suc fuel) set p = do
    next ← probe_inner (suc way_count) 0 set p
    let rest = probe_outer fuel (u64 (set + 1)) next
    if signed_lt (u64 (set + 1)) set_count then rest else pure next

  -- The array `result` after probe.
  unfoldable pub probe : List ℕ → Sys W (List ℕ)
  unfolding probe_outer probe_inner measure
  probe result = do p ← probe_outer (suc set_count) 0 (probe_state 0 result); pure p.result
