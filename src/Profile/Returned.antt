-- ===== src/Profile/Returned.antt =====
-- profile as a whole, with the cycle counter around the loop.
use cache_noise_visualizer.Base.{
  ℕ, suc, ◌-◌, ◌*◌, ◌^◌, ◌≤◌, ◌<◌, ◌≡◌, ◌⊎◌, inl, inr, refl, sym, ap, ◌∙◌, false, List, [], ◌++◌,
  length, All, arith, ◌==◌, Bool-cases,
}
use mathlib.Core.List.{append-nil}
use cache_noise_visualizer.Base.Int.{ℤ}
use cache_noise_visualizer.Base.Text.{Bytes}
use cache_noise_visualizer.Errors.{ErrorCode, error_none, error_fd_cycle, error_fd_cycle_close}
use cache_noise_visualizer.Result.{done, failed}
use cache_noise_visualizer.Result.Sys.{status}
use cache_noise_visualizer.SysInfo.CacheInfo.{CacheInfo}
use cache_noise_visualizer.Cpu.{Cpu}
use cache_noise_visualizer.Sampling.Primes.{Geometry}
use cache_noise_visualizer.Output.{Outlet, Output, output_stdout}
use cache_noise_visualizer.Output.Rows.{Takes}
use cache_noise_visualizer.Actions.{
  Kernel, Request, ioc_reset, ioc_enable, ioc_disable, is_zero, descriptor,
  enable_cpu_cycle_counter, disable_cpu_cycle_counter,
}
use cache_noise_visualizer.Profile.{Scheduler, profile}
use cache_noise_visualizer.Profile.Quiet.{Quiet}
use cache_noise_visualizer.Profile.Matrix.{IsMatrix, matrices_text}
use cache_noise_visualizer.Profile.Written.{profile_loop-Written}

-- The calls for the counter write nothing to the stream.
pub record QuietCounter {W : Type 0} (kernel : Kernel W) (shown : W → Bytes) : Type 0 where
  pub perf_event_open : (cpu : ℕ) (w : W) → shown (kernel.perf_event_open cpu w).1 ≡ shown w
  pub ioctl : (fd : ℕ) (r : Request) (w : W) → shown (kernel.ioctl fd r w).1 ≡ shown w

module _ {W : Type 0} (kernel : Kernel W) (shown : W → Bytes)
    (quiet : QuietCounter kernel shown) where
  -- The counter is enabled, or the code is ERROR_FD_CYCLE.
  enable-Silent :
      (cpu : ℕ) (w : W)
      → ((fd : ℕ) × (v : W) × (enable_cpu_cycle_counter kernel cpu w ≡ done fd v)
          × (shown v ≡ shown w))
        ⊎ ((v : W) × (enable_cpu_cycle_counter kernel cpu w ≡ failed error_fd_cycle v)
            × (shown v ≡ shown w))
  unfolding enable_cpu_cycle_counter
  enable-Silent cpu w = elim (Bool-cases (descriptor opened.0 == 2 ^ 32 - 1)) [
    | inl refused ↦ inr (opened.1, rw refused, first)
    | inr usable ↦ elim (Bool-cases (is_zero reset.0)) [
      | inr refused ↦ inr (reset.1, rw (usable, refused), second)
      | inl zeroed ↦ elim (Bool-cases (is_zero enabled.0)) [
        | inr refused ↦ inr (enabled.1, rw (usable, zeroed, refused), third)
        | inl on ↦ inl (descriptor opened.0, enabled.1, rw (usable, zeroed, on), third)
      ]
    ]
  ]
    where
      opened : ℤ × W
      opened = kernel.perf_event_open cpu w

      reset : ℤ × W
      reset = kernel.ioctl (descriptor opened.0) ioc_reset opened.1

      enabled : ℤ × W
      enabled = kernel.ioctl (descriptor opened.0) ioc_enable reset.1

      first : shown opened.1 ≡ shown w
      first = quiet.perf_event_open cpu w

      second : shown reset.1 ≡ shown w
      second = quiet.ioctl (descriptor opened.0) ioc_reset opened.1 ∙ first

      third : shown enabled.1 ≡ shown w
      third = quiet.ioctl (descriptor opened.0) ioc_enable reset.1 ∙ second

  disable-Silent :
      (fd : ℕ) (w : W)
      → (e : ErrorCode) × (v : W) × (status (disable_cpu_cycle_counter kernel fd) w ≡ done e v)
        × (shown v ≡ shown w)
        × ((e ≡ error_none) ⊎ (e ≡ error_fd_cycle_close))
  unfolding disable_cpu_cycle_counter
  disable-Silent fd w = elim (Bool-cases (is_zero (kernel.ioctl fd ioc_disable w).0)) [
    | inl off ↦ (
      error_none,
      (kernel.ioctl fd ioc_disable w).1,
      rw off,
      quiet.ioctl fd ioc_disable w,
      inl refl,
    )
    | inr refused ↦ (
      error_fd_cycle_close,
      (kernel.ioctl fd ioc_disable w).1,
      rw refused,
      quiet.ioctl fd ioc_disable w,
      inr refl,
    )
  ]

module _ {W : Type 0} (cpu : Cpu W) (outlet : Outlet W) (kernel : Kernel W)
    (scheduler : Scheduler W) (cache : CacheInfo) (buffer : ℕ) (shown : W → Bytes) (output : Output)
    (g : Geometry cache.line_size cache.set_count cache.ways_of_associativity buffer)
    (quiet : Quiet cpu shown) (counter : QuietCounter kernel shown)
    (yields : (w : W) → shown (scheduler.sched_yield w) ≡ shown w)
    (stream : output.type ≡ output_stdout) (takes : Takes outlet output.std shown) where
  -- For a cache whose lines fill the buffer, an array with an entry for each line, loads that do not
  -- fault and a stream that takes every text, profile with 1 to 2 ^ 31 - 1 iterations returns, having
  -- written only whole matrices of measured times to the stream, at most one for each iteration. The
  -- code is ERROR_FD_CYCLE with nothing written, or ERROR_NONE, or ERROR_FD_CYCLE_CLOSE.
  pub profile-returns :
      (iterations cpu_id : ℕ) (result : List ℕ) (w : W)
      → 0 < iterations
      → iterations < 2 ^ 31
      → length result ≡ cache.set_count * cache.ways_of_associativity
      → (e : ErrorCode) × (matrices : List (List (List ℕ))) × All
          (IsMatrix cpu cache buffer)
          matrices
        × (w' : W) × (profile cpu outlet kernel scheduler cache iterations buffer
              (suc iterations)
              cpu_id
              result
              output
              w
            ≡ done (e, output) w')
        × (shown w' ≡ shown w ++ matrices_text matrices)
        × (length matrices ≤ iterations)
        × (((e ≡ error_fd_cycle) × (matrices ≡ []))
            ⊎ ((e ≡ error_none) ⊎ (e ≡ error_fd_cycle_close)))
  unfolding profile matrices_text
  profile-returns iterations cpu_id result w pos small long =
      let sized : (cache.line_size == 0) ≡ false = ground (arith, g.line_pos) in
      elim (enable-Silent kernel shown counter cpu_id w) [
        | inr (v, refused, same) ↦ (
          error_fd_cycle,
          [],
          tt,
          v,
          rw (sized, refused),
          same ∙ sym (append-nil (shown w)),
          omega arith,
          inl (refl, refl),
        )
        | inl (fd, v, opened, same) ↦
            let (matrices, all, last, u, run, text, count) =
              profile_loop-Written cpu outlet scheduler cache buffer shown output g quiet yields
                stream takes iterations result v pos small long in
            let (e, t, closed, same', code) = disable-Silent kernel shown counter fd u in
            (
              e,
              matrices,
              all,
              t,
              rw (sized, opened, run, closed),
              same' ∙ text ∙ ap (λ s. s ++ matrices_text matrices) same,
              omega arith,
              inr code,
            )
      ]
