-- ===== src/Profile/Counter.antt =====
-- The cycle counter behind profile.
use cache_noise_visualizer.Base.{
  ℕ, ◌-◌, ◌^◌, ◌≡◌, ◌≢◌, ◌⊎◌, inl, inr, refl, subst, Bool, true, false, List, ◌==◌, if◌then◌else◌,
  Bool-cases,
}
use cache_noise_visualizer.Base.Int.{int_eq, int_eq_iff}
use cache_noise_visualizer.Errors.{ErrorCode, error_none, error_fd_cycle, error_fd_cycle_close}
use cache_noise_visualizer.Result.{done, failed}
use cache_noise_visualizer.Result.Sys.{Sys, ◌>>=◌, pure, status, and_then-done, done-subst}
use cache_noise_visualizer.Result.Keeps.{Over}
use cache_noise_visualizer.SysInfo.CacheInfo.{CacheInfo}
use cache_noise_visualizer.Cpu.{Cpu}
use cache_noise_visualizer.Sampling.Keeps.{CpuKeeps}
use cache_noise_visualizer.Output.{Outlet, Output}
use cache_noise_visualizer.Output.Keeps.{OutletKeeps}
use cache_noise_visualizer.Actions.{
  Kernel, ioc_reset, ioc_enable, ioc_disable, is_zero, descriptor, enable_cpu_cycle_counter,
  disable_cpu_cycle_counter,
}
use cache_noise_visualizer.Profile.{Scheduler, Outcome, Measured, profile_loop, profile}
use cache_noise_visualizer.Profile.Keeps.{profile_loop-Keeps}

-- A test `on w` of the cycle counter: the ioctl calls that succeed turn it on and off, and it stays on
-- through loads, reads of the counter, sched_yield and the output.
pub record Switch {W : Type 0} (cpu : Cpu W) (outlet : Outlet W) (kernel : Kernel W)
    (scheduler : Scheduler W) (on : W → Bool) : Type 0 where
  pub enables :
      (fd : ℕ) (w : W)
      → is_zero (kernel.ioctl fd ioc_enable w).0 ≡ true
      → on (kernel.ioctl fd ioc_enable w).1 ≡ true
  pub disables :
      (fd : ℕ) (w : W)
      → is_zero (kernel.ioctl fd ioc_disable w).0 ≡ true
      → on (kernel.ioctl fd ioc_disable w).1 ≡ false
  pub cpu_keeps : CpuKeeps cpu (λ w. on w ≡ true)
  pub outlet_keeps : OutletKeeps outlet (λ w. on w ≡ true)
  pub yields : (w : W) → on w ≡ true → on (scheduler.sched_yield w) ≡ true

module _ {W : Type 0} (cpu : Cpu W) (outlet : Outlet W) (kernel : Kernel W)
    (scheduler : Scheduler W) (on : W → Bool) (switch : Switch cpu outlet kernel scheduler on) where
  enable-On :
      (cpu_id : ℕ) (w : W)
      → ((fd : ℕ) × (v : W) × (enable_cpu_cycle_counter kernel cpu_id w ≡ done fd v)
          × (on v ≡ true))
        ⊎ ((v : W) × (enable_cpu_cycle_counter kernel cpu_id w ≡ failed error_fd_cycle v))
  unfolding enable_cpu_cycle_counter
  enable-On cpu_id w =
      let opened = kernel.perf_event_open cpu_id w in
      let fd = descriptor opened.0 in
      let reset = kernel.ioctl fd ioc_reset opened.1 in
      elim (Bool-cases (fd == 2 ^ 32 - 1)) [
        | inl refused ↦ inr (opened.1, rw refused)
        | inr usable ↦ elim (Bool-cases (is_zero reset.0)) [
          | inr refused ↦ inr (reset.1, rw (usable, refused))
          | inl zeroed ↦ elim (Bool-cases (is_zero (kernel.ioctl fd ioc_enable reset.1).0)) [
            | inr refused ↦
                inr ((kernel.ioctl fd ioc_enable reset.1).1, rw (usable, zeroed, refused))
            | inl enabled ↦ inl (
              fd,
              (kernel.ioctl fd ioc_enable reset.1).1,
              rw (usable, zeroed, enabled),
              switch.enables fd reset.1 enabled,
            )
          ]
        ]
      ]

  -- The code of profile, and the counter by then.
  abbrev Counted : ErrorCode → W → Type 0
  Counted e w =
      ((e ≡ error_none) × (on w ≡ false))
      ⊎ (((e ≢ error_none) × (on w ≡ true)) ⊎ ((e ≡ error_fd_cycle) ⊎ (e ≡ error_fd_cycle_close)))

  -- The end of profile.
  abbrev closing : ℕ → Output → Sys W Outcome
  closing fd output = do
    closed ← status (disable_cpu_cycle_counter kernel fd)
    pure (closed, output)

  disable-Counted :
      (fd : ℕ) (output o : Output) (e : ErrorCode) (w w' : W)
      → closing fd output w ≡ done (e, o) w'
      → Counted e w'
  unfolding disable_cpu_cycle_counter
  disable-Counted fd output o e w w' run =
      elim (Bool-cases (is_zero (kernel.ioctl fd ioc_disable w).0)) [
        | inl off ↦
            done-subst (λ (r : Outcome) v. Counted r.0 v) (rw off at run)
              (inl (refl, switch.disables fd w off))
        | inr refused ↦
            done-subst (λ (r : Outcome) v. Counted r.0 v) (rw refused at run) (inr (inr (inr refl)))
      ]

  -- What follows the loop.
  measured-Counted :
      (fd : ℕ) (m : Measured) (o : Output) (e : ErrorCode) (w w' : W)
      → on w ≡ true
      → (if int_eq m.code error_none then closing fd m.output else pure (m.code, m.output)) w
        ≡ done (e, o) w'
      → Counted e w'
  measured-Counted fd m o e w w' running run = elim (Bool-cases (int_eq m.code error_none)) [
    | inl success ↦ disable-Counted fd m.output o e w w' (rw success at run)
    | inr failure ↦
        done-subst (λ (r : Outcome) v. Counted r.0 v) (rw failure at run)
          (inr (inl (λ p. cc (failure, (int_eq_iff m.code error_none).1 p), running)))
  ]

  module _ (cache : CacheInfo) (iterations buffer : ℕ) where
    -- Suppose that the ioctl calls that succeed turn the cycle counter on and off, and that loads,
    -- sched_yield and the output leave it on. If profile returns ERROR_NONE, then the counter is off.
    -- Every other code is that of a call for the counter that was refused (ERROR_FD_CYCLE or
    -- ERROR_FD_CYCLE_CLOSE), or comes with a counter that profile has left on.
    pub profile-Counted :
        (fuel cpu_id : ℕ) (result : List ℕ) (output o : Output) (e : ErrorCode) (w w' : W)
        → profile cpu outlet kernel scheduler cache iterations buffer fuel cpu_id result output w
          ≡ done (e, o) w'
        → ((e ≡ error_none) × (on w' ≡ false))
          ⊎ (((e ≢ error_none) × (on w' ≡ true))
              ⊎ ((e ≡ error_fd_cycle) ⊎ (e ≡ error_fd_cycle_close)))
    unfolding profile
    profile-Counted fuel cpu_id result output o e w w' run =
        elim (Bool-cases (cache.line_size == 0)) [
          | inl divides ↦ cc (rw divides at run)
          | inr sized ↦ elim (enable-On cpu_id w) [
            | inr (v, refused) ↦
                done-subst (λ (r : Outcome) u. Counted r.0 u) (rw (sized, refused) at run)
                  (inr (inr (inl refl)))
            | inl (fd, v, enabled, running) ↦
                let (m, u, looped, rest) =
                  and_then-done
                    (profile_loop cpu outlet scheduler cache iterations buffer fuel 0 result output
                      v)
                    _ (rw (sized, enabled) at run) in
                measured-Counted fd m o e u w'
                  (subst (Over (λ t. on t ≡ true)) looped (
                    (profile_loop-Keeps cpu outlet scheduler (λ t. on t ≡ true) switch.cpu_keeps
                        switch.outlet_keeps switch.yields cache iterations buffer fuel 0 result
                        output).at
                      v running))
                  rest
          ]
        ]
