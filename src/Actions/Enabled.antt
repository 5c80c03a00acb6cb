-- ===== src/Actions/Enabled.antt =====
-- The cycle counter where every call for it succeeds.
use cache_noise_visualizer.Base.{ℕ, ◌-◌, ◌^◌, ◌≡◌, refl, ◌∙◌, true, false, ◌==◌}
use cache_noise_visualizer.Base.Text.{Bytes}
use cache_noise_visualizer.Result.{done}
use cache_noise_visualizer.Actions.{
  Kernel, Request, ioc_reset, ioc_enable, ioc_disable, is_zero, descriptor,
  enable_cpu_cycle_counter, disable_cpu_cycle_counter,
}

-- The counter can be opened and takes every request, and neither is shown.
pub record Counting {W : Type 0} (kernel : Kernel W) (shown : W → Bytes) : Type 0 where
  pub opens :
      (cpu : ℕ) (v : W) → (descriptor (kernel.perf_event_open cpu v).0 == 2 ^ 32 - 1) ≡ false
  pub serves : (fd : ℕ) (r : Request) (v : W) → is_zero (kernel.ioctl fd r v).0 ≡ true
  pub perf_event_open : (cpu : ℕ) (v : W) → shown (kernel.perf_event_open cpu v).1 ≡ shown v
  pub ioctl : (fd : ℕ) (r : Request) (v : W) → shown (kernel.ioctl fd r v).1 ≡ shown v

module _ {W : Type 0} {kernel : Kernel W} {shown : W → Bytes}
    (counting : Counting kernel shown) where
  pub enable-runs :
      (cpu : ℕ) (w : W)
      → (fd : ℕ) × (v : W) × (enable_cpu_cycle_counter kernel cpu w ≡ done fd v)
        × (shown v ≡ shown w)
  unfolding enable_cpu_cycle_counter
  enable-runs cpu w =
      let opened = kernel.perf_event_open cpu w in
      let fd = descriptor opened.0 in
      let reset = kernel.ioctl fd ioc_reset opened.1 in
      (
        fd,
        (kernel.ioctl fd ioc_enable reset.1).1,
        rw
            (
              counting.opens cpu w,
              counting.serves fd ioc_reset opened.1,
              counting.serves fd ioc_enable reset.1,
            )
            refl,
        counting.ioctl fd ioc_enable reset.1
            ∙ counting.ioctl fd ioc_reset opened.1
            ∙ counting.perf_event_open cpu w,
      )

  pub disable-runs :
      (fd : ℕ) (w : W)
      → (v : W) × (disable_cpu_cycle_counter kernel fd w ≡ done tt v) × (shown v ≡ shown w)
  unfolding disable_cpu_cycle_counter
  disable-runs fd w = (
    (kernel.ioctl fd ioc_disable w).1,
    rw (counting.serves fd ioc_disable w) refl,
    counting.ioctl fd ioc_disable w,
  )
