-- ===== src/Tests/Counter.antt =====
-- profile of src/profile.c on a machine whose stream refuses every text.
use cache_noise_visualizer.Base.{◌≡◌, ◌≢◌, ◌⊎◌, refl, Bool, true, false, [], ◌∷◌, subst, some}
use cache_noise_visualizer.Base.Int.{pos, negsuc}
use cache_noise_visualizer.Errors.{error_none, error_io_hdf, error_fd_cycle, error_fd_cycle_close}
use cache_noise_visualizer.Result.{done}
use cache_noise_visualizer.SysInfo.CacheInfo.{CacheInfo, data_cache}
use cache_noise_visualizer.Cpu.{Cpu}
use cache_noise_visualizer.Sampling.{prime, probe, measure}
use cache_noise_visualizer.Output.{Outlet, Output, outputw_mat_ui32}
use cache_noise_visualizer.Actions.{
  Kernel, Request, ioc_reset, ioc_enable, ioc_disable, enable_cpu_cycle_counter,
  disable_cpu_cycle_counter,
}
use cache_noise_visualizer.Profile.{Scheduler, profile, profile_loop}
use cache_noise_visualizer.Profile.Counter.{Switch, profile-Counted}

record Gauge : Type 0 where
  on : Bool

abbrev gauge : Bool → Gauge
gauge b = record { on = b }

abbrev gauge_cpu : Cpu Gauge
gauge_cpu = record { load = λ a w. some w; rdpmc = λ w. (5, w) }

abbrev refusing : Outlet Gauge
refusing = record {
  print = λ std text w. (false, w);
  create_dataspace = λ rows columns w. (pos 1, w);
  create_dataset = λ file name space w. (pos 2, w);
  write_dataset = λ d values w. (pos 0, w);
  close_dataset = λ d w. (pos 0, w);
  create_file = λ file w. (pos 3, w);
  chmod = λ file w. (pos 0, w);
  close_file = λ file w. (pos 0, w);
}

abbrev switched : Request → Gauge → Gauge
switched ioc_reset w = w
switched ioc_enable w = gauge true
switched ioc_disable w = gauge false

abbrev gauge_kernel : Kernel Gauge
gauge_kernel = record {
  sched_setaffinity = λ pid cpu w. (pos 0, w);
  perf_event_open = λ cpu w. (pos 3, w);
  ioctl = λ fd r w. (pos 0, switched r w);
  posix_spawnattr_init = λ w. (pos 0, w);
  posix_spawnattr_setflags = λ w. w;
  posix_spawn_file_actions_init = λ w. (pos 0, w);
  wordexp = λ text w. ([], w);
  wordfree = λ w. w;
  calloc = λ n w. some w;
  free = λ w. w;
  basename = λ path. path;
  posix_spawnp = λ path argv w. ((pos 0, pos 42), w);
  waitpid = λ w. (pos 0, w);
}

abbrev gauge_scheduler : Scheduler Gauge
gauge_scheduler = record { sched_yield = λ w. w; terminated = λ w. 0 }

gauge-Switch : Switch gauge_cpu refusing gauge_kernel gauge_scheduler (λ w. w.on)
gauge-Switch = record {
  enables = λ fd w h. refl;
  disables = λ fd w h. refl;
  cpu_keeps = record { load = λ a w v e h. same_on w v e h; rdpmc = λ w h. h };
  outlet_keeps = record {
    print = λ std text w h. h;
    create_dataspace = λ rows columns w h. h;
    create_dataset = λ file name space w h. h;
    write_dataset = λ d values w h. h;
    close_dataset = λ d w h. h;
    create_file = λ file w h. h;
    chmod = λ file w h. h;
    close_file = λ file w h. h;
  };
  yields = λ w h. h;
}
  where
    same_on : (w v : Gauge) → some w ≡ some v → w.on ≡ true → v.on ≡ true
    same_on w v e h = let same : w ≡ v = cc in subst (λ (u : Gauge). u.on ≡ true) same h

abbrev one_line : CacheInfo
one_line = record {
  line_size = 64;
  total_size = 64;
  cache_id = 0;
  cpu_id = 0;
  set_count = 1;
  ways_of_associativity = 1;
  level = 1;
  type = data_cache;
}

abbrev stream : Output
stream = record { type = 1; std = 1; h5 = negsuc 0; iter = 0 }

-- The first text is refused, and the counter stays on.
refused :
    profile gauge_cpu refusing gauge_kernel gauge_scheduler one_line 2 8192 3 0
      (0 ∷ [])
      stream
      (gauge false)
    ≡ done (error_io_hdf, stream) (gauge true)
unfolding profile profile_loop prime probe measure outputw_mat_ui32 enable_cpu_cycle_counter
    disable_cpu_cycle_counter
refused = refl

profile-Counted_example :
    ((error_io_hdf ≡ error_none) × (true ≡ false))
    ⊎ (((error_io_hdf ≢ error_none) × (true ≡ true))
        ⊎ ((error_io_hdf ≡ error_fd_cycle) ⊎ (error_io_hdf ≡ error_fd_cycle_close)))
profile-Counted_example =
    profile-Counted gauge_cpu refusing gauge_kernel gauge_scheduler (λ w. w.on) gauge-Switch
      one_line 2 8192 3 0 (0 ∷ []) stream stream error_io_hdf (gauge false) (gauge true) refused
