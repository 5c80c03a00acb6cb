-- ===== src/Tests/Session.antt =====
-- A machine where every call succeeds, for the modes profile and bench of src/main.c.
use cache_noise_visualizer.Base.{
  ℕ, ◌+◌, ◌-◌, ◌==◌, ◌^◌, ◌<◌, ◌≡◌, refl, Bool, true, false, [], ◌++◌, some, arith, if◌then◌else◌,
  replicate,
}
use cache_noise_visualizer.Base.Int.{pos}
use cache_noise_visualizer.Base.Words.{u32}
use cache_noise_visualizer.Base.Text.{codes}
use cache_noise_visualizer.Base.Text.Decimal.{decimal, digits_value}
use cache_noise_visualizer.Result.{ok}
use cache_noise_visualizer.Stdio.{scan_unsigned}
use cache_noise_visualizer.SysInfo.CacheInfo.{
  cache_info_new, cache_info_fill, fill_until, count_index, cache_count, read_prop,
  parse_cache_type,
}
use cache_noise_visualizer.SysInfo.Access.{has_root_access, can_use_rdpmc}
use cache_noise_visualizer.SysInfo.Text.{str_starts_with, cache_index_path, cpu_cache_path}
use cache_noise_visualizer.Actions.Enabled.{Counting}
use cache_noise_visualizer.Benchmark.Runs.{Ready}
use cache_noise_visualizer.Profile.{Scheduler}
use cache_noise_visualizer.Main.Flow.{Locals}
use cache_noise_visualizer.Main.Program.{System}
use cache_noise_visualizer.Main.Info.{Willing}
use cache_noise_visualizer.Main.Smooth.{Smooth}
use cache_noise_visualizer.Main.Profiled.{Furnished, watched}
use cache_noise_visualizer.Tests.Released.{locals}
use cache_noise_visualizer.Tests.Options.{whole}
use cache_noise_visualizer.Tests.Sorting.{insertion_sort, insertion_sort-Sorts}
use cache_noise_visualizer.Tests.Machine.{files}
use cache_noise_visualizer.Tests.Alloc.{number}
use cache_noise_visualizer.Tests.Supply.{
  Session, found, misses, memory, same_session, supply, releases,
}

-- The machine, for a scheduler.
abbrev pub machine : Scheduler Session → System Session ℕ
machine scheduler = record {
  files = files;
  memory = memory;
  cpu = record {
    load = λ a w. some (record w { cycles = w.cycles + 7 });
    rdpmc = λ w. (w.cycles, w);
  };
  outlet = record {
    print = λ std text w. (true, record w { shown = w.shown ++ text });
    create_dataspace = λ rows columns w. (pos 1, w);
    create_dataset = λ file name space w. (pos 2, w);
    write_dataset = λ d values w. (pos 0, w);
    close_dataset = λ d w. (pos 0, w);
    create_file = λ file w. (pos 3, w);
    chmod = λ file w. (pos 0, w);
    close_file = λ file w. (pos 0, w);
  };
  kernel = record {
    sched_setaffinity = λ pid cpu w. (pos 0, w);
    perf_event_open = λ cpu w. (pos 3, w);
    ioctl = λ fd r w. (pos 0, w);
    posix_spawnattr_init = λ w. (pos 0, w);
    posix_spawnattr_setflags = λ w. w;
    posix_spawn_file_actions_init = λ w. (pos 0, w);
    wordexp = λ text w. ([], w);
    wordfree = λ w. w;
    calloc = λ n w. some w;
    free = λ w. w;
    basename = λ path. path;
    posix_spawnp = λ path argv w. ((pos 0, pos 42), w);
    waitpid = λ w. (pos 0, w);
  };
  scheduler = scheduler;
  console = record {
    print_out = λ text w. record w { shown = w.shown ++ text };
    print_err = λ text w. w;
    errno = λ w. pos 0;
    strerror = λ e. [];
  };
  process = record {
    getpid = λ w. 7;
    signal = λ signo w. (true, w);
    sigaction = λ w. (pos 0, w);
    alarm = λ seconds w. record w { ticks = seconds };
    kill = λ pid w. w;
  };
  double = whole;
  qsort = insertion_sort;
  left_first = true;
  stale_uint = 0;
  stale_stack = λ n. replicate n 0;
  stale_heap = λ n. replicate n 0;
  stack_buffer = 4096;
  stdout = 1;
  fuel = 3;
}

-- Where no signal comes.
abbrev pub system : System Session ℕ
system = machine (record { sched_yield = λ w. w; terminated = λ w. 0 })

-- Where sched_yield takes a step of the alarm, which sets `terminated` when there is none to go.
abbrev pub alarmed : System Session ℕ
alarmed = machine (record {
  sched_yield = λ w. record w { ticks = w.ticks - 1 };
  terminated = λ w. if w.ticks == 0 then 1 else 0;
})

-- The same variables for the mode profile with two seconds.
abbrev pub two_seconds : Locals
two_seconds = record locals {
  arguments = record locals.arguments { iter = pos 0; seconds = pos 2 };
}

-- The same variables for the mode bench.
abbrev pub benching : Locals
benching = record locals { arguments = record locals.arguments { mode = some (codes "bench") } }

willing :
    (s : Scheduler Session) (l : Locals)
    → l.arguments.cpu ≡ pos 0
    → l.arguments.level ≡ pos 1
    → Willing (machine s) l found
unfolding cache_info_new cache_info_fill fill_until count_index cache_count read_prop
    parse_cache_type scan_unsigned digits_value decimal str_starts_with cpu_cache_path
    cache_index_path
willing s l cpu level = record {
  has_pid = λ v. refl;
  signals = λ signo v. refl;
  sigaction = λ v. refl;
  binds = λ pid set v. refl;
  shows = λ v. rw (cpu, level) refl;
}

rdpmc : (v : Session) → can_use_rdpmc files 0 v ≡ ok tt
unfolding can_use_rdpmc read_prop scan_unsigned digits_value
rdpmc v = refl

root : (v : Session) → has_root_access files v ≡ true
unfolding has_root_access
root v = refl

pub smooth :
    (s : Scheduler Session) (l : Locals)
    → l.arguments.cpu ≡ pos 0
    → l.arguments.level ≡ pos 1
    → Smooth (machine s) (λ w. w.shown) l found
smooth s l cpu level = record {
  willing = willing s l cpu level;
  root = root;
  rdpmc = rdpmc;
  print_out = λ text v. refl;
  signal = λ signo v. refl;
  sigaction = λ v. refl;
  sched_setaffinity = λ pid set v. refl;
}

-- The same with the misaligned buffers to come.
smooth_watched :
    (s : Scheduler Session) (l : Locals)
    → l.arguments.cpu ≡ pos 0
    → l.arguments.level ≡ pos 1
    → Smooth (machine s) (watched misses (λ w. w.shown)) l found
smooth_watched s l cpu level = record {
  willing = willing s l cpu level;
  root = root;
  rdpmc = rdpmc;
  print_out = λ text v. refl;
  signal = λ signo v. refl;
  sigaction = λ v. refl;
  sched_setaffinity = λ pid set v. refl;
}

pub counting : Counting system.kernel (λ (w : Session). w.shown)
counting = record {
  opens = λ cpu v. refl;
  serves = λ fd r v. refl;
  perf_event_open = λ cpu v. refl;
  ioctl = λ fd r v. refl;
}

pub furnished :
    (s : Scheduler Session) (l : Locals)
    → ((v : Session) → (s.sched_yield v).shown ≡ v.shown)
    → l.arguments.cpu ≡ pos 0
    → l.arguments.level ≡ pos 1
    → Furnished (machine s) (λ w. w.shown) misses l found (2 ^ 21) (2 ^ 21) 2
furnished s l quiet cpu level = record {
  smooth = smooth_watched s l cpu level;
  hugepages = number;
  enough = λ v. few v.missing;
  supply = supply;
  releases = releases;
  loads = record {
    load = λ a w. (record w { cycles = w.cycles + 7 }, refl, refl);
    rdpmc = λ w. refl;
  };
  takes = record { succeeds = λ text w. refl; appends = λ text w. refl };
  counting = counting;
  sched_yield = quiet;
}
  where
    few : (b : Bool) → (if b then 1 else 0) < 2
    few true = omega arith
    few false = omega arith

pub ready : Ready system.cpu system.kernel memory system.console whole insertion_sort (λ w. w.shown)
ready = record {
  brisk = record {
    load = λ a w. (record w { cycles = w.cycles + 7 }, refl, refl);
    rdpmc = λ w. refl;
    counts = λ a w v e. (
      7,
      omega arith,
      same_session (record w { cycles = w.cycles + 7 }) v (λ u. u32 u.cycles ≡ u32 (w.cycles + 7)) e
          refl,
    );
  };
  counting = counting;
  sorts = insertion_sort-Sorts;
  malloc = λ n v. (v, refl, refl);
  free = λ v. refl;
  print_out = λ text v. refl;
}
