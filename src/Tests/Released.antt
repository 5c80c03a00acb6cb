-- ===== src/Tests/Released.antt =====
-- main of src/main.c on the small machine.
use cache_noise_visualizer.Base.{
  ℕ, ◌^◌, ◌≡◌, refl, subst, Bool, true, [], ◌∷◌, some, none, arith, if◌then◌else◌, ◌==◌, replicate,
}
use cache_noise_visualizer.Base.Int.{pos}
use cache_noise_visualizer.Base.Text.{codes}
use cache_noise_visualizer.Base.Text.Decimal.{decimal}
use cache_noise_visualizer.SysInfo.CacheInfo.{data_cache}
use cache_noise_visualizer.SysInfo.CacheInfo.{read_prop}
use cache_noise_visualizer.SysInfo.Pagemap.{
  pagemap_entry_of, pagemap_entry_from, get_physical_address,
}
use cache_noise_visualizer.SysInfo.Text.{str_starts_with}
use cache_noise_visualizer.SysInfo.Hugepages.{get_hugepagesize, get_hugepagenr, digits_of}
use cache_noise_visualizer.Stdio.{get_line, after_line, atoi_digits, scan_unsigned}
use cache_noise_visualizer.Base.Text.Decimal.{digits_value}
use cache_noise_visualizer.Alloc.{
  search_loop, length_loop, test_alignment, free_aligned, alloc_aligned,
}
use cache_noise_visualizer.Memory.{map_failed}
use cache_noise_visualizer.Console.{Console}
use cache_noise_visualizer.Output.{Outlet}
use cache_noise_visualizer.Actions.{Kernel}
use cache_noise_visualizer.Alloc.Outcomes.{Mapper}
use cache_noise_visualizer.Main.Flow.{Locals, finalize}
use cache_noise_visualizer.Main.Program.{Process, System, allocate}
use cache_noise_visualizer.Main.Modes.{main}
use cache_noise_visualizer.Main.Kept.{Frame}
use cache_noise_visualizer.Main.Released.{Mapped}
use cache_noise_visualizer.Main.Released.Finalize.{Released, main-Released}
use cache_noise_visualizer.Tests.Machine.{World, start, files, memory, live, ledger, cpu}
use cache_noise_visualizer.Tests.Alloc.{huge}
use cache_noise_visualizer.Tests.Options.{whole}

abbrev outlet : Outlet World
outlet = record {
  print = λ std text w. (true, w);
  create_dataspace = λ rows columns w. (pos 1, w);
  create_dataset = λ file name space w. (pos 2, w);
  write_dataset = λ d values w. (pos 0, w);
  close_dataset = λ d w. (pos 0, w);
  create_file = λ file w. (pos 3, w);
  chmod = λ file w. (pos 0, w);
  close_file = λ file w. (pos 0, w);
}

abbrev kernel : Kernel World
kernel = record {
  sched_setaffinity = λ pid cpu w. (pos 0, w);
  perf_event_open = λ cpu w. (pos 3, w);
  ioctl = λ fd r w. (pos 0, w);
  posix_spawnattr_init = λ w. (pos 0, w);
  posix_spawnattr_setflags = λ w. w;
  posix_spawn_file_actions_init = λ w. (pos 0, w);
  wordexp = λ text w. ([], w);
  wordfree = λ w. w;
  calloc = λ n w. some w;
  free = λ w. w;
  basename = λ path. path;
  posix_spawnp = λ path argv w. ((pos 0, pos 42), w);
  waitpid = λ w. (pos 0, w);
}

abbrev pub console : Console World
console = record {
  print_out = λ text w. w;
  print_err = λ text w. w;
  errno = λ w. pos 12;
  strerror = λ e. codes "Cannot allocate memory";
}

abbrev process : Process World
process = record {
  getpid = λ w. 7;
  signal = λ signo w. (true, w);
  sigaction = λ w. (pos 0, w);
  alarm = λ seconds w. w;
  kill = λ pid w. w;
}

abbrev pub system : System World ℕ
system = record {
  files = files;
  memory = memory;
  cpu = cpu;
  outlet = outlet;
  kernel = kernel;
  scheduler = record { sched_yield = λ w. w; terminated = λ w. 0 };
  console = console;
  process = process;
  double = whole;
  qsort = λ compare xs. xs;
  left_first = true;
  stale_uint = 0;
  stale_stack = λ n. replicate n 0;
  stale_heap = λ n. replicate n 0;
  stack_buffer = 4096;
  stdout = 1;
  fuel = 3;
}

abbrev pub locals : Locals
locals = record {
  output = record { type = 0; std = 0; h5 = pos 0; iter = 0 };
  arguments = record {
    mode = some (codes "profile");
    level = pos 1;
    iter = pos 2;
    pid = pos 0;
    seconds = pos 0;
    cpu = pos 0;
    output_file = none;
    program = none;
    program_args = none;
  };
  cache = record {
    line_size = 64;
    total_size = 8192;
    cache_id = 0;
    cpu_id = 0;
    set_count = 64;
    ways_of_associativity = 2;
    level = 1;
    type = data_cache;
  };
  buffer = 0;
}

mapper : Mapper files memory live (2 ^ 21)
mapper = record {
  readable = huge;
  page_pos = omega arith;
  page_room = omega arith;
  unmaps = λ b l v mapped. refl;
  unmappable = λ v. ground arith;
  null_unmapped = λ v. ground arith;
  ledger = ledger;
}

frame : (m : ℕ → Bool) → Frame system (Mapped live m)
frame m = record {
  cpu = record { load = λ a w v e h. ground (arith, h); rdpmc = λ w h. h };
  outlet = record {
    print = λ std text w h. h;
    create_dataspace = λ rows columns w h. h;
    create_dataset = λ file name space w h. h;
    write_dataset = λ d values w h. h;
    close_dataset = λ d w h. h;
    create_file = λ file w h. h;
    chmod = λ file w h. h;
    close_file = λ file w h. h;
  };
  kernel = record {
    sched_setaffinity = λ pid set w h. h;
    perf_event_open = λ c w h. h;
    ioctl = λ fd r w h. h;
    posix_spawnattr_init = λ w h. h;
    posix_spawnattr_setflags = λ w h. h;
    posix_spawn_file_actions_init = λ w h. h;
    wordexp = λ text w h. h;
    wordfree = λ w h. h;
    calloc = λ n w v e h a. same_live w v e a h;
    free = λ w h. h;
    posix_spawnp = λ path argv w h. h;
  };
  sched_yield = λ w h. h;
  malloc = λ n w v e h a. same_live w v e a h;
  free = λ w h. h;
  print_out = λ text w h. h;
  print_err = λ text w h. h;
  signal = λ signo w h. h;
  sigaction = λ w h. h;
  alarm = λ seconds w h. h;
  kill = λ pid w h. h;
}
  where
    same_live : (w v : World) → some w ≡ some v → (a : ℕ) → Mapped live m w → live a v ≡ m a
    same_live w v e a h = let same : w ≡ v = cc in subst (λ u. live a u ≡ m a) same (h a)

main-Released_example : Released live (λ a. live a start) (main system locals start)
main-Released_example = main-Released system live (2 ^ 21) mapper frame locals start (omega arith)

-- A system whose first mmap fails.
abbrev flaky : System World ℕ
flaky = record system {
  memory = record memory {
    mmap =
        λ n w. if w.cycles == 100 then (map_failed, record w { cycles = 101 }) else memory.mmap n w;
  };
}

-- The first allocation fails, and the two evaluations for the message succeed: a buffer is lost.
leak :
    allocate flaky locals start
    ≡ finalize
        (record locals { buffer = 16384 })
        (record { held = 16384 ∷ 8192 ∷ []; cycles = 101 })
unfolding allocate get_hugepagenr read_prop scan_unsigned digits_value get_hugepagesize
    str_starts_with get_line after_line atoi_digits digits_of search_loop test_alignment
    pagemap_entry_of get_physical_address pagemap_entry_from free_aligned length_loop decimal
    alloc_aligned
leak = refl
