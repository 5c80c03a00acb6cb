-- ===== src/Errors.antt =====
-- The error codes of inc/error.h and the message table of src/error.c.
pub mod Decode
use cache_noise_visualizer.Base.{ℕ, ◌≡◌, List, [], ◌∷◌, String, Option, none, some, if◌then◌else◌}
use cache_noise_visualizer.Base.Int.{ℤ, pos, negsuc, int_eq}

-- error_t is an int.
abbrev pub ErrorCode : Type 0
ErrorCode = ℤ

abbrev pub error_io : ErrorCode
error_io = negsuc 0

abbrev pub error_allocation : ErrorCode
error_allocation = negsuc 1

abbrev pub error_fd_cache : ErrorCode
error_fd_cache = negsuc 3

abbrev pub error_fd_cycle : ErrorCode
error_fd_cycle = negsuc 4

abbrev pub error_set_affinity : ErrorCode
error_set_affinity = negsuc 5

abbrev pub error_fmt : ErrorCode
error_fmt = negsuc 6

abbrev pub error_sysconf : ErrorCode
error_sysconf = negsuc 7

abbrev pub error_page_entry : ErrorCode
error_page_entry = negsuc 8

abbrev pub error_not_aligned : ErrorCode
error_not_aligned = negsuc 9

abbrev pub error_mmap : ErrorCode
error_mmap = negsuc 10

abbrev pub error_cache_not_exists : ErrorCode
error_cache_not_exists = negsuc 11

abbrev pub error_no_hugepages : ErrorCode
error_no_hugepages = negsuc 12

abbrev pub error_munmap : ErrorCode
error_munmap = negsuc 13

abbrev pub error_fd_cycle_close : ErrorCode
error_fd_cycle_close = negsuc 15

abbrev pub error_spawn_attr_init : ErrorCode
error_spawn_attr_init = negsuc 16

abbrev pub error_spawn_file_init : ErrorCode
error_spawn_file_init = negsuc 17

abbrev pub error_spawn_spawn : ErrorCode
error_spawn_spawn = negsuc 18

abbrev pub error_spawn_path_null : ErrorCode
error_spawn_path_null = negsuc 19

abbrev pub error_not_supported_output : ErrorCode
error_not_supported_output = negsuc 20

abbrev pub error_hdf5_error : ErrorCode
error_hdf5_error = negsuc 21

abbrev pub error_set_scheduler_policy : ErrorCode
error_set_scheduler_policy = negsuc 20

abbrev pub error_get_cpu_core : ErrorCode
error_get_cpu_core = negsuc 21

abbrev pub error_chmod : ErrorCode
error_chmod = negsuc 22

abbrev pub error_io_proc_self_pagemap : ErrorCode
error_io_proc_self_pagemap = negsuc 23

abbrev pub error_io_sys_cpu : ErrorCode
error_io_sys_cpu = negsuc 24

abbrev pub error_io_proc_meminfo : ErrorCode
error_io_proc_meminfo = negsuc 25

abbrev pub error_io_hdf : ErrorCode
error_io_hdf = negsuc 26

abbrev pub error_io_line_size : ErrorCode
error_io_line_size = negsuc 27

abbrev pub error_io_total_size : ErrorCode
error_io_total_size = negsuc 28

abbrev pub error_io_set_number : ErrorCode
error_io_set_number = negsuc 29

abbrev pub error_io_levels : ErrorCode
error_io_levels = negsuc 31

abbrev pub error_io_associativity : ErrorCode
error_io_associativity = negsuc 32

abbrev pub error_io_hugepage_number : ErrorCode
error_io_hugepage_number = negsuc 33

abbrev pub error_io_rdpmc : ErrorCode
error_io_rdpmc = negsuc 34

abbrev pub error_rdpmc : ErrorCode
error_rdpmc = negsuc 35

abbrev pub error_none : ErrorCode
error_none = pos 0

-- error_unit_t
pub record ErrorUnit : Type 0 where
  pub number : ErrorCode
  pub message : String

abbrev pub entry : ErrorCode → String → ErrorUnit
entry n m = record { number = n; message = m }

unfoldable pub error_map_table : List ErrorUnit
error_map_table =
    entry error_io "during IO interaction (ERROR_IO)"
    ∷ entry error_allocation "allocating memory (ERROR_ALLOCATION)"
    ∷ entry error_fd_cycle "opening a file descriptor to cycle event (ERROR_FD_CYCLE)"
    ∷ entry error_fd_cycle_close "closing a file descriptor to cycle event (ERROR_FD_CYCLE)"
    ∷ entry error_fd_cache "opening a file descriptor to cache event(ERROR_FD_CACHE)"
    ∷ entry error_set_affinity "setting the CPU affinity(ERROR_SET_AFFINITY)"
    ∷ entry error_sysconf "getting value from sysconf"
    ∷ entry error_page_entry "retrieving a page entry"
    ∷ entry error_not_aligned "the buffer is not aligned to the cache"
    ∷ entry error_mmap "using while using mmap (ERROR_MMAP)"
    ∷ entry error_cache_not_exists "cache does not exist (ERROR_CACHE_NOT_EXISTS)"
    ∷ entry error_no_hugepages "no hugepages are available (ERROR_NO_HUGEPAGES)"
    ∷ entry error_munmap "failed to remove memory mappings (ERROR_MUNMAP)"
    ∷ entry error_spawn_spawn "failed to spawn the process (ERROR_SPAWN_SPAWN)"
    ∷ entry error_spawn_attr_init "failed to initialize `attr` attribute (ERROR_SPAWN_ATTR_INIT)"
    ∷ entry error_spawn_file_init "failed to initialize `file` attribute (ERROR_SPAWN_FILLE_INIT)"
    ∷ entry error_spawn_path_null "the given path to the program is null. (ERROR_SPAWN_PATH_NULL)"
    ∷ entry error_set_scheduler_policy "setting the scheduler policy (ERROR_SET_SCHEDULER_POLICY)"
    ∷ entry error_get_cpu_core "retrieving the CPU core on which the program currently runs on"
    ∷ entry error_io_proc_self_pagemap
        "during IO interaction with /proc/self/pagemap (ERROR_IO_PROC_SELF_PAGEMAP)"
    ∷ entry error_io_proc_meminfo "during IO interaction with /proc/meminfo (ERROR_IO_PROC_MEMINFO)"
    ∷ entry error_io_hdf "during IO interaction with the HDF output file (ERROR_IO_HDF)"
    ∷ entry error_io_sys_cpu
        "during IO interaction in the /sys/cpu/ filestructure (ERROR_IO_SYS_CPU)"
    ∷ entry error_io_total_size
        "during IO interaction with /sys/devices/system/cpu/cpu%d/cache/index%d/size (ERROR_IO_TOTAL_SIZE)"
    ∷ entry error_io_line_size
        "during IO interaction with /sys/devices/system/cpu/cpu%d/cache/index%d/coherency_line_size (ERROR_IO_LINE_SIZE)"
    ∷ entry error_io_set_number
        "during IO interaction with /sys/devices/system/cpu/cpu%d/cache/index%d/number_of_sets (ERROR_IO_SET_NUMBER)"
    ∷ entry error_io_levels
        "during IO interaction with /sys/devices/system/cpu/cpu%d/cache/index%d/level (ERROR_IO_LEVELS)"
    ∷ entry error_io_associativity
        "during IO interaction with /sys/devices/system/cpu/cpu%d/cache/index%d/ways_of_assoziativity (ERROR_IO_ASSOCIATIVITY)"
    ∷ entry error_io_hugepage_number
        "during IO interaction with /proc/sys/vm/nr_hugepages (ERROR_IO_HUGEPAGE_NUMBER)"
    ∷ entry error_io_rdpmc
        "during IO interaction with /sys/bus/event_source/devices/cpu/rdpmc (ERROR_IO_RDPMC)"
    ∷ entry error_rdpmc "the rdpmc instruction is not available in userspace (ERROR_RDPMC)"
    ∷ []

abbrev pub default_error_message : String
default_error_message = "unknown error"

-- The loop of decode_error over the table, from the first entry.
unfoldable pub find_message : ErrorCode → List ErrorUnit → String
find_message error [] = default_error_message
find_message error (u ∷ us) = if int_eq u.number error then u.message else find_message error us

unfoldable pub decode_error : ErrorCode → String
unfolding error_map_table find_message
decode_error error = find_message error error_map_table
