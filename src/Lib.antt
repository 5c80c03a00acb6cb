-- ===== src/Lib.antt =====
-- Verification of Cache-Noise-Visualizer, a program that measures the noise of a CPU cache by prime
-- and probe.
--
-- The parts of the program, and the files that model them:
--
--   src/error.c, inc/error.h      Errors: the codes, the message table and decode_error. The macro
--                                 FORWARD_ON_FAIL is the bind of Result and Result/Sys, and
--                                 EXIT_ON_FAIL is exit_on_fail in Main/Flow.
--   src/sys_info.c                SysInfo: str_starts_with in SysInfo/Text; cache_info_fill,
--                                 cache_count, cache_info_new and cache_info_print in
--                                 SysInfo/CacheInfo;
--                                 pagemap_entry_from and get_physical_address in SysInfo/Pagemap;
--                                 get_hugepagenr and get_hugepagesize in SysInfo/Hugepages;
--                                 has_root_access, get_current_cpu_core and can_use_rdpmc in
--                                 SysInfo/Access.
--   src/alloc.c                   Alloc: test_alignment, alloc_aligned and free_aligned.
--   src/profile.c                 Sampling: the inline assembly of prime and probe. Profile: profile.
--                                 Benchmark: benchmark; what it computes from the sorted times, and
--                                 cmpfunc, in Statistics.
--   src/output.c                  Output: outputw_mat_ui32, outputc_stdout, outputc_hd5_file and
--                                 output_close.
--   src/sys_action.c              Actions: focus_cpu_core, enable_cpu_cycle_counter,
--                                 disable_cpu_cycle_counter, run_program, signal_handler and
--                                 extern_process_signal_handler.
--   src/main.c                    Main: the table of options and parse_opt in Main/Options;
--                                 main in Main/Modes, from parts in Main/Program; its jumps
--                                 to FINALIZE and calls of exit in Main/Flow.
--
-- Result/Keeps has a rule for each way to build code, from which the modules named Keeps derive that a
-- function keeps each predicate of the world that the calls it makes keep. Main/Flows has the like for
-- the parts of main, which can also jump or exit, Main/Kept applies it to them, and Main/Released is
-- about the mappings that main leaves. Result/Yields has rules for the values of functions that only
-- read the system. Main/Smooth, Main/Profiled and Main/Benched follow main through the modes profile and
-- bench on a machine where every call succeeds; what that machine promises is in the records Smooth,
-- Furnished, Supply (Alloc/Finds), Counting (Actions/Enabled), Ready (Benchmark/Runs) and Ringing
-- (Main/Profiled/Alarmed, for a time limit).
-- Profile/Sets joins Alloc and Sampling: the sets of the cache in which the lines of an accepted buffer
-- lie, by their physical addresses. Profile/Written and Profile/Stored follow the loop of profile to a
-- stream and to an HDF5 file.
--
-- Base has the lists, numbers, words and texts that these share, and Stdio the conversions of the C
-- library that the program relies on (fscanf with %u, fgets, atoi). Tests runs the definitions on a
-- small machine.
--
-- How the parts interact: alloc_aligned asks SysInfo for the number and the size of the huge pages,
-- maps buffers until test_alignment accepts one by looking up physical addresses, and releases the
-- others. profile enables the cycle counter, and in each round calls prime and probe on the buffer and
-- hands the array of times to outputw_mat_ui32, which takes it as a matrix with a row for each set and
-- a column for each way. The signal handlers end the loop. main binds the process to a CPU, reads the
-- cache from SysInfo, and calls benchmark, or opens the output, allocates the buffer and calls profile;
-- at FINALIZE it closes the output and releases the buffer.
--
-- State. The world is a type parameter. The operating system, the C library's memory and the CPU are
-- parameters of the definitions: the record Files for what src/sys_info.c reads, Memory for malloc,
-- mmap, munmap and stores, Cpu for loads and rdpmc, Outlet for fprintf and HDF5, Kernel for processes
-- and counters, Scheduler for sched_yield and the flag `terminated`, Console for printf, stderr and
-- errno, Process for what only main calls, and Double for the arithmetic of double. System bundles
-- them. A function that only reads the system is a function from the world to a Result, and one that
-- changes it has the type Sys, from a world to a Run. Both hold an error code as a value, and a fault
-- for what C leaves undefined. What an out-parameter or an array on the stack holds before it is written
-- is an argument of its own. The variables of main are the record Locals; what cache_info_new has stored
-- in one of them where it fails is in SysInfo/CacheInfo/Left.
--
-- Numbers are natural numbers. Each 8, 32 or 64-bit word has its wrap-around written out by the
-- functions of Base/Words, and an int is a ℤ; an int that only counts up is a number, and the fault
-- `overflow` where it would reach 2 ^ 31. A shift of the 54-bit field of pagemap_entry_t is computed in its
-- width, as gcc does.
--
-- Loops. The loops over lists and over a number of tries are structural. The others are recursive on
-- fuel, and running out of it is the fault out_of_fuel. page_shift_loop has 65 rounds for the 64 bits
-- of the counter, length_loop one round more than there are bytes in the cache, align_loop one round
-- more than there are lines in the buffer, and the loops of prime and probe one round more than there
-- are sets or ways. find_line has a round for each byte of the text. The loops of benchmark over the sorted times have one
-- round more than there are iterations; from 2 ^ 32 iterations on, those with an index of 32 bits do
-- not end, with any fuel. The loop of profile and the one of
-- extern_process_signal_handler get their fuel as an argument: one round more than there are
-- iterations, or, where only `terminated` ends the loop, than the alarm has steps to go; and two more
-- than there are processes to collect.
--
-- Not modelled: argp_parse of glibc, which calls parse_opt; the Python tools; and a failing malloc of
-- the path in cache_info_fill. A signal is handled between two steps of the loop of profile.
pub mod Base
pub mod Errors
pub mod Result
pub mod Statistics
pub mod Stdio
pub mod SysInfo
pub mod Memory
pub mod Alloc
pub mod Console
pub mod Cpu
pub mod Sampling
pub mod Output
pub mod Actions
pub mod Profile
pub mod Benchmark
pub mod Main
pub mod Tests
