-- ===== src/Tests/Profile.antt =====
-- src/output.c, src/sys_action.c and the loop of profile on the small machine.
use cache_noise_visualizer.Base.{
  ℕ, ◌^◌, ◌<◌, ◌≤◌, ◌≡◌, ◌⊎◌, refl, false, List, [], ◌∷◌, ◌++◌, some, arith, length, All, replicate,
  ◌==◌,
}
use cache_noise_visualizer.Base.Int.{pos, negsuc}
use cache_noise_visualizer.Base.Text.{codes}
use cache_noise_visualizer.Base.Text.Decimal.{decimal}
use cache_noise_visualizer.Errors.{ErrorCode, error_fd_cycle, error_fd_cycle_close, error_none}
use cache_noise_visualizer.Result.{done}
use cache_noise_visualizer.SysInfo.CacheInfo.{CacheInfo, data_cache}
use cache_noise_visualizer.Sampling.Primes.{Geometry}
use cache_noise_visualizer.Output.{Output, outputw_mat_ui32}
use cache_noise_visualizer.Output.Rows.{rows_text, line_text, row_text, comma_values, concat}
use cache_noise_visualizer.Output.Outcomes.{Stored}
use cache_noise_visualizer.Output.Distinct.{outputw_mat_ui32-injective}
use cache_noise_visualizer.Actions.{run_program, extern_process_signal_handler}
use cache_noise_visualizer.Actions.Argv.{run_program-argv}
use cache_noise_visualizer.Actions.Signals.{extern_process_signal_handler-reaps}
use cache_noise_visualizer.Profile.{measured, profile, profile_loop}
use cache_noise_visualizer.Profile.Matrix.{IsMatrix, matrices_text}
use cache_noise_visualizer.Profile.Written.{profile_loop-Written}
use cache_noise_visualizer.Profile.Quiet.{Quiet}
use cache_noise_visualizer.Profile.Stops.{profile_loop-stops}
use cache_noise_visualizer.Profile.Returned.{QuietCounter, profile-returns}
use cache_noise_visualizer.Tests.Desk.{
  Desk, empty_desk, desk_outlet, desk-Takes, desk_cpu, desk-Quiet, desk_scheduler, alarm_scheduler,
  desk-Alarm, desk_kernel, desk_ended, desk-Zombies,
}

abbrev pub stream : Output
stream = record { type = 1; std = 1; h5 = negsuc 0; iter = 0 }

abbrev hd5 : Output
hd5 = record { type = 2; std = 0; h5 = pos 3; iter = 7 }

abbrev pub six_lines : CacheInfo
six_lines = record {
  line_size = 64;
  total_size = 384;
  cache_id = 0;
  cpu_id = 0;
  set_count = 2;
  ways_of_associativity = 3;
  level = 1;
  type = data_cache;
}

abbrev small_rows : List (List ℕ)
small_rows = (10 ∷ 20 ∷ []) ∷ (30 ∷ 40 ∷ []) ∷ []

shown_rows : rows_text 0 small_rows ≡ codes "set 0: 10,20" ++ 10 ∷ codes "set 1: 30,40" ++ 10 ∷ []
unfolding rows_text line_text row_text comma_values decimal
shown_rows = refl

small_room : length (concat small_rows) < 2 ^ 64
unfolding concat
small_room = omega arith

-- The desk behind the output of the small matrix.
abbrev small_shown : Desk
small_shown = record empty_desk {
  shown = codes "set 0: 10,20" ++ 10 ∷ codes "set 1: 30,40" ++ 10 ∷ [];
}

small_run :
    outputw_mat_ui32 desk_outlet stream (concat small_rows) 2 2 empty_desk
    ≡ done (error_none, stream) small_shown
unfolding outputw_mat_ui32 concat decimal
small_run = refl

outputw_mat_ui32-injective_example : small_rows ≡ small_rows
outputw_mat_ui32-injective_example =
    outputw_mat_ui32-injective desk_outlet 1 (λ w. w.shown) (desk-Takes 1) stream refl refl
      small_rows small_rows 2 2 empty_desk small_shown small_shown error_none error_none
      (refl, (refl, tt)) (refl, (refl, tt)) (omega arith) (omega arith) small_room small_room
      small_run small_run refl

run_program-argv_example :
    run_program desk_kernel (some (codes "/bin/ls")) (some (codes "-n 5")) empty_desk
    ≡ done (pos 42) empty_desk
run_program-argv_example =
    run_program-argv desk_kernel (codes "/bin/ls") (codes "-n 5") empty_desk empty_desk refl refl
      refl

extern_process_signal_handler-reaps_example :
    (w' : Desk) × (extern_process_signal_handler desk_kernel 4 empty_desk ≡ done 1 w')
    × (desk_ended w' ≡ [])
extern_process_signal_handler-reaps_example =
    extern_process_signal_handler-reaps desk_kernel desk_ended desk-Zombies 4 empty_desk
      (omega arith)

six_lines-Geometry : Geometry 64 2 3 8192
six_lines-Geometry = omega arith

profile_loop-Written_example :
    (matrices : List (List (List ℕ))) × All (IsMatrix desk_cpu six_lines 8192) matrices
    × (last : List ℕ) × (w' : Desk) × (profile_loop desk_cpu desk_outlet desk_scheduler six_lines 5
          8192 6 0
          (replicate 6 0)
          stream
          empty_desk
        ≡ done (measured error_none last stream) w')
    × (w'.shown ≡ [] ++ matrices_text matrices)
    × ((length matrices ≡ 5) ⊎ ((length matrices < 5) × ((0 == 0) ≡ false)))
profile_loop-Written_example =
    profile_loop-Written desk_cpu desk_outlet desk_scheduler six_lines 8192 (λ w. w.shown) stream
      six_lines-Geometry desk-Quiet (λ w. refl) refl (desk-Takes 1) 5 (replicate 6 0) empty_desk
      (omega arith) (omega arith) refl

desk-QuietCounter : QuietCounter desk_kernel (λ w. w.shown)
desk-QuietCounter = record { perf_event_open = λ cpu w. refl; ioctl = λ fd r w. refl }

profile-returns_example :
    (e : ErrorCode) × (matrices : List (List (List ℕ))) × All
      (IsMatrix desk_cpu six_lines 8192)
      matrices
    × (w' : Desk) × (profile desk_cpu desk_outlet desk_kernel desk_scheduler six_lines 5 8192 6 0
          (replicate 6 0)
          stream
          empty_desk
        ≡ done (e, stream) w')
    × (w'.shown ≡ [] ++ matrices_text matrices)
    × (length matrices ≤ 5)
    × (((e ≡ error_fd_cycle) × (matrices ≡ [])) ⊎ ((e ≡ error_none) ⊎ (e ≡ error_fd_cycle_close)))
profile-returns_example =
    profile-returns desk_cpu desk_outlet desk_kernel desk_scheduler six_lines 8192 (λ w. w.shown)
      stream six_lines-Geometry desk-Quiet desk-QuietCounter (λ w. refl) refl (desk-Takes 1) 5 0
      (replicate 6 0) empty_desk (omega arith) (omega arith) refl

profile_loop-stops_example :
    (matrices : List (List (List ℕ))) × All (IsMatrix desk_cpu six_lines 8192) matrices
    × (last : List ℕ) × (w' : Desk) × (profile_loop desk_cpu desk_outlet alarm_scheduler six_lines 0
          8192 4 0
          (replicate 6 0)
          stream
          empty_desk
        ≡ done (measured error_none last stream) w')
    × (w'.shown ≡ [] ++ matrices_text matrices)
    × (length matrices ≤ 3)
    × ((alarm_scheduler.terminated w' == 0) ≡ false)
profile_loop-stops_example =
    profile_loop-stops desk_cpu desk_outlet alarm_scheduler six_lines 8192 (λ w. w.ticks) desk-Alarm
      (λ w. w.shown) stream six_lines-Geometry desk-Quiet (λ w. refl) refl (desk-Takes 1)
      (replicate 6 0) empty_desk refl
