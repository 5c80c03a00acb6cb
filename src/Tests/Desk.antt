-- ===== src/Tests/Desk.antt =====
-- A small machine with a stream, an HDF5 file, a program to start and processes that have ended.
use cache_noise_visualizer.Base.{
  ℕ, suc, ◌+◌, ◌-◌, ◌==◌, ◌≤◌, subst, ◌<◌, ◌≡◌, ◌≢◌, refl, true, false, List, [], ◌∷◌, ◌++◌, map,
  Option, none, some, if◌then◌else◌, arith, Bool-cases, inl, inr, ==_iff,
}
use cache_noise_visualizer.Base.Int.{ℤ, pos}
use cache_noise_visualizer.Base.Text.{Bytes, codes}
use cache_noise_visualizer.Cpu.{Cpu}
use cache_noise_visualizer.Output.{Outlet}
use cache_noise_visualizer.Output.Rows.{Takes}
use cache_noise_visualizer.Output.Outcomes.{Datasets, stored_int}
use cache_noise_visualizer.Actions.{Kernel, is_positive}
use cache_noise_visualizer.Actions.Signals.{Zombies}
use cache_noise_visualizer.Profile.{Scheduler}
use cache_noise_visualizer.Profile.Quiet.{Quiet}
use cache_noise_visualizer.Profile.Stops.{Alarm}
use cache_noise_visualizer.Tests.Machine.{same_text}

pub record Desk : Type 0 where
  pub cycles : ℕ
  pub ticks : ℕ
  pub shown : Bytes
  pub name : Option Bytes
  pub sets : List (Bytes × List ℕ)
  pub zombies : List ℕ

abbrev pub empty_desk : Desk
empty_desk = record {
  cycles = 0;
  ticks = 3;
  shown = [];
  name = none;
  sets = [];
  zombies = 11 ∷ 12 ∷ [];
}

abbrev pub lookup : Bytes → List (Bytes × List ℕ) → Option (List ℕ)
lookup name [] = none
lookup name ((other, values) ∷ rest) =
    if same_text name other then some values else lookup name rest

abbrev pub stored_under : Option Bytes → List ℕ → List (Bytes × List ℕ) → List (Bytes × List ℕ)
stored_under none values sets = sets
stored_under (some name) values sets = (name, values) ∷ sets

abbrev pub desk_outlet : Outlet Desk
desk_outlet = record {
  print = λ std text w. (true, record w { shown = w.shown ++ text });
  create_dataspace = λ rows columns w. (pos 1, w);
  create_dataset = λ file name space w. (pos 2, record w { name = some name });
  write_dataset =
      λ d values w. (pos 0, record w { sets = stored_under w.name (map stored_int values) w.sets });
  close_dataset = λ d w. (pos 0, w);
  create_file = λ file w. (pos 3, w);
  chmod = λ file w. (pos 0, w);
  close_file = λ file w. (pos 0, w);
}

pub desk-Takes : (std : ℕ) → Takes desk_outlet std (λ w. w.shown)
desk-Takes std = record { succeeds = λ text w. refl; appends = λ text w. refl }

same_text_refl : (a : Bytes) → same_text a a ≡ true
same_text_refl [] = refl
same_text_refl (x ∷ xs) = ground (arith, same_text_refl xs)

same_text_eq : (a b : Bytes) → same_text a b ≡ true → a ≡ b
same_text_eq [] [] e = refl
same_text_eq [] (y ∷ ys) e = cc
same_text_eq (x ∷ xs) [] e = cc
same_text_eq (x ∷ xs) (y ∷ ys) e = ground (arith, ==_iff x y, same_text_eq xs ys)

same_text_ne : (a b : Bytes) → a ≢ b → same_text a b ≡ false
same_text_ne a b h = elim (Bool-cases (same_text a b)) [
  | inl e ↦ absurd (h (same_text_eq a b e))
  | inr e ↦ e
]

abbrev pub desk_stored : Bytes → Desk → Option (List ℕ)
desk_stored name w = lookup name w.sets

abbrev pub desk_opened : ℤ → Desk → Option Bytes
desk_opened d w = w.name

pub desk-Datasets : Datasets desk_outlet (pos 3) desk_stored desk_opened
desk-Datasets = record {
  create_opens = λ name space w h. refl;
  create_keeps = λ name other space w h. refl;
  write_stores = λ d name values w e h. rw e (rw (same_text_refl name) refl);
  write_keeps = λ d name other values w e h. rw e (rw (same_text_ne other name h) refl);
  close_keeps = λ d name w. refl;
  space_keeps = λ rows columns name w. refl;
}

abbrev pub desk_cpu : Cpu Desk
desk_cpu = record {
  load = λ a w. some (record w { cycles = w.cycles + 7 });
  rdpmc = λ w. (w.cycles, w);
}

pub desk-Quiet : Quiet desk_cpu (λ w. w.shown)
desk-Quiet = record {
  load = λ a w. (record w { cycles = w.cycles + 7 }, refl, refl);
  rdpmc = λ w. refl;
}

abbrev pub desk_scheduler : Scheduler Desk
desk_scheduler = record { sched_yield = λ w. w; terminated = λ w. 0 }

abbrev pub next_zombie : List ℕ → Desk → ℤ × Desk
next_zombie [] w = (pos 0, w)
next_zombie (z ∷ zs) w = (pos (suc z), record w { zombies = zs })

abbrev pub desk_kernel : Kernel Desk
desk_kernel = record {
  sched_setaffinity = λ pid cpu w. (pos 0, w);
  perf_event_open = λ cpu w. (pos 3, w);
  ioctl = λ fd r w. (pos 0, w);
  posix_spawnattr_init = λ w. (pos 0, w);
  posix_spawnattr_setflags = λ w. w;
  posix_spawn_file_actions_init = λ w. (pos 0, w);
  wordexp = λ text w. (codes "-n" ∷ codes "5" ∷ [], w);
  wordfree = λ w. w;
  calloc = λ n w. some w;
  free = λ w. w;
  basename = λ path. codes "ls";
  posix_spawnp = λ path argv w. ((pos 0, pos 42), w);
  waitpid = λ w. next_zombie w.zombies w;
}

abbrev pub desk_ended : Desk → List ℕ
desk_ended w = map suc w.zombies

next_zombie-takes :
    (zs : List ℕ) (w : Desk) (pid : ℕ) (rest : List ℕ)
    → map suc zs ≡ pid ∷ rest
    → ((next_zombie zs w).0 ≡ pos pid) × (desk_ended (next_zombie zs w).1 ≡ rest)
next_zombie-takes [] w pid rest e = cc
next_zombie-takes (z ∷ zs) w pid rest e = (cc, cc)

pids_positive : (zs : List ℕ) (pid : ℕ) (rest : List ℕ) → map suc zs ≡ pid ∷ rest → 0 < pid
pids_positive [] pid rest e = cc
pids_positive (z ∷ zs) pid rest e = let h : suc z ≡ pid = cc in omega arith

next_zombie-stops :
    (zs : List ℕ) (w : Desk)
    → map suc zs ≡ []
    → (is_positive (next_zombie zs w).0 ≡ false)
      × (w.zombies ≡ zs → desk_ended (next_zombie zs w).1 ≡ [])
next_zombie-stops [] w e = (refl, λ h. rw h)
next_zombie-stops (z ∷ zs) w e = cc

pub desk-Zombies : Zombies desk_kernel desk_ended
desk-Zombies = record {
  pids_pos = λ w pid rest e. pids_positive w.zombies pid rest e;
  takes = λ w pid rest e. next_zombie-takes w.zombies w pid rest e;
  stops = λ w e. ((next_zombie-stops w.zombies w e).0, (next_zombie-stops w.zombies w e).1 refl);
}

-- An alarm: sched_yield takes a tick, and `terminated` is set when there is none to go.
abbrev pub alarm_scheduler : Scheduler Desk
alarm_scheduler = record {
  sched_yield = λ w. record w { ticks = w.ticks - 1 };
  terminated = λ w. if w.ticks == 0 then 1 else 0;
}

same_ticks : (n : ℕ) (w v : Desk) → some w ≡ some v → w.ticks ≤ n → v.ticks ≤ n
same_ticks n w v e h = let same : w ≡ v = cc in subst (λ u. u.ticks ≤ n) same h

pub desk-Alarm : Alarm desk_cpu desk_outlet alarm_scheduler (λ w. w.ticks)
desk-Alarm = record {
  cpu_keeps = λ n. record {
    load = λ a w v e h. same_ticks n (record w { cycles = w.cycles + 7 }) v e h;
    rdpmc = λ w h. h;
  };
  outlet_keeps = λ n. record {
    print = λ std text w h. h;
    create_dataspace = λ rows columns w h. h;
    create_dataset = λ file name space w h. h;
    write_dataset = λ d values w h. h;
    close_dataset = λ d w h. h;
    create_file = λ file w h. h;
    chmod = λ file w h. h;
    close_file = λ file w h. h;
  };
  ticks = λ n w h. omega arith;
  rings = λ w e. rw e;
}
