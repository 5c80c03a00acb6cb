-- ===== src/Actions/Signals.antt =====
-- extern_process_signal_handler, which collects the processes that have ended.
use cache_noise_visualizer.Base.{
  ℕ, zero, suc, ◌+◌, ◌<◌, ◌≡◌, refl, true, false, List, [], ◌∷◌, arith, lt→ltb, length,
}
use cache_noise_visualizer.Base.Int.{ℤ, pos}
use cache_noise_visualizer.Result.{done}
use cache_noise_visualizer.Actions.{Kernel, is_positive, reap, extern_process_signal_handler}

module _ {W : Type 0} (kernel : Kernel W) where
  -- The ended processes of the world, in the order in which waitpid hands them out: waitpid takes the
  -- first, and answers 0 or -1 when there is none.
  pub record Zombies (ended : W → List ℕ) : Type 0 where
    pub pids_pos : (w : W) (pid : ℕ) (rest : List ℕ) → ended w ≡ pid ∷ rest → 0 < pid
    pub takes :
        (w : W) (pid : ℕ) (rest : List ℕ)
        → ended w ≡ pid ∷ rest
        → ((kernel.waitpid w).0 ≡ pos pid) × (ended (kernel.waitpid w).1 ≡ rest)
    pub stops :
        (w : W)
        → ended w ≡ []
        → (is_positive (kernel.waitpid w).0 ≡ false) × (ended (kernel.waitpid w).1 ≡ [])

  module _ (ended : W → List ℕ) (zombies : Zombies ended) where
    reap-all :
        (fuel : ℕ) (pids : List ℕ) (pid : ℤ) (w : W)
        → is_positive pid ≡ true
        → ended w ≡ pids
        → length pids + 1 < fuel
        → (w' : W) × (reap kernel fuel pid w ≡ done tt w') × (ended w' ≡ [])
    unfolding reap
    reap-all zero pids pid w p e room = absurd (omega arith)
    reap-all (suc zero) pids pid w p e room = absurd (omega arith)
    reap-all (suc (suc fuel)) [] pid w p e room =
        ((kernel.waitpid w).1, rw (p, (zombies.stops w e).0), (zombies.stops w e).1)
    reap-all (suc (suc fuel)) (first ∷ rest) pid w p e room =
        let (got, left) = zombies.takes w first rest e in
        let positive : is_positive (kernel.waitpid w).0 ≡ true =
          rw got (lt→ltb 0 first (zombies.pids_pos w first rest e)) in
        let (w', run, gone) =
          reap-all (suc fuel) rest (kernel.waitpid w).0 (kernel.waitpid w).1 positive left
            (omega arith) in
        (w', rw p run, gone)

    -- If waitpid hands out the ended processes one by one, then with two rounds more than there are of
    -- them extern_process_signal_handler ends; no ended process is left, and `terminated` is 1.
    pub extern_process_signal_handler-reaps :
        (fuel : ℕ) (w : W)
        → length (ended w) + 1 < fuel
        → (w' : W) × (extern_process_signal_handler kernel fuel w ≡ done 1 w') × (ended w' ≡ [])
    unfolding extern_process_signal_handler
    extern_process_signal_handler-reaps fuel w room =
        let (w', run, gone) = reap-all fuel (ended w) (pos 1) w refl refl room in (w', rw run, gone)
