-- ===== src/Sampling/Recorded.antt =====
-- Loads that are timed, and their times stored one after another in an array.
use mathlib.Core.Path.{fun_ext}
use mathlib.Core.Option.{some-injective}
use mathlib.Core.List.{append_assoc}
use cache_noise_visualizer.Base.{
  ℕ, zero, suc, ◌+◌, ◌^◌, ◌<◌, ◌≡◌, refl, ap, ◌∙◌, sym, List, [], ◌∷◌, ◌++◌, arith, lt→ltb, length,
  set, length-append, get_elem?, some,
}
use cache_noise_visualizer.Base.Words.{u64}
use cache_noise_visualizer.Result.{ok, Run, done, failed, stuck}
use cache_noise_visualizer.Result.Sys.{
  Sys, ◌>>=◌, pure, and_then, run_result, and_then-done, done-subst,
}
use cache_noise_visualizer.Cpu.{Cpu}
use cache_noise_visualizer.Sampling.{Probe, probe_state, write_result, measure}
use cache_noise_visualizer.Sampling.Primes.{addresses, and_then_assoc}

pub and_then-pure : {W A : Type 0} (r : Run W A) → and_then r pure ≡ r
and_then-pure (done a v) = refl
and_then-pure (failed e v) = refl
and_then-pure (stuck x) = refl

set-append :
    (front back : List ℕ) (b v : ℕ)
    → set (front ++ b ∷ back) (length front) v ≡ (front ++ v ∷ []) ++ back
set-append [] back b v = refl
set-append (x ∷ front) back b v = rw (set-append front back b v)

pub write_result-append :
    (index : ℕ) (front back : List ℕ) (b v : ℕ)
    → index ≡ length front
    → write_result index v (front ++ b ∷ back) ≡ ok ((front ++ v ∷ []) ++ back)
write_result-append index front back b v e =
    let inside : index < length (front ++ b ∷ back) =
      omega (arith, length-append front (b ∷ back)) in
    rw (lt→ltb index _ inside, e) (ap ok (set-append front back b v))

module _ {W : Type 0} (cpu : Cpu W) where
  -- The times of loads of the addresses, one after another.
  unfoldable pub measure_all : List ℕ → Sys W (List ℕ)
  measure_all [] = pure []
  measure_all (x ∷ xs) = do time ← measure cpu x; times ← measure_all xs; pure (time ∷ times)

  -- The same, with each time stored in the array as it is taken.
  unfoldable pub record_all : List ℕ → Probe → Sys W Probe
  record_all [] p = pure p
  record_all (x ∷ xs) p = do
    time ← measure cpu x
    result ← run_result (write_result p.result_index time p.result)
    record_all xs (probe_state (u64 (p.result_index + 1)) result)

  pub record_all-append :
      (xs ys : List ℕ) (p : Probe) → record_all (xs ++ ys) p ≡ (record_all xs p >>= record_all ys)
  unfolding record_all
  record_all-append [] ys p = refl
  record_all-append (x ∷ xs) ys p =
      (λ i. measure cpu x >>= λ time.
      run_result (write_result p.result_index time p.result) >>= λ result.
      record_all-append xs ys (probe_state (u64 (p.result_index + 1)) result) i)
      ∙ (fun_ext λ v. sym (
          and_then_assoc (measure cpu x v) _ (record_all ys) ∙ (λ i.
            and_then (measure cpu x v) (λ time u.
              and_then_assoc (run_result (write_result p.result_index time p.result) u)
                (λ result. record_all xs (probe_state (u64 (p.result_index + 1)) result))
                (record_all ys) i))))

module _ {W : Type 0} (cpu : Cpu W) where
  -- The entry at the index is the time that a load of the address took.
  abbrev pub Timed : ℕ → ℕ → List ℕ → Type 0
  Timed address i times =
      (t : ℕ) × (u : W) × (v : W) × (measure cpu address u ≡ done t v)
      × (get_elem? times i ≡ some t)

  -- In the run from `w` to `w'` over the addresses, the entry at the index is the time of the load of
  -- `address`, behind the loads of the addresses in front of it and before those of the others.
  pub record TimedIn (xs : List ℕ) (address i : ℕ) (times : List ℕ) (w w' : W) : Type 0 where
    pub front : List ℕ
    pub back : List ℕ
    pub early : List ℕ
    pub late : List ℕ
    pub time : ℕ
    pub before : W
    pub after : W
    pub order : xs ≡ front ++ address ∷ back
    pub at : length front ≡ i
    pub first : measure_all cpu front w ≡ done early before
    pub load : measure cpu address before ≡ done time after
    pub rest : measure_all cpu back after ≡ done late w'
    pub stored : times ≡ early ++ time ∷ late
    pub entry : get_elem? times i ≡ some time

  pub TimedIn-Timed :
      (xs : List ℕ) (address i : ℕ) (times : List ℕ) (w w' : W)
      → TimedIn xs address i times w w'
      → Timed address i times
  TimedIn-Timed xs address i times w w' h = (h.time, h.before, h.after, h.load, h.entry)

  measure_all-cons :
      (y : ℕ) (ys : List ℕ) (w v u : W) (t : ℕ) (ts : List ℕ)
      → measure cpu y w ≡ done t v
      → measure_all cpu ys v ≡ done ts u
      → measure_all cpu (y ∷ ys) w ≡ done (t ∷ ts) u
  unfolding measure_all
  measure_all-cons y ys w v u t ts one all = rw (one, all) refl

  -- The time at an index is that of the load of the address at the index.
  pub get-measure_all :
      (xs times : List ℕ) (i x : ℕ) (w w' : W)
      → measure_all cpu xs w ≡ done times w'
      → get_elem? xs i ≡ some x
      → TimedIn xs x i times w w'
  unfolding measure_all
  get-measure_all [] times i x w w' run at_i = cc
  get-measure_all (y ∷ ys) times zero x w w' run at_i =
      let (t, v, first, more) = and_then-done (measure cpu y w) _ run in
      let (ts, u, others, end) = and_then-done (measure_all cpu ys v) _ more in
      let same = some-injective y x at_i in
      done-subst (λ (out : List ℕ) z. TimedIn (y ∷ ys) x zero out w z) end
        (record {
          front = [];
          back = ys;
          early = [];
          late = ts;
          time = t;
          before = w;
          after = v;
          order = ap (λ (z : ℕ). z ∷ ys) same;
          at = refl;
          first = refl;
          load = ap (λ (z : ℕ). measure cpu z w) (sym same) ∙ first;
          rest = others;
          stored = refl;
          entry = refl;
        })
  get-measure_all (y ∷ ys) times (suc i) x w w' run at_i =
      let (t, v, first, more) = and_then-done (measure cpu y w) _ run in
      let (ts, u, others, end) = and_then-done (measure_all cpu ys v) _ more in
      let h = get-measure_all ys ts i x v u others at_i in
      done-subst (λ (out : List ℕ) z. TimedIn (y ∷ ys) x (suc i) out w z) end
        (record {
          front = y ∷ h.front;
          back = h.back;
          early = t ∷ h.early;
          late = h.late;
          time = h.time;
          before = h.before;
          after = h.after;
          order = ap (λ (zs : List ℕ). y ∷ zs) h.order;
          at = ap suc h.at;
          first = measure_all-cons y h.front w v h.before t h.early first h.first;
          load = h.load;
          rest = h.rest;
          stored = ap (λ (zs : List ℕ). t ∷ zs) h.stored;
          entry = h.entry;
        })

  -- Where the array has room, the stored times follow one another.
  pub record_all-measured :
      (xs front back : List ℕ) (index : ℕ)
      → index ≡ length front
      → length xs ≡ length back
      → index + length xs < 2 ^ 64
      → record_all cpu xs (probe_state index (front ++ back))
        ≡ (measure_all cpu xs >>= λ times. pure (probe_state (index + length xs) (front ++ times)))
  unfolding record_all measure_all
  record_all-measured [] front [] index e same room =
      ap (λ (t : ℕ). pure (probe_state t (front ++ []))) (omega arith)
  record_all-measured [] front (b ∷ back) index e same room = absurd (omega arith)
  record_all-measured (x ∷ xs) front [] index e same room = absurd (omega arith)
  record_all-measured (x ∷ xs) front (b ∷ back) index e same room =
      (λ i. measure cpu x >>= λ time.
      after time
        (record_all-measured xs (front ++ time ∷ []) back (index + 1)
          (omega (arith, length-append front (time ∷ []))) (omega arith) (omega arith))
        i)
      ∙ (fun_ext λ v. sym (and_then_assoc (measure cpu x v) _ _))
    where
      stored : ℕ → Sys W Probe
      stored time = run_result (write_result index time (front ++ b ∷ back)) >>= λ result.
          record_all cpu xs (probe_state (u64 (index + 1)) result)

      rest : ℕ → Sys W Probe
      rest time = (measure_all cpu xs >>= λ times. pure (time ∷ times)) >>= λ times.
          pure (probe_state (index + suc (length xs)) (front ++ times))

      regrouped :
          (time : ℕ) (times : List ℕ)
          → probe_state (index + 1 + length xs) ((front ++ time ∷ []) ++ times)
            ≡ probe_state (index + suc (length xs)) (front ++ time ∷ times)
      regrouped time times =
          λ i. probe_state (sum_regroup i) (append_assoc front (time ∷ []) times i)
        where
          sum_regroup : index + 1 + length xs ≡ index + suc (length xs)
          sum_regroup = omega arith

      after :
          (time : ℕ)
          → record_all cpu xs (probe_state (index + 1) ((front ++ time ∷ []) ++ back)) ≡ (
              measure_all cpu xs >>= λ times.
              pure (probe_state (index + 1 + length xs) ((front ++ time ∷ []) ++ times)))
          → stored time ≡ rest time
      after time ih =
          let next : u64 (index + 1) ≡ index + 1 = omega arith in
          rw (write_result-append index front back b time e, next)
            (ih
              ∙ (λ i. measure_all cpu xs >>= λ times. pure (regrouped time times i))
              ∙ (fun_ext λ v. sym (and_then_assoc (measure_all cpu xs v) _ _)))

pub length-addresses :
    (buffer line_size : ℕ) (xs : List ℕ) → length (addresses buffer line_size xs) ≡ length xs
length-addresses buffer line_size [] = refl
length-addresses buffer line_size (x ∷ xs) = ap suc (length-addresses buffer line_size xs)
