-- ===== src/Main/Released/Finalize.antt =====
-- The mappings that main leaves, in every mode and however it ends.
use cache_noise_visualizer.Base.{
  ℕ, ◌⊎◌, ◌^◌, ◌<◌, ◌≡◌, ◌≢◌, inl, inr, refl, sym, subst, ◌∙◌, Bool, false, not, ◌&&◌,
  if◌then◌else◌, ◌==◌, Bool-cases, ==_iff,
}
use cache_noise_visualizer.Result.{Fault, Run, done, failed, stuck}
use cache_noise_visualizer.Result.Sys.{pure, status, code_of, and_then}
use cache_noise_visualizer.Result.Keeps.{Over}
use cache_noise_visualizer.Output.{output_close}
use cache_noise_visualizer.Output.Keeps.{output_close-Keeps}
use cache_noise_visualizer.Alloc.{free_aligned}
use cache_noise_visualizer.Alloc.Length.{free_aligned-Covers}
use cache_noise_visualizer.Alloc.Outcomes.{Mapper}
use cache_noise_visualizer.Base.Text.{codes}
use cache_noise_visualizer.Errors.{error_munmap}
use cache_noise_visualizer.Main.Flow.{Locals, Flow, next, finalize, exits, broken, report_failure}
use cache_noise_visualizer.Main.Flows.{Ends, report_failure_keeps}
use cache_noise_visualizer.Main.Program.{System}
use cache_noise_visualizer.Main.Modes.{at_finalize, conclude, main, freed}
use cache_noise_visualizer.Main.Kept.{Frame}
use cache_noise_visualizer.Main.Released.{Mapped, Settled, Left}
use cache_noise_visualizer.Main.Released.Modes.{until_finalize}

-- A run of main that is over with an exit code, whose mappings are those of `start` but for one
-- address; or a fault. It is not over with an uncaught error code.
pub data Released {W : Type 0} (live : ℕ → W → Bool) (start : ℕ → Bool) (r : Run W ℕ) : Type 0 where
  returned :
      (n : ℕ) (w : W) (lost : ℕ)
      → r ≡ done n w
      → ((a : ℕ) → (a ≡ lost) ⊎ (live a w ≡ start a))
      → Released live start r
  broke : (x : Fault) → r ≡ stuck x → Released live start r

Released-but :
    {W : Type 0} (live : ℕ → W → Bool) (start : ℕ → Bool) (r : Run W ℕ) (n : ℕ) (w : W) (lost : ℕ)
    → r ≡ done n w
    → ((a : ℕ) → a ≢ lost → live a w ≡ start a)
    → Released live start r
Released-but live start r n w lost run same = returned n w lost run λ a.
    elim (Bool-cases (a == lost)) [
      | inl here ↦ inl ((==_iff a lost).0 here)
      | inr there ↦ inr (same a (λ e. cc (there, (==_iff a lost).1 e)))
    ]

module _ {W D : Type 0} (system : System W D) (live : ℕ → W → Bool) (size : ℕ)
    (mapper : Mapper system.files system.memory live size)
    (frame : (m : ℕ → Bool) → Frame system (Mapped live m)) (start : ℕ → Bool)
    (no_null : start 0 ≡ false) where
  open system use {files, memory, outlet, console}

  -- The release of the buffer, in a world with the mappings of `m`.
  freed-Released :
      (l : Locals) (w : W) (m : ℕ → Bool) (lost : ℕ)
      → Mapped live m w
      → Settled start lost l.buffer m
      → l.cache.total_size < 2 ^ 32
      → Released live start (
          (if l.buffer == 0 then pure 0 else λ v.
          freed system (status (free_aligned files memory l.buffer l.cache) v))
            w)
  freed-Released l w m lost mapped settled small = elim (Bool-cases (l.buffer == 0)) [
    | inl null ↦ rw null (
        Released-but live start _ 0 w lost refl λ a x. elim (Bool-cases (a == 0)) [
          | inl zero_address ↦ mapped a ∙ unmapped_null a ((==_iff a 0).0 zero_address)
          | inr other ↦
              mapped a
              ∙ settled.kept a x (λ e. cc (other, (==_iff a 0).1 (e ∙ (==_iff l.buffer 0).0 null)))
        ])
    | inr some_buffer ↦
        let (length, covers, run) =
          free_aligned-Covers files memory l.buffer l.cache w size (mapper.readable w)
            mapper.page_pos mapper.page_room small in
        let v = (memory.munmap l.buffer length w).1 in
        let gone = λ (a : ℕ) (x : a ≢ lost).
          (mapper.ledger length).munmap_live l.buffer w a ∙ released a x some_buffer in
        rw (some_buffer, run)
          (elim (Bool-cases (memory.munmap l.buffer length w).0) [
            | inl unmapped ↦ rw unmapped (Released-but live start _ 0 v lost refl gone)
            | inr refused ↦
                rw refused (Released-but live start _ 0 _ lost refl λ a x. reported v a ∙ gone a x)
          ])
  ]
    where
      -- The report of a release that failed changes no mapping.
      reported :
          (v : W) (a : ℕ)
          → live a (
              report_failure console
                (codes "Error while freeing buffer")
                error_munmap
                error_munmap
                v)
            ≡ live a v
      reported v =
          report_failure_keeps console (Mapped live (λ a. live a v))
            (λ text. (frame (λ a. live a v)).print_err text) (codes "Error while freeing buffer")
            error_munmap error_munmap v (λ a. refl)

      -- The null pointer is mapped in neither world.
      unmapped_null : (a : ℕ) → a ≡ 0 → m a ≡ start a
      unmapped_null a e =
          subst (λ b. m b ≡ start b) (sym e) (sym (mapped 0) ∙ mapper.null_unmapped w ∙ sym no_null)

      released :
          (a : ℕ) → a ≢ lost → (l.buffer == 0) ≡ false → (not (a == l.buffer) && live a w) ≡ start a
      released a x some_buffer = elim (Bool-cases (a == l.buffer)) [
        | inr other ↦
            rw other (mapped a ∙ settled.kept a x (λ e. cc (other, (==_iff a l.buffer).1 e)))
        | inl here ↦ rw here (elim settled.unmapped [
          | inl free ↦ sym (subst (λ b. start b ≡ false) (sym ((==_iff a l.buffer).0 here)) free)
          | inr (null, all) ↦ cc (some_buffer, (==_iff l.buffer 0).1 null)
        ])
      ]

  -- Whatever output_close answers, main goes on to the buffer.
  closed-Released :
      (l : Locals) (w : W) (lost : ℕ) (r : Run W (Unit {0}))
      → Settled start lost l.buffer (λ a. live a w)
      → l.cache.total_size < 2 ^ 32
      → Over (Mapped live (λ a. live a w)) r
      → Released live start (
          and_then (code_of r) λ _. if l.buffer == 0 then pure 0 else λ v.
          freed system (status (free_aligned files memory l.buffer l.cache) v))
  closed-Released l w lost (done e v) settled small same =
      freed-Released l v (λ a. live a w) lost same settled small
  closed-Released l w lost (failed e v) settled small same =
      freed-Released l v (λ a. live a w) lost same settled small
  closed-Released l w lost (stuck x) settled small same = broke x refl

  at_finalize-Released :
      (l : Locals) (w : W) → Left live start l w → Released live start (at_finalize system l w)
  unfolding at_finalize
  at_finalize-Released l w left =
      closed-Released l w left.lost (output_close outlet l.output w) left.settled left.small
        ((output_close-Keeps outlet _ (frame (λ a. live a w)).outlet l.output).at w (λ a. refl))

  conclude-Released :
      (r : Flow W)
      → Ends (Left live start) (Left live start) (Mapped live start) r
      → Released live start (conclude system r)
  conclude-Released (next l w) left = at_finalize-Released l w left
  conclude-Released (finalize l w) left = at_finalize-Released l w left
  conclude-Released (exits n w) same = returned n w 0 refl (λ a. inr (same a))
  conclude-Released (broken x) h = broke x refl

module _ {W D : Type 0} (system : System W D) (live : ℕ → W → Bool) (size : ℕ)
    (mapper : Mapper system.files system.memory live size)
    (frame : (m : ℕ → Bool) → Frame system (Mapped live m)) where
  -- Suppose the system keeps its promises: the size of the huge pages can always be read and is
  -- between 1 and 2 ^ 63 - 1, mmap answers MAP_FAILED or a new address, munmap succeeds for every
  -- address but MAP_FAILED, for which it may fail, and removes the mapping at the address that it is
  -- given and no other, the other calls change no mapping, and neither MAP_FAILED nor the null pointer
  -- is the address of a mapping. Then, from a 32-bit `total_size` and whatever else the
  -- variables hold, a run of main in any mode, through whatever errors, jumps to FINALIZE and calls of
  -- exit, returns an exit code with every address but at most one mapped exactly if it was mapped at
  -- the start; or it meets a fault, such as a signal for a bad access or a loop without end. It never
  -- stops at an error code.
  pub main-Released :
      (l : Locals) (w : W)
      → l.cache.total_size < 2 ^ 32
      → Released live (λ a. live a w) (main system l w)
  unfolding main
  main-Released l w small =
      let start : ℕ → Bool = λ a. live a w in
      conclude-Released system live size mapper frame start (mapper.null_unmapped w) _ (
        (until_finalize system live size mapper frame start (system.process.getpid w)).at
          (record l { buffer = 0 }) w (record { world = λ a. refl; buffer = refl; small = small }))
