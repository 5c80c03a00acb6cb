-- ===== src/Actions/Argv.antt =====
-- The arguments that run_program passes to posix_spawnp.
use mathlib.Core.List.{append_assoc}
use cache_noise_visualizer.Base.{
  ℕ, zero, suc, ◌+◌, ◌*◌, ◌<◌, ◌≡◌, refl, sym, ap, ◌∙◌, true, List, [], ◌∷◌, ◌++◌, map, Option,
  none, some, arith, length, length-append, replicate, set, lt→ltb,
}
use cache_noise_visualizer.Base.Text.{Bytes}
use cache_noise_visualizer.Result.{ok, done}
use cache_noise_visualizer.Actions.{Kernel, is_zero, put, fill_argv, spawned, run_program}

module _ {A : Type 0} where
  set-middle :
      (front back : List A) (x y : A) → set (front ++ x ∷ back) (length front) y ≡ front ++ y ∷ back
  set-middle [] back x y = refl
  set-middle (z ∷ front) back x y = ap (λ t. z ∷ t) (set-middle front back x y)

  put-middle :
      (front back : List A) (x y : A) (i : ℕ)
      → i ≡ length front
      → put i y (front ++ x ∷ back) ≡ ok (front ++ y ∷ back)
  put-middle front back x y i e =
      let inside : i < length (front ++ x ∷ back) = omega (arith, length-append front (x ∷ back)) in
      rw (lt→ltb i _ inside, e) (ap ok (set-middle front back x y))

-- The loop fills the free entries behind the name, one by one.
fill_argv-middle :
    {W : Type 0} (words : List Bytes) (front back : List (Option Bytes)) (i : ℕ) (w : W)
    → i + 1 ≡ length front
    → fill_argv i words (front ++ (replicate (length words) none ++ back)) w
      ≡ done (front ++ (map some words ++ back)) w
unfolding fill_argv
fill_argv-middle [] front back i w e = refl
fill_argv-middle (word ∷ words) front back i w e =
    rw
      (
        put-middle front (replicate (length words) none ++ back) none (some word) (i + 1) e,
        sym (append_assoc front (some word ∷ []) (replicate (length words) none ++ back)),
      )
      (fill_argv-middle words (front ++ some word ∷ []) back (i + 1) w
          (omega (arith, length-append front (some word ∷ [])))
        ∙ ap (λ t. done t w) (append_assoc front (some word ∷ []) (map some words ++ back)))

replicate-last : {A : Type 0} (n : ℕ) (x : A) → replicate (suc n) x ≡ replicate n x ++ x ∷ []
replicate-last zero x = refl
replicate-last (suc n) x = ap (λ t. x ∷ t) (replicate-last n x)

named_argv :
    (name : Option Bytes) (n : ℕ)
    → put 0 name (replicate (n + 1 + 1) none) ≡ ok (name ∷ (replicate n none ++ none ∷ []))
named_argv name n =
    let e : n + 1 + 1 ≡ suc (suc n) = omega arith in
    rw e (
      put-middle [] (replicate (suc n) none) none name 0 refl
      ∙ ap (λ t. ok (name ∷ t)) (replicate-last n none))

length-map-some : (words : List Bytes) → length (map {B = Option Bytes} some words) ≡ length words
length-map-some [] = refl
length-map-some (word ∷ words) = ap suc (length-map-some words)

ended_argv :
    (name : Option Bytes) (words : List Bytes)
    → put (length words + 1) none (name ∷ (map some words ++ none ∷ []))
      ≡ ok (name ∷ (map some words ++ none ∷ []))
ended_argv name words =
    put-middle (name ∷ map some words) [] none none (length words + 1)
      (omega (arith, length-map-some words))

module _ {W : Type 0} (kernel : Kernel W) where
  -- If the attributes and the file actions can be set up and there is memory for the arguments, then
  -- run_program with arguments passes posix_spawnp the name of the program, the words of the
  -- arguments in their order, and the null pointer at the end, and no store is outside the array; it
  -- returns ERROR_SPAWN_SPAWN exactly if posix_spawnp answers an error.
  pub run_program-argv :
      (path arguments : Bytes) (w v : W)
      → is_zero (kernel.posix_spawnattr_init w).0 ≡ true
      → is_zero
          (kernel.posix_spawn_file_actions_init
            (kernel.posix_spawnattr_setflags (kernel.posix_spawnattr_init w).1)).0
        ≡ true
      → (let started =
            (kernel.posix_spawn_file_actions_init
              (kernel.posix_spawnattr_setflags (kernel.posix_spawnattr_init w).1)).1 in
          let expanded = kernel.wordexp arguments started in
          kernel.calloc (8 * (length expanded.0 + 1 + 1)) expanded.1 ≡ some v)
      → run_program kernel (some path) (some arguments) w ≡ (
          let started =
            (kernel.posix_spawn_file_actions_init
              (kernel.posix_spawnattr_setflags (kernel.posix_spawnattr_init w).1)).1 in
          let words = (kernel.wordexp arguments started).0 in
          let r =
            kernel.posix_spawnp path
              (some (kernel.basename path) ∷ (map some words ++ none ∷ []))
              v in
          spawned (r.0, kernel.free (kernel.wordfree r.1)))
  unfolding run_program
  run_program-argv path arguments w v attributes actions memory =
      let words =
        (kernel.wordexp arguments
          (kernel.posix_spawn_file_actions_init
            (kernel.posix_spawnattr_setflags (kernel.posix_spawnattr_init w).1)).1).0 in
      let name = some (kernel.basename path) in
      rw (
        attributes,
        actions,
        memory,
        named_argv name (length words),
        fill_argv-middle words (name ∷ []) (none ∷ []) 0 v (omega arith),
        ended_argv name words,
      )
