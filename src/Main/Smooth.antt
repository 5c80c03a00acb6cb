-- ===== src/Main/Smooth.antt =====
-- main on a machine where every call succeeds: what its parts show, and the variables that they leave.
pub mod Before
use mathlib.Core.List.{append_assoc, append-nil}
use cache_noise_visualizer.Base.{
  ℕ, ◌≡◌, refl, sym, ap, ◌∙◌, true, List, [], ◌∷◌, ◌++◌, some, Option,
}
use cache_noise_visualizer.Base.Int.{ℤ}
use cache_noise_visualizer.Base.Text.{Bytes, codes}
use cache_noise_visualizer.Base.Text.Decimal.{decimal}
use cache_noise_visualizer.Result.{ok}
use cache_noise_visualizer.SysInfo.Text.{show_int}
use cache_noise_visualizer.SysInfo.Access.{has_root_access, can_use_rdpmc}
use cache_noise_visualizer.SysInfo.CacheInfo.{CacheInfo}
use cache_noise_visualizer.SysInfo.CacheInfo.Print.{cache_info_print}
use cache_noise_visualizer.Main.Flow.{Locals, Flow, next, Step}
use cache_noise_visualizer.Main.Program.{System, dashes}
use cache_noise_visualizer.Main.Info.{Willing, print_all}

-- What the calls before the modes answer, and that only the calls that print add to the standard
-- output, which `shown` is. The command line asks for the cache `found`.
pub record Smooth {W D : Type 0} (system : System W D) (shown : W → Bytes) (l : Locals)
    (found : CacheInfo) : Type 0 where
  pub willing : Willing system l found
  pub root : (v : W) → has_root_access system.files v ≡ true
  pub rdpmc : (v : W) → can_use_rdpmc system.files system.stale_uint v ≡ ok tt
  pub print_out : (text : Bytes) (v : W) → shown (system.console.print_out text v) ≡ shown v ++ text
  pub signal : (signo : ℕ) (v : W) → shown (system.process.signal signo v).1 ≡ shown v
  pub sigaction : (v : W) → shown (system.process.sigaction v).1 ≡ shown v
  pub sched_setaffinity :
      (pid : ℕ) (set : Option ℕ) (v : W)
      → shown (system.kernel.sched_setaffinity pid set v).1 ≡ shown v

abbrev pub joined : List Bytes → Bytes
joined [] = []
joined (text ∷ texts) = text ++ joined texts

-- One text behind another.
abbrev pub appended : Bytes → List Bytes → Bytes
appended base [] = base
appended base (text ∷ texts) = appended (base ++ text) texts

pub appended-joined :
    (base : Bytes) (texts : List Bytes) → appended base texts ≡ base ++ joined texts
appended-joined base [] = sym (append-nil base)
appended-joined base (text ∷ texts) =
    appended-joined (base ++ text) texts ∙ append_assoc base text (joined texts)

-- The texts of main, in the order in which it prints them.
abbrev pub binding_text : ℕ → ℤ → Bytes
binding_text pid cpu =
    codes "Binding this process("
    ++ (decimal pid ++ (codes ") to CPU " ++ (show_int cpu ++ (b'.' ∷ 10 ∷ []))))

abbrev pub using_text : ℤ → ℤ → Bytes
using_text level cpu =
    codes "Using L" ++ (show_int level ++ (codes " cache on CPU " ++ (show_int cpu ++ 10 ∷ [])))

abbrev pub cache_texts : ℤ → ℤ → CacheInfo → List Bytes
cache_texts level cpu found =
    dashes ∷ using_text level cpu ∷ (cache_info_print (some found)).1 ∷ dashes ∷ []

abbrev pub bye : Bytes
bye = codes "Finished. Bye :)" ++ 10 ∷ []

module _ {W : Type 0} (shown : W → Bytes) where
  -- The end of a part of main that goes on with the variables `l` and has then shown `base`.
  abbrev pub Reaches : Flow W → Locals → Bytes → Type 0
  Reaches r l base = (v : W) × (r ≡ next l v) × (shown v ≡ base)

  -- A part of main that ends with the variables `l'`, and has shown this text.
  pub record Goes (l l' : Locals) (text : Bytes) (m : Step W) : Type 0 where
    pub at : (w : W) → Reaches (m l w) l' (shown w ++ text)

  -- What print_all shows.
  pub print_all-joined :
      {D : Type 0} (system : System W D)
      → ((text : Bytes) (v : W) → shown (system.console.print_out text v) ≡ shown v ++ text)
      → (texts : List Bytes) (v : W) → shown (print_all system texts v) ≡ shown v ++ joined texts
  print_all-joined system prints [] v = sym (append-nil (shown v))
  print_all-joined system prints (text ∷ texts) v =
      print_all-joined system prints texts (system.console.print_out text v)
      ∙ ap (λ x. x ++ joined texts) (prints text v)
      ∙ append_assoc (shown v) text (joined texts)
