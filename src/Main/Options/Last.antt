-- ===== src/Main/Options/Last.antt =====
-- What a command line leaves in arguments_t.
use cache_noise_visualizer.Base.{
  ℕ, ◌≡◌, refl, Bool, true, List, [], ◌∷◌, Option, some, ◌==◌, All, if◌then◌else◌, arith, ◌⊎◌, inl,
  inr, ◌∙◌, ap,
}
use cache_noise_visualizer.Base.Int.{ℤ, IsInt}
use cache_noise_visualizer.Base.Text.{Bytes}
use cache_noise_visualizer.Stdio.{atoi}
use cache_noise_visualizer.Stdio.Signed.{atoi-show_int}
use cache_noise_visualizer.SysInfo.Text.{show_int}
use cache_noise_visualizer.Main.Options.{
  arg_options, listed, Arguments, Parsed, parsed, argp_err_unknown, argp_usage, parse_opt,
  program_identifier, program_args_identifier,
}

-- A call of parse_opt that argp_parse makes for an option: the key and its argument.
abbrev pub Given : Type 0
Given = List (ℕ × Bytes)

abbrev pub is_option : ℕ → Bool
is_option key = listed key arg_options

abbrev pub then_parse : Parsed → (Arguments → Parsed) → Parsed
then_parse (parsed arguments) f = f arguments
then_parse argp_err_unknown f = argp_err_unknown
then_parse argp_usage f = argp_usage

-- The calls for the options, one after another, up to one that is not 0.
unfoldable pub parse_given : Given → ℕ → Arguments → Parsed
parse_given [] arg_num arguments = parsed arguments
parse_given ((key, arg) ∷ given) arg_num arguments =
    then_parse (parse_opt key arg arg_num arguments) (parse_given given arg_num)

-- The argument that the last option with this key has.
unfoldable pub last_arg : ℕ → Given → Option Bytes → Option Bytes
last_arg key [] before = before
last_arg key ((other, arg) ∷ given) before =
    last_arg key given (if other == key then some arg else before)

unfoldable pub last_int : ℕ → Given → ℤ → ℤ
last_int key [] before = before
last_int key ((other, arg) ∷ given) before =
    last_int key given (if other == key then atoi arg else before)

-- Every field by the last option for it, whatever the options for other fields.
abbrev pub last_arguments : Given → Arguments → Arguments
last_arguments given before = record {
  mode = before.mode;
  level = last_int b'l' given before.level;
  iter = last_int b'i' given before.iter;
  pid = last_int b'p' given before.pid;
  seconds = last_int b's' given before.seconds;
  cpu = last_int b'c' given before.cpu;
  output_file = last_arg b'o' given before.output_file;
  program = last_arg program_identifier given before.program;
  program_args = last_arg program_args_identifier given before.program_args;
}

option_keys :
    (key : ℕ)
    → is_option key ≡ true
    → (key ≡ b'p')
      ⊎ ((key ≡ b'c')
          ⊎ ((key ≡ b'l')
              ⊎ ((key ≡ b'i')
                  ⊎ ((key ≡ b's')
                      ⊎ ((key ≡ b'o')
                          ⊎ ((key ≡ program_identifier) ⊎ (key ≡ program_args_identifier)))))))
option_keys key h = ground arith

-- One option: the field of its key is stored, and no other.
parse_opt-step :
    (key : ℕ) (arg : Bytes) (given : Given) (arg_num : ℕ) (before : Arguments)
    → is_option key ≡ true
    → (after : Arguments) × (parse_opt key arg arg_num before ≡ parsed after)
      × (last_arguments given after ≡ last_arguments ((key, arg) ∷ given) before)
unfolding parse_opt last_arg last_int
parse_opt-step key arg given arg_num before h = elim (option_keys key h) [
  | inl e ↦ rw e (record before { pid = atoi arg }, refl, refl)
  | inr (inl e) ↦ rw e (record before { cpu = atoi arg }, refl, refl)
  | inr (inr (inl e)) ↦ rw e (record before { level = atoi arg }, refl, refl)
  | inr (inr (inr (inl e))) ↦ rw e (record before { iter = atoi arg }, refl, refl)
  | inr (inr (inr (inr (inl e)))) ↦ rw e (record before { seconds = atoi arg }, refl, refl)
  | inr (inr (inr (inr (inr (inl e))))) ↦
      rw e (record before { output_file = some arg }, refl, refl)
  | inr (inr (inr (inr (inr (inr (inl e)))))) ↦
      rw e (record before { program = some arg }, refl, refl)
  | inr (inr (inr (inr (inr (inr (inr e)))))) ↦
      rw e (record before { program_args = some arg }, refl, refl)
]

-- For every sequence of options, each with one of the keys of arg_options, the calls of parse_opt
-- succeed and leave in each field of the arguments what the last option for that field gives, or
-- what it held before; the mode stays. So options for different fields can stand in any order.
pub parse_opt-last :
    (given : Given) (arg_num : ℕ) (before : Arguments)
    → All (λ (g : ℕ × Bytes). is_option g.0 ≡ true) given
    → parse_given given arg_num before ≡ parsed (last_arguments given before)
unfolding parse_given
parse_opt-last [] arg_num before h = unfold last_arg last_int in refl
parse_opt-last ((key, arg) ∷ given) arg_num before (h, hs) =
    let (after, run, same) = parse_opt-step key arg given arg_num before h in
    rw run (parse_opt-last given arg_num after hs ∙ ap parsed same)

-- Every int that is printed with %d and given to -c is the CPU of the arguments, also a negative one.
pub parse_opt-cpu :
    (z : ℤ) (arg_num : ℕ) (before : Arguments)
    → IsInt z
    → parse_opt b'c' (show_int z) arg_num before ≡ parsed (record before { cpu = z })
unfolding parse_opt
parse_opt-cpu z arg_num before h = ap (λ c. parsed (record before { cpu = c })) (atoi-show_int z h)
