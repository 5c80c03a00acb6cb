-- ===== src/Main/Options/Table.antt =====
-- The table of options and the switch of parse_opt.
use cache_noise_visualizer.Base.{ℕ, ◌≡◌, Bool, true, false, not, ◌||◌, ◌==◌, arith}
use cache_noise_visualizer.Base.Text.{Bytes}
use cache_noise_visualizer.Main.Options.{
  Arguments, Parsed, parsed, argp_err_unknown, argp_usage, parse_opt, arg_options, listed,
  argp_key_arg, argp_key_end,
}

abbrev pub is_unknown : Parsed → Bool
is_unknown (parsed arguments) = false
is_unknown argp_err_unknown = true
is_unknown argp_usage = false

-- parse_opt answers ARGP_ERR_UNKNOWN to exactly the keys that no row of arg_options has, except
-- ARGP_KEY_ARG and ARGP_KEY_END: the switch has a case for every option that argp_parse can find,
-- and no other.
pub parse_opt-listed :
    (key : ℕ) (arg : Bytes) (arg_num : ℕ) (before : Arguments)
    → is_unknown (parse_opt key arg arg_num before)
      ≡ not (listed key arg_options || ((key == argp_key_arg) || (key == argp_key_end)))
unfolding parse_opt
parse_opt-listed key arg arg_num before = ground arith
