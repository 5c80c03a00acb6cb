-- ===== src/Tests/Options.antt =====
-- The options of src/main.c on a command line, and the variance of benchmark on whole numbers.
use cache_noise_visualizer.Base.{
  ℕ, ◌-◌, ◌/◌, ◌^◌, ◌≡◌, refl, true, [], ◌∷◌, some, none, arith, ◌++◌,
}
use cache_noise_visualizer.Base.Int.{pos, negsuc}
use cache_noise_visualizer.Base.Text.{codes}
use cache_noise_visualizer.Base.Text.Decimal.{decimal}
use cache_noise_visualizer.Statistics.{Double, variance_of}
use cache_noise_visualizer.Result.{ok}
use cache_noise_visualizer.Benchmark.Variance.{variance_of-last}
use cache_noise_visualizer.SysInfo.Text.{show_int}
use cache_noise_visualizer.Main.Options.{Arguments, parsed, parse_opt}
use cache_noise_visualizer.Main.Options.Table.{is_unknown, parse_opt-listed}
use cache_noise_visualizer.Main.Options.Last.{
  Given, parse_given, last_arguments, parse_opt-last, parse_opt-cpu,
}

abbrev before : Arguments
before = record {
  mode = some (codes "profile");
  level = pos 1;
  iter = pos 0;
  pid = pos 0;
  seconds = pos 0;
  cpu = pos 0;
  output_file = none;
  program = none;
  program_args = none;
}

abbrev given : Given
given =
    (b'l', codes "2")
    ∷ (b'c', codes "3")
    ∷ (b'l', codes "1")
    ∷ (b'o', codes "noise.h5")
    ∷ (b'c', codes "-1")
    ∷ []

parse_opt-last_example : parse_given given 0 before ≡ parsed (last_arguments given before)
parse_opt-last_example = parse_opt-last given 0 before (refl, (refl, (refl, (refl, (refl, tt)))))

parse_opt-cpu_example :
    parse_opt b'c' (show_int (negsuc 0)) 1 before ≡ parsed (record before { cpu = negsuc 0 })
parse_opt-cpu_example = parse_opt-cpu (negsuc 0) 1 before (omega arith)

parse_opt-listed_example : is_unknown (parse_opt b'x' [] 0 before) ≡ true
parse_opt-listed_example = parse_opt-listed b'x' [] 0 before

abbrev pub whole : Double ℕ
whole = record {
  of_uint = λ n. n;
  sub = λ a b. a - b;
  div = λ a b. a / b;
  pow = λ a b. a ^ b;
  show = decimal;
}

variance_of-last_example :
    variance_of whole 10 3 ((4 ∷ 10 ∷ []) ++ 18 ∷ []) ≡ ok ((18 - 10) ^ 2 / (3 - 1))
variance_of-last_example = variance_of-last whole 10 3 (4 ∷ 10 ∷ []) 18 refl
