-- ===== src/Main/Options.antt =====
-- The options of src/main.c: arguments_t and parse_opt.
pub mod Last
pub mod Table
use cache_noise_visualizer.Base.{
  ℕ, ◌^◌, ◌+◌, Bool, true, false, ◌||◌, List, [], ◌∷◌, String, Option, none, some, ltb, ◌==◌,
  if◌then◌else◌,
}
use cache_noise_visualizer.Base.Int.{ℤ, pos}
use cache_noise_visualizer.Base.Text.{Bytes}
use cache_noise_visualizer.Stdio.{atoi}

abbrev pub program_identifier : ℕ
program_identifier = 3000

abbrev pub program_args_identifier : ℕ
program_args_identifier = 3001

-- ARGP_KEY_ARG and ARGP_KEY_END of argp.h: an argument that is no option, and the end of them.
abbrev pub argp_key_arg : ℕ
argp_key_arg = 0

abbrev pub argp_key_end : ℕ
argp_key_end = 0x1000001

-- struct argp_option of argp.h, without its flags, which are 0 in every row.
pub record ArgpOption : Type 0 where
  pub name : String
  pub key : ℕ
  pub arg : String
  pub doc : String

-- The rows in front of the null row, by which argp_parse knows the options.
abbrev pub arg_options : List ArgpOption
arg_options =
    record {
      name = "iter";
      key = b'i';
      arg = "ITERATIONS";
      doc = "Specifies the amount of iterations.";
    }
    ∷ record {
      name = "seconds";
      key = b's';
      arg = "SECONDS";
      doc = "Specifies the duration of the measurement in seconds.";
    }
    ∷ record {
      name = "cpu";
      key = b'c';
      arg = "ID";
      doc =
          "Specifies the CPU core on which this program will run. If the process gets bound by a different program set this to -1.";
    }
    ∷ record {
      name = "pid";
      key = b'p';
      arg = "PID";
      doc =
          "Specifies the PID of the another process. The process is moved to thesame CPU core if one is specified. This can not be used with the --program andthe --program-args arguments.";
    }
    ∷ record {
      name = "level";
      key = b'l';
      arg = "LEVEL";
      doc = "Specifies which cache level should be analyzed.";
    }
    ∷ record {
      name = "program";
      key = program_identifier;
      arg = "PROGRAM";
      doc =
          "Specifies a program which will be started before the measurement. This can not be used with the --pid argument.";
    }
    ∷ record {
      name = "program-args";
      key = program_args_identifier;
      arg = "ARGS";
      doc =
          "Specifies arguments for the program which will be run before the measurement. This can not be used with --pid argument.";
    }
    ∷ record {
      name = "output";
      key = b'o';
      arg = "FILE";
      doc = "Saves the time measurement into a file instead of stdio.";
    }
    ∷ []

-- Whether one of the rows has this key.
abbrev pub listed : ℕ → List ArgpOption → Bool
listed key [] = false
listed key (option ∷ options) = (key == option.key) || listed key options

-- arguments_t; none is the null pointer
pub record Arguments : Type 0 where
  pub mode : Option Bytes
  pub level : ℤ
  pub iter : ℤ
  pub pid : ℤ
  pub seconds : ℤ
  pub cpu : ℤ
  pub output_file : Option Bytes
  pub program : Option Bytes
  pub program_args : Option Bytes

-- What main stores before it parses; `mode` is what the variable happens to hold.
unfoldable pub default_arguments : Option Bytes → Arguments
default_arguments mode = record {
  mode = mode;
  level = pos 1;
  iter = pos 0;
  pid = pos 0;
  seconds = pos 0;
  cpu = pos 0;
  output_file = none;
  program = none;
  program_args = none;
}

-- What a call of parse_opt comes to: 0 with the arguments, ARGP_ERR_UNKNOWN, or the end of the
-- program by argp_usage.
pub data Parsed : Type 0 where
  parsed : Arguments → Parsed
  argp_err_unknown : Parsed
  argp_usage : Parsed

-- The switch over the key; `arg_num` is state->arg_num.
unfoldable pub parse_opt : ℕ → Bytes → ℕ → Arguments → Parsed
parse_opt key arg arg_num arguments =
    if key == b'p'
    then parsed (record arguments { pid = atoi arg })
    else if key == b'c'
    then parsed (record arguments { cpu = atoi arg })
    else if key == b'l'
    then parsed (record arguments { level = atoi arg })
    else if key == b'i'
    then parsed (record arguments { iter = atoi arg })
    else if key == b's'
    then parsed (record arguments { seconds = atoi arg })
    else if key == b'o'
    then parsed (record arguments { output_file = some arg })
    else if key == program_identifier
    then parsed (record arguments { program = some arg })
    else if key == program_args_identifier
    then parsed (record arguments { program_args = some arg })
    else if key == argp_key_arg
    then (if ltb 0 arg_num then argp_usage else parsed (record arguments { mode = some arg }))
    else if key == argp_key_end
    then (if ltb arg_num 1 then argp_usage else parsed arguments)
    else argp_err_unknown
