-- ===== src/Tests/Launcher.antt =====
-- Runs of the option parser, the quoting, the output walk and the statistics of src/main.cpp.
use bazel_sandbox_windows.Base.{ℕ, ◌%◌, ◌^◌, ◌≡◌, refl, arith, true, false}
use bazel_sandbox_windows.Base.{some, WString, wide, List, [], ◌∷◌, ◌++◌, length}
use bazel_sandbox_windows.Base.{All, is_nil, wcs_eq}
use bazel_sandbox_windows.Overlay.Paths.{wcsnicmp_eq}
use bazel_sandbox_windows.Launcher.Options.{System, Options, no_options, done, parse_options}
use bazel_sandbox_windows.Launcher.Options.{
  expand_arguments, parse_from, complete, action_of, actions,
}
use bazel_sandbox_windows.Launcher.Options.{first_action, is_option, to_absolute}
use bazel_sandbox_windows.Launcher.Options.Valid.{InResult, IsConsistent, parse_options-InResult}
use bazel_sandbox_windows.Launcher.Quoting.{escape_arg, append_args}
use bazel_sandbox_windows.Launcher.Quoting.RoundTrip.{read_args, read_more, skip_blanks, read_arg}
use bazel_sandbox_windows.Launcher.Quoting.RoundTrip.{read_args-append_args}
use bazel_sandbox_windows.Launcher.Stats.{put_varint, Usage, resource_usage}
use bazel_sandbox_windows.Launcher.Stats.Message.{
  read_message, usage_values, read_message-resource_usage,
}
use bazel_sandbox_windows.Launcher.Stats.RoundTrip.{read_varint, read_varint-put_varint}
use bazel_sandbox_windows.Launcher.Outputs.{walk_up, output_dirs, is_strictly_under, ends_in_sep}
use bazel_sandbox_windows.Launcher.Outputs.Chain.{IsBelow, walk_up-enough, output_dirs-All}
use bazel_sandbox_windows.Launcher.Scopes.{wait_ms}

abbrev system : System
system = record {
  full_path = λ p n. (length p, p);
  environment_variable = λ p n. (0, []);
  current_directory = wide "C:\\w";
  read_lines = λ p. some (wide "-H" ∷ []);
  decimal = λ s. 30;
  process_id = wide "7";
}

abbrev arguments : List WString
arguments = wide "@f" ∷ wide "-w" ∷ wide "C:\\w\\out" ∷ wide "--" ∷ wide "cc" ∷ wide "@x" ∷ []

abbrev parsed : Options
parsed = record no_options {
  working_dir = wide "C:\\w";
  writable_files = wide "C:\\w\\out" ∷ [];
  hermetic = true;
  args = wide "cc" ∷ wide "@x" ∷ [];
}

parse_options_run : parse_options system arguments ≡ done parsed
unfolding parse_options expand_arguments parse_from complete action_of actions first_action
    is_option wcs_eq to_absolute
parse_options_run = refl

parse_options-InResult_example :
    InResult (λ o. IsConsistent o × (is_nil o.args ≡ false)) (parse_options system arguments)
parse_options-InResult_example = parse_options-InResult system arguments

-- `a b\` with its closing backslash doubled.
escape_arg_run : escape_arg (wide "a b\\") ≡ wide "\"a b\\\\\""
unfolding escape_arg
escape_arg_run = refl

read_args-append_args_example :
    read_args 3 (append_args false (wide "a b" ∷ [] ∷ [])) ≡ some (wide "a b" ∷ [] ∷ [])
read_args-append_args_example = read_args-append_args 3 (wide "a b" ∷ [] ∷ []) (omega arith)

-- Runs of separators are skipped, at the end too.
read_args_run : read_args 9 (wide " a \t b  ") ≡ some (wide "a" ∷ wide "b" ∷ [])
unfolding read_args read_more skip_blanks read_arg
read_args_run = refl

read_varint-put_varint_example :
    (bytes : List ℕ) × (put_varint (8 ∷ []) 300 ≡ (8 ∷ []) ++ bytes)
    × (read_varint (bytes ++ 1 ∷ []) ≡ (300 % 2 ^ 64, 1 ∷ []))
read_varint-put_varint_example = read_varint-put_varint (8 ∷ []) (1 ∷ []) 300

abbrev same_case : ℕ → ℕ
same_case c = c

output_dirs_run :
    output_dirs same_case (wide "C:\\w") (wide "C:\\w\\a\\b\\f" ∷ wide "C:\\w\\a\\g" ∷ [])
    ≡ wide "C:\\w\\a" ∷ wide "C:\\w\\a\\b" ∷ []
unfolding output_dirs is_strictly_under wcs_eq wcsnicmp_eq ends_in_sep
output_dirs_run = refl

output_dirs-All_example :
    All
      (IsBelow same_case (wide "C:\\w"))
      (output_dirs same_case (wide "C:\\w") (wide "C:\\w\\a\\f" ∷ []))
output_dirs-All_example = output_dirs-All same_case (wide "C:\\w") (wide "C:\\w\\a\\f" ∷ [])

walk_up-enough_example :
    walk_up same_case 6 (wide "C:\\w") (wide "C:\\w\\a")
    ≡ walk_up same_case 99 (wide "C:\\w") (wide "C:\\w\\a")
walk_up-enough_example =
    walk_up-enough same_case 6 99 (wide "C:\\w") (wide "C:\\w\\a") (omega arith) (omega arith)

abbrev one_minute : Options
one_minute = record no_options { timeout_secs = 60 }

-- A `-T` of 4294968 seconds waits for 704 milliseconds.
wait_ms_wraps : wait_ms (record no_options { timeout_secs = 4294968 }) ≡ 704
unfolding wait_ms
wait_ms_wraps = refl

abbrev some_usage : Usage
some_usage = record {
  utime_sec = 1;
  utime_usec = 500000;
  stime_sec = 0;
  stime_usec = 20;
  maxrss_kb = 4096;
  in_block = 0;
  ou_block = 3;
}

read_message-resource_usage_example :
    read_message (1 ∷ 2 ∷ 3 ∷ 4 ∷ 5 ∷ 12 ∷ 13 ∷ []) (resource_usage some_usage)
    ≡ usage_values some_usage
read_message-resource_usage_example = read_message-resource_usage some_usage (
  omega arith,
  (omega arith, (omega arith, (omega arith, (omega arith, (omega arith, (omega arith, tt)))))),
)
