-- ===== src/Launcher/Options.antt =====
-- The command line of the launcher, from src/main.cpp: `Options`, `ToAbsolute`, `ExpandArguments`,
-- `ParseUint` and `ParseOptions`. The operating system and the C runtime are the record `System`.
pub mod Valid
use mathlib.Core.Option
use bazel_sandbox_windows.Base.{
  ℕ, suc, ◌+◌, ◌%◌, ◌^◌, ◌==◌, ltb, leb, Bool, true, false, not, ◌&&◌, ◌||◌,
}
use bazel_sandbox_windows.Base.{List, [], ◌∷◌, ◌++◌, map, Option, none, some, WString, wide, wcs_eq}
use bazel_sandbox_windows.Base.{length, take, drop, get_or, is_nil, if◌then◌else◌, find_last_of}

-- A result, the message of `Die`, or the usage text of `PrintUsage`; the last two end the process.
pub data Outcome {ℓ} (A : Type ℓ) : Type ℓ where
  done : A → Outcome A
  died : WString → Outcome A
  usage_shown : Outcome A

abbrev pub then_ {ℓ κ} : {A : Type ℓ} {B : Type κ} → Outcome A → (A → Outcome B) → Outcome B
then_ (done a) f = f a
then_ (died message) f = died message
then_ usage_shown f = usage_shown

-- `full_path` is `GetFullPathNameW` and `environment_variable` is `GetEnvironmentVariableW`, each from a
-- text and a buffer's size to the returned length and the buffer; `current_directory` is the text that
-- `GetCurrentDirectoryW` leaves in a buffer of `MAX_PATH`; `read_lines` gives the lines of a file that
-- can be opened; `decimal` is `wcstoul` in base 10; `process_id` is the text of the process's id.
pub record System : Type 0 where
  pub full_path : WString → ℕ → ℕ × WString
  pub environment_variable : WString → ℕ → ℕ × WString
  pub current_directory : WString
  pub read_lines : WString → Option (List WString)
  pub decimal : WString → ℕ
  pub process_id : WString

pub record Options : Type 0 where
  pub working_dir : WString
  pub timeout_secs : ℕ
  pub kill_delay_secs : ℕ
  pub stdout_path : WString
  pub stderr_path : WString
  pub readonly_files : List WString
  pub writable_files : List WString
  pub blocked_files : List WString
  pub debug_path : WString
  pub trace_path : WString
  pub stats_path : WString
  pub network_policy : ℕ
  pub hermetic : Bool
  pub filter_inputs : Bool
  pub write_overlay : Bool
  pub overlay_dir : WString
  pub args : List WString

abbrev pub no_options : Options
no_options = record {
  working_dir = [];
  timeout_secs = 0;
  kill_delay_secs = 0;
  stdout_path = [];
  stderr_path = [];
  readonly_files = [];
  writable_files = [];
  blocked_files = [];
  debug_path = [];
  trace_path = [];
  stats_path = [];
  network_policy = 0;
  hermetic = false;
  filter_inputs = false;
  write_overlay = false;
  overlay_dir = [];
  args = [];
}

abbrev pub separator : WString
separator = wide "--"

-- The `'\r'` that `ExpandArguments` takes off a line.
unfoldable pub strip_return : WString → WString
unfolding find_last_of
strip_return line =
    if not (is_nil line) && get_or (drop (length (drop 1 line)) line) 0 0 == 0x0D
    then take (length (drop 1 line)) line
    else line

module _ (system : System) where
  -- `ToAbsolute`
  unfoldable pub to_absolute : WString → Outcome WString
  to_absolute path =
      let n = (system.full_path path 260).0 in
      let n2 = (system.full_path path n).0 in
      if n == 0
      then died (wide "cannot resolve path: " ++ path)
      else if ltb n 260
      then done (take n (system.full_path path 260).1)
      else done (take n2 (system.full_path path n).1)

  -- `ExpandArguments`
  unfoldable pub expand_arguments : List WString → Outcome (List WString)
  unfolding strip_return wcs_eq
  expand_arguments [] = done []
  expand_arguments (a ∷ args) =
      let rest = expand_arguments args in
      if ltb 1 (length a) && get_or a 0 0 == 0x40
      then elim (system.read_lines (drop 1 a)) [
        | none ↦ died (wide "cannot open response file: " ++ drop 1 a)
        | some lines ↦ then_ rest (λ more. done (map strip_return lines ++ more))
      ]
      else if wcs_eq a separator
      then done (a ∷ args)
      else then_ rest (λ more. done (a ∷ more))

  -- `ParseUint`
  unfoldable pub parse_uint : WString → ℕ
  parse_uint s = system.decimal s % 2 ^ 32

-- What the chain of comparisons in `ParseOptions` makes of an option's name: it has no value, it has
-- one, it shows the usage, or it is none.
pub data Action : Type 0 where
  switch : (Options → Outcome Options) → Action
  with_value : (WString → Options → Outcome Options) → Action
  help : Action
  unknown : Action

unfoldable pub first_action : WString → List (WString × Action) → Action
unfolding wcs_eq
first_action name [] = unknown
first_action name ((entry, action) ∷ actions) =
    if wcs_eq name entry then action else first_action name actions

module _ (system : System) where
  -- An option whose value is a path.
  abbrev pub path_option : (WString → Options → Options) → Action
  path_option set_path =
      with_value (λ value o. then_ (to_absolute system value) (λ path. done (set_path path o)))

  abbrev pub mutually_exclusive : WString
  mutually_exclusive = wide "-N and -n are mutually exclusive"

  -- The chain of comparisons, as the names in its order and what each does.
  unfoldable pub actions : List (WString × Action)
  unfolding to_absolute parse_uint
  actions =
      (wide "h", help)
      ∷ (wide "W", path_option (λ path o. record o { working_dir = path }))
      ∷ (
        wide "T",
        with_value (λ value o. done (record o { timeout_secs = parse_uint system value })),
      )
      ∷ (
        wide "t",
        with_value (λ value o. done (record o { kill_delay_secs = parse_uint system value })),
      )
      ∷ (wide "l", path_option (λ path o. record o { stdout_path = path }))
      ∷ (wide "L", path_option (λ path o. record o { stderr_path = path }))
      ∷ (
        wide "w",
        path_option (λ path o. record o { writable_files = o.writable_files ++ path ∷ [] }),
      )
      ∷ (
        wide "r",
        path_option (λ path o. record o { readonly_files = o.readonly_files ++ path ∷ [] }),
      )
      ∷ (
        wide "b",
        path_option (λ path o. record o { blocked_files = o.blocked_files ++ path ∷ [] }),
      )
      ∷ (
        wide "N",
        switch (λ o.
            if o.network_policy == 2
            then died mutually_exclusive
            else done (record o { network_policy = 1 })),
      )
      ∷ (
        wide "n",
        switch (λ o.
            if o.network_policy == 1
            then died mutually_exclusive
            else done (record o { network_policy = 2 })),
      )
      ∷ (wide "H", switch (λ o. done (record o { hermetic = true })))
      ∷ (wide "-hermetic", switch (λ o. done (record o { hermetic = true })))
      ∷ (
        wide "-filter-inputs",
        switch (λ o. done (record o { filter_inputs = true; hermetic = true })),
      )
      ∷ (wide "-write-overlay", switch (λ o. done (record o { write_overlay = true })))
      ∷ (wide "-overlay-dir", path_option (λ path o. record o { overlay_dir = path }))
      ∷ (wide "D", path_option (λ path o. record o { debug_path = path }))
      ∷ (wide "-trace", path_option (λ path o. record o { trace_path = path }))
      ∷ (wide "S", path_option (λ path o. record o { stats_path = path }))
      ∷ []

  unfoldable pub action_of : WString → Action
  unfolding actions first_action
  action_of name = first_action name actions

  -- The test for an option.
  unfoldable pub is_option : WString → Bool
  is_option arg = ltb 1 (length arg) && (get_or arg 0 0 == 0x2F || get_or arg 0 0 == 0x2D)

  abbrev pub missing_command : WString
  missing_command = wide "command to sandbox not specified (missing --)"

  -- The loop over the arguments: the options and what follows the separator.
  unfoldable pub parse_from : Options → List WString → Outcome (Options × List WString)
  unfolding action_of is_option wcs_eq
  parse_from o [] = died missing_command
  parse_from o (arg ∷ []) =
      if wcs_eq arg separator
      then done (o, [])
      else if is_option arg
      then elim (action_of (drop 1 arg)) [
        | switch change ↦ then_ (change o) (λ next. died missing_command)
        | with_value change ↦ died (wide "missing value for " ++ arg)
        | help ↦ usage_shown
        | unknown ↦ died (wide "unknown option: " ++ arg)
      ]
      else died (wide "unknown argument: " ++ arg)
  parse_from o (arg ∷ value ∷ rest) =
      let behind_arg = λ (next : Options). parse_from next (value ∷ rest) in
      let behind_value = λ (next : Options). parse_from next rest in
      if wcs_eq arg separator
      then done (o, value ∷ rest)
      else if is_option arg
      then elim (action_of (drop 1 arg)) [
        | switch change ↦ then_ (change o) behind_arg
        | with_value change ↦ then_ (change value o) behind_value
        | help ↦ usage_shown
        | unknown ↦ died (wide "unknown option: " ++ arg)
      ]
      else died (wide "unknown argument: " ++ arg)

  -- What `ParseOptions` fills in after the loop.
  unfoldable pub complete : Options → List WString → Options
  complete o command =
      let n = (system.environment_variable (wide "BAZEL_SANDBOX_TRACE") 1024).0 in
      let text = (system.environment_variable (wide "BAZEL_SANDBOX_TRACE") 1024).1 in
      record o {
        args = command;
        working_dir = if is_nil o.working_dir then system.current_directory else o.working_dir;
        trace_path =
            if is_nil o.trace_path && (ltb 0 n && ltb n 1024)
            then take n text ++ (wide "." ++ system.process_id)
            else o.trace_path;
      }

  -- `ParseOptions`
  unfoldable pub parse_options : List WString → Outcome Options
  unfolding expand_arguments parse_from complete
  parse_options args = then_ (expand_arguments system args) (λ expanded.
      then_ (parse_from no_options expanded) (λ (o, command).
        if is_nil command
        then died (wide "no command specified after --")
        else done (complete o command)))
