-- ===== src/Launcher/Quoting.antt =====
-- The command line of the child, from src/main.cpp: `EscapeArg`, `IsCmdExe` and
-- `BuildChildCommandLine`. `towlower` is the parameter `lower`.
pub mod RoundTrip
use mathlib.Core.Option
use bazel_sandbox_windows.Base.{ℕ, zero, suc, ◌+◌, ◌*◌, ◌==◌, ◌||◌, Bool, true, false, not, ◌&&◌}
use bazel_sandbox_windows.Base.{List, [], ◌∷◌, ◌++◌, Option, none, some, WString, wide, wcs_eq, map}
use bazel_sandbox_windows.Base.{replicate, drop, is_nil, find_last_of, if◌then◌else◌}

abbrev pub back : ℕ
back = 0x5C

abbrev pub quote : ℕ
quote = 0x22

abbrev pub blank : ℕ
blank = 0x20

-- A character that makes `EscapeArg` quote its argument.
unfoldable pub needs_quotes : ℕ → Bool
needs_quotes c = c == 0x20 || c == 0x09 || c == 0x0A || c == 0x0B || c == quote

unfoldable pub any_needs_quotes : WString → Bool
unfolding needs_quotes
any_needs_quotes [] = false
any_needs_quotes (c ∷ s) = if needs_quotes c then true else any_needs_quotes s

-- The loop of `EscapeArg` after `backslashes` backslashes that it has counted and not written.
unfoldable pub escape_from : ℕ → WString → WString
escape_from backslashes [] = replicate (backslashes * 2) back
escape_from backslashes (c ∷ s) =
    let counted = escape_from (suc backslashes) s in
    let rest = escape_from 0 s in
    if c == back
    then counted
    else if c == quote
    then replicate (backslashes * 2 + 1) back ++ quote ∷ rest
    else replicate backslashes back ++ c ∷ rest

-- `EscapeArg`: what it appends
unfoldable pub escape_arg : WString → WString
unfolding any_needs_quotes escape_from
escape_arg s =
    if is_nil s
    then quote ∷ quote ∷ []
    else if any_needs_quotes s
    then quote ∷ (escape_from 0 s ++ quote ∷ [])
    else s

-- `IsCmdExe`
unfoldable pub is_cmd_exe : (ℕ → ℕ) → WString → Bool
unfolding find_last_of wcs_eq
is_cmd_exe lower tool_path =
    let base : WString = elim (find_last_of (λ c. c == back || c == 0x2F) tool_path) [
      | none ↦ tool_path
      | some slash ↦ drop (suc slash) tool_path
    ] in
    wcs_eq (map lower base) (wide "cmd.exe")

-- The loop of `BuildChildCommandLine` from its second round on.
unfoldable pub append_args : Bool → List WString → WString
unfolding escape_arg
append_args is_cmd [] = []
append_args is_cmd (a ∷ args) =
    blank ∷ ((if is_cmd then a else escape_arg a) ++ append_args is_cmd args)

-- `BuildChildCommandLine`
unfoldable pub build_child_command_line : (ℕ → ℕ) → List WString → WString
unfolding append_args is_cmd_exe escape_arg
build_child_command_line lower [] = []
build_child_command_line lower (tool ∷ args) =
    escape_arg tool ++ append_args (is_cmd_exe lower tool) args
