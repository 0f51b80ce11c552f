-- ===== src/Manifest/Canonical.antt =====
-- `CanonicalizeForTree` of src/manifest_builder.cpp. `GetFullPathNameW` is the parameter `full_path`:
-- from a path and a buffer's size it gives the returned length and what it wrote to the buffer.
use mathlib.Core.Option
use bazel_sandbox_windows.Base.{ℕ, ◌==◌, ◌&&◌, ◌||◌, leb, ltb, Bool, Option, none, some}
use bazel_sandbox_windows.Base.{WString, length, get_or, take, drop, is_nil, if◌then◌else◌}
use bazel_sandbox_windows.Base.{wide, starts_with}

abbrev pub max_path : ℕ
max_path = 260

-- `\\?\`, `\??\` or `\\.\`, as the test of the first four characters has it
unfoldable pub has_type_prefix : WString → Bool
has_type_prefix path =
    leb 4 (length path)
    && get_or path 0 0 == 0x5C
    && (get_or path 1 0 == 0x5C || get_or path 1 0 == 0x3F)
    && (get_or path 2 0 == 0x3F || get_or path 2 0 == 0x2E)
    && get_or path 3 0 == 0x5C

-- The strip of a local-device prefix `\\.\`, which ends the function.
unfoldable pub strip_device_prefix : WString → WString
unfolding starts_with
strip_device_prefix out = if starts_with (wide "\\\\.\\") out then drop 4 out else out

module _ (full_path : WString → ℕ → ℕ × WString) where
  -- The two calls: with a fixed buffer, and with one of the length that the first call asked for.
  unfoldable pub full_path_name : WString → Option WString
  full_path_name path =
      let n = (full_path path max_path).0 in
      let n2 = (full_path path n).0 in
      if n == 0
      then none
      else if ltb n max_path
      then some (take n (full_path path max_path).1)
      else if n2 == 0 || leb n n2
      then none
      else some (take n2 (full_path path n).1)

  -- `CanonicalizeForTree`: `none` where the code returns false
  unfoldable pub canonicalize_for_tree : WString → Option WString
  unfolding has_type_prefix full_path_name strip_device_prefix
  canonicalize_for_tree path =
      if has_type_prefix path
      then (if is_nil (drop 4 path) then none else some (drop 4 path))
      else Option.map strip_device_prefix (full_path_name path)
