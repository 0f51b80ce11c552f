-- ===== src/Overlay/Paths.antt =====
-- The path maps of src/overlay_engine.cpp: from a virtual path to its place in the backing store and
-- back. The case folding of `_wcsnicmp` belongs to the C runtime and is the parameter `fold`.
pub mod RoundTrip
use mathlib.Core.Option
use bazel_sandbox_windows.Base.{
  ℕ, zero, suc, ◌==◌, ltb, leb, Bool, true, false, ◌&&◌, ◌||◌, not, List, [],
}
use bazel_sandbox_windows.Base.{
  ◌∷◌, ◌++◌, Option, none, some, WString, wide, length, get_or, take, drop,
}
use bazel_sandbox_windows.Base.{is_nil, starts_with, trim_end, if◌then◌else◌}
use bazel_sandbox_windows.Overlay.Globals.{Globals, is_set, text_of}

abbrev pub backslash : ℕ
backslash = 0x5C

-- `\\?\`
abbrev pub device_prefix : WString
device_prefix = backslash ∷ backslash ∷ 0x3F ∷ backslash ∷ []

-- `\??\`
abbrev pub nt_prefix : WString
nt_prefix = backslash ∷ 0x3F ∷ 0x3F ∷ backslash ∷ []

abbrev pub max_path : ℕ
max_path = 260

abbrev pub is_backslash : ℕ → Bool
is_backslash c = c == backslash

-- `while (!s.empty() && s.back() == L'\\') s.pop_back();`
abbrev pub trim_seps : WString → WString
trim_seps s = trim_end is_backslash s

-- `virtualPath.size() < 3 || virtualPath[1] != L':'`, denied
unfoldable pub is_drive_path : WString → Bool
is_drive_path path = leb 3 (length path) && get_or path 1 0 == 0x3A

-- `prefix` and `body` of `ReverseOverlayFinalPath`
unfoldable pub split_prefix : WString → WString × WString
unfolding starts_with
split_prefix path =
    if starts_with device_prefix path
    then (device_prefix, drop 4 path)
    else if starts_with nt_prefix path
    then (nt_prefix, drop 4 path)
    else ([], path)

module _ (fold : ℕ → ℕ) where
  -- `_wcsnicmp(a, b, n) == 0`
  unfoldable pub wcsnicmp_eq : ℕ → WString → WString → Bool
  wcsnicmp_eq zero a b = true
  wcsnicmp_eq (suc n) [] [] = true
  wcsnicmp_eq (suc n) [] (y ∷ b) = false
  wcsnicmp_eq (suc n) (x ∷ a) [] = false
  wcsnicmp_eq (suc n) (x ∷ a) (y ∷ b) = fold x == fold y && wcsnicmp_eq n a b

  -- The path is the root or stands below it, at a boundary of a path segment.
  unfoldable pub is_at_or_under : WString → WString → Bool
  unfolding wcsnicmp_eq
  is_at_or_under path root =
      leb (length root) (length path)
      && wcsnicmp_eq (length root) path root
      && (length path == length root || get_or path (length root) 0 == backslash)

  -- `prefixMatch` of `OverlayBackingPath`, with the test that there is a source root
  unfoldable pub in_source_root : Globals → WString → Bool
  in_source_root g path =
      is_set g.overlay_source_root
      && is_at_or_under path (trim_seps (text_of g.overlay_source_root))

  -- `OverlayBackingPath`; the empty text where the path is no drive-letter path
  unfoldable pub overlay_backing_path : Globals → WString → WString
  overlay_backing_path g virtual_path =
      let root = text_of g.write_overlay_root in
      let rest = drop (length (trim_seps (text_of g.overlay_source_root))) virtual_path in
      let joint =
        if is_nil rest || is_backslash (get_or rest 0 0) then rest else backslash ∷ rest in
      if not (is_drive_path virtual_path)
      then []
      else if in_source_root g virtual_path
      then device_prefix ++ (root ++ joint)
      else device_prefix ++ (root ++ backslash ∷ get_or virtual_path 0 0 ∷ drop 2 virtual_path)

  -- `ReverseOverlayFinalPath`; `none` where it returns false
  unfoldable pub reverse_overlay_final_path : Globals → WString → Option WString
  reverse_overlay_final_path g final_path =
      let (prefix, body) = split_prefix final_path in
      let root = trim_seps (text_of g.write_overlay_root) in
      let source = trim_seps (text_of g.overlay_source_root) in
      if not (g.should_write_overlay && is_set g.write_overlay_root && is_set g.overlay_source_root)
      then none
      else if is_at_or_under body root
      then some (prefix ++ (source ++ drop (length root) body))
      else none

-- `PlainOverlayChildPath`
unfoldable pub plain_overlay_child_path : WString → WString
unfolding starts_with
plain_overlay_child_path backing =
    if not (starts_with device_prefix backing)
    then backing
    else if leb max_path (length (drop 4 backing))
    then backing
    else drop 4 backing

-- `JoinDirAndName`
unfoldable pub join_dir_and_name : WString → WString → WString
unfolding trim_end
join_dir_and_name dir name = trim_end (λ c. c == backslash || c == 0x2F) dir ++ backslash ∷ name
