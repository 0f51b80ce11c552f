-- ===== src/Overlay/Resolve.antt =====
-- The decisions of src/overlay_engine.cpp: which path a hook hands to the real call, and what it does
-- to the backing store first.
pub mod Delete
pub mod Frame
pub mod Views
use bazel_sandbox_windows.Base.{
  ℕ, ◌==◌, ltb, leb, Bool, true, false, ◌&&◌, ◌||◌, not, List, [], ◌∷◌, ◌++◌,
}
use bazel_sandbox_windows.Base.{
  Option, none, some, WString, length, take, drop, is_nil, starts_with,
}
use bazel_sandbox_windows.Base.{find_last_of, if◌then◌else◌}
use bazel_sandbox_windows.Overlay.Globals.{Globals, PolicyResult, is_set, text_of}
use bazel_sandbox_windows.Overlay.Globals.{
  should_redirect_to_overlay, overlay_real_file_hidden_by_filter,
}
use bazel_sandbox_windows.Overlay.Paths.{
  backslash, device_prefix, nt_prefix, is_backslash, trim_seps,
}
use bazel_sandbox_windows.Overlay.Paths.{is_drive_path, is_at_or_under, overlay_backing_path}
use bazel_sandbox_windows.Overlay.Paths.{reverse_overlay_final_path, plain_overlay_child_path}
use bazel_sandbox_windows.Overlay.Disk.{Disk, overlay_path_exists, overlay_is_directory}

-- The creation dispositions of Win32.
abbrev pub create_new : ℕ
create_new = 1

abbrev pub create_always : ℕ
create_always = 2

abbrev pub open_existing : ℕ
open_existing = 3

abbrev pub truncate_existing : ℕ
truncate_existing = 5

abbrev pub generic_read : ℕ
generic_read = 0x80000000

pub data OverlayDeleteAction : Type 0 where
  pass_through redirect_to_backing deny_access not_found : OverlayDeleteAction

abbrev pub real_wide : PolicyResult → WString
real_wide pr = device_prefix ++ pr.translated_path

module _ (D : Disk) where
  -- The loop of `EnsureBackingParentDirs`, from `i = start` on: `before` is what stands left of `i`.
  unfoldable pub ensure_dirs : ℕ → WString → WString → D.State → D.State
  ensure_dirs start before [] s = s
  ensure_dirs start before (c ∷ rest) s =
      ensure_dirs start (before ++ c ∷ []) rest
        (if is_backslash c && ltb start (length before) then D.create_directory s before else s)

  -- `EnsureBackingParentDirs`
  unfoldable pub ensure_backing_parent_dirs : WString → D.State → D.State
  unfolding ensure_dirs starts_with
  ensure_backing_parent_dirs path s =
      let start = if starts_with device_prefix path then 4 else 0 in
      ensure_dirs start (take start path) (drop start path) s

module _ (D : Disk) (fold : ℕ → ℕ) where
  -- `OverlayBackingExists`
  unfoldable pub overlay_backing_exists : Globals → WString → D.State → Bool
  overlay_backing_exists g path s =
      let backing = overlay_backing_path fold g path in
      if g.should_write_overlay && is_set g.write_overlay_root
      then not (is_nil backing) && overlay_path_exists D s backing
      else false

  -- The branch of `ResolveOverlayOpenPath` for a write.
  unfoldable pub open_for_write : Globals → PolicyResult → ℕ → D.State → WString × D.State
  open_for_write g pr disposition s =
      let backing = overlay_backing_path fold g pr.translated_path in
      let backing_exists = overlay_path_exists D s backing in
      let made = ensure_backing_parent_dirs D backing s in
      if (disposition == create_new && not backing_exists)
        && (overlay_path_exists D s (real_wide pr) && not (overlay_real_file_hidden_by_filter g pr))
      then ([], s)
      else if (not backing_exists && not (disposition == create_always))
          && (not (disposition == truncate_existing) && not (disposition == create_new))
          && overlay_path_exists D made (real_wide pr)
      then (backing, D.copy_file made (real_wide pr) backing)
      else (backing, made)

  -- The parent of the virtual path stands in the backing store only.
  unfoldable pub has_overlay_only_parent : Globals → PolicyResult → D.State → Bool
  has_overlay_only_parent g pr s = elim (find_last_of is_backslash pr.translated_path) [
    | none ↦ false
    | some vsep ↦
        let backing = overlay_backing_path fold g pr.translated_path in
        elim (find_last_of is_backslash backing) [
          | none ↦ false
          | some bsep ↦
              not (overlay_path_exists D s (device_prefix ++ take vsep pr.translated_path))
              && overlay_is_directory D s (take bsep backing)
        ]
  ]

  -- The branch of `ResolveOverlayOpenPath` for a read.
  unfoldable pub open_for_read : Globals → PolicyResult → D.State → WString
  open_for_read g pr s =
      let backing = overlay_backing_path fold g pr.translated_path in
      if overlay_path_exists D s backing
      then backing
      else if has_overlay_only_parent g pr s
      then backing
      else []

  -- `ResolveOverlayOpenPath`: the path to open instead, empty for the virtual path itself.
  -- `wants_write` is `WantsWriteAccess` of the vendored engine.
  unfoldable pub resolve_overlay_open_path :
      (ℕ → Bool) → Globals → PolicyResult → ℕ → ℕ → D.State → WString × D.State
  resolve_overlay_open_path wants_write g pr access disposition s =
      let backing = overlay_backing_path fold g pr.translated_path in
      if not (should_redirect_to_overlay g pr)
      then ([], s)
      else if is_nil backing
      then ([], s)
      else if overlay_is_directory D s (real_wide pr)
      then ([], s)
      else if overlay_is_directory D s backing
      then (backing, s)
      else if wants_write access
      then open_for_write g pr disposition s
      else (open_for_read g pr s, s)

  -- `ResolveOverlayDelete`: the action, and the backing path for a redirect
  unfoldable pub resolve_overlay_delete :
      Globals → PolicyResult → D.State → OverlayDeleteAction × WString
  resolve_overlay_delete g pr s =
      let backing = overlay_backing_path fold g pr.translated_path in
      let backing_exists = overlay_path_exists D s backing in
      let real_exists = overlay_path_exists D s (real_wide pr) in
      let hidden = overlay_real_file_hidden_by_filter g pr in
      if not (should_redirect_to_overlay g pr)
      then (pass_through, [])
      else if is_nil backing
      then (pass_through, [])
      else if backing_exists
      then (if real_exists && not hidden then (deny_access, []) else (redirect_to_backing, backing))
      else if real_exists
      then (if hidden then not_found else deny_access, [])
      else (pass_through, [])

  -- `ResolveOverlayRenameDest`
  unfoldable pub resolve_overlay_rename_dest : Globals → PolicyResult → D.State → WString × D.State
  resolve_overlay_rename_dest g pr s =
      let backing = overlay_backing_path fold g pr.translated_path in
      if not (should_redirect_to_overlay g pr)
      then ([], s)
      else if is_nil backing
      then ([], s)
      else (backing, ensure_backing_parent_dirs D backing s)

  -- `ResolveOverlayProbePath`
  unfoldable pub resolve_overlay_probe_path : Globals → PolicyResult → D.State → WString
  resolve_overlay_probe_path g pr s =
      let backing = overlay_backing_path fold g pr.translated_path in
      if not (should_redirect_to_overlay g pr)
      then []
      else if is_nil backing || not (overlay_path_exists D s backing)
      then []
      else backing

  -- `ReverseMapOverlayBackingOpen`; `none` where it returns false
  unfoldable pub reverse_map_overlay_backing_open : Globals → WString → D.State → Option WString
  reverse_map_overlay_backing_open g incoming s =
      let check_path =
        if starts_with nt_prefix incoming then device_prefix ++ drop 4 incoming else incoming in
      if is_nil incoming then none else elim (reverse_overlay_final_path fold g incoming) [
        | none ↦ none
        | some virtual_path ↦
            let plain =
              if starts_with device_prefix virtual_path || starts_with nt_prefix virtual_path
              then drop 4 virtual_path
              else virtual_path in
            if overlay_path_exists D s check_path
            then none
            else if is_drive_path plain
            then some (nt_prefix ++ plain)
            else none
      ]

  -- `ReverseMapWin32Path`; `full_path` is `GetFullPathNameW`: from a path and a buffer's size the
  -- returned length and the buffer.
  unfoldable pub reverse_map_win32_path :
      (WString → ℕ → ℕ × WString) → Globals → WString → D.State → Option WString
  reverse_map_win32_path full_path g file_name s =
      let need = (full_path file_name 0).0 in
      let got = (full_path file_name need).0 in
      let absolute = take got (full_path file_name need).1 in
      if not (g.should_write_overlay && is_set g.write_overlay_root && is_set g.overlay_source_root)
        || is_nil file_name
      then none
      else if starts_with (backslash ∷ backslash ∷ []) file_name
          || starts_with (backslash ∷ 0x3F ∷ []) file_name
      then none
      else if need == 0 || (got == 0 || leb need got)
      then none
      else elim (reverse_overlay_final_path fold g absolute) [
        | none ↦ none
        | some virtual_path ↦ if overlay_path_exists D s absolute then none else some virtual_path
      ]

-- `InheritedOverlayWorkingDirectory`; `current_directory` is `GetCurrentDirectoryW`: from a buffer's
-- size the returned length and the buffer.
unfoldable pub inherited_overlay_working_directory : (ℕ → ℕ) → (ℕ → ℕ × WString) → Globals → WString
inherited_overlay_working_directory fold current_directory g =
    let len = (current_directory 0).0 in
    let got = (current_directory len).0 in
    let cwd = take got (current_directory len).1 in
    let probe = if starts_with device_prefix cwd then drop 4 cwd else cwd in
    let root = trim_seps (text_of g.write_overlay_root) in
    if not (is_set g.write_overlay_root)
    then []
    else if len == 0
    then []
    else if got == 0 || leb len got
    then []
    else if not (is_nil root) && is_at_or_under fold probe root
    then plain_overlay_child_path cwd
    else []

-- `ResolveOverlayWorkingDirectory`; `initialize` is `PolicyResult::Initialize` of the vendored engine,
-- and the empty text also stands for a null pointer.
unfoldable pub resolve_overlay_working_directory :
    (D : Disk)
    → (ℕ → ℕ)
    → (ℕ → Bool)
    → (ℕ → ℕ × WString)
    → (WString → Option PolicyResult)
    → Globals
    → WString
    → D.State
    → WString × D.State
resolve_overlay_working_directory D fold wants_write current_directory initialize g dir s =
    if not g.should_write_overlay
    then ([], s)
    else if is_nil dir
    then (inherited_overlay_working_directory fold current_directory g, s)
    else elim (initialize dir) [
      | none ↦ ([], s)
      | some policy ↦
          let (backing, t) =
            resolve_overlay_open_path D fold wants_write g policy generic_read open_existing s in
          (if is_nil backing then [] else plain_overlay_child_path backing, t)
    ]
