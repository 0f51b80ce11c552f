-- ===== src/Tests/Overlay.antt =====
-- Runs of the decisions of src/overlay_engine.cpp on a small file system.
use bazel_sandbox_windows.Base.{ℕ, ◌≡◌, refl, Bool, true, false, not, ◌&&◌, ◌==◌, leb, some}
use bazel_sandbox_windows.Base.{WString, wide, [], ◌∷◌, ◌++◌, ◌+◌, if◌then◌else◌, ◌⊎◌, ◌↔◌, bit_and}
use bazel_sandbox_windows.Base.{drop, length, starts_with, trim_end}
use bazel_sandbox_windows.Overlay.Globals.{
  Globals, PolicyResult, should_redirect_to_overlay, text_of,
}
use bazel_sandbox_windows.Overlay.Globals.{overlay_real_file_hidden_by_filter}
use bazel_sandbox_windows.Overlay.Paths.{
  device_prefix, overlay_backing_path, reverse_overlay_final_path,
}
use bazel_sandbox_windows.Overlay.Paths.{
  split_prefix, is_drive_path, in_source_root, is_at_or_under, trim_seps,
}
use bazel_sandbox_windows.Overlay.Paths.RoundTrip.{reverse-overlay_backing_path}
use bazel_sandbox_windows.Overlay.Disk.{overlay_path_exists, overlay_is_directory}
use bazel_sandbox_windows.Overlay.Resolve.{real_wide, create_new, resolve_overlay_open_path}
use bazel_sandbox_windows.Overlay.Resolve.{resolve_overlay_delete, resolve_overlay_rename_dest}
use bazel_sandbox_windows.Overlay.Resolve.{resolve_overlay_probe_path}
use bazel_sandbox_windows.Overlay.Resolve.{pass_through, deny_access}
use bazel_sandbox_windows.Overlay.Resolve.Delete.{InCone, real_is_visible, is_in_view, action}
use bazel_sandbox_windows.Overlay.Resolve.Delete.{resolve_overlay_delete-denied}
use bazel_sandbox_windows.Overlay.Resolve.Delete.{resolve_overlay_delete-gone}
use bazel_sandbox_windows.Overlay.Resolve.Frame.{resolve_overlay_open_path-frame}
use bazel_sandbox_windows.Overlay.Resolve.Frame.{resolve_overlay_rename_dest-frame}
use bazel_sandbox_windows.Overlay.Resolve.Views.{resolve_overlay_open_path-eq-nil}
use bazel_sandbox_windows.Overlay.Resolve.Views.{resolve_overlay_open_path-backing}
use bazel_sandbox_windows.Tests.Disk.{Same, apart_of, Files, disk, disk-IsLocal, lookup}

-- `towlower` on ASCII
abbrev lower : ℕ → ℕ
lower c = if leb 0x41 c && leb c 0x5A then 0x20 + c else c

abbrev globals : Globals
globals = record {
  should_write_overlay = true;
  should_denied_reads_as_not_found = true;
  write_overlay_root = some (wide "D:\\o");
  overlay_source_root = some (wide "C:\\w\\");
}

-- An undeclared file in the redirect cone.
abbrev policy : WString → PolicyResult
policy path = record {
  translated_path = path;
  allow_read = true;
  is_exact_manifest_node = false;
  override_allow_write_for_existing_files = true;
}

abbrev virtual_path : WString
virtual_path = wide "C:\\W\\d\\f"

abbrev real_path : WString
real_path = wide "\\\\?\\C:\\W\\d\\f"

abbrev backing_path : WString
backing_path = wide "\\\\?\\D:\\o\\d\\f"

-- The backing store is empty and the real file is there.
abbrev fresh_files : Files
fresh_files = (wide "\\\\?\\D:\\o", 0x10) ∷ (real_path, 0x20) ∷ []

-- The file was written before.
abbrev written_files : Files
written_files = (backing_path, 0x20) ∷ []

abbrev wants_write : ℕ → Bool
wants_write access = not (bit_and access 0x40000000 == 0)

abbrev generic_write : ℕ
generic_write = 0x40000000

overlay_backing_path_run : overlay_backing_path lower globals virtual_path ≡ backing_path
unfolding overlay_backing_path is_drive_path in_source_root is_at_or_under trim_end
overlay_backing_path_run = refl

reverse_overlay_final_path_run :
    reverse_overlay_final_path lower globals backing_path ≡ some (wide "\\\\?\\C:\\w\\d\\f")
unfolding reverse_overlay_final_path is_at_or_under trim_end split_prefix
reverse_overlay_final_path_run = refl

in_cone : InCone disk lower globals (policy virtual_path)
unfolding should_redirect_to_overlay overlay_backing_path is_drive_path in_source_root
    is_at_or_under trim_end
in_cone = record { cone = refl; mapped = refl }

reverse-overlay_backing_path_example :
    reverse_overlay_final_path lower globals (overlay_backing_path lower globals virtual_path)
    ≡ some (
        device_prefix
        ++ (trim_seps (text_of globals.overlay_source_root)
            ++ drop (length (trim_seps (text_of globals.overlay_source_root))) virtual_path))
unfolding is_drive_path in_source_root is_at_or_under trim_end
reverse-overlay_backing_path_example =
    reverse-overlay_backing_path lower globals virtual_path refl refl refl refl refl

resolve_overlay_open_path-frame_example :
    lookup
      (resolve_overlay_open_path disk lower wants_write globals
        (policy virtual_path)
        generic_write
        3
        fresh_files).1
      real_path
    ≡ lookup fresh_files real_path
unfolding starts_with overlay_backing_path is_drive_path in_source_root is_at_or_under trim_end
resolve_overlay_open_path-frame_example =
    resolve_overlay_open_path-frame disk (Same lower) (disk-IsLocal lower) real_path lower
      wants_write globals (policy virtual_path) generic_write 3 fresh_files
      (apart_of lower real_path _ refl)

resolve_overlay_rename_dest-frame_example :
    lookup
      (resolve_overlay_rename_dest disk lower globals (policy virtual_path) fresh_files).1
      real_path
    ≡ lookup fresh_files real_path
unfolding starts_with overlay_backing_path is_drive_path in_source_root is_at_or_under trim_end
resolve_overlay_rename_dest-frame_example =
    resolve_overlay_rename_dest-frame disk (Same lower) (disk-IsLocal lower) real_path lower globals
      (policy virtual_path) fresh_files (apart_of lower real_path _ refl)

resolve_overlay_open_path-eq-nil_example :
    ((resolve_overlay_open_path disk lower wants_write globals
        (policy virtual_path)
        generic_write
        create_new
        fresh_files).0
      ≡ [])
    ↔ ((overlay_is_directory disk fresh_files (real_wide (policy virtual_path)) ≡ true)
        ⊎ ((create_new ≡ create_new)
            × (overlay_path_exists disk fresh_files
                  (overlay_backing_path lower globals virtual_path)
                ≡ false)
            × (overlay_is_directory disk fresh_files
                  (overlay_backing_path lower globals virtual_path)
                ≡ false)
            × (real_is_visible disk lower globals (policy virtual_path) fresh_files ≡ true)))
resolve_overlay_open_path-eq-nil_example =
    resolve_overlay_open_path-eq-nil disk lower wants_write globals (policy virtual_path)
      generic_write create_new fresh_files in_cone refl

resolve_overlay_open_path-backing_example :
    ((resolve_overlay_open_path disk lower wants_write globals
        (policy virtual_path)
        generic_write
        3
        written_files).0
      ≡ overlay_backing_path lower globals virtual_path)
    × (resolve_overlay_probe_path disk lower globals (policy virtual_path) written_files
        ≡ overlay_backing_path lower globals virtual_path)
unfolding overlay_is_directory overlay_path_exists overlay_backing_path is_drive_path in_source_root
    is_at_or_under trim_end lookup
resolve_overlay_open_path-backing_example =
    resolve_overlay_open_path-backing disk lower wants_write globals (policy virtual_path)
      generic_write 3 written_files in_cone refl refl

resolve_overlay_delete-denied_example :
    ((action disk lower globals (policy virtual_path) fresh_files ≡ deny_access)
      ↔ (real_is_visible disk lower globals (policy virtual_path) fresh_files ≡ true))
    × ((action disk lower globals (policy virtual_path) fresh_files ≡ pass_through) ↔ (
        (overlay_path_exists disk fresh_files (overlay_backing_path lower globals virtual_path)
          ≡ false)
        × (overlay_path_exists disk fresh_files real_path ≡ false)))
resolve_overlay_delete-denied_example =
    resolve_overlay_delete-denied disk lower globals (policy virtual_path) fresh_files in_cone

resolve_overlay_delete-gone_example :
    ((resolve_overlay_delete disk lower globals (policy virtual_path) written_files).1
      ≡ overlay_backing_path lower globals virtual_path)
    × (is_in_view disk lower globals (policy virtual_path) [] ≡ false)
unfolding resolve_overlay_delete overlay_path_exists should_redirect_to_overlay
    overlay_real_file_hidden_by_filter overlay_backing_path is_drive_path in_source_root
    is_at_or_under trim_end lookup
resolve_overlay_delete-gone_example =
    resolve_overlay_delete-gone disk lower globals (policy virtual_path) written_files [] in_cone
      refl refl refl
