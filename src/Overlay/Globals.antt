-- ===== src/Overlay/Globals.antt =====
-- What src/overlay_engine.cpp reads and does not define: the flags and roots that the injected DLL
-- parsed from the manifest, and the observations that it makes of a `PolicyResult`.
use bazel_sandbox_windows.Base.{
  Bool, false, ◌&&◌, not, Option, none, some, WString, is_nil, [], if◌then◌else◌, ◌||◌,
}

-- `ShouldWriteOverlay()`, `ShouldDeniedReadsAsNotFound()`, `g_bazelWriteOverlayRoot` and
-- `g_bazelOverlaySourceRoot`; `none` is a null pointer.
pub record Globals : Type 0 where
  pub should_write_overlay : Bool
  pub should_denied_reads_as_not_found : Bool
  pub write_overlay_root : Option WString
  pub overlay_source_root : Option WString

-- `p != nullptr && p[0] != L'\0'`
abbrev pub is_set : Option WString → Bool
is_set none = false
is_set (some s) = not (is_nil s)

abbrev pub text_of : Option WString → WString
text_of none = []
text_of (some s) = s

-- The answers of a `PolicyResult` of the vendored engine.
pub record PolicyResult : Type 0 where
  pub translated_path : WString
  pub allow_read : Bool
  pub is_exact_manifest_node : Bool
  pub override_allow_write_for_existing_files : Bool

-- `ShouldRedirectToOverlay`
unfoldable pub should_redirect_to_overlay : Globals → PolicyResult → Bool
should_redirect_to_overlay g pr =
    g.should_write_overlay
    && is_set g.write_overlay_root
    && pr.override_allow_write_for_existing_files

-- `OverlayRealFileHiddenByFilter`
unfoldable pub overlay_real_file_hidden_by_filter : Globals → PolicyResult → Bool
overlay_real_file_hidden_by_filter g pr =
    if g.should_denied_reads_as_not_found
    then not (pr.allow_read || pr.is_exact_manifest_node)
    else false
