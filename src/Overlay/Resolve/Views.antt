-- ===== src/Overlay/Resolve/Views.antt =====
-- What `ResolveOverlayOpenPath` of src/overlay_engine.cpp promises a tool: when a write stays on the real
-- path, and that opens and probes agree on a path in the backing store.
use bazel_sandbox_windows.Base.{ℕ, ◌≡◌, ◌≢◌, Bool, true, false, arith}
use bazel_sandbox_windows.Base.{WString, is_nil, [], ◌⊎◌, ◌↔◌}
use bazel_sandbox_windows.Overlay.Globals.{Globals, PolicyResult}
use bazel_sandbox_windows.Overlay.Paths.{overlay_backing_path}
use bazel_sandbox_windows.Overlay.Disk.{Disk, overlay_path_exists, overlay_is_directory}
use bazel_sandbox_windows.Overlay.Resolve.{open_for_write, open_for_read}
use bazel_sandbox_windows.Overlay.Resolve.{resolve_overlay_open_path, resolve_overlay_probe_path}
use bazel_sandbox_windows.Overlay.Resolve.{real_wide, create_new}
use bazel_sandbox_windows.Overlay.Resolve.Delete.{real_is_visible, InCone}

module _ (D : Disk) (fold : ℕ → ℕ) (wants_write : ℕ → Bool) (g : Globals) (pr : PolicyResult) where
  abbrev backing : WString
  backing = overlay_backing_path fold g pr.translated_path

  -- A write to a path in the redirect cone that has a backing path is left on the real path exactly if
  -- that is a directory, or for a CREATE_NEW of a file that is there, that the input filter does not
  -- hide, and that has no entry in the backing store.
  pub resolve_overlay_open_path-eq-nil :
      (access disposition : ℕ) (s : D.State)
      → InCone D fold g pr
      → wants_write access ≡ true
      → ((resolve_overlay_open_path D fold wants_write g pr access disposition s).0 ≡ []) ↔ (
          (overlay_is_directory D s (real_wide pr) ≡ true)
          ⊎ ((disposition ≡ create_new)
              × (overlay_path_exists D s backing ≡ false)
              × (overlay_is_directory D s backing ≡ false)
              × (real_is_visible D fold g pr s ≡ true)))
  unfolding resolve_overlay_open_path open_for_write
  resolve_overlay_open_path-eq-nil access disposition s c w =
      ground (arith, nil_of backing c.mapped)
    where
      nil_of : (b : WString) → is_nil b ≡ false → b ≢ []
      nil_of b h e = let bad : true ≡ false = rw e at h in cc

  -- For a path in the redirect cone that has an entry in the backing store and no real directory, every
  -- open, for reading or for writing and with every disposition, and every probe get the backing path.
  pub resolve_overlay_open_path-backing :
      (access disposition : ℕ) (s : D.State)
      → InCone D fold g pr
      → overlay_path_exists D s backing ≡ true
      → overlay_is_directory D s (real_wide pr) ≡ false
      → ((resolve_overlay_open_path D fold wants_write g pr access disposition s).0 ≡ backing)
        × (resolve_overlay_probe_path D fold g pr s ≡ backing)
  unfolding resolve_overlay_open_path open_for_write open_for_read resolve_overlay_probe_path
  resolve_overlay_open_path-backing access disposition s c e d = ground arith
