-- ===== src/Overlay/Resolve/Delete.antt =====
-- What `ResolveOverlayDelete` of src/overlay_engine.cpp does to the view that a tool has: a path is
-- there if it stands in the backing store or if the real file is visible.
use bazel_sandbox_windows.Base.{ℕ, ◌≡◌, Bool, true, false, ◌&&◌, ◌||◌, not, arith}
use bazel_sandbox_windows.Base.{is_nil, ◌⊎◌, ◌↔◌}
use bazel_sandbox_windows.Overlay.Globals.{Globals, PolicyResult, should_redirect_to_overlay}
use bazel_sandbox_windows.Overlay.Globals.{overlay_real_file_hidden_by_filter}
use bazel_sandbox_windows.Overlay.Paths.{overlay_backing_path}
use bazel_sandbox_windows.Overlay.Disk.{Disk, overlay_path_exists}
use bazel_sandbox_windows.Overlay.Resolve.{OverlayDeleteAction, pass_through, redirect_to_backing}
use bazel_sandbox_windows.Overlay.Resolve.{
  deny_access, not_found, real_wide, resolve_overlay_delete,
}

module _ (D : Disk) (fold : ℕ → ℕ) (g : Globals) (pr : PolicyResult) where
  -- The real file is there and the input filter does not hide it.
  abbrev pub real_is_visible : D.State → Bool
  real_is_visible s =
      overlay_path_exists D s (real_wide pr) && not (overlay_real_file_hidden_by_filter g pr)

  -- The path exists in the merged view.
  abbrev pub is_in_view : D.State → Bool
  is_in_view s =
      overlay_path_exists D s (overlay_backing_path fold g pr.translated_path) || real_is_visible s

  abbrev pub action : D.State → OverlayDeleteAction
  action s = (resolve_overlay_delete D fold g pr s).0

  -- The path is in the redirect cone and has a place in the backing store.
  pub record InCone : Type 0 where
    pub cone : should_redirect_to_overlay g pr ≡ true
    pub mapped : is_nil (overlay_backing_path fold g pr.translated_path) ≡ false

  -- For a path in the redirect cone that has a backing path, a delete is denied exactly if the real
  -- file is there and the input filter does not hide it, and it is passed on to the real path exactly
  -- if neither a backing entry nor a real file is there.
  pub resolve_overlay_delete-denied :
      (s : D.State)
      → InCone
      → ((action s ≡ deny_access) ↔ (real_is_visible s ≡ true))
        × ((action s ≡ pass_through) ↔ (
            (overlay_path_exists D s (overlay_backing_path fold g pr.translated_path) ≡ false)
            × (overlay_path_exists D s (real_wide pr) ≡ false)))
  unfolding resolve_overlay_delete
  resolve_overlay_delete-denied s c = ground (arith, c.cone, c.mapped)

  -- A delete in the redirect cone that is answered by NOT_FOUND or passed on to the real path is of a
  -- path that the merged view does not have.
  pub resolve_overlay_delete-absent :
      (s : D.State)
      → InCone
      → (action s ≡ not_found) ⊎ (action s ≡ pass_through)
      → is_in_view s ≡ false
  unfolding resolve_overlay_delete
  resolve_overlay_delete-absent s c h = ground (arith, c.cone, c.mapped)

  -- A delete that is redirected names the backing path, and in every later state in which that path is
  -- gone and the real path exists or not as before, the merged view does not have the path.
  pub resolve_overlay_delete-gone :
      (s t : D.State)
      → InCone
      → action s ≡ redirect_to_backing
      → overlay_path_exists D t (overlay_backing_path fold g pr.translated_path) ≡ false
      → overlay_path_exists D t (real_wide pr) ≡ overlay_path_exists D s (real_wide pr)
      → ((resolve_overlay_delete D fold g pr s).1 ≡ overlay_backing_path fold g pr.translated_path)
        × (is_in_view t ≡ false)
  unfolding resolve_overlay_delete
  resolve_overlay_delete-gone s t c h b r = ground (arith, c.cone, c.mapped)
