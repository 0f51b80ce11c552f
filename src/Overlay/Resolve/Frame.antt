-- ===== src/Overlay/Resolve/Frame.antt =====
-- What src/overlay_engine.cpp leaves as it is on the disk when it resolves a path: other files than the
-- backing path and what its beginnings name.
use bazel_sandbox_windows.Base.{ℕ, ◌≡◌, refl, ◌∙◌, Bool, ◌&&◌, arith}
use bazel_sandbox_windows.Base.{WString, if◌then◌else◌, Bool-cases, inl, inr, [], ◌∷◌, ◌++◌}
use bazel_sandbox_windows.Base.{append_assoc, append-nil, starts_with, length, ltb}
use bazel_sandbox_windows.Base.{take, drop, take-append-drop}
use bazel_sandbox_windows.Overlay.Globals.{Globals, PolicyResult}
use bazel_sandbox_windows.Overlay.Paths.{overlay_backing_path, is_backslash, device_prefix}
use bazel_sandbox_windows.Overlay.Disk.{Disk, IsLocal}
use bazel_sandbox_windows.Overlay.Resolve.{ensure_dirs, ensure_backing_parent_dirs, open_for_write}
use bazel_sandbox_windows.Overlay.Resolve.{resolve_overlay_open_path, real_wide}
use bazel_sandbox_windows.Overlay.Resolve.{resolve_overlay_rename_dest}

module _ (D : Disk) (Same : WString → WString → Type 0) (L : IsLocal D Same) (q : WString) where
  ensure_dirs-frame :
      (start : ℕ) (before rest : WString) (s : D.State)
      → ((p more : WString) → p ++ more ≡ before ++ rest → ¬ Same p q)
      → D.entry_at (ensure_dirs D start before rest s) q ≡ D.entry_at s q
  unfolding ensure_dirs
  ensure_dirs-frame start before [] s h = refl
  ensure_dirs-frame start before (c ∷ rest) s h =
      let apart : (p more : WString) → p ++ more ≡ (before ++ c ∷ []) ++ rest → ¬ Same p q =
        λ p more e. h p more (e ∙ append_assoc before (c ∷ []) rest) in
      elim (Bool-cases (is_backslash c && ltb start (length before))) [
        | inl e ↦ rw e (
            ensure_dirs-frame start (before ++ c ∷ []) rest (D.create_directory s before) apart
            ∙ L.create_directory_ne s before q (h before (c ∷ rest) refl))
        | inr e ↦ rw e (ensure_dirs-frame start (before ++ c ∷ []) rest s apart)
      ]

  ensure_backing_parent_dirs-frame :
      (path : WString) (s : D.State)
      → ((p more : WString) → p ++ more ≡ path → ¬ Same p q)
      → D.entry_at (ensure_backing_parent_dirs D path s) q ≡ D.entry_at s q
  unfolding ensure_backing_parent_dirs
  ensure_backing_parent_dirs-frame path s h =
      let start : ℕ = if starts_with device_prefix path then 4 else 0 in
      ensure_dirs-frame start (take start path) (drop start path) s
        (λ p more e. h p more (e ∙ take-append-drop start path))

  open_for_write-frame :
      (fold : ℕ → ℕ) (g : Globals) (pr : PolicyResult) (disposition : ℕ) (s : D.State)
      → ((p more : WString)
          → p ++ more ≡ overlay_backing_path fold g pr.translated_path
          → ¬ Same p q)
      → D.entry_at (open_for_write D fold g pr disposition s).1 q ≡ D.entry_at s q
  unfolding open_for_write
  open_for_write-frame fold g pr disposition s h =
      let backing = overlay_backing_path fold g pr.translated_path in
      let made = ensure_backing_parent_dirs D backing s in
      let frame = ensure_backing_parent_dirs-frame backing s h in
      let copied =
        L.copy_file_ne made (real_wide pr) backing q (h backing [] (append-nil backing)) in
      ground (arith, frame, copied)

  -- If a writing call leaves the paths alone that name other files than its own path, an open that is
  -- resolved changes nothing at a path that names another file than the backing path and than each
  -- beginning of it.
  pub resolve_overlay_open_path-frame :
      (fold : ℕ → ℕ) (wants_write : ℕ → Bool) (g : Globals) (pr : PolicyResult)
      (access disposition : ℕ) (s : D.State)
      → ((p more : WString)
          → p ++ more ≡ overlay_backing_path fold g pr.translated_path
          → ¬ Same p q)
      → D.entry_at (resolve_overlay_open_path D fold wants_write g pr access disposition s).1 q
        ≡ D.entry_at s q
  unfolding resolve_overlay_open_path
  resolve_overlay_open_path-frame fold wants_write g pr access disposition s h =
      ground (arith, open_for_write-frame fold g pr disposition s h)

  -- If a writing call leaves the paths alone that name other files than its own path, the resolution of a
  -- rename's destination changes nothing at a path that names another file than the backing path and than
  -- each beginning of it.
  pub resolve_overlay_rename_dest-frame :
      (fold : ℕ → ℕ) (g : Globals) (pr : PolicyResult) (s : D.State)
      → ((p more : WString)
          → p ++ more ≡ overlay_backing_path fold g pr.translated_path
          → ¬ Same p q)
      → D.entry_at (resolve_overlay_rename_dest D fold g pr s).1 q ≡ D.entry_at s q
  unfolding resolve_overlay_rename_dest
  resolve_overlay_rename_dest-frame fold g pr s h =
      ground (
        arith,
        ensure_backing_parent_dirs-frame (overlay_backing_path fold g pr.translated_path) s h,
      )
