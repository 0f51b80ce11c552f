-- ===== src/Overlay/Paths/RoundTrip.antt =====
-- The two path maps of src/overlay_engine.cpp undo each other, and every path into the backing store
-- stands in it.
use bazel_sandbox_windows.Base.{ℕ, zero, suc, ◌≡◌, refl, sym, ap, ◌∙◌, ◌==◌, leb, Bool}
use bazel_sandbox_windows.Base.{true, ◌&&◌, ◌||◌, [], ◌∷◌, ◌++◌, some, arith}
use bazel_sandbox_windows.Base.{WString, length, get_or, drop, is_nil, starts_with}
use bazel_sandbox_windows.Base.{&&_cases, Bool-cases, inl, inr, length-append, ==_refl}
use bazel_sandbox_windows.Base.{drop-append, ==_iff}
use bazel_sandbox_windows.Overlay.Globals.{Globals, is_set, text_of}
use bazel_sandbox_windows.Overlay.Paths.{
  backslash, device_prefix, is_backslash, trim_seps, is_drive_path,
}
use bazel_sandbox_windows.Overlay.Paths.{wcsnicmp_eq, is_at_or_under, in_source_root, split_prefix}
use bazel_sandbox_windows.Overlay.Paths.{overlay_backing_path, reverse_overlay_final_path}

get_or-drop : (n : ℕ) (s : WString) → get_or (drop n s) 0 0 ≡ get_or s n 0
get_or-drop zero s = refl
get_or-drop (suc n) [] = refl
get_or-drop (suc n) (c ∷ s) = get_or-drop n s

is_nil-drop-length : (n : ℕ) (s : WString) → length s ≡ n → is_nil (drop n s) ≡ true
is_nil-drop-length zero [] h = refl
is_nil-drop-length zero (c ∷ s) h = absurd (omega arith)
is_nil-drop-length (suc n) [] h = refl
is_nil-drop-length (suc n) (c ∷ s) h = is_nil-drop-length n s (omega arith)

-- At a boundary: at the end, or at a backslash.
abbrev pub at_boundary : WString → Bool
at_boundary rest = is_nil rest || is_backslash (get_or rest 0 0)

module _ (fold : ℕ → ℕ) where
  wcsnicmp_eq_self :
      (root rest : WString) → wcsnicmp_eq fold (length root) (root ++ rest) root ≡ true
  unfolding wcsnicmp_eq
  wcsnicmp_eq_self [] rest = refl
  wcsnicmp_eq_self (c ∷ root) rest = rw (==_refl (fold c)) (wcsnicmp_eq_self root rest)

  -- What stands behind a root that matches begins at a boundary.
  pub is_at_or_under-boundary :
      (path root : WString)
      → is_at_or_under fold path root ≡ true
      → at_boundary (drop (length root) path) ≡ true
  unfolding is_at_or_under
  is_at_or_under-boundary path root h =
      let n = length root in
      let last = (&&_cases (leb n (length path) && wcsnicmp_eq fold n path root) _ h).1 in
      elim (Bool-cases (length path == n)) [
        | inl e ↦ rw (is_nil-drop-length n path ((==_iff (length path) n).0 e))
        | inr e ↦
            let sep : (get_or path n 0 == backslash) ≡ true = rw e at last in
            ground (arith, sep, get_or-drop n path)
      ]

  -- A root with something at a boundary behind it stands under the root.
  pub is_at_or_under-append :
      (root rest : WString)
      → at_boundary rest ≡ true
      → is_at_or_under fold (root ++ rest) root ≡ true
  unfolding is_at_or_under
  is_at_or_under-append root [] h =
      let len : length (root ++ []) ≡ length root = omega (arith, length-append {0} root []) in
      rw (wcsnicmp_eq_self root [], len) (ground arith)
  is_at_or_under-append root (c ∷ rest) h =
      let at : get_or (root ++ c ∷ rest) (length root) 0 ≡ c =
        sym (get_or-drop (length root) (root ++ c ∷ rest))
        ∙ ap (λ (t : WString). get_or t 0 0) (drop-append root (c ∷ rest)) in
      rw (wcsnicmp_eq_self root (c ∷ rest), at) (ground (arith, length-append root (c ∷ rest)))

  split_prefix-device : (s : WString) → split_prefix (device_prefix ++ s) ≡ (device_prefix, s)
  unfolding split_prefix starts_with
  split_prefix-device s = refl

  -- The backing path of a virtual path in the source root.
  pub overlay_backing_path_in_source :
      (g : Globals) (v : WString)
      → is_drive_path v ≡ true
      → in_source_root fold g v ≡ true
      → overlay_backing_path fold g v
        ≡ device_prefix
          ++ (text_of g.write_overlay_root
              ++ drop (length (trim_seps (text_of g.overlay_source_root))) v)
  unfolding overlay_backing_path in_source_root
  overlay_backing_path_in_source g v d s =
      let source = trim_seps (text_of g.overlay_source_root) in
      let under = (&&_cases (is_set g.overlay_source_root) _ s).1 in
      rw (d, s, is_at_or_under-boundary v source under)

  -- With the overlay on and a backing root that ends in no backslash, a drive-letter path in the source
  -- root that is mapped into the backing store and back gives the source root as the manifest spells
  -- it and the rest of the path, behind `\\?\`.
  pub reverse-overlay_backing_path :
      (g : Globals) (v : WString)
      → g.should_write_overlay ≡ true
      → is_set g.write_overlay_root ≡ true
      → trim_seps (text_of g.write_overlay_root) ≡ text_of g.write_overlay_root
      → is_drive_path v ≡ true
      → in_source_root fold g v ≡ true
      → let source = trim_seps (text_of g.overlay_source_root) in
        reverse_overlay_final_path fold g (overlay_backing_path fold g v)
        ≡ some (device_prefix ++ (source ++ drop (length source) v))
  unfolding reverse_overlay_final_path in_source_root
  reverse-overlay_backing_path g v on set_root trimmed d s =
      let source = trim_seps (text_of g.overlay_source_root) in
      let root = text_of g.write_overlay_root in
      let rest = drop (length source) v in
      let parts = &&_cases (is_set g.overlay_source_root) _ s in
      let under = is_at_or_under-append root rest (is_at_or_under-boundary v source parts.1) in
      rw (overlay_backing_path_in_source g v d s) (
        rw (split_prefix-device (root ++ rest), on, set_root, parts.0, trimmed, under)
          (rw (drop-append root rest)))
