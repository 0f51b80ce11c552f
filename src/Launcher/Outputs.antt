-- ===== src/Launcher/Outputs.antt =====
-- The directories above the declared outputs, from src/main.cpp: `IsStrictlyUnder`, `ParentDir` and the
-- walk of `wmain` from each `-w` path up to the working directory. `fold` is the folding of `_wcsnicmp`.
pub mod Chain
use mathlib.Core.Option
use bazel_sandbox_windows.Base.{
  ℕ, zero, suc, ◌-◌, ◌==◌, leb, ltb, Bool, true, false, not, ◌&&◌, ◌||◌,
}
use bazel_sandbox_windows.Base.{
  List, [], ◌∷◌, ◌++◌, Option, none, some, WString, wcs_eq, length, take,
}
use bazel_sandbox_windows.Base.{drop, get_or, is_nil, find_last_of, if◌then◌else◌}
use bazel_sandbox_windows.Manifest.Fragment.{is_sep}
use bazel_sandbox_windows.Overlay.Paths.{wcsnicmp_eq}

-- `root.back()` is a separator.
unfoldable pub ends_in_sep : WString → Bool
unfolding is_sep
ends_in_sep root = is_sep (get_or root (length root - 1) 0)

-- `ParentDir`
unfoldable pub parent_dir : WString → WString
unfolding find_last_of
parent_dir path = elim (find_last_of is_sep path) [ none ↦ [] | some pos ↦ take pos path ]

abbrev pub is_member : WString → List WString → Bool
is_member p [] = false
is_member p (q ∷ qs) = wcs_eq p q || is_member p qs

-- `if (seen.insert(dir).second) outputDirs.push_back(dir);`, for all of a walk. Both hold the same
-- directories.
unfoldable pub add_new : List WString → List WString → List WString
add_new dirs [] = dirs
add_new dirs (d ∷ ds) = add_new (if is_member d dirs then dirs else dirs ++ d ∷ []) ds

-- The sort by length. `std::sort` leaves open the order of equal lengths; here they stay in order.
unfoldable pub insert_by_size : WString → List WString → List WString
insert_by_size d [] = d ∷ []
insert_by_size d (e ∷ es) =
    let rest = insert_by_size d es in if leb (length d) (length e) then d ∷ e ∷ es else e ∷ rest

unfoldable pub sort_by_size : List WString → List WString
unfolding insert_by_size
sort_by_size [] = []
sort_by_size (d ∷ ds) = insert_by_size d (sort_by_size ds)

module _ (fold : ℕ → ℕ) where
  -- `IsStrictlyUnder`
  unfoldable pub is_strictly_under : WString → WString → Bool
  is_strictly_under path root =
      let rlen = if ends_in_sep root then length root - 1 else length root in
      if is_nil root
      then false
      else if leb (length path) rlen
      then false
      else if not (wcsnicmp_eq fold rlen path root)
      then false
      else is_sep (get_or path rlen 0)

  -- The inner loop, on fuel: `dir` and the directories above it that are strictly under the root.
  unfoldable pub walk_up : ℕ → WString → WString → List WString
  unfolding is_strictly_under parent_dir
  walk_up zero root dir = []
  walk_up (suc fuel) root dir =
      let above = walk_up fuel root (parent_dir dir) in
      if is_strictly_under dir root then dir ∷ above else []

  -- The loop over the writable files. A walk has at most as many rounds as its first path has characters.
  unfoldable pub collect_dirs : WString → List WString → List WString → List WString
  unfolding add_new walk_up
  collect_dirs root [] dirs = dirs
  collect_dirs root (p ∷ ps) dirs =
      let dir = parent_dir p in collect_dirs root ps (add_new dirs (walk_up (length dir) root dir))

  -- `outputDirs`
  unfoldable pub output_dirs : WString → List WString → List WString
  unfolding sort_by_size collect_dirs
  output_dirs root writable_files = sort_by_size (collect_dirs root writable_files [])
