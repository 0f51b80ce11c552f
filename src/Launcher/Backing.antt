-- ===== src/Launcher/Backing.antt =====
-- The backing store's life in src/main.cpp: the two directories that the launcher creates for it and
-- the calls that remove them again.
pub mod Stays
use bazel_sandbox_windows.Base.{
  ℕ, ltb, leb, ◌==◌, List, [], ◌∷◌, ◌++◌, Bool, true, false, ◌||◌, ◌&&◌, not,
}
use bazel_sandbox_windows.Base.{
  Option, none, some, WString, wide, length, take, is_nil, wcs_eq, find_last_of, get_or, ◌-◌,
  if◌then◌else◌,
}
use bazel_sandbox_windows.Overlay.Paths.{backslash, is_backslash, max_path}

-- `temp_path` is `GetTempPathW`: from a buffer's size the returned length and the buffer. `makes` is
-- whether `CreateDirectoryW` creates the directory or finds it; `process_id` and `tick` are the decimal
-- texts of `GetCurrentProcessId` and `GetTickCount64`.
pub record Maker : Type 0 where
  pub temp_path : ℕ → ℕ × WString
  pub makes : WString → Bool
  pub process_id : WString
  pub tick : WString

-- What `SetupWriteOverlayRoot` leaves: the root, empty where it fails, and the directories that were
-- made on the way.
pub record Setup : Type 0 where
  pub root : WString
  pub made : List WString

abbrev pub no_setup : List WString → Setup
no_setup made = record { root = []; made = made }

-- `base.back() == L'\\'`
abbrev pub ends_in_backslash : WString → Bool
ends_in_backslash base = is_backslash (get_or base (length base - 1) 0)

-- `base` with its separator and the `bzlsbx-*` name
unfoldable pub wrapper_dir : Maker → WString → WString
wrapper_dir m base =
    let joined = if is_nil base || ends_in_backslash base then base else base ++ backslash ∷ [] in
    joined ++ (wide "bzlsbx-" ++ (m.process_id ++ (wide "-" ++ m.tick)))

-- The two directories below a base that is there.
unfoldable pub make_root : Maker → WString → List WString → Setup
make_root m base made =
    let wrapper = wrapper_dir m base in
    let root = wrapper ++ wide "\\overlay" in
    if not (m.makes wrapper)
    then no_setup made
    else if not (m.makes root)
    then no_setup (made ++ wrapper ∷ [])
    else record { root = root; made = made ++ wrapper ∷ root ∷ [] }

-- `SetupWriteOverlayRoot`
unfoldable pub setup_write_overlay_root : Maker → WString → Setup
setup_write_overlay_root m explicit_dir =
    let n = (m.temp_path max_path).0 in
    if is_nil explicit_dir
    then (if n == 0 || leb max_path n
        then no_setup []
        else make_root m (take n (m.temp_path max_path).1) [])
    else if not (m.makes explicit_dir)
    then no_setup []
    else make_root m explicit_dir (explicit_dir ∷ [])

-- An entry that a scan of a directory gives: its name, its two attribute bits, and what a scan of it
-- gives, through the link where it is a reparse point.
mutual
  pub data Entry : Type 0 where
    entry : WString → Bool → Bool → Entries → Entry

  pub data Entries : Type 0 where
    none_left : Entries
    and_then : Entry → Entries → Entries

-- The calls that remove.
pub data Removal : Type 0 where
  clear_attributes delete_file remove_directory : WString → Removal

abbrev pub is_dots : WString → Bool
is_dots name = wcs_eq name (wide ".") || wcs_eq name (wide "..")

unfoldable mutual
  -- The loop over the entries.
  pub remove_entries : WString → Entries → List Removal
  remove_entries dir none_left = []
  remove_entries dir (and_then e entries) = remove_entry dir e ++ remove_entries dir entries

  -- One round: a directory that is no link is removed in the same way, all else is deleted.
  pub remove_entry : WString → Entry → List Removal
  remove_entry dir (entry name is_directory is_reparse_point below) =
      let child = dir ++ backslash ∷ name in
      let inner = remove_entries child below ++ remove_directory child ∷ [] in
      if is_dots name
      then []
      else if is_directory && not is_reparse_point
      then inner
      else clear_attributes child ∷ delete_file child ∷ []

-- `RemoveTreeRecursive` for a directory with the entries that the scan of it gives
unfoldable pub remove_tree_recursive : WString → Entries → List Removal
remove_tree_recursive dir entries = remove_entries dir entries ++ remove_directory dir ∷ []

-- `CleanupWriteOverlay`; `entries` is what the scan of the root gives.
unfoldable pub cleanup_write_overlay : WString → Entries → List Removal
cleanup_write_overlay root entries =
    if is_nil root
    then []
    else remove_tree_recursive root entries ++ elim (find_last_of is_backslash root) [
      | none ↦ []
      | some sep ↦ remove_directory (take sep root) ∷ []
    ]
