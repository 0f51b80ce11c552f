-- ===== src/Overlay/Enumeration/FindFirst.antt =====
-- The two Win32 ends of the overlay's enumeration in src/overlay_engine.cpp: the search handle that
-- `TrySynthesizeOverlayFindFirstW` opens, and the tail that `TryAppendOverlayFindDataW` adds.
pub mod Entries
use bazel_sandbox_windows.Base.{ℕ, List, [], ◌∷◌, ◌++◌, Bool, true, false, ◌&&◌, ◌||◌, not}
use bazel_sandbox_windows.Base.{Option, none, some, WString, wide, is_nil, trim_end, if◌then◌else◌}
use bazel_sandbox_windows.Overlay.Globals.{Globals}
use bazel_sandbox_windows.Overlay.Disk.{Disk}
use bazel_sandbox_windows.Overlay.Records.{AttributeData}
use bazel_sandbox_windows.Overlay.Enumeration.{
  HandleOverlay, Ntdll, FindData, is_slash, list_backing_children,
}
use bazel_sandbox_windows.Overlay.Enumeration.{
  overlay_name_matches_filter, is_absent, next_overlay_find_data,
}

-- A search of the operating system: the entry that it gave and those that it has still to give.
pub record RealFind : Type 0 where
  pub entry : FindData
  pub others : List FindData

-- A search handle with its overlay.
pub record FindHandle : Type 0 where
  pub others : List FindData
  pub overlay : HandleOverlay

-- The loop that passes the real entries that do not match; `none` where they end.
unfoldable pub consume : Ntdll → WString → FindData → List FindData → Option RealFind
consume ntdll expr entry [] =
    if overlay_name_matches_filter ntdll entry.file_name expr
    then some (record { entry = entry; others = [] })
    else none
consume ntdll expr entry (e ∷ es) =
    let rest = consume ntdll expr e es in
    if overlay_name_matches_filter ntdll entry.file_name expr
    then some (record { entry = entry; others = e ∷ es })
    else rest

-- The handle overlay of `RegisterHandleOverlay` for a search, with the filter that is stored in it.
abbrev pub registered : WString → WString → HandleOverlay
registered enum_dir expr = record {
  is_find = true;
  enum_dir = enum_dir;
  started = false;
  snapshot = [];
  cursor = 0;
  filter = expr;
  filter_set = true;
}

module _ (D : Disk) (stat : D.Entry → AttributeData) (fold : ℕ → ℕ)
    (sort : (WString → WString → Bool) → List WString → List WString) (ntdll : Ntdll)
    (tests : List WString) (g : Globals) where
  -- The loop of the check that there is a name to show.
  unfoldable pub any_match : WString → D.State → WString → List WString → Bool
  any_match base s expr [] = false
  any_match base s expr (name ∷ names) =
      (is_absent D stat fold sort ntdll tests g base s name
        && overlay_name_matches_filter ntdll name expr)
      || any_match base s expr names

  -- The first entry of the overlay, or the handle is closed.
  unfoldable pub first_overlay_entry :
      List FindData → HandleOverlay × Option FindData → Option (FindHandle × FindData)
  first_overlay_entry others (h, none) = none
  first_overlay_entry others (h, some entry) = some (record { others = others; overlay = h }, entry)

  -- The entry that is returned once the handle is open and registered.
  unfoldable pub first_entry :
      WString → HandleOverlay → D.State → Option RealFind → Option (FindHandle × FindData)
  first_entry base h s (some found) =
      some (record { others = found.others; overlay = h }, found.entry)
  first_entry base h s none =
      first_overlay_entry [] (next_overlay_find_data D stat fold sort ntdll tests g base h s)

  -- What follows the real `FindFirstFileExW`.
  unfoldable pub open_search :
      Bool → WString → HandleOverlay → D.State → Option RealFind → Option (FindHandle × FindData)
  open_search is_registered base h s none = none
  open_search is_registered base h s (some found) =
      if not is_registered
      then none
      else first_entry base h s (consume ntdll h.filter found.entry found.others)

  -- `TrySynthesizeOverlayFindFirstW`: the handle and the entry, `none` for `INVALID_HANDLE_VALUE`.
  -- `find_first` is the real `FindFirstFileExW`, `is_registered` that the handle overlay is found after
  -- `RegisterHandleOverlay`, and `policy_dir` the path of the policy that is registered.
  unfoldable pub try_synthesize_overlay_find_first :
      (WString → Option RealFind)
      → Bool
      → WString
      → WString
      → WString
      → D.State
      → Option (FindHandle × FindData)
  try_synthesize_overlay_find_first find_first is_registered policy_dir dir_path expr s =
      let base = trim_end is_slash dir_path in
      let children = list_backing_children D stat fold sort ntdll tests g base s in
      if is_nil base
      then none
      else if not (any_match base s expr children)
      then none
      else open_search is_registered base (registered policy_dir expr) s
          (find_first (base ++ wide "\\*"))

  -- What `TryAppendOverlayFindDataW` leaves: the handle overlay, the entry where it returns true, and
  -- the thread's last error.
  pub record Appended : Type 0 where
    pub overlay : Option HandleOverlay
    pub entry : Option FindData
    pub last_error : ℕ

  unfoldable pub appended : ℕ → HandleOverlay × Option FindData → Appended
  appended saved_error (h, none) = record {
    overlay = some h;
    entry = none;
    last_error = saved_error;
  }
  appended saved_error (h, some found) = record {
    overlay = some h;
    entry = some found;
    last_error = 0;
  }

  -- `TryAppendOverlayFindDataW`; `found` is what `TryLookupHandleOverlay` gave.
  unfoldable pub try_append_overlay_find_data : Option HandleOverlay → ℕ → D.State → Appended
  try_append_overlay_find_data none saved_error s = record {
    overlay = none;
    entry = none;
    last_error = saved_error;
  }
  try_append_overlay_find_data (some h) saved_error s =
      if not g.should_write_overlay || not h.is_find
      then record { overlay = some h; entry = none; last_error = saved_error }
      else appended saved_error
          (next_overlay_find_data D stat fold sort ntdll tests g h.enum_dir h s)
