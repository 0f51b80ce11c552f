-- ===== src/Overlay/Enumeration.antt =====
-- The state that src/overlay_engine.cpp keeps for a handle that enumerates a directory, and the
-- operations on it: the snapshot of the overlay's names, the wildcard, and the next entry of a scan.
pub mod FindFirst
pub mod Filter
pub mod Insert
pub mod Snapshot
pub mod Scan
use bazel_sandbox_windows.Base.{ℕ, suc, ◌+◌, ◌*◌, ◌/◌, ◌%◌, ◌^◌, ◌-◌, ltb, leb, ◌==◌}
use bazel_sandbox_windows.Base.{List, [], ◌∷◌, ◌++◌, map, Bool, true, false, ◌&&◌, ◌||◌, not}
use bazel_sandbox_windows.Base.{Option, none, some, WString, wide, length, take, drop, get_or}
use bazel_sandbox_windows.Base.{is_nil, wcs_eq, wcs_lt, trim_end, if◌then◌else◌}
use bazel_sandbox_windows.Overlay.Globals.{Globals}
use bazel_sandbox_windows.Overlay.Paths.{
  backslash, device_prefix, max_path, overlay_backing_path, join_dir_and_name,
}
use bazel_sandbox_windows.Overlay.Disk.{Disk, overlay_path_exists, overlay_is_directory}
use bazel_sandbox_windows.Overlay.Records.{AttributeData}

-- The fields of a `HandleOverlay` that the enumeration reads: `is_find` is `Type == HandleType::Find`
-- and `enum_dir` the path of its policy, without a prefix.
pub record HandleOverlay : Type 0 where
  pub is_find : Bool
  pub enum_dir : WString
  pub started : Bool
  pub snapshot : List WString
  pub cursor : ℕ
  pub filter : WString
  pub filter_set : Bool

-- The two functions that `GetProcAddress` may find in `ntdll`; `none` is a null pointer.
pub record Ntdll : Type 0 where
  pub is_name_in_expression : Option (WString → WString → Bool)
  pub upcase_unicode_char : Option (ℕ → ℕ)

abbrev pub keep {ℓ} : {A : Type ℓ} → (A → Bool) → List A → List A
keep p [] = []
keep p (x ∷ xs) = if p x then x ∷ keep p xs else keep p xs

-- The policy of a child as `IsEnumChildVisible` asks for it; the last field is
-- `HasOverlayBackingShadow`.
pub record ChildPolicy : Type 0 where
  pub is_indeterminate : Bool
  pub allow_read : Bool
  pub is_exact_manifest_node : Bool
  pub override_allow_write_for_existing_files : Bool
  pub has_overlay_backing_shadow : Bool

-- `.` and `..`
abbrev pub is_dot_name : WString → Bool
is_dot_name name = wcs_eq name (wide ".") || wcs_eq name (wide "..")

-- `IsEnumChildVisible`; `policy_of` is `GetPolicyForSubpath` of the directory's policy.
unfoldable pub is_enum_child_visible : (WString → ChildPolicy) → WString → Bool
is_enum_child_visible policy_of name =
    let child = policy_of name in
    if is_dot_name name
    then true
    else if child.is_indeterminate
    then true
    else child.allow_read
      || child.is_exact_manifest_node
      || (child.override_allow_write_for_existing_files && child.has_overlay_backing_shadow)

-- The loop of `GetOverlayTestSyntheticNames`: `token` is what stands since the last separator.
unfoldable pub tokens : WString → WString → List WString
tokens token [] = if is_nil token then [] else token ∷ []
tokens token (c ∷ s) =
    let rest = tokens [] s in
    if not (c == 0x3B)
    then tokens (token ++ c ∷ []) s
    else if is_nil token
    then rest
    else token ∷ rest

-- `GetOverlayTestSyntheticNames`, of the value of the environment variable; empty where it is unset
unfoldable pub get_overlay_test_synthetic_names : WString → List WString
get_overlay_test_synthetic_names value =
    if ltb 0 (length value) && ltb (length value) 2048 then tokens [] value else []

abbrev ascii_upcase : ℕ → ℕ
ascii_upcase c = if leb 0x61 c && leb c 0x7A then c - 32 else c

-- The `Length` of a `UNICODE_STRING` is 16 bits wide.
abbrev unicode_string : WString → WString
unicode_string s = take (length s * 2 % 2 ^ 16 / 2) s

-- How the expression is folded: `RtlUpcaseUnicodeChar`, or ASCII alone.
abbrev upcase_of : Ntdll → ℕ → ℕ
upcase_of ntdll c = elim ntdll.upcase_unicode_char [ none ↦ ascii_upcase c | some f ↦ f c ]

-- `OverlayNameMatchesFilter`
unfoldable pub overlay_name_matches_filter : Ntdll → WString → WString → Bool
overlay_name_matches_filter ntdll name expr =
    if is_nil expr || wcs_eq expr (wide "*") || wcs_eq expr (wide "*.*")
    then true
    else elim ntdll.is_name_in_expression [
      | none ↦ true
      | some matches ↦ matches (unicode_string (map (upcase_of ntdll) expr)) (unicode_string name)
    ]

-- `CaptureOverlayEnumFilter`; the options are a null handle overlay and a null `FileName`.
unfoldable pub capture_overlay_enum_filter :
    Option HandleOverlay → Option WString → Bool → Option HandleOverlay
capture_overlay_enum_filter none file_name restart_scan = none
capture_overlay_enum_filter (some h) file_name restart_scan =
    let h = if restart_scan then record h { filter_set = false; filter = [] } else h in
    if h.filter_set then some h else elim file_name [
      | none ↦ some h
      | some s ↦ if is_nil s then some h else some (record h { filter = s; filter_set = true })
    ]

-- The fields of a `WIN32_FIND_DATAW` that are filled.
pub record FindData : Type 0 where
  pub data_of : AttributeData
  pub file_name : WString

-- A file whose attributes cannot be read: `FILE_ATTRIBUTE_NORMAL`, the rest zero
abbrev pub normal : AttributeData
normal = record {
  attributes = 0x80;
  creation_time = 0;
  last_access_time = 0;
  last_write_time = 0;
  file_size = 0;
}

abbrev pub is_slash : ℕ → Bool
is_slash c = c == backslash || c == 0x2F

-- `stat` reads what `GetFileAttributesExW` gives for an entry, `fold` is the case folding of
-- `_wcsicmp`, `sort` is `std::sort` with a comparison, and `tests` the supplemental names.
module _ (D : Disk) (stat : D.Entry → AttributeData) (fold : ℕ → ℕ)
    (sort : (WString → WString → Bool) → List WString → List WString) (ntdll : Ntdll)
    (tests : List WString) (g : Globals) where
  -- `ListBackingChildren`
  unfoldable pub list_backing_children : WString → D.State → List WString
  list_backing_children virtual_dir s =
      let backing_dir = overlay_backing_path fold g virtual_dir in
      if is_nil backing_dir || not (overlay_is_directory D s backing_dir)
      then []
      else keep (λ name. not (is_dot_name name))
          (D.children s (trim_end is_slash backing_dir ++ wide "\\*"))

  -- `_wcsicmp(a, b) == 0` for one of the names
  unfoldable pub is_listed : WString → List WString → Bool
  is_listed e [] = false
  is_listed e (n ∷ names) = wcs_eq (map fold n) (map fold e) || is_listed e names

  -- The loop that adds the test names that are not there yet.
  unfoldable pub add_tests : List WString → List WString → List WString
  add_tests names [] = names
  add_tests names (e ∷ es) = add_tests (if is_listed e names then names else names ++ e ∷ []) es

  -- `GetFileAttributesW(base + L"\\" + name) == INVALID_FILE_ATTRIBUTES`
  unfoldable pub is_absent : WString → D.State → WString → Bool
  is_absent enum_dir s name =
      not (overlay_path_exists D s (trim_end is_slash enum_dir ++ backslash ∷ name))

  -- The names of `EnsureOverlayEnumSnapshot` for a fresh scan.
  unfoldable pub snapshot_of : WString → D.State → List WString
  snapshot_of enum_dir s =
      let less = λ (a b : WString). wcs_lt (map fold a) (map fold b) in
      if is_nil enum_dir
      then sort less (add_tests [] tests)
      else if not (overlay_is_directory D s (device_prefix ++ enum_dir))
      then []
      else sort less
          (keep (is_absent enum_dir s) (add_tests (list_backing_children enum_dir s) tests))

  -- `EnsureOverlayEnumSnapshot`
  unfoldable pub ensure_overlay_enum_snapshot : WString → HandleOverlay → D.State → HandleOverlay
  ensure_overlay_enum_snapshot enum_dir h s =
      if h.started then h else record h { snapshot = snapshot_of enum_dir s; started = true }

  -- The loop of `NextOverlayFindDataW` over the names from the cursor on: how many to pass over
  unfoldable pub skip_unmatched : WString → List WString → ℕ
  skip_unmatched expr [] = 0
  skip_unmatched expr (name ∷ names) =
      let rest = skip_unmatched expr names in
      if overlay_name_matches_filter ntdll name expr then 0 else suc rest

  -- What `GetFileAttributesExW` gives for the backing file of a child.
  unfoldable pub backing_stat : WString → D.State → WString → Option AttributeData
  backing_stat enum_dir s name =
      elim (D.entry_at s (overlay_backing_path fold g (join_dir_and_name enum_dir name))) [
        | none ↦ none
        | some e ↦ some (stat e)
      ]

  -- The entry that `NextOverlayFindDataW` writes for a name.
  unfoldable pub find_data : WString → D.State → WString → FindData
  find_data enum_dir s name = record {
    data_of = elim (backing_stat enum_dir s name) [ none ↦ normal | some fad ↦ fad ];
    file_name = take (max_path - 1) name;
  }

  -- `NextOverlayFindDataW`: the handle overlay, and the entry where it returns true
  unfoldable pub next_overlay_find_data :
      WString → HandleOverlay → D.State → HandleOverlay × Option FindData
  next_overlay_find_data enum_dir h s =
      let h = ensure_overlay_enum_snapshot enum_dir h s in
      let at = h.cursor + skip_unmatched h.filter (drop h.cursor h.snapshot) in
      if leb (length h.snapshot) at
      then (record h { cursor = at }, none)
      else (record h { cursor = suc at }, some (find_data enum_dir s (get_or h.snapshot at [])))
