-- ===== src/Launcher/Backing/Stays.antt =====
-- What src/main.cpp removes of the backing store: its own wrapper directory and the tree below its root,
-- which stops at links.
use bazel_sandbox_windows.Base.{
  ℕ, ◌==◌, ◌≡◌, refl, ap, ◌∙◌, List, [], ◌∷◌, ◌++◌, Bool, true, false, ◌||◌,
}
use bazel_sandbox_windows.Base.{
  Option, none, some, WString, wide, length, take, is_nil, find_last_of, if◌then◌else◌,
}
use bazel_sandbox_windows.Base.{
  leb, wcs_eq, ◌≢◌, append_assoc, All, All-append, Bool-cases, inl, inr, take-append, arith,
}
use bazel_sandbox_windows.Overlay.Paths.{backslash, is_backslash, max_path}
use bazel_sandbox_windows.Launcher.Backing.{
  Removal, clear_attributes, delete_file, remove_directory, Entry, entry, Entries, none_left,
  and_then,
}
use bazel_sandbox_windows.Launcher.Backing.{
  remove_tree_recursive, remove_entries, remove_entry, cleanup_write_overlay, is_dots,
}
use bazel_sandbox_windows.Launcher.Backing.{Maker, make_root, wrapper_dir, setup_write_overlay_root}

abbrev pub path_of : Removal → WString
path_of (clear_attributes p) = p
path_of (delete_file p) = p
path_of (remove_directory p) = p

-- A path of the tree below a directory: of an entry other than `.` and `..`, or inside an entry that is
-- a directory and no reparse point.
pub data Reached : WString → Entries → WString → Type 0 where
  here :
      {dir name : WString} {d l : Bool} {inner es : Entries}
      → name ≢ wide "."
      → name ≢ wide ".."
      → Reached dir (and_then (entry name d l inner) es) (dir ++ backslash ∷ name)
  inside :
      {dir name p : WString} {inner es : Entries}
      → name ≢ wide "."
      → name ≢ wide ".."
      → Reached (dir ++ backslash ∷ name) inner p
      → Reached dir (and_then (entry name true false inner) es) p
  later :
      {dir p : WString} {e : Entry} {es : Entries}
      → Reached dir es p
      → Reached dir (and_then e es) p

-- One of the calls is for the path.
pub data Removes (p : WString) : List Removal → Type 0 where
  first : {r : Removal} {rs : List Removal} → path_of r ≡ p → Removes p (r ∷ rs)
  next : {r : Removal} {rs : List Removal} → Removes p rs → Removes p (r ∷ rs)

-- A call is for a path of the tree.
abbrev pub ForTree : WString → Entries → Removal → Type 0
ForTree dir es r = Reached dir es (path_of r)

dots_are : (is_dots (wide ".") ≡ true) × (is_dots (wide "..") ≡ true)
unfolding wcs_eq
dots_are = (refl, refl)

proper_of : (name : WString) → is_dots name ≡ false → (name ≢ wide ".") × (name ≢ wide "..")
proper_of name h = (λ e. cc (h, ap is_dots e, dots_are.0), λ e. cc (h, ap is_dots e, dots_are.1))

All-later :
    (dir : WString) (e : Entry) (es : Entries) (rs : List Removal)
    → All (ForTree dir es) rs
    → All (ForTree dir (and_then e es)) rs
All-later dir e es [] h = tt
All-later dir e es (r ∷ rs) h = (later h.0, All-later dir e es rs h.1)

All-inside :
    (dir name : WString) (inner es : Entries) (rs : List Removal)
    → name ≢ wide "."
    → name ≢ wide ".."
    → All (ForTree (dir ++ backslash ∷ name) inner) rs
    → All (ForTree dir (and_then (entry name true false inner) es)) rs
All-inside dir name inner es [] a b h = tt
All-inside dir name inner es (r ∷ rs) a b h =
    (inside a b h.0, All-inside dir name inner es rs a b h.1)

mutual
  unfolding remove_entries

  remove_entries-ForTree :
      (dir : WString) (es : Entries) → All (ForTree dir es) (remove_entries dir es)
  remove_entries-ForTree dir none_left = tt
  remove_entries-ForTree dir (and_then e es) =
      All-append (ForTree dir (and_then e es)) (remove_entry dir e) (remove_entries dir es)
        (remove_entry-ForTree dir e es)
        (All-later dir e es (remove_entries dir es) (remove_entries-ForTree dir es))

  remove_entry-ForTree :
      (dir : WString) (e : Entry) (es : Entries)
      → All (ForTree dir (and_then e es)) (remove_entry dir e)
  remove_entry-ForTree dir (entry name true false inner) es = elim (Bool-cases (is_dots name)) [
    | inl t ↦ rw t tt
    | inr t ↦
        let (a, b) = proper_of name t in
        let child = dir ++ backslash ∷ name in
        rw t (
          All-append (ForTree dir (and_then (entry name true false inner) es))
            (remove_entries child inner) (remove_directory child ∷ [])
            (All-inside dir name inner es (remove_entries child inner) a b
              (remove_entries-ForTree child inner))
            (here a b, tt))
  ]
  remove_entry-ForTree dir (entry name true true inner) es = elim (Bool-cases (is_dots name)) [
    | inl t ↦ rw t tt
    | inr t ↦ let (a, b) = proper_of name t in rw t (here a b, (here a b, tt))
  ]
  remove_entry-ForTree dir (entry name false l inner) es = elim (Bool-cases (is_dots name)) [
    | inl t ↦ rw t tt
    | inr t ↦ let (a, b) = proper_of name t in rw t (here a b, (here a b, tt))
  ]

find_last_of-append :
    (p : ℕ → Bool) (xs : WString) (y : ℕ) (ys : WString)
    → p y ≡ true
    → find_last_of p ys ≡ none
    → find_last_of p (xs ++ y ∷ ys) ≡ some (length xs)
unfolding find_last_of
find_last_of-append p [] y ys h n = rw (n, h)
find_last_of-append p (x ∷ xs) y ys h n = rw (find_last_of-append p xs y ys h n)

-- The directory that `SetupWriteOverlayRoot` creates its own in.
abbrev pub base_of : Maker → WString → WString
base_of m explicit_dir =
    if is_nil explicit_dir
    then take (m.temp_path max_path).0 (m.temp_path max_path).1
    else explicit_dir

cleanup_root :
    (wrapper : WString) (es : Entries)
    → cleanup_write_overlay (wrapper ++ backslash ∷ wide "overlay") es
      ≡ remove_tree_recursive (wrapper ++ backslash ∷ wide "overlay") es
        ++ remove_directory wrapper ∷ []
unfolding cleanup_write_overlay find_last_of
cleanup_root [] es = refl
cleanup_root (x ∷ wrapper) es =
    let at = find_last_of-append is_backslash (x ∷ wrapper) backslash (wide "overlay") refl refl in
    let cut = take-append (x ∷ wrapper) (backslash ∷ wide "overlay") in
    ap
      (λ (o : Option ℕ).
        remove_tree_recursive (x ∷ wrapper ++ backslash ∷ wide "overlay") es
        ++ elim o as (λ _. List Removal) [
          | none ↦ []
          | some sep ↦ remove_directory (take sep (x ∷ wrapper ++ backslash ∷ wide "overlay")) ∷ []
        ])
      at
    ∙ ap
        (λ d.
          remove_tree_recursive (x ∷ wrapper ++ backslash ∷ wide "overlay") es
          ++ remove_directory d ∷ [])
        cut

make_root-root :
    (m : Maker) (base : WString) (made : List WString)
    → is_nil (make_root m base made).root ≡ false
    → (make_root m base made).root ≡ wrapper_dir m base ++ backslash ∷ wide "overlay"
unfolding make_root
make_root-root m base made h = elim (Bool-cases (m.makes (wrapper_dir m base))) [
  | inr a ↦ absurd (ground (arith, h, a))
  | inl a ↦ elim (Bool-cases (m.makes (wrapper_dir m base ++ wide "\\overlay"))) [
    | inr b ↦ absurd (ground (arith, h, a, b))
    | inl b ↦ rw (a, b)
  ]
]

setup_root :
    (m : Maker) (dir : WString)
    → is_nil (setup_write_overlay_root m dir).root ≡ false
    → (setup_write_overlay_root m dir).root
      ≡ wrapper_dir m (base_of m dir) ++ backslash ∷ wide "overlay"
unfolding setup_write_overlay_root
setup_root m [] h =
    elim (Bool-cases ((m.temp_path max_path).0 == 0 || leb max_path (m.temp_path max_path).0)) [
      | inl a ↦ absurd (ground (arith, h, a))
      | inr a ↦
          rw a (
            make_root-root m (take (m.temp_path max_path).0 (m.temp_path max_path).1) []
              (rw a at h))
    ]
setup_root m (x ∷ dir) h = elim (Bool-cases (m.makes (x ∷ dir))) [
  | inr a ↦ absurd (ground (arith, h, a))
  | inl a ↦ rw a (make_root-root m (x ∷ dir) ((x ∷ dir) ∷ []) (rw a at h))
]

-- After a `SetupWriteOverlayRoot` that succeeded, the root is `overlay` in the `bzlsbx-*` wrapper
-- directory. The calls of `CleanupWriteOverlay`, whatever the scans give, are for paths of the tree below
-- the root, then for the root, and last for the wrapper. A path of the tree is that of a scanned entry
-- other than `.` and `..`, and the tree goes on only inside directories that are no reparse points.
pub cleanup_write_overlay-stays :
    (m : Maker) (dir : WString) (es : Entries)
    → is_nil (setup_write_overlay_root m dir).root ≡ false
    → let wrapper = wrapper_dir m (base_of m dir) in
      let root = wrapper ++ backslash ∷ wide "overlay" in
      ((setup_write_overlay_root m dir).root ≡ root)
      × ((rs : List Removal) × (cleanup_write_overlay (setup_write_overlay_root m dir).root es
            ≡ rs ++ remove_directory root ∷ remove_directory wrapper ∷ [])
          × All (ForTree root es) rs)
unfolding remove_tree_recursive
cleanup_write_overlay-stays m dir es h =
    let wrapper = wrapper_dir m (base_of m dir) in
    let root = wrapper ++ backslash ∷ wide "overlay" in
    let whole =
      ap (λ r. cleanup_write_overlay r es) (setup_root m dir h) ∙ cleanup_root wrapper es in
    (
      setup_root m dir h,
      (
        remove_entries root es,
        whole
            ∙ append_assoc (remove_entries root es) (remove_directory root ∷ [])
                (remove_directory wrapper ∷ []),
        remove_entries-ForTree root es,
      ),
    )
