-- ===== src/Overlay/Disk.antt =====
-- The file system of the operating system as src/overlay_engine.cpp calls it: an unknown state with
-- what stands at a path, and the two calls that change it.
use bazel_sandbox_windows.Base.{ℕ, ◌==◌, ◌≡◌, Bool, false, not, Option, none, some, WString}
use bazel_sandbox_windows.Base.{bit_and, is_some, List}

-- `entry_at` is what a lookup of a path finds there; `GetFileAttributesW` reads its attributes.
-- `create_directory` is `CreateDirectoryW`, `copy_file` is `CopyFileW` with `failIfExists`, and
-- `children` lists the names that a `FindFirstFileW`/`FindNextFileW` scan of a pattern gives; it is
-- empty where `FindFirstFileW` fails.
pub record Disk : Type 1 where
  pub State : Type 0
  pub Entry : Type 0
  pub entry_at : State → WString → Option Entry
  pub attributes : Entry → ℕ
  pub create_directory : State → WString → State
  pub copy_file : State → WString → WString → State
  pub children : State → WString → List WString

-- What the documentation of the two calls says: each writes the one file that the path it is given
-- names. `Same p q` is whether two paths may name one file, as two that differ in case only do; the
-- presence and the attributes at a path that names another file are as they were.
pub record IsLocal (D : Disk) (Same : WString → WString → Type 0) : Type 0 where
  pub create_directory_ne :
      (s : D.State) (p q : WString)
      → ¬ Same p q
      → D.entry_at (D.create_directory s p) q ≡ D.entry_at s q
  pub copy_file_ne :
      (s : D.State) (from to q : WString)
      → ¬ Same to q
      → D.entry_at (D.copy_file s from to) q ≡ D.entry_at s q

abbrev pub file_attribute_directory : ℕ
file_attribute_directory = 0x10

module _ (D : Disk) where
  -- `OverlayPathExists`
  unfoldable pub overlay_path_exists : D.State → WString → Bool
  overlay_path_exists s p = is_some (D.entry_at s p)

  -- `OverlayIsDirectory`
  unfoldable pub overlay_is_directory : D.State → WString → Bool
  overlay_is_directory s p = elim (D.entry_at s p) [
    | none ↦ false
    | some e ↦ not (bit_and (D.attributes e) file_attribute_directory == 0)
  ]
