-- ===== src/Tests/Process.antt =====
-- Runs of the process handling and the backing store of src/main.cpp.
use bazel_sandbox_windows.Base.{
  ◌≡◌, refl, true, false, some, wide, List, [], ◌∷◌, ◌++◌, All, replicate, set, WString, false,
}
use bazel_sandbox_windows.Manifest.Bytes.{Bytes}
use bazel_sandbox_windows.Manifest.Bytes.Laws.{read_u32}
use bazel_sandbox_windows.Launcher.Options.{Options, no_options}
use bazel_sandbox_windows.Launcher.Process.{
  Answers, timed_out, std_out_file, nul_in, exit_status, is_refused, pe_machine, coff_machine,
}
use bazel_sandbox_windows.Launcher.Backing.{
  Maker, Entries, entry, none_left, and_then, Removal, remove_directory,
}
use bazel_sandbox_windows.Launcher.Backing.{
  cleanup_write_overlay, setup_write_overlay_root, make_root, wrapper_dir,
}
use bazel_sandbox_windows.Launcher.Backing.Stays.{ForTree}
use bazel_sandbox_windows.Launcher.Backing.Stays.{cleanup_write_overlay-stays}

-- A process in a job that does not end in time.
abbrev slow : Answers
slow = record {
  created = true;
  payload_copied = true;
  has_job = true;
  assigned = true;
  first_wait = timed_out;
  terminated = true;
  child_exit = 7;
  open_files = std_out_file ∷ nul_in ∷ [];
}

abbrev patient : Options
patient = record no_options { kill_delay_secs = 5 }

exit_status_run : exit_status slow ≡ 1
unfolding exit_status
exit_status_run = refl

-- An image of 64 bytes of DOS header and a header for x64.
abbrev image : Bytes
image =
    0x4D ∷ 0x5A ∷ replicate 58 0
    ++ (64 ∷ 0 ∷ 0 ∷ 0 ∷ 0x50 ∷ 0x45 ∷ 0 ∷ 0 ∷ 0x64 ∷ 0x86 ∷ replicate 18 0)

is_refused_run : is_refused (some image) ≡ false
unfolding is_refused pe_machine coff_machine read_u32
is_refused_run = refl

-- A 64-bit image for ARM is refused, and a script is not.
is_refused_arm_run : is_refused (some (set (set image 68 0x64) 69 0xAA)) ≡ true
unfolding is_refused pe_machine coff_machine read_u32
is_refused_arm_run = refl

abbrev maker : Maker
maker = record {
  temp_path = λ n. (5, wide "T:\\x\\");
  makes = λ path. true;
  process_id = wide "12";
  tick = wide "345";
}

-- A scan with `..`, a directory with a file, and a link to a directory with a file.
abbrev file_in : WString → Entries
file_in name = and_then (entry name false false none_left) none_left

abbrev leftovers : Entries
leftovers = and_then (entry (wide "..") true false (file_in (wide "mine"))) (
    and_then (entry (wide "d") true false (file_in (wide "f")))
      (and_then (entry (wide "j") true true (file_in (wide "g"))) none_left))

abbrev store : WString
store = wide "T:\\x\\bzlsbx-12-345\\overlay"

cleanup_write_overlay-stays_example :
    ((setup_write_overlay_root maker []).root ≡ store)
    × ((rs : List Removal) × (cleanup_write_overlay
            (setup_write_overlay_root maker []).root
            leftovers
          ≡ rs ++ remove_directory store ∷ remove_directory (wide "T:\\x\\bzlsbx-12-345") ∷ [])
        × All (ForTree store leftovers) rs)
unfolding setup_write_overlay_root make_root wrapper_dir
cleanup_write_overlay-stays_example = cleanup_write_overlay-stays maker [] leftovers refl

-- The file in the directory is a path of the tree.
abbrev file_path : WString
file_path = store ++ wide "\\d\\f"
