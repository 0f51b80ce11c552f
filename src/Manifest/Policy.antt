-- ===== src/Manifest/Policy.antt =====
-- The policy bits and the two flag words of src/manifest_builder.h.
use bazel_sandbox_windows.Base.{ℕ, bit_or}

-- enum FileAccessPolicy
abbrev pub policy_deny : ℕ
policy_deny = 0x0

abbrev pub policy_allow_read : ℕ
policy_allow_read = 0x1

abbrev pub policy_allow_write : ℕ
policy_allow_write = 0x2

abbrev pub policy_allow_read_if_non_existent : ℕ
policy_allow_read_if_non_existent = 0x4

abbrev pub policy_allow_create_directory : ℕ
policy_allow_create_directory = 0x8

abbrev pub policy_allow_symlink_creation : ℕ
policy_allow_symlink_creation = 0x100

abbrev pub policy_override_allow_write_for_existing_files : ℕ
policy_override_allow_write_for_existing_files = 0x400

abbrev pub policy_allow_all : ℕ
policy_allow_all =
    bit_or
      (bit_or
        (bit_or (bit_or policy_allow_read policy_allow_read_if_non_existent) policy_allow_write)
        policy_allow_create_directory)
      policy_allow_symlink_creation

abbrev pub policy_declared_input : ℕ
policy_declared_input = 0x2000

abbrev pub policy_mask_all : ℕ
policy_mask_all = 0x0

abbrev pub policy_mask_nothing : ℕ
policy_mask_nothing = 0xFFFF

-- enum FileAccessManifestFlag
abbrev pub flag_none : ℕ
flag_none = 0x0

abbrev pub flag_report_file_accesses : ℕ
flag_report_file_accesses = 0x8

abbrev pub flag_report_unexpected_file_accesses : ℕ
flag_report_unexpected_file_accesses = 0x10

-- enum FileAccessManifestExtraFlag
abbrev pub extra_flag_none : ℕ
extra_flag_none = 0x0

abbrev pub extra_flag_denied_reads_as_not_found : ℕ
extra_flag_denied_reads_as_not_found = 0x400

abbrev pub extra_flag_filter_directory_enumeration : ℕ
extra_flag_filter_directory_enumeration = 0x800

abbrev pub extra_flag_write_overlay : ℕ
extra_flag_write_overlay = 0x1000
