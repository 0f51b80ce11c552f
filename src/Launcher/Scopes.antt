-- ===== src/Launcher/Scopes.antt =====
-- The manifest that `wmain` of src/main.cpp builds from the options, its payload wrapper and the wait.
use bazel_sandbox_windows.Base.{ℕ, ◌+◌, ◌*◌, ◌%◌, ◌^◌, ◌==◌, ◌≡◌, ◌≤◌, refl, arith, bit_or}
use bazel_sandbox_windows.Base.{List, [], ◌∷◌, ◌++◌, none, some, WString, wide, length, is_nil}
use bazel_sandbox_windows.Base.{bit_and, not, Bool-cases, if◌then◌else◌, inl, inr, ◌⊎◌, ◌↔◌}
use bazel_sandbox_windows.Manifest.Policy.{policy_deny, policy_allow_read, policy_allow_write}
use bazel_sandbox_windows.Manifest.Policy.{policy_allow_read_if_non_existent, policy_allow_all}
use bazel_sandbox_windows.Manifest.Policy.{policy_allow_create_directory, policy_declared_input}
use bazel_sandbox_windows.Manifest.Policy.{
  policy_override_allow_write_for_existing_files, policy_mask_all,
}
use bazel_sandbox_windows.Manifest.Policy.{flag_none, flag_report_file_accesses, extra_flag_none}
use bazel_sandbox_windows.Manifest.Policy.{flag_report_unexpected_file_accesses}
use bazel_sandbox_windows.Manifest.Policy.{
  extra_flag_denied_reads_as_not_found, extra_flag_write_overlay,
}
use bazel_sandbox_windows.Manifest.Policy.{extra_flag_filter_directory_enumeration}
use bazel_sandbox_windows.Manifest.Bytes.{Bytes, u32_bytes}
use bazel_sandbox_windows.Manifest.Builder.{
  ManifestBuilder, new, set_report_path, set_write_overlay_root,
}
use bazel_sandbox_windows.Manifest.Builder.{set_overlay_source_root, add_root_scope, add_scope}
use bazel_sandbox_windows.Manifest.Builder.{add_node_scope}
use bazel_sandbox_windows.Launcher.Options.{Outcome, done, died, then_, Options}
use bazel_sandbox_windows.Launcher.Outputs.{output_dirs}

-- `flags`
unfoldable pub flags_of : Options → ℕ
flags_of o =
    if is_nil o.trace_path
    then flag_none
    else bit_or flag_none (bit_or flag_report_file_accesses flag_report_unexpected_file_accesses)

-- `extraFlags`
unfoldable pub extra_flags_of : Options → ℕ
extra_flags_of o =
    let filtered =
      if o.filter_inputs
      then bit_or extra_flag_none
          (bit_or extra_flag_denied_reads_as_not_found extra_flag_filter_directory_enumeration)
      else extra_flag_none in
    if o.write_overlay then bit_or filtered extra_flag_write_overlay else filtered

-- `Policy_AllowRead | Policy_AllowReadIfNonExistent`
abbrev pub allow_reads : ℕ
allow_reads = bit_or policy_allow_read policy_allow_read_if_non_existent

abbrev pub declared_reads : ℕ
declared_reads = bit_or allow_reads policy_declared_input

abbrev pub declared_all : ℕ
declared_all = bit_or policy_allow_all policy_declared_input

abbrev pub reveal : ℕ
reveal =
    bit_or (bit_or (bit_or allow_reads policy_allow_write) policy_allow_create_directory)
      policy_declared_input

-- `workingDirPolicy`
unfoldable pub working_dir_policy : Options → ℕ
working_dir_policy o =
    let base = if o.hermetic then policy_deny else allow_reads in
    if o.write_overlay
    then bit_or base (
        bit_or (bit_or policy_allow_write policy_allow_create_directory)
          policy_override_allow_write_for_existing_files)
    else base

module _ (upper : ℕ → ℕ) (full_path : WString → ℕ → ℕ × WString) (fold : ℕ → ℕ) where
  -- `if (!mb.AddScope(path, Policy_MaskAll, values)) Die(message + path);`
  unfoldable pub add_or_die : WString → ℕ → WString → ManifestBuilder → Outcome ManifestBuilder
  add_or_die message values path b =
      elim (add_scope upper full_path b path policy_mask_all values) [
        | none ↦ died (message ++ path)
        | some c ↦ done c
      ]

  -- The loops over `-r`, `-w` and `-b`.
  unfoldable pub add_all : WString → ℕ → List WString → ManifestBuilder → Outcome ManifestBuilder
  unfolding add_or_die
  add_all message values [] b = done b
  add_all message values (p ∷ ps) b =
      then_ (add_or_die message values p b) (λ c. add_all message values ps c)

  -- The loop over the output directories.
  unfoldable pub add_nodes : List WString → ManifestBuilder → Outcome ManifestBuilder
  add_nodes [] b = done b
  add_nodes (p ∷ ps) b =
      let added = add_node_scope upper full_path b p policy_mask_all reveal in
      elim added [ none ↦ died (wide "bad output dir: " ++ p) | some c ↦ add_nodes ps c ]

  -- The part for the write overlay; `overlay_root` is what `SetupWriteOverlayRoot` returns.
  unfoldable pub add_overlay : Options → WString → ManifestBuilder → Outcome ManifestBuilder
  unfolding add_or_die
  add_overlay o overlay_root b =
      if o.write_overlay
      then (if is_nil overlay_root
          then died (wide "cannot create write-overlay backing store")
          else then_ (add_or_die (wide "bad write-overlay root: ") policy_allow_all overlay_root b)
              (λ c.
                done
                  (set_overlay_source_root (set_write_overlay_root c overlay_root) o.working_dir)))
      else done b

  -- The manifest builder that `wmain` ends up with.
  unfoldable pub manifest_of : Options → Bytes → WString → WString → Outcome ManifestBuilder
  unfolding add_all add_nodes add_overlay add_or_die flags_of extra_flags_of working_dir_policy
  manifest_of o dll tool_path overlay_root =
      let start = set_report_path (new (flags_of o) (extra_flags_of o) dll dll) o.trace_path in
      let root = add_root_scope upper full_path start policy_mask_all allow_reads in
      then_ (add_or_die (wide "bad working dir: ") (working_dir_policy o) o.working_dir root) (λ b0.
        then_ (add_or_die (wide "bad tool path: ") declared_reads tool_path b0) (λ b1.
          then_ (add_all (wide "bad -r: ") declared_reads o.readonly_files b1) (λ b2.
            then_ (add_all (wide "bad -w: ") declared_all o.writable_files b2) (λ b3.
              then_ (add_all (wide "bad -b: ") policy_deny o.blocked_files b3) (λ b4.
                then_ (add_nodes (output_dirs fold o.working_dir o.writable_files) b4)
                  (λ b5. add_overlay o overlay_root b5))))))

-- The payload wrapper around the manifest's bytes.
unfoldable pub payload : Bytes → Bytes
payload manifest = u32_bytes ((8 + length manifest) % 2 ^ 32) ++ (u32_bytes 0 ++ manifest)

-- `waitMs`; `INFINITE` is 2 ^ 32 - 1
unfoldable pub wait_ms : Options → ℕ
wait_ms o = if o.timeout_secs == 0 then 0xFFFFFFFF else (o.timeout_secs * 1000) % 2 ^ 32

-- A `-T` of at most 4294967 seconds is waited for in full, and the wait is the endless one exactly for
-- a `-T` of 0.
pub wait_ms-eq :
    (o : Options)
    → o.timeout_secs ≤ 4294967
    → ((wait_ms o ≡ 0xFFFFFFFF) ↔ (o.timeout_secs ≡ 0))
      × ((o.timeout_secs ≡ 0) ⊎ (wait_ms o ≡ o.timeout_secs * 1000))
unfolding wait_ms
wait_ms-eq o h = ground arith

-- The working directory is readable by its scope exactly without `-H`, and it gets the write bit and
-- the bit that sends writes to the overlay exactly with `--write-overlay`.
pub working_dir_policy-bits :
    (o : Options)
    → ((bit_and (working_dir_policy o) policy_allow_read == 0) ≡ o.hermetic)
      × ((bit_and (working_dir_policy o) policy_allow_write == 0) ≡ not o.write_overlay)
      × ((bit_and (working_dir_policy o) policy_override_allow_write_for_existing_files == 0)
          ≡ not o.write_overlay)
unfolding working_dir_policy
working_dir_policy-bits o = elim (Bool-cases o.hermetic) [
  | inl h ↦ elim (Bool-cases o.write_overlay) [
    | inl w ↦ rw (h, w) (refl, refl, refl)
    | inr w ↦ rw (h, w) (refl, refl, refl)
  ]
  | inr h ↦ elim (Bool-cases o.write_overlay) [
    | inl w ↦ rw (h, w) (refl, refl, refl)
    | inr w ↦ rw (h, w) (refl, refl, refl)
  ]
]
