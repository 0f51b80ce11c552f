-- ===== src/Overlay/Enumeration/Insert/Calls.antt =====
-- The calls of `InsertOverlayEntries` in src/overlay_engine.cpp on one handle, one after the other: what
-- their callers read from the buffers.
use bazel_sandbox_windows.Base.{ℕ, ◌+◌, ◌^◌, ◌≤◌, ◌≡◌, ap, ◌∙◌, leb, ◌==◌}
use bazel_sandbox_windows.Base.{
  List, [], ◌++◌, Bool, true, false, not, ◌&&◌, ◌||◌, inl, inr, if◌then◌else◌,
}
use bazel_sandbox_windows.Base.{Option, none, some, WString, length, is_nil, Bool-cases}
use bazel_sandbox_windows.Manifest.Bytes.{Bytes}
use bazel_sandbox_windows.Overlay.Globals.{Globals}
use bazel_sandbox_windows.Overlay.Paths.{device_prefix}
use bazel_sandbox_windows.Overlay.Disk.{Disk, overlay_is_directory}
use bazel_sandbox_windows.Overlay.Records.{AttributeData, Layout, try_get_dir_info_layout}
use bazel_sandbox_windows.Overlay.Records.Chain.{read_names}
use bazel_sandbox_windows.Overlay.Enumeration.{HandleOverlay, Ntdll}
use bazel_sandbox_windows.Overlay.Enumeration.{ensure_overlay_enum_snapshot}
use bazel_sandbox_windows.Overlay.Enumeration.Insert.{
  Inserted, emit_into, restarted, insert_overlay_entries, unchanged, insert_records,
}
use bazel_sandbox_windows.Overlay.Enumeration.Insert.{
  status_no_more_files, status_no_such_file, nt_success,
}
use bazel_sandbox_windows.Overlay.Enumeration.Insert.Start.{}

module _ (D : Disk) (stat : D.Entry → AttributeData) (fold : ℕ → ℕ)
    (sort : (WString → WString → Bool) → List WString → List WString) (ntdll : Ntdll)
    (tests : List WString) (g : Globals) (c : ℕ) (enum_dir : WString) where
  -- The arguments of one call that continues a scan: the state of the disk, the caller's buffer and its
  -- length, and the status of the real call.
  pub record Call : Type 0 where
    pub state : D.State
    pub buffer : Bytes
    pub len : ℕ
    pub has_io : Bool
    pub single : Bool
    pub result : ℕ

  abbrev pub inserted : HandleOverlay → Call → Inserted
  inserted h call =
      insert_overlay_entries D stat fold sort ntdll tests g call.buffer call.len call.has_io c
        call.single false enum_dir h call.state call.result

  -- The names that the caller reads from the overlay's records: none where the real call succeeded, as
  -- the buffer holds real records, and none where the call fails.
  abbrev pub delivered : Layout → HandleOverlay → Call → List WString
  delivered l h call =
      if nt_success call.result
      then []
      else if nt_success (inserted h call).result
      then read_names call.len l (inserted h call).buffer 0
      else []

  -- The caller's buffer has the length it says, below 4 GB.
  pub record IsBuffer (call : Call) : Type 0 where
    pub room : call.len ≤ length call.buffer
    pub small : call.len + 8 ≤ 2 ^ 32

  abbrev pub emitted : Layout → HandleOverlay → Call → Inserted
  emitted l h call =
      emit_into D stat fold sort ntdll tests g call.buffer call.len call.has_io l c call.single
        enum_dir h call.state call.result

  -- A call on a handle with a snapshot leaves everything as it is, or it emits.
  pub data Way (l : Layout) (h : HandleOverlay) (call : Call) : Type 0 where
    same : inserted h call ≡ unchanged call.buffer call.result h → Way l h call
    emits : inserted h call ≡ emitted l h call → nt_success call.result ≡ false → Way l h call

  -- The guards of a call that emits.
  pub record IsLast (h : HandleOverlay) (call : Call) : Type 0 where
    pub real : overlay_is_directory D call.state (device_prefix ++ enum_dir) ≡ true
    pub exhausted : call.result ≡ status_no_more_files

  module _ (l : Layout) (laid : try_get_dir_info_layout c ≡ some l) where
    pub known :
        (h : HandleOverlay) (call : Call)
        → inserted h call
          ≡ insert_records D stat fold sort ntdll tests g call.buffer call.len call.has_io l c
              call.single false enum_dir h call.state call.result
    unfolding insert_overlay_entries
    known h call =
        ap
          (λ (o : Option Layout). elim o as (λ _. Inserted) [
            | none ↦ unchanged call.buffer call.result h
            | some l ↦
                insert_records D stat fold sort ntdll tests g call.buffer call.len call.has_io l c
                  call.single false enum_dir h call.state call.result
          ])
          laid

    pub way : (h : HandleOverlay) (call : Call) → h.started ≡ true → Way l h call
    unfolding insert_records ensure_overlay_enum_snapshot restarted
    way h call started =
        elim (Bool-cases (
          not (is_nil enum_dir)
          && not (overlay_is_directory D call.state (device_prefix ++ enum_dir)))) [
            | inl a ↦ same (known h call ∙ rw (started, a))
            | inr a ↦ elim (Bool-cases (is_nil h.snapshot || leb (length h.snapshot) h.cursor)) [
              | inl b ↦ same (known h call ∙ rw (started, a, b))
              | inr b ↦ elim (Bool-cases (nt_success call.result)) [
                | inl d ↦ same (known h call ∙ rw (started, a, b, d))
                | inr d ↦
                    elim (Bool-cases
                      (call.result == status_no_more_files || call.result == status_no_such_file)) [
                        | inl e ↦ emits (known h call ∙ rw (started, a, b, d, e)) d
                        | inr e ↦ same (known h call ∙ rw (started, a, b, d, e))
                      ]
              ]
            ]
          ]
