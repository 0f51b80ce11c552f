-- ===== src/Overlay/Enumeration/Insert.antt =====
-- `InsertOverlayEntries` of src/overlay_engine.cpp: the overlay's records behind the last batch of a
-- `NtQueryDirectoryFile` scan.
pub mod Run
pub mod Loop
pub mod Start
pub mod Calls
pub mod Kept
pub mod Delivery
pub mod Bounds
use bazel_sandbox_windows.Base.{ℕ, suc, ◌+◌, ◌-◌, ◌*◌, ◌%◌, ◌^◌, ltb, leb, ◌==◌}
use bazel_sandbox_windows.Base.{
  List, [], ◌∷◌, ◌++◌, Bool, true, false, ◌||◌, ◌&&◌, not, if◌then◌else◌,
}
use bazel_sandbox_windows.Base.{Option, none, some, WString, length, drop, is_nil}
use bazel_sandbox_windows.Manifest.Bytes.{Bytes}
use bazel_sandbox_windows.Overlay.Globals.{Globals}
use bazel_sandbox_windows.Overlay.Paths.{device_prefix, overlay_backing_path, join_dir_and_name}
use bazel_sandbox_windows.Overlay.Disk.{Disk, overlay_is_directory}
use bazel_sandbox_windows.Overlay.Records.{AttributeData, Layout, try_get_dir_info_layout}
use bazel_sandbox_windows.Overlay.Records.{align_up8, put_record, store_u32}
use bazel_sandbox_windows.Overlay.Enumeration.{HandleOverlay, Ntdll, overlay_name_matches_filter}
use bazel_sandbox_windows.Overlay.Enumeration.{ensure_overlay_enum_snapshot, backing_stat}

abbrev pub status_success : ℕ
status_success = 0

abbrev pub status_no_more_files : ℕ
status_no_more_files = 0x80000006

abbrev pub status_no_such_file : ℕ
status_no_such_file = 0xC000000F

-- `NT_SUCCESS`, on the 32 bits of a status
abbrev pub nt_success : ℕ → Bool
nt_success status = ltb status (2 ^ 31)

-- The locals of the loop: `prev` is `prevOff` where `prevRec` is set.
pub record Emit : Type 0 where
  pub buffer : Bytes
  pub cursor : ℕ
  pub prev : Option ℕ
  pub write_off : ℕ
  pub last_written_end : ℕ
  pub emitted_any : Bool

-- `recSize`
abbrev pub record_size : Layout → WString → ℕ
record_size l name = (l.file_name_offset + length name * 2) % 2 ^ 32

-- `*(ULONG*)prevRec = writeOff - prevOff`, where there is a previous record
unfoldable pub link_previous : Bytes → Option ℕ → ℕ → Bytes
link_previous b none write_off = b
link_previous b (some prev) write_off = store_u32 b prev ((write_off + 2 ^ 32 - prev) % 2 ^ 32)

-- What a call leaves: the buffer, the handle overlay, the status, and the `Status` and `Information`
-- of the `IO_STATUS_BLOCK` where they are written.
pub record Inserted : Type 0 where
  pub buffer : Bytes
  pub handle : HandleOverlay
  pub result : ℕ
  pub io_status : Option (ℕ × ℕ)

-- A return before anything is emitted.
abbrev pub unchanged : Bytes → ℕ → HandleOverlay → Inserted
unchanged b result h = record { buffer = b; handle = h; result = result; io_status = none }

-- The end of `InsertOverlayEntries`, after the loop.
unfoldable pub finish : Bool → HandleOverlay → ℕ → Emit → Inserted
finish has_io h result e =
    if e.emitted_any
    then record {
      buffer = e.buffer;
      handle = record h { cursor = e.cursor };
      result = status_success;
      io_status = if has_io then some (status_success, e.last_written_end) else none;
    }
    else record {
      buffer = e.buffer;
      handle = record h { cursor = e.cursor };
      result = result;
      io_status = none;
    }

module _ (D : Disk) (stat : D.Entry → AttributeData) (fold : ℕ → ℕ)
    (sort : (WString → WString → Bool) → List WString → List WString) (ntdll : Ntdll)
    (tests : List WString) (g : Globals) where
  -- The round of the loop that writes a record.
  unfoldable pub emit_one : Layout → ℕ → WString → D.State → WString → Emit → Emit
  emit_one l info_class enum_dir s name e =
      let backing = overlay_backing_path fold g (join_dir_and_name enum_dir name) in
      let b =
        put_record e.buffer e.write_off l info_class name backing
          (backing_stat D stat fold sort ntdll tests g enum_dir s name) in
      let end = (e.write_off + record_size l name) % 2 ^ 32 in
      record {
        buffer = link_previous b e.prev e.write_off;
        cursor = suc e.cursor;
        prev = some e.write_off;
        write_off = align_up8 end;
        last_written_end = end;
        emitted_any = true;
      }

  -- The loop over the names from the cursor on.
  unfoldable pub emit_entries :
      Layout → ℕ → WString → D.State → ℕ → Bool → WString → List WString → Emit → Emit
  emit_entries l info_class enum_dir s len single expr [] e = e
  emit_entries l info_class enum_dir s len single expr (name ∷ names) e =
      if not (overlay_name_matches_filter ntdll name expr)
      then emit_entries l info_class enum_dir s len single expr names
          (record e { cursor = suc e.cursor })
      else if ltb len (e.write_off + record_size l name)
      then e
      else if single
      then emit_one l info_class enum_dir s name e
      else emit_entries l info_class enum_dir s len single expr names
          (emit_one l info_class enum_dir s name e)

  -- The reset of a new scan.
  unfoldable pub restarted : Bool → HandleOverlay → HandleOverlay
  restarted restart_scan h =
      if restart_scan then record h { started = false; cursor = 0; snapshot = [] } else h

  -- The state in which the loop starts, at `AlignUp8(0)`.
  abbrev pub blank : Bytes → HandleOverlay → Emit
  blank b h = record {
    buffer = b;
    cursor = h.cursor;
    prev = none;
    write_off = align_up8 0;
    last_written_end = 0;
    emitted_any = false;
  }

  -- The part of `InsertOverlayEntries` that emits, once the real scan is exhausted.
  unfoldable pub emit_into :
      Bytes → ℕ → Bool → Layout → ℕ → Bool → WString → HandleOverlay → D.State → ℕ → Inserted
  emit_into b len has_io l info_class single enum_dir h s result = finish has_io h result (
      emit_entries l info_class enum_dir s len single h.filter (drop h.cursor h.snapshot)
        (blank b h))

  -- `InsertOverlayEntries` for a class whose layout is known.
  unfoldable pub insert_records :
      Bytes → ℕ → Bool → Layout → ℕ → Bool → Bool → WString → HandleOverlay → D.State → ℕ → Inserted
  insert_records b len has_io l info_class single restart_scan enum_dir h s result =
      let h' =
        ensure_overlay_enum_snapshot D stat fold sort ntdll tests g enum_dir
          (restarted restart_scan h) s in
      if not (is_nil enum_dir) && not (overlay_is_directory D s (device_prefix ++ enum_dir))
      then unchanged b result h
      else if is_nil h'.snapshot || leb (length h'.snapshot) h'.cursor
      then unchanged b result h'
      else if nt_success result
      then unchanged b result h'
      else if not (result == status_no_more_files || result == status_no_such_file)
      then unchanged b result h'
      else emit_into b len has_io l info_class single enum_dir h' s result

  -- `InsertOverlayEntries`, for a handle overlay that is not null; `has_io` is
  -- `IoStatusBlock != nullptr`.
  unfoldable pub insert_overlay_entries :
      Bytes → ℕ → Bool → ℕ → Bool → Bool → WString → HandleOverlay → D.State → ℕ → Inserted
  insert_overlay_entries b len has_io info_class single restart_scan enum_dir h s result =
      elim (try_get_dir_info_layout info_class) [
        | none ↦ unchanged b result h
        | some l ↦ insert_records b len has_io l info_class single restart_scan enum_dir h s result
      ]
