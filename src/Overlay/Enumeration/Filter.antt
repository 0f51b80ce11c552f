-- ===== src/Overlay/Enumeration/Filter.antt =====
-- The input filter of src/overlay_engine.cpp on a batch of directory-information records, and the loop
-- that asks for more batches until one has a visible record.
pub mod Links
pub mod Listing
pub mod Batches
use bazel_sandbox_windows.Base.{ℕ, zero, suc, ◌+◌, ◌-◌, ◌/◌, ◌%◌, ◌^◌, min, max, ltb, ◌==◌}
use bazel_sandbox_windows.Base.{
  List, Bool, true, false, ◌||◌, not, if◌then◌else◌, ◌++◌, take, drop, bit_and,
}
use bazel_sandbox_windows.Base.{Option, none, some, WString}
use bazel_sandbox_windows.Manifest.Bytes.{Bytes}
use bazel_sandbox_windows.Manifest.Bytes.Laws.{read_u32}
use bazel_sandbox_windows.Overlay.Records.{Layout, try_get_dir_info_layout, store_u32}
use bazel_sandbox_windows.Overlay.Records.Reads.{read_units}
use bazel_sandbox_windows.Overlay.Enumeration.Insert.{nt_success}

-- `headerMin`
abbrev pub header_min : Layout → ℕ
header_min l = max (max 4 (l.file_name_length_offset + 4)) l.file_name_offset

-- `*(ULONG*)lastKept = rec - lastKept`, where a record was kept
unfoldable pub relink : Bytes → Option ℕ → ℕ → Bytes
relink b none rec = b
relink b (some last_kept) rec = store_u32 b last_kept ((rec + 2 ^ 32 - last_kept) % 2 ^ 32)

-- The end of the surviving chain.
unfoldable pub terminate : Bytes → Option ℕ → Bytes
terminate b none = b
terminate b (some last_kept) = store_u32 b last_kept 0

-- The name of the record at `rec`, clamped to the buffer.
unfoldable pub clamped_name : Layout → ℕ → Bytes → ℕ → WString
clamped_name l len b rec =
    let name_length = read_u32 b (rec + l.file_name_length_offset) in
    read_units b (rec + l.file_name_offset) (min name_length (len - rec - l.file_name_offset) / 2)

-- The loop of `FilterDirectoryInformation` on fuel, `none` where the fuel ends: the buffer, and how many
-- records are kept.
unfoldable pub filter_from :
    Layout → ℕ → (WString → Bool) → ℕ → Bytes → ℕ → Option ℕ → ℕ → Option (Bytes × ℕ)
filter_from l len visible zero b offset last_kept kept = none
filter_from l len visible (suc fuel) b offset last_kept kept =
    let next = read_u32 b offset in
    let shown = visible (clamped_name l len b offset) in
    let b' = if shown then relink b last_kept offset else b in
    let last_kept' = if shown then some offset else last_kept in
    let kept' = if shown then suc kept else kept in
    let rest = filter_from l len visible fuel b' ((offset + next) % 2 ^ 32) last_kept' kept' in
    if ltb len offset || ltb (len - offset) (header_min l)
    then some (terminate b last_kept, kept)
    else if next == 0
    then some (terminate b' last_kept', kept')
    else rest

-- What `FilterDirectoryInformation` returns: `SIZE_MAX`, or a count.
pub data Count : Type 0 where
  size_max : Count
  count : ℕ → Count

-- The return of a buffer and a count.
unfoldable pub counted : Option (Bytes × ℕ) → Option (Bytes × Count)
counted none = none
counted (some (b, kept)) = some (b, count kept)

-- `FilterDirectoryInformation` for what `TryGetDirInfoLayout` gave, with a round for each byte of the
-- buffer
unfoldable pub filter_records :
    Bytes → ℕ → (WString → Bool) → Option Layout → Option (Bytes × Count)
filter_records b len visible none = some (b, size_max)
filter_records b len visible (some l) = counted (filter_from l len visible (suc len) b 0 none 0)

-- `FilterDirectoryInformation`; `visible` is `IsEnumChildVisible` with the directory's policy.
unfoldable pub filter_directory_information :
    Bytes → ℕ → ℕ → (WString → Bool) → Option (Bytes × Count)
filter_directory_information b info_class len visible =
    filter_records b len visible (try_get_dir_info_layout info_class)

-- The locals of the caller that the loop changes, the state of the real directory's scan, and the
-- caller's buffer.
pub record Query (S : Type 0) : Type 0 where
  pub scan : S
  pub information : Bytes
  pub result : ℕ
  pub reported_error : ℕ
  pub last_error : ℕ

-- What the real call returns: its status, the bytes of its working buffer, and the thread's last error.
pub record Reply (S : Type 0) : Type 0 where
  pub scan : S
  pub status : ℕ
  pub bytes : Bytes
  pub error : ℕ

-- The buffer after `memcpy_s(FileInformation, Length, buffer, Length)`.
abbrev pub copied : Bytes → ℕ → Bytes → Bytes
copied information len bytes = take len bytes ++ drop len information

-- `real` is the real call, told the query flags of the continued scan, and `to_dos_error` is
-- `RtlNtStatusToDosError`; `same_buffer` is `buffer == FileInformation`.
module _ {S : Type 0} (real : S → ℕ → Reply S) (to_dos_error : ℕ → ℕ) (visible : WString → Bool)
    (info_class len : ℕ) (same_buffer : Bool) where
  -- The query for the next batch.
  unfoldable pub query_again : ℕ → Query S → Query S
  query_again flags q =
      let reply = real q.scan flags in
      record {
        scan = reply.scan;
        information =
            if same_buffer
            then reply.bytes
            else if nt_success reply.status
            then copied q.information len reply.bytes
            else q.information;
        result = reply.status;
        reported_error = to_dos_error reply.status;
        last_error = reply.error;
      }

  -- The end of a round, by what the filter gave: `again` goes on with a batch that shows nothing.
  unfoldable pub filtered_batch :
      (Query S → Option (Query S)) → Query S → Option (Bytes × Count) → Option (Query S)
  filtered_batch again q none = none
  filtered_batch again q (some (b, size_max)) = some (record q { information = b })
  filtered_batch again q (some (b, count zero)) = again (record q { information = b })
  filtered_batch again q (some (b, count (suc kept))) = some (record q { information = b })

  -- The loop on fuel, `none` where the fuel ends.
  unfoldable pub filter_batches : ℕ → ℕ → Query S → Option (Query S)
  filter_batches zero flags q = none
  filter_batches (suc fuel) flags q =
      let found = filter_directory_information q.information info_class len visible in
      if not (nt_success q.result)
      then some q
      else filtered_batch (λ q'. filter_batches fuel flags (query_again flags q')) q found

  -- `ApplyEnumerationFilterNt`: the scan is continued, `RestartScan` is false.
  unfoldable pub apply_enumeration_filter_nt : ℕ → Query S → Option (Query S)
  apply_enumeration_filter_nt fuel q = filter_batches fuel 0 q

  -- `ApplyEnumerationFilterNtEx`: the caller's flags without `SL_RESTART_SCAN`
  unfoldable pub apply_enumeration_filter_nt_ex : ℕ → ℕ → Query S → Option (Query S)
  apply_enumeration_filter_nt_ex fuel query_flags q =
      filter_batches fuel (bit_and query_flags 0xFFFFFFFE) q
