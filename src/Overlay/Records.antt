-- ===== src/Overlay/Records.antt =====
-- The directory-information records of src/overlay_engine.cpp as bytes of a buffer: where each
-- information class keeps its fields, and the stores that build a record.
pub mod Reads
pub mod Chain
pub mod Stored
use bazel_sandbox_windows.Base.{ℕ, suc, zero, ◌+◌, ◌-◌, ◌*◌, ◌/◌, ◌%◌, ◌^◌, bit_and, bit_xor}
use bazel_sandbox_windows.Base.{List, [], ◌∷◌, ◌++◌, Bool, ◌&&◌, ◌==◌, leb, if◌then◌else◌}
use bazel_sandbox_windows.Base.{Option, none, some, WString, length, set, replicate}
use bazel_sandbox_windows.Manifest.Bytes.{Bytes, u32_bytes, wide_bytes}

-- The two out-parameters of `TryGetDirInfoLayout`.
pub record Layout : Type 0 where
  pub file_name_length_offset : ℕ
  pub file_name_offset : ℕ

abbrev layout : ℕ → ℕ → Layout
layout length_offset offset = record {
  file_name_length_offset = length_offset;
  file_name_offset = offset;
}

-- `TryGetDirInfoLayout`; `none` where it returns false
unfoldable pub try_get_dir_info_layout : ℕ → Option Layout
try_get_dir_info_layout info_class =
    if info_class == 1
    then some (layout 60 64)
    else if info_class == 2
    then some (layout 60 68)
    else if info_class == 3
    then some (layout 60 94)
    else if info_class == 12
    then some (layout 8 12)
    else if info_class == 37
    then some (layout 60 104)
    else if info_class == 38
    then some (layout 60 80)
    else none

-- `TryMapHandleDirInfoClass`: the class of `NtQueryDirectoryFile` and the class that continues a scan
unfoldable pub try_map_handle_dir_info_class : ℕ → Option (ℕ × ℕ)
try_map_handle_dir_info_class handle_class =
    if handle_class == 10
    then some (37, 10)
    else if handle_class == 11
    then some (37, 10)
    else if handle_class == 14
    then some (2, 14)
    else if handle_class == 15
    then some (2, 14)
    else none

-- `memcpy(base + p, bytes, n)`
unfoldable pub store : Bytes → ℕ → Bytes → Bytes
store b p [] = b
store b p (c ∷ cs) = store (set b p c) (suc p) cs

-- `*reinterpret_cast<ULONG*>(base + p) = v`
unfoldable pub store_u32 : Bytes → ℕ → ℕ → Bytes
store_u32 b p v = store b p (u32_bytes v)

-- `*reinterpret_cast<LONGLONG*>(base + p) = v`
unfoldable pub store_u64 : Bytes → ℕ → ℕ → Bytes
store_u64 b p v = store b p (u32_bytes v ++ u32_bytes (v / 2 ^ 32))

-- `AlignUp8`: `(v + 7) & ~7`
unfoldable pub align_up8 : ℕ → ℕ
align_up8 v = (v + 7) % 2 ^ 32 / 8 * 8

-- The fields of a `WIN32_FILE_ATTRIBUTE_DATA`; a `FILETIME` and the size are their 64 bits.
pub record AttributeData : Type 0 where
  pub attributes : ℕ
  pub creation_time : ℕ
  pub last_access_time : ℕ
  pub last_write_time : ℕ
  pub file_size : ℕ

-- One round of the hash of `SynthOverlayFileId`.
unfoldable pub file_id_step : ℕ → ℕ → ℕ
file_id_step h c =
    let lower = if leb 0x41 c && leb c 0x5A then (c + 32) % 2 ^ 16 else c in
    bit_xor h (lower % 2 ^ 16) * 1099511628211 % 2 ^ 64

unfoldable pub file_id_from : ℕ → WString → ℕ
file_id_from h [] = h
file_id_from h (c ∷ path) = file_id_from (file_id_step h c) path

-- `SynthOverlayFileId`
unfoldable pub synth_overlay_file_id : WString → ℕ
synth_overlay_file_id path = bit_and (file_id_from 1469598103934665603 path) 0x7fffffffffffffff

-- `(size + 4095) & ~4095` on the 64 bits of a `LONGLONG`
abbrev allocation_size : ℕ → ℕ
allocation_size size = (size + 4095) % 2 ^ 64 / 4096 * 4096

-- The file id of `FillOverlayDirRecordMetadata`, for the two classes that hold one.
unfoldable pub put_file_id : Bytes → ℕ → ℕ → WString → Bytes
put_file_id b rec info_class path =
    if info_class == 37
    then store_u64 b (rec + 96) (synth_overlay_file_id path)
    else if info_class == 38
    then store_u64 b (rec + 72) (synth_overlay_file_id path)
    else b

-- The times, sizes and attributes of `FillOverlayDirRecordMetadata`.
unfoldable pub put_attributes : Bytes → ℕ → AttributeData → Bytes
put_attributes b rec fad =
    let b = store_u64 b (rec + 8) fad.creation_time in
    let b = store_u64 b (rec + 16) fad.last_access_time in
    let b = store_u64 b (rec + 24) fad.last_write_time in
    let b = store_u64 b (rec + 32) fad.last_write_time in
    let b = store_u64 b (rec + 40) fad.file_size in
    let b = store_u64 b (rec + 48) (allocation_size fad.file_size) in
    store_u32 b (rec + 56) fad.attributes

-- `FillOverlayDirRecordMetadata`; `stat` is what `GetFileAttributesExW` gave for the path.
unfoldable pub fill_overlay_dir_record_metadata :
    Bytes → ℕ → ℕ → WString → Option AttributeData → Bytes
fill_overlay_dir_record_metadata b rec info_class path none = b
fill_overlay_dir_record_metadata b rec info_class path (some fad) =
    if info_class == 12 then b else put_file_id (put_attributes b rec fad) rec info_class path

-- The stores of `InsertOverlayEntries` for one record at `rec`.
unfoldable pub put_record :
    Bytes → ℕ → Layout → ℕ → WString → WString → Option AttributeData → Bytes
put_record b rec l info_class name backing stat =
    let b = store b rec (replicate l.file_name_offset 0) in
    let b = store_u32 b rec 0 in
    let b = store_u32 b (rec + l.file_name_length_offset) (length name * 2) in
    let b = store b (rec + l.file_name_offset) (wide_bytes name) in
    fill_overlay_dir_record_metadata b rec info_class backing stat
