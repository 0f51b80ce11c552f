-- ===== src/Tests/Enumeration.antt =====
-- Runs of the enumeration of src/overlay_engine.cpp, on a directory with one new and one changed file.
use mathlib.Core.List.{Perm}
use mathlib.Core.List.Perm
use bazel_sandbox_windows.Base.{
  ℕ, ◌<◌, inl, inr, ◌%◌, ◌-◌, ◌==◌, Bool-cases, ◌+◌, ◌≤◌, ◌≡◌, refl, Bool, true, false, leb, ◌&&◌,
  if◌then◌else◌, arith,
}
use bazel_sandbox_windows.Base.{
  Option, some, WString, wide, List, [], ◌∷◌, ◌++◌, map, length, take, replicate, get_or,
}
use bazel_sandbox_windows.Base.{starts_with, trim_end, wcs_eq, All}
use bazel_sandbox_windows.Manifest.Bytes.{Bytes}
use bazel_sandbox_windows.Manifest.Bytes.Laws.{read_u32}
use bazel_sandbox_windows.Overlay.Globals.{Globals}
use bazel_sandbox_windows.Overlay.Paths.{
  overlay_backing_path, is_drive_path, in_source_root, is_at_or_under,
}
use bazel_sandbox_windows.Overlay.Disk.{Disk, overlay_path_exists, overlay_is_directory}
use bazel_sandbox_windows.Overlay.Records.{AttributeData, Layout, try_get_dir_info_layout}
use bazel_sandbox_windows.Overlay.Records.Reads.{read_units}
use bazel_sandbox_windows.Overlay.Records.Chain.{Chain, last, link, read_names}
use bazel_sandbox_windows.Overlay.Enumeration.{
  HandleOverlay, Ntdll, normal, keep, overlay_name_matches_filter,
}
use bazel_sandbox_windows.Overlay.Enumeration.{
  list_backing_children, is_absent, get_overlay_test_synthetic_names, tokens,
}
use bazel_sandbox_windows.Overlay.Enumeration.Scan.{
  scan, pending, names_of, cut, ensure, next_overlay_find_data-emits_once,
}
use bazel_sandbox_windows.Overlay.Enumeration.Snapshot.{
  IsSort, IsFresh, new_names, scan-lists_new_names,
}
use bazel_sandbox_windows.Overlay.Enumeration.Insert.{status_no_more_files, nt_success}
use bazel_sandbox_windows.Overlay.Enumeration.Insert.Run.{IsName}
use bazel_sandbox_windows.Overlay.Enumeration.Insert.Calls.{Call, IsBuffer, inserted}
use bazel_sandbox_windows.Overlay.Enumeration.Insert.Delivery.{after, delivered_all}
use bazel_sandbox_windows.Overlay.Enumeration.Insert.Delivery.{insert_overlay_entries-conserves}
use bazel_sandbox_windows.Overlay.Enumeration.Insert.Bounds.{
  information, insert_overlay_entries-in_bounds,
}
use bazel_sandbox_windows.Overlay.Enumeration.Filter.{
  filter_directory_information, count, Query, Reply, query_again,
}
use bazel_sandbox_windows.Overlay.Enumeration.Filter.{
  apply_enumeration_filter_nt, apply_enumeration_filter_nt_ex,
}
use bazel_sandbox_windows.Overlay.Enumeration.Filter.Listing.{
  reveals, filter_directory_information-lists,
}
use bazel_sandbox_windows.Overlay.Enumeration.Filter.Batches.{
  IsBatch, IsScan, Shows, apply_enumeration_filter_nt-Shows,
}
use bazel_sandbox_windows.Overlay.Enumeration.FindFirst.{RealFind, consume}
use bazel_sandbox_windows.Overlay.Enumeration.FindFirst.Entries.{Synthesized, opened, base}
use bazel_sandbox_windows.Overlay.Enumeration.FindFirst.Entries.{
  try_synthesize_overlay_find_first-Synthesized,
}
use bazel_sandbox_windows.Tests.Disk.{Files, lookup, make_directory, copy}

-- A disk on which a scan of the backing directory of `C:\w\d` gives two files.
abbrev listing : Disk
listing = record {
  State = Files;
  Entry = ℕ;
  entry_at = lookup;
  attributes = λ a. a;
  create_directory = make_directory;
  copy_file = copy;
  children = λ s p.
      if wcs_eq p (wide "\\\\?\\D:\\o\\d\\*") then wide "." ∷ wide "new" ∷ wide "old" ∷ [] else [];
}

abbrev files : Files
files =
    (wide "\\\\?\\C:\\w\\d", 0x10)
    ∷ (wide "\\\\?\\D:\\o\\d", 0x10)
    ∷ (wide "C:\\w\\d\\old", 0x20)
    ∷ (wide "\\\\?\\D:\\o\\d\\new", 0x20)
    ∷ []

abbrev stat : ℕ → AttributeData
stat attributes = record normal { attributes = attributes }

-- `towlower` on ASCII
abbrev lower : ℕ → ℕ
lower c = if leb 0x41 c && leb c 0x5A then 0x20 + c else c

-- A sort that keeps the order: it gives a permutation of its input.
abbrev unsorted : (WString → WString → Bool) → List WString → List WString
unsorted less names = names

unsorted-IsSort : IsSort unsorted
unsorted-IsSort = record { perm = λ less names. Perm.refl names }

-- A matcher that takes the expression for a prefix.
abbrev ntdll : Ntdll
ntdll = record {
  is_name_in_expression = some (λ expr name. starts_with expr name);
  upcase_unicode_char = some lower;
}

abbrev globals : Globals
globals = record {
  should_write_overlay = true;
  should_denied_reads_as_not_found = true;
  write_overlay_root = some (wide "D:\\o");
  overlay_source_root = some (wide "C:\\w\\");
}

abbrev dir : WString
dir = wide "C:\\w\\d"

abbrev fresh : HandleOverlay
fresh = record {
  is_find = true;
  enum_dir = dir;
  started = false;
  snapshot = [];
  cursor = 0;
  filter = wide "N";
  filter_set = true;
}

get_overlay_test_synthetic_names_run :
    get_overlay_test_synthetic_names (wide ";a;;bc") ≡ wide "a" ∷ wide "bc" ∷ []
unfolding get_overlay_test_synthetic_names tokens
get_overlay_test_synthetic_names_run = refl

next_overlay_find_data-emits_once_example :
    names_of listing stat lower unsorted ntdll [] globals
      (scan listing stat lower unsorted ntdll [] globals dir (files ∷ [] ∷ []) fresh)
    ≡ map (cut listing stat lower unsorted ntdll [] globals) (
        take 2
          (pending ntdll (ensure listing stat lower unsorted ntdll [] globals dir fresh files)))
next_overlay_find_data-emits_once_example =
    next_overlay_find_data-emits_once listing stat lower unsorted ntdll [] globals dir files
      ([] ∷ []) fresh

fresh-IsFresh : IsFresh listing stat lower unsorted ntdll globals dir fresh files
unfolding overlay_is_directory lookup wcs_eq
fresh-IsFresh = record { not_started = refl; at_start = refl; named = refl; real = refl }

new_names_run : new_names listing stat lower unsorted ntdll globals dir files ≡ wide "new" ∷ []
unfolding list_backing_children is_absent overlay_path_exists overlay_is_directory lookup wcs_eq
    trim_end overlay_backing_path is_drive_path in_source_root is_at_or_under
new_names_run = refl

scan-lists_new_names_example :
    Perm
      (names_of listing stat lower unsorted ntdll [] globals (
        scan listing stat lower unsorted ntdll [] globals dir
          (files ∷ [] ∷ files ∷ files ∷ [])
          fresh))
      (map (cut listing stat lower unsorted ntdll [] globals) (
        keep
          (λ n. overlay_name_matches_filter ntdll n (wide "N"))
          (new_names listing stat lower unsorted ntdll globals dir files)))
unfolding list_backing_children overlay_is_directory lookup wcs_eq trim_end overlay_backing_path
    is_drive_path in_source_root is_at_or_under
scan-lists_new_names_example =
    scan-lists_new_names listing stat lower unsorted ntdll globals dir files
      ([] ∷ files ∷ files ∷ []) fresh unsorted-IsSort fresh-IsFresh (omega arith)

-- A handle in the middle of a scan, and a call at its end with room for one record of 16 bytes.
abbrev started : HandleOverlay
started = record fresh {
  started = true;
  snapshot = wide "x" ∷ wide "ab" ∷ wide "cd" ∷ [];
  cursor = 1;
  filter = [];
}

abbrev call : Call listing stat lower unsorted ntdll [] globals 12 dir
call = record {
  state = files;
  buffer = replicate 20 0xFF;
  len = 16;
  has_io = true;
  single = false;
  result = status_no_more_files;
}

abbrev names_layout : Layout
names_layout = record { file_name_length_offset = 8; file_name_offset = 12 }

started-IsName : All IsName started.snapshot
started-IsName = (
  (omega arith, (omega arith, tt)),
  (
    (omega arith, (omega arith, (omega arith, tt))),
    ((omega arith, (omega arith, (omega arith, tt))), tt),
  ),
)

call-IsBuffer : IsBuffer listing stat lower unsorted ntdll [] globals 12 dir call
call-IsBuffer = record { room = omega arith; small = omega arith }

insert_overlay_entries-conserves_example :
    delivered_all listing stat lower unsorted ntdll [] globals 12 dir names_layout started
        (call ∷ [])
      ++ pending ntdll
          (after listing stat lower unsorted ntdll [] globals 12 dir started (call ∷ []))
    ≡ pending ntdll started
unfolding try_get_dir_info_layout
insert_overlay_entries-conserves_example =
    insert_overlay_entries-conserves listing stat lower unsorted ntdll [] globals 12 dir
      names_layout refl started (call ∷ []) (call-IsBuffer, tt) started-IsName refl

insert_overlay_entries-in_bounds_example :
    (length (inserted listing stat lower unsorted ntdll [] globals 12 dir started call).buffer
      ≡ length call.buffer)
    × (get_or
          (inserted listing stat lower unsorted ntdll [] globals 12 dir started call).buffer
          17
          0
        ≡ get_or call.buffer 17 0)
    × (information (inserted listing stat lower unsorted ntdll [] globals 12 dir started call)
        ≤ call.len)
unfolding try_get_dir_info_layout
insert_overlay_entries-in_bounds_example =
    insert_overlay_entries-in_bounds listing stat lower unsorted ntdll [] globals 12 dir
      names_layout refl started call 17 call-IsBuffer started-IsName refl (omega arith)

-- Two records of `FileNamesInformation`, `a` and `b`.
abbrev batch : Bytes
batch =
    (16 ∷ 0 ∷ 0 ∷ 0 ∷ 0 ∷ 0 ∷ 0 ∷ 0 ∷ 2 ∷ 0 ∷ 0 ∷ 0 ∷ 0x61 ∷ 0 ∷ 0 ∷ 0 ∷ [])
    ++ (0 ∷ 0 ∷ 0 ∷ 0 ∷ 0 ∷ 0 ∷ 0 ∷ 0 ∷ 2 ∷ 0 ∷ 0 ∷ 0 ∷ 0x62 ∷ 0 ∷ [])

abbrev batch_names : List WString
batch_names = wide "a" ∷ wide "b" ∷ []

batch-Chain : Chain names_layout batch 30 0 batch_names
unfolding read_u32 read_units
batch-Chain =
    link (record { fits = omega arith; name_length = refl; name_units = refl }) refl (omega arith)
      (last (record { fits = omega arith; name_length = refl; name_units = refl }) refl)

-- The policy hides `a`.
abbrev visible : WString → Bool
visible name = wcs_eq name (wide "b")

filter_directory_information-lists_example :
    (out : Bytes) × (filter_directory_information batch 12 30 visible
      ≡ some (out, count (length (keep visible batch_names))))
    × (read_names 30 names_layout out 0 ≡ reveals visible batch_names)
    × (length out ≡ length batch)
unfolding try_get_dir_info_layout
filter_directory_information-lists_example =
    filter_directory_information-lists visible 12 30 names_layout batch batch_names refl
      (omega arith) (omega arith) batch-Chain

-- The hidden name in front of the first visible one is still read.
reveals_run : reveals visible batch_names ≡ batch_names
unfolding reveals wcs_eq
reveals_run = refl

-- A directory of two batches, of which `n` are left. `SL_RESTART_SCAN` starts again.
real : ℕ → ℕ → Reply ℕ
real n flags =
    if flags % 2 == 1
    then record { scan = 1; status = 0; bytes = batch; error = 0 }
    else if n == 0
    then record { scan = 0; status = status_no_more_files; bytes = []; error = 18 }
    else record { scan = n - 1; status = 0; bytes = batch; error = 0 }

batch-IsBatch : IsBatch names_layout 30 batch
batch-IsBatch = record { names = batch_names; room = omega arith; chain = batch-Chain }

real-shrinks :
    (n flags : ℕ)
    → flags % 2 ≡ 0
    → nt_success (real n flags).status ≡ true
    → (real n flags).scan < n
unfolding real
real-shrinks n flags even h = elim (Bool-cases (n == 0)) [
  | inl z ↦ absurd (ground (arith, even, h, z))
  | inr z ↦ ground (arith, even, z)
]

real-IsBatch :
    (n flags : ℕ)
    → flags % 2 ≡ 0
    → nt_success (real n flags).status ≡ true
    → IsBatch names_layout 30 (real n flags).bytes
unfolding real
real-IsBatch n flags even h =
    let odd : (flags % 2 == 1) ≡ false = ground (arith, even) in
    elim (Bool-cases (n == 0)) [
      | inl z ↦ absurd (ground (arith, even, h, z))
      | inr z ↦ rw (odd, z) batch-IsBatch
    ]

real-IsScan : IsScan real (λ status. status) visible 12 30 true names_layout (λ n. n)
unfolding query_again
real-IsScan = record {
  shrinks = λ n flags even h. real-shrinks n flags even h;
  packed = λ flags q even h. real-IsBatch q.scan flags even h;
}

abbrev query : Query ℕ
query = record { scan = 1; information = batch; result = 0; reported_error = 0; last_error = 0 }

apply_enumeration_filter_nt-Shows_example :
    ((q' : Query ℕ) × (apply_enumeration_filter_nt real
          (λ status. status)
          visible
          12
          30
          true
          3
          query
        ≡ some q')
      × Shows real (λ status. status) visible 12 30 true names_layout q')
    × ((q' : Query ℕ) × (apply_enumeration_filter_nt_ex real
            (λ status. status)
            visible
            12
            30
            true
            3
            3
            query
          ≡ some q')
        × Shows real (λ status. status) visible 12 30 true names_layout q')
unfolding try_get_dir_info_layout
apply_enumeration_filter_nt-Shows_example =
    apply_enumeration_filter_nt-Shows real (λ status. status) visible 12 30 true names_layout refl
      (omega arith) (λ n. n) real-IsScan 3 3 query (inr (batch-IsBatch, omega arith))

-- A search that finds `.` alone.
abbrev find_dot : WString → Option RealFind
find_dot pattern =
    some (record { entry = record { data_of = normal; file_name = wide "." }; others = [] })

abbrev dot : RealFind
dot = record { entry = record { data_of = normal; file_name = wide "." }; others = [] }

opened-IsFresh :
    IsFresh listing stat lower unsorted ntdll globals
      (base listing stat lower unsorted ntdll globals find_dot dir dir (wide "N") files)
      (opened listing stat lower unsorted ntdll globals find_dot dir dir (wide "N") files)
      files
unfolding overlay_is_directory lookup wcs_eq trim_end
opened-IsFresh = record { not_started = refl; at_start = refl; named = refl; real = refl }

try_synthesize_overlay_find_first-Synthesized_example :
    Synthesized listing stat lower unsorted ntdll globals find_dot dir
      (wide "C:\\w\\d")
      (wide "N")
      files
unfolding consume overlay_name_matches_filter starts_with wcs_eq
try_synthesize_overlay_find_first-Synthesized_example =
    try_synthesize_overlay_find_first-Synthesized listing stat lower unsorted ntdll globals find_dot
      dir (wide "C:\\w\\d") (wide "N") files dot unsorted-IsSort opened-IsFresh refl refl
