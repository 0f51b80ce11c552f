-- ===== src/Overlay/Records/Chain.antt =====
-- Chains of directory-information records, as a caller of src/overlay_engine.cpp reads them from a
-- buffer, and the record that one call of the stores builds.
use bazel_sandbox_windows.Base.{ℕ, suc, zero, ◌+◌, ◌*◌, ◌/◌, ◌≤◌, ◌<◌, ◌≡◌}
use bazel_sandbox_windows.Base.{List, [], ◌∷◌, false, sym, ◌==◌, if◌then◌else◌}
use bazel_sandbox_windows.Base.{WString, length, arith, ◌∙◌, some}
use bazel_sandbox_windows.Manifest.Bytes.{Bytes}
use bazel_sandbox_windows.Manifest.Bytes.Laws.{read_u32}
use bazel_sandbox_windows.Overlay.Records.{Layout, try_get_dir_info_layout}
use bazel_sandbox_windows.Overlay.Records.Reads.{read_units, Agree}
use bazel_sandbox_windows.Overlay.Records.Reads.{read_u32-Agree, read_units-Agree}

-- A record at `rec` that holds the name, inside the first `limit` bytes.
pub record RecordAt (l : Layout) (b : Bytes) (limit rec : ℕ) (name : WString) : Type 0 where
  pub fits : rec + l.file_name_offset + length name * 2 ≤ limit
  pub name_length : read_u32 b (rec + l.file_name_length_offset) ≡ length name * 2
  pub name_units : read_units b (rec + l.file_name_offset) (length name) ≡ name

-- The names of the records that a reader meets from `rec` on.
pub data Chain (l : Layout) (b : Bytes) (limit : ℕ) : ℕ → List WString → Type 0 where
  last :
      {rec : ℕ} {name : WString}
      → RecordAt l b limit rec name
      → read_u32 b rec ≡ 0
      → Chain l b limit rec (name ∷ [])
  link :
      {rec next : ℕ} {name : WString} {names : List WString}
      → RecordAt l b limit rec name
      → read_u32 b rec ≡ next
      → l.file_name_offset + length name * 2 ≤ next
      → Chain l b limit (rec + next) names
      → Chain l b limit rec (name ∷ names)

-- The names that a caller reads from the buffer, on fuel: `n` records at most.
unfoldable pub read_names : ℕ → Layout → Bytes → ℕ → List WString
read_names zero l b rec = []
read_names (suc n) l b rec =
    let units = read_u32 b (rec + l.file_name_length_offset) / 2 in
    let name = read_units b (rec + l.file_name_offset) units in
    let next = read_u32 b rec in
    let rest = read_names n l b (rec + next) in if next == 0 then name ∷ [] else name ∷ rest

-- The next-entry word, the length word and the name do not overlap.
pub record IsLayout (l : Layout) : Type 0 where
  pub length_low : 4 ≤ l.file_name_length_offset
  pub offset_low : l.file_name_length_offset + 4 ≤ l.file_name_offset

pub try_get_dir_info_layout-IsLayout :
    (c : ℕ) (l : Layout) → try_get_dir_info_layout c ≡ some l → IsLayout l
unfolding try_get_dir_info_layout
try_get_dir_info_layout-IsLayout c l h = record {
  length_low = ground arith;
  offset_low = ground arith;
}

pub RecordAt-Agree :
    {l : Layout} (lay : IsLayout l) (b b' : Bytes) {limit rec : ℕ} {name : WString}
    → Agree b b' (rec + 4) (rec + l.file_name_offset + length name * 2)
    → RecordAt l b limit rec name
    → RecordAt l b' limit rec name
RecordAt-Agree {l} lay b b' {limit} {rec} {name} h r =
    let low = lay.length_low in
    let high = lay.offset_low in
    let p = rec + l.file_name_length_offset in
    let q = rec + l.file_name_offset in
    record {
      fits = r.fits;
      name_length =
          sym (
            read_u32-Agree b b' p
              λ j (lo : p ≤ j) (hi : j < p + 4). h j (omega arith) (omega arith))
          ∙ r.name_length;
      name_units =
          sym (
            read_units-Agree b b' q (length name)
              λ j (lo : q ≤ j) (hi : j < q + length name * 2). h j (omega arith) (omega arith))
          ∙ r.name_units;
    }

pub Chain-Agree :
    {l : Layout} (lay : IsLayout l) (b b' : Bytes) {limit rec : ℕ} {names : List WString}
    → Agree b b' rec limit
    → Chain l b limit rec names
    → Chain l b' limit rec names
Chain-Agree {l} lay b b' {limit} {rec} h (last {name = name} r e) =
    let fits = r.fits in
    let low = lay.length_low in
    let high = lay.offset_low in
    last (RecordAt-Agree lay b b' (λ j (lo : rec + 4 ≤ j) hi. h j (omega arith) (omega arith)) r) (
      sym (
        read_u32-Agree b b' rec
          λ j (lo : rec ≤ j) (hi : j < rec + 4). h j (omega arith) (omega arith))
      ∙ e)
Chain-Agree {l} lay b b' {limit} {rec} h (link {next = next} {name = name} r e far rest) =
    let fits = r.fits in
    let low = lay.length_low in
    let high = lay.offset_low in
    link (RecordAt-Agree lay b b' (λ j (lo : rec + 4 ≤ j) hi. h j (omega arith) (omega arith)) r)
      (sym (
          read_u32-Agree b b' rec
            λ j (lo : rec ≤ j) (hi : j < rec + 4). h j (omega arith) (omega arith))
        ∙ e)
      far
      (Chain-Agree lay b b' (λ j (lo : rec + next ≤ j) hi. h j (omega arith) (omega arith)) rest)

-- A reader with as much fuel as there are records reads the names of the chain.
read_names-Chain :
    {l : Layout} (lay : IsLayout l) (b : Bytes) (n : ℕ) {limit rec : ℕ} {names : List WString}
    → length names ≤ n
    → Chain l b limit rec names
    → read_names n l b rec ≡ names
unfolding read_names
read_names-Chain lay b zero h (last r e) = absurd (omega arith)
read_names-Chain lay b zero h (link r e far rest) = absurd (omega arith)
read_names-Chain {l} lay b (suc n) h (last {name = name} r e) =
    let half : length name * 2 / 2 ≡ length name = omega arith in
    rw (e, r.name_length, half, r.name_units)
read_names-Chain {l} lay b (suc n) h (link {next = next} {name = name} r e far rest) =
    let half : length name * 2 / 2 ≡ length name = omega arith in
    let high = lay.offset_low in
    let some_next : (next == 0) ≡ false = ground arith in
    rw
      (e, r.name_length, half, r.name_units, some_next, read_names-Chain lay b n (omega arith) rest)

-- A chain has no more records than bytes.
pub length-Chain :
    {l : Layout} (lay : IsLayout l) (b : Bytes) {limit rec : ℕ} {names : List WString}
    → Chain l b limit rec names
    → rec + length names ≤ limit
length-Chain {l} lay b {rec = rec} (last {name = name} r e) =
    let fits = r.fits in let high = lay.offset_low in omega arith
length-Chain {l} lay b {rec = rec} (link {next = next} r e far rest) =
    let fits = r.fits in
    let high = lay.offset_low in let more = length-Chain lay b rest in omega arith

-- Fuel for as many records as the chain has bytes is enough.
pub read_names_lem :
    {l : Layout} (lay : IsLayout l) (b : Bytes) {limit : ℕ} {names : List WString} (n : ℕ)
    → limit ≤ n
    → Chain l b limit 0 names
    → read_names n l b 0 ≡ names
read_names_lem lay b n h ch =
    let few = length-Chain lay b ch in read_names-Chain lay b n (omega arith) ch
