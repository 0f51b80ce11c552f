-- ===== src/Overlay/Enumeration/Insert/Run.antt =====
-- The emitting loop of `InsertOverlayEntries` in src/overlay_engine.cpp builds one chain of records.
use bazel_sandbox_windows.Base.{ℕ, ◌+◌, ◌-◌, ◌*◌, ◌%◌, ◌^◌, ◌≤◌, ◌<◌, ◌≡◌, refl, sym, ◌∙◌}
use bazel_sandbox_windows.Base.{List, Bool, true, ◌⊎◌, inl, inr}
use bazel_sandbox_windows.Base.{Option, none, some, WString, length, All, arith}
use bazel_sandbox_windows.Manifest.Bytes.{Bytes}
use bazel_sandbox_windows.Manifest.Bytes.Laws.{read_u32}
use bazel_sandbox_windows.Overlay.Globals.{Globals}
use bazel_sandbox_windows.Overlay.Paths.{overlay_backing_path, join_dir_and_name}
use bazel_sandbox_windows.Overlay.Disk.{Disk}
use bazel_sandbox_windows.Overlay.Records.{
  AttributeData, Layout, try_get_dir_info_layout, align_up8, put_record,
}
use bazel_sandbox_windows.Overlay.Records.Reads.{
  Agree, read_u32-Agree, read_u32-store_u32, length-store_u32,
}
use bazel_sandbox_windows.Overlay.Records.Chain.{
  RecordAt, try_get_dir_info_layout-IsLayout, RecordAt-Agree,
}
use bazel_sandbox_windows.Overlay.Records.Stored.{
  length-put_record, put_record-Agree, put_record-next, put_record-RecordAt, store_u32-Agree,
}
use bazel_sandbox_windows.Overlay.Enumeration.{Ntdll, backing_stat}
use bazel_sandbox_windows.Overlay.Enumeration.Insert.{Emit, record_size, link_previous, emit_one}

-- A name of a file: UTF-16 code units, fewer than 2^16 of them.
abbrev pub IsName : WString → Type 0
IsName name = (length name < 2 ^ 16) × All (λ u. u < 2 ^ 16) name

layout_high : (c : ℕ) (l : Layout) → try_get_dir_info_layout c ≡ some l → l.file_name_offset ≤ 104
unfolding try_get_dir_info_layout
layout_high c l h = ground arith

pub record_size_lem :
    (c : ℕ) (l : Layout) (name : WString)
    → try_get_dir_info_layout c ≡ some l
    → length name < 2 ^ 16
    → record_size l name ≡ l.file_name_offset + length name * 2
record_size_lem c l name h short = let high = layout_high c l h in omega arith

pub align_up8-le : (v : ℕ) → v + 8 ≤ 2 ^ 32 → v ≤ align_up8 v
unfolding align_up8
align_up8-le v h = omega arith

-- The record at `p` is the last that was written.
pub record Linked (l : Layout) (len p : ℕ) (name : WString) (e : Emit) : Type 0 where
  pub is_prev : e.prev ≡ some p
  pub at : RecordAt l e.buffer e.last_written_end p name
  pub is_last : read_u32 e.buffer p ≡ 0
  pub before : e.last_written_end ≤ e.write_off
  pub inside : e.last_written_end ≤ len
  pub room : len ≤ length e.buffer
  pub any : e.emitted_any ≡ true

pub RecordAt-weaken :
    {l : Layout} {b : Bytes} {limit limit' rec : ℕ} {name : WString}
    → limit ≤ limit'
    → RecordAt l b limit rec name
    → RecordAt l b limit' rec name
RecordAt-weaken h r =
    let fits = r.fits in
    record { fits = omega arith; name_length = r.name_length; name_units = r.name_units }

-- Where the previous record starts, if there is one, its first word is before `w`.
abbrev pub Before : Option ℕ → ℕ → Type 0
Before prev w = (prev ≡ none) ⊎ ((p : ℕ) × (prev ≡ some p) × (p + 4 ≤ w))

link_previous-Agree :
    (b : Bytes) (prev : Option ℕ) (w lo hi : ℕ)
    → Before prev w
    → w ≤ lo
    → Agree (link_previous b prev w) b lo hi
unfolding link_previous
link_previous-Agree b none w lo hi h below = λ j x y. refl
link_previous-Agree b (some p) w lo hi (inl e) below = absurd (cc)
link_previous-Agree b (some p) w lo hi (inr (q, e, h)) below =
    let same : p ≡ q = cc in
    store_u32-Agree b p ((w + 2 ^ 32 - p) % 2 ^ 32) lo hi (inr (omega arith))

length-link_previous :
    (b : Bytes) (prev : Option ℕ) (w : ℕ) → length (link_previous b prev w) ≡ length b
unfolding link_previous
length-link_previous b none w = refl
length-link_previous b (some p) w = length-store_u32 b p ((w + 2 ^ 32 - p) % 2 ^ 32)

module _ (D : Disk) (stat : D.Entry → AttributeData) (fold : ℕ → ℕ)
    (sort : (WString → WString → Bool) → List WString → List WString) (ntdll : Ntdll)
    (tests : List WString) (g : Globals) (l : Layout) (c : ℕ)
    (laid : try_get_dir_info_layout c ≡ some l) (enum_dir : WString) (s : D.State) (len : ℕ)
    (small : len + 8 ≤ 2 ^ 32) where
  abbrev one : WString → Emit → Emit
  one = emit_one D stat fold sort ntdll tests g l c enum_dir s

  pub length-emit_one : (name : WString) (e : Emit) → length (one name e).buffer ≡ length e.buffer
  unfolding emit_one
  length-emit_one name e =
      let path = overlay_backing_path fold g (join_dir_and_name enum_dir name) in
      let found = backing_stat D stat fold sort ntdll tests g enum_dir s name in
      let put = put_record e.buffer e.write_off l c name path found in
      length-link_previous put e.prev e.write_off
      ∙ length-put_record e.buffer e.write_off c l name path found laid

  module _ (name : WString) (is_name : IsName name) (e : Emit) (room : len ≤ length e.buffer)
      (fits : e.write_off + record_size l name ≤ len) (before : Before e.prev e.write_off) where
    abbrev put : Bytes
    put =
        put_record e.buffer e.write_off l c name
          (overlay_backing_path fold g (join_dir_and_name enum_dir name))
          (backing_stat D stat fold sort ntdll tests g enum_dir s name)

    -- A round leaves the new record as the last one.
    pub emit_one-Linked : Linked l len e.write_off name (one name e)
    unfolding emit_one
    emit_one-Linked =
        let size = record_size_lem c l name laid is_name.0 in
        let lay = try_get_dir_info_layout-IsLayout c l laid in
        let low = lay.length_low in
        let high = lay.offset_low in
        let w = e.write_off in
        let end = (w + record_size l name) % 2 ^ 32 in
        let flat : end ≡ w + record_size l name = omega arith in
        let path = overlay_backing_path fold g (join_dir_and_name enum_dir name) in
        let found = backing_stat D stat fold sort ntdll tests g enum_dir s name in
        let inside : w + l.file_name_offset + length name * 2 ≤ length e.buffer = omega arith in
        let length_put = length-put_record e.buffer w c l name path found laid in
        let same = λ (lo hi : ℕ) (h : w ≤ lo). λ (j : ℕ) (x : lo ≤ j) (y : j < hi).
          sym (link_previous-Agree put e.prev w lo hi before h j x y) in
        let length_link = length-link_previous put e.prev w in
        record {
          is_prev = refl;
          at = RecordAt-Agree lay put (link_previous put e.prev w) (same _ _ (omega arith)) (
              put_record-RecordAt e.buffer w c l name path found laid inside end (omega arith)
                (omega arith) is_name.1);
          is_last =
              sym (read_u32-Agree put (link_previous put e.prev w) w (same _ _ (omega arith)))
              ∙ put_record-next e.buffer w c l name path found laid inside;
          before = align_up8-le end (omega arith);
          inside = omega arith;
          room = omega arith;
          any = refl;
        }

    -- A round changes nothing behind the new record.
    pub emit_one-above :
        (lo hi : ℕ) → (one name e).last_written_end ≤ lo → Agree (one name e).buffer e.buffer lo hi
    unfolding emit_one
    emit_one-above lo hi h j x y =
        let size = record_size_lem c l name laid is_name.0 in
        let w = e.write_off in
        let flat : (w + record_size l name) % 2 ^ 32 ≡ w + record_size l name = omega arith in
        let path = overlay_backing_path fold g (join_dir_and_name enum_dir name) in
        let found = backing_stat D stat fold sort ntdll tests g enum_dir s name in
        link_previous-Agree put e.prev w lo hi before (omega arith) j x y
        ∙ put_record-Agree e.buffer w c l name path found laid lo hi (inr (omega arith)) j x y

    -- A round after the record at `p` changes nothing before it but the word that links it.
    module _ (p : ℕ) (is_prev : e.prev ≡ some p) where
      pub emit_one-below :
          (lo hi : ℕ)
          → hi ≤ e.write_off
          → (hi ≤ p) ⊎ (p + 4 ≤ lo)
          → Agree (one name e).buffer e.buffer lo hi
      unfolding emit_one link_previous
      emit_one-below lo hi under apart j x y =
          let path = overlay_backing_path fold g (join_dir_and_name enum_dir name) in
          let found = backing_stat D stat fold sort ntdll tests g enum_dir s name in
          let w = e.write_off in
          rw is_prev (store_u32-Agree put p ((w + 2 ^ 32 - p) % 2 ^ 32) lo hi apart j x y)
          ∙ put_record-Agree e.buffer w c l name path found laid lo hi (inl under) j x y

      -- The word of the record at `p` leads to the new record.
      pub emit_one-next :
          p + 4 ≤ e.write_off → e.write_off ≤ len → read_u32 (one name e).buffer p ≡ e.write_off - p
      unfolding emit_one link_previous
      emit_one-next under over =
          let w = e.write_off in
          let path = overlay_backing_path fold g (join_dir_and_name enum_dir name) in
          let found = backing_stat D stat fold sort ntdll tests g enum_dir s name in
          let same = length-put_record e.buffer w c l name path found laid in
          let flat : (w + 2 ^ 32 - p) % 2 ^ 32 % 2 ^ 32 ≡ w - p = omega arith in
          rw is_prev (read_u32-store_u32 put p ((w + 2 ^ 32 - p) % 2 ^ 32) (omega arith)) ∙ flat
