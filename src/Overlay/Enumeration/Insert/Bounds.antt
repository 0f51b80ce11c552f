-- ===== src/Overlay/Enumeration/Insert/Bounds.antt =====
-- `InsertOverlayEntries` of src/overlay_engine.cpp stays inside the caller's buffer.
use bazel_sandbox_windows.Base.{ℕ, ◌+◌, ◌^◌, ◌≤◌, ◌≡◌, refl, Bool, true, Bool-cases, suc}
use bazel_sandbox_windows.Base.{
  List, none, some, WString, length, All, arith, get_or, inl, inr, drop,
}
use bazel_sandbox_windows.Manifest.Bytes.{Bytes}
use bazel_sandbox_windows.Overlay.Globals.{Globals}
use bazel_sandbox_windows.Overlay.Disk.{Disk}
use bazel_sandbox_windows.Overlay.Records.{AttributeData, Layout, try_get_dir_info_layout}
use bazel_sandbox_windows.Overlay.Enumeration.{HandleOverlay, Ntdll}
use bazel_sandbox_windows.Overlay.Enumeration.Insert.{Emit, Inserted, blank, finish, emit_into}
use bazel_sandbox_windows.Overlay.Enumeration.Insert.Run.{IsName}
use bazel_sandbox_windows.Overlay.Enumeration.Insert.Start.{Outcome, quiet, full, chained}
use bazel_sandbox_windows.Overlay.Enumeration.Insert.Calls.{
  Call, inserted, IsBuffer, same, emits, way,
}
use bazel_sandbox_windows.Overlay.Enumeration.Insert.Kept.{emit_outcome}

-- The last byte that the caller is told of; 0 where nothing is reported.
abbrev pub information : Inserted → ℕ
information out = elim out.io_status [ none ↦ 0 | some (status, end) ↦ end ]

module _ (D : Disk) (stat : D.Entry → AttributeData) (fold : ℕ → ℕ)
    (sort : (WString → WString → Bool) → List WString → List WString) (ntdll : Ntdll)
    (tests : List WString) (g : Globals) (c : ℕ) (enum_dir : WString) where
  -- The buffer behind `len`, and its size, are as they were.
  pub record Bounded (b : Bytes) (len : ℕ) (out : Inserted) : Type 0 where
    pub size : length out.buffer ≡ length b
    pub behind : (j : ℕ) → len ≤ j → get_or out.buffer j 0 ≡ get_or b j 0
    pub reported : information out ≤ len

  module _ (l : Layout) (laid : try_get_dir_info_layout c ≡ some l) where
    finish-Bounded :
        (s : D.State) (len : ℕ) (small : len + 8 ≤ 2 ^ 32) (h : HandleOverlay) (b : Bytes)
        (has_io : Bool) (result : ℕ) (e : Emit)
        → Outcome D stat fold sort ntdll tests g l c laid enum_dir s len small h.filter
            (drop h.cursor h.snapshot)
            (blank D stat fold sort ntdll tests g b h)
            e
        → Bounded b len (finish has_io h result e)
    unfolding finish
    finish-Bounded s len small h b has_io result e (quiet done a w k) =
        rw w (record { size = refl; behind = λ j x. refl; reported = omega arith })
    finish-Bounded s len small h b has_io result e (full done n left a w k m f) =
        rw w (record { size = refl; behind = λ j x. refl; reported = omega arith })
    finish-Bounded s len small h b has_io result e (chained done left n rest a w k ch i z f y) =
        rw y (record {
          size = z;
          behind = λ j x. f (suc j) j (omega arith) (omega arith);
          reported = elim (Bool-cases has_io) [ inl t ↦ rw t i | inr t ↦ rw t (omega arith) ];
        })

    -- A call of `InsertOverlayEntries` that continues a scan, for a class of records that it knows and
    -- on a handle with a snapshot, writes no byte behind the length that the caller passes, keeps the
    -- buffer's size and reports at most that length. The buffer is at least as long, the length is at
    -- most 2^32 - 8, and a name is shorter than 2^16.
    pub insert_overlay_entries-in_bounds :
        (h : HandleOverlay) (call : Call D stat fold sort ntdll tests g c enum_dir) (j : ℕ)
        → IsBuffer D stat fold sort ntdll tests g c enum_dir call
        → All IsName h.snapshot
        → h.started ≡ true
        → call.len ≤ j
        → let out = inserted D stat fold sort ntdll tests g c enum_dir h call in
          (length out.buffer ≡ length call.buffer)
          × (get_or out.buffer j 0 ≡ get_or call.buffer j 0)
          × (information out ≤ call.len)
    unfolding emit_into
    insert_overlay_entries-in_bounds h call j is_buffer names started past =
        elim (way D stat fold sort ntdll tests g c enum_dir l laid h call started) [
          | same w ↦ rw w (refl, refl, omega arith)
          | emits w t ↦
              let bounded =
                finish-Bounded call.state call.len is_buffer.small h call.buffer call.has_io
                  call.result _
                  (emit_outcome D stat fold sort ntdll tests g c enum_dir l laid h call is_buffer
                    names) in
              rw w (bounded.size, bounded.behind j past, bounded.reported)
        ]
