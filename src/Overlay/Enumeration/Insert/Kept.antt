-- ===== src/Overlay/Enumeration/Insert/Kept.antt =====
-- What each call of `InsertOverlayEntries` in src/overlay_engine.cpp does to the names that a handle has
-- still to give.
use bazel_sandbox_windows.Base.{
  ℕ, suc, zero, ◌+◌, ◌-◌, ◌^◌, ◌≤◌, ◌≡◌, refl, ap, sym, ◌∙◌, leb, ◌==◌,
}
use bazel_sandbox_windows.Base.{
  List, [], ◌∷◌, ◌++◌, append-nil, Bool, true, false, not, ◌&&◌, ◌||◌, inl, inr, if◌then◌else◌,
}
use bazel_sandbox_windows.Base.{
  some, WString, length, length-append, subst, drop, is_nil, All, arith, Bool-cases, drop-append,
}
use bazel_sandbox_windows.Manifest.Bytes.{Bytes}
use bazel_sandbox_windows.Overlay.Globals.{Globals}
use bazel_sandbox_windows.Overlay.Paths.{device_prefix}
use bazel_sandbox_windows.Overlay.Disk.{Disk, overlay_is_directory}
use bazel_sandbox_windows.Overlay.Records.{
  AttributeData, Layout, try_get_dir_info_layout, align_up8,
}
use bazel_sandbox_windows.Overlay.Records.Chain.{
  read_names, read_names_lem, try_get_dir_info_layout-IsLayout,
}
use bazel_sandbox_windows.Overlay.Enumeration.{
  HandleOverlay, Ntdll, keep, overlay_name_matches_filter,
}
use bazel_sandbox_windows.Overlay.Enumeration.{ensure_overlay_enum_snapshot}
use bazel_sandbox_windows.Overlay.Enumeration.Scan.{pending, drop_add}
use bazel_sandbox_windows.Overlay.Enumeration.Insert.{
  Emit, Inserted, record_size, emit_entries, emit_into, restarted, unchanged, insert_records, blank,
  finish,
}
use bazel_sandbox_windows.Overlay.Enumeration.Insert.{
  status_no_more_files, status_no_such_file, nt_success,
}
use bazel_sandbox_windows.Overlay.Enumeration.Insert.Run.{IsName}
use bazel_sandbox_windows.Overlay.Enumeration.Insert.Start.{
  Outcome, quiet, full, chained, emit_entries-Outcome,
}
use bazel_sandbox_windows.Overlay.Enumeration.Insert.Calls.{
  Call, inserted, delivered, IsBuffer, emitted, same, emits, IsLast, known, way,
}

keep-append :
    (p : WString → Bool) (xs ys : List WString) → keep p (xs ++ ys) ≡ keep p xs ++ keep p ys
keep-append p [] ys = refl
keep-append p (x ∷ xs) ys = elim (Bool-cases (p x)) [
  | inl t ↦ rw t (ap (λ zs. x ∷ zs) (keep-append p xs ys))
  | inr t ↦ rw t (keep-append p xs ys)
]

All-at {κ} :
    (P : WString → Type κ) (xs : List WString) (n : WString) (ys : List WString)
    → All P (xs ++ n ∷ ys)
    → P n
All-at P [] n ys h = h.0
All-at P (x ∷ xs) n ys h = All-at P xs n ys h.1

All-drop {κ} : (P : WString → Type κ) (n : ℕ) (xs : List WString) → All P xs → All P (drop n xs)
All-drop P zero xs h = h
All-drop P (suc n) [] h = tt
All-drop P (suc n) (x ∷ xs) h = All-drop P n xs h.1

-- A cursor at the end has no name in front of it.
drop_past : (n : ℕ) (xs : List WString) → (is_nil xs || leb (length xs) n) ≡ true → drop n xs ≡ []
drop_past zero [] h = refl
drop_past (suc n) [] h = refl
drop_past zero (x ∷ xs) h = absurd (ground arith)
drop_past (suc n) (x ∷ xs) h = ground (arith, drop_past n xs)

-- What a handle has still to give once it passed a part of its names.
pending-passed :
    (ntdll : Ntdll) (h : HandleOverlay) (done left : List WString)
    → drop h.cursor h.snapshot ≡ done ++ left
    → pending ntdll (record h { cursor = h.cursor + length done })
      ≡ keep (λ n. overlay_name_matches_filter ntdll n h.filter) left
unfolding pending
pending-passed ntdll h done left e = ap (keep (λ n. overlay_name_matches_filter ntdll n h.filter)) (
    sym (drop_add h.cursor (length done) h.snapshot)
    ∙ (ap (drop (length done)) e ∙ drop-append done left))

pending-split :
    (ntdll : Ntdll) (h : HandleOverlay) (done left : List WString)
    → drop h.cursor h.snapshot ≡ done ++ left
    → pending ntdll h
      ≡ keep (λ n. overlay_name_matches_filter ntdll n h.filter) done
        ++ pending ntdll (record h { cursor = h.cursor + length done })
unfolding pending
pending-split ntdll h done left e =
    let p = λ (n : WString). overlay_name_matches_filter ntdll n h.filter in
    ap (keep p) e
    ∙ (keep-append p done left
        ∙ ap (λ ns. keep p done ++ ns) (sym (pending-passed ntdll h done left e)))

module _ (D : Disk) (stat : D.Entry → AttributeData) (fold : ℕ → ℕ)
    (sort : (WString → WString → Bool) → List WString → List WString) (ntdll : Ntdll)
    (tests : List WString) (g : Globals) (c : ℕ) (enum_dir : WString) where
  -- What is read from the buffer of a call, what the handle has still to give, and that the rest of the
  -- handle is as it was.
  pub record Kept (h : HandleOverlay) (names : List WString) (h' : HandleOverlay) : Type 0 where
    pub conserved : names ++ pending ntdll h' ≡ pending ntdll h
    pub moved : h' ≡ record h { cursor = h'.cursor }

  abbrev read_from : Layout → ℕ → Inserted → List WString
  read_from l len out = if nt_success out.result then read_names len l out.buffer 0 else []

  passed-Kept :
      (h : HandleOverlay) (done left names : List WString)
      → drop h.cursor h.snapshot ≡ done ++ left
      → keep (λ n. overlay_name_matches_filter ntdll n h.filter) done ≡ names
      → Kept h names (record h { cursor = h.cursor + length done })
  passed-Kept h done left names e k = record {
    conserved =
        ap (λ ns. ns ++ pending ntdll (record h { cursor = h.cursor + length done })) (sym k)
        ∙ sym (pending-split ntdll h done left e);
    moved = refl;
  }

  module _ (l : Layout) (laid : try_get_dir_info_layout c ≡ some l) (s : D.State) (len : ℕ)
      (small : len + 8 ≤ 2 ^ 32) (h : HandleOverlay) (b : Bytes) (has_io : Bool) (result : ℕ)
      (failed : nt_success result ≡ false) where
    finish-Kept :
        (e : Emit)
        → Outcome D stat fold sort ntdll tests g l c laid enum_dir s len small h.filter
            (drop h.cursor h.snapshot)
            (blank D stat fold sort ntdll tests g b h)
            e
        → Kept h (read_from l len (finish has_io h result e)) (finish has_io h result e).handle
    unfolding finish
    finish-Kept e (quiet done a w k) =
        rw (w, failed) (passed-Kept h done [] [] (a ∙ sym (append-nil done)) k)
    finish-Kept e (full done n left a w k m f) =
        rw (w, failed) (passed-Kept h done (n ∷ left) [] a k)
    finish-Kept e (chained done left n rest a w k ch i z f y) =
        let lay = try_get_dir_info_layout-IsLayout c l laid in
        rw (y, w, read_names_lem lay e.buffer len i ch) (passed-Kept h done left (n ∷ rest) a k)

    -- A call that emits, where every record fits, makes what is pending shorter.
    finish-progress :
        (e : Emit)
        → All (λ n. record_size l n ≤ len) (drop h.cursor h.snapshot)
        → Outcome D stat fold sort ntdll tests g l c laid enum_dir s len small h.filter
            (drop h.cursor h.snapshot)
            (blank D stat fold sort ntdll tests g b h)
            e
        → length (pending ntdll (finish has_io h result e).handle) ≤ length (pending ntdll h) - 1
    unfolding finish
    finish-progress e fits (quiet done a w k) =
        let gone = ap length (pending-passed ntdll h done [] (a ∙ sym (append-nil done))) in
        rw w (omega arith)
    finish-progress e fits (full done n left a w k m f) =
        let fit =
          All-at (λ n. record_size l n ≤ len) done n left
            (subst (All (λ n. record_size l n ≤ len)) a fits) in
        absurd (omega arith)
    finish-progress e fits (chained done left n rest a w k ch i z f y) =
        let split = ap length (pending-split ntdll h done left a) in
        let some_done = ap length k in
        let h' : HandleOverlay = record h { cursor = h.cursor + length done } in
        let sum =
          length-append (keep (λ n. overlay_name_matches_filter ntdll n h.filter) done)
            (pending ntdll h') in
        rw (y, w) (omega arith)

  module _ (l : Layout) (laid : try_get_dir_info_layout c ≡ some l) where
    pub emit_outcome :
        (h : HandleOverlay) (call : Call D stat fold sort ntdll tests g c enum_dir)
        (is_buffer : IsBuffer D stat fold sort ntdll tests g c enum_dir call)
        → All IsName h.snapshot
        → Outcome D stat fold sort ntdll tests g l c laid enum_dir call.state call.len
            is_buffer.small h.filter
            (drop h.cursor h.snapshot)
            (blank D stat fold sort ntdll tests g call.buffer h)
            (emit_entries D stat fold sort ntdll tests g l c enum_dir call.state call.len
              call.single h.filter
              (drop h.cursor h.snapshot)
              (blank D stat fold sort ntdll tests g call.buffer h))
    unfolding align_up8
    emit_outcome h call is_buffer names =
        emit_entries-Outcome D stat fold sort ntdll tests g l c laid enum_dir call.state call.len
          is_buffer.small h.filter call.single (drop h.cursor h.snapshot)
          (blank D stat fold sort ntdll tests g call.buffer h)
          (All-drop IsName h.cursor h.snapshot names)
          (record { no_prev = refl; at_zero = refl; none_emitted = refl; room = is_buffer.room })

    -- One call gives a first part of what is pending, and the rest stays.
    pub insert_overlay_entries-Kept :
        (h : HandleOverlay) (call : Call D stat fold sort ntdll tests g c enum_dir)
        → IsBuffer D stat fold sort ntdll tests g c enum_dir call
        → All IsName h.snapshot
        → h.started ≡ true
        → Kept h
            (delivered D stat fold sort ntdll tests g c enum_dir l h call)
            (inserted D stat fold sort ntdll tests g c enum_dir h call).handle
    unfolding emit_into
    insert_overlay_entries-Kept h call is_buffer names started =
        elim (way D stat fold sort ntdll tests g c enum_dir l laid h call started) [
          | same e ↦ elim (Bool-cases (nt_success call.result)) [
            | inl t ↦ rw (e, t) (record { conserved = refl; moved = refl })
            | inr t ↦ rw (e, t) (record { conserved = refl; moved = refl })
          ]
          | emits e t ↦
              let kept =
                finish-Kept l laid call.state call.len is_buffer.small h call.buffer call.has_io
                  call.result t _ (emit_outcome h call is_buffer names) in
              rw (t, e) kept
        ]

    past_guard :
        (h : HandleOverlay) (call : Call D stat fold sort ntdll tests g c enum_dir)
        → IsLast D stat fold sort ntdll tests g c enum_dir h call
        → (not (is_nil enum_dir)
            && not (overlay_is_directory D call.state (device_prefix ++ enum_dir)))
          ≡ false
    past_guard h call is_last = elim (Bool-cases (is_nil enum_dir)) [
      | inl e ↦ rw e
      | inr e ↦ rw (e, is_last.real)
    ]

    -- A call at the end of the real scan, into a buffer that any record fits, makes it shorter.
    pub insert_overlay_entries-progress :
        (h : HandleOverlay) (call : Call D stat fold sort ntdll tests g c enum_dir)
        → IsBuffer D stat fold sort ntdll tests g c enum_dir call
        → All IsName h.snapshot
        → h.started ≡ true
        → IsLast D stat fold sort ntdll tests g c enum_dir h call
        → All (λ n. record_size l n ≤ call.len) h.snapshot
        → length (pending ntdll (inserted D stat fold sort ntdll tests g c enum_dir h call).handle)
          ≤ length (pending ntdll h) - 1
    unfolding insert_records ensure_overlay_enum_snapshot restarted emit_into pending
    insert_overlay_entries-progress h call is_buffer names started is_last fits =
        let dir = past_guard h call is_last in
        elim (Bool-cases (is_nil h.snapshot || leb (length h.snapshot) h.cursor)) [
          | inl b ↦
              let same : inserted D stat fold sort ntdll tests g c enum_dir h call
                  ≡ unchanged call.buffer call.result h =
                known D stat fold sort ntdll tests g c enum_dir l laid h call
                ∙ rw (started, dir, b) in
              let gone = drop_past h.cursor h.snapshot b in rw (same, gone) (omega arith)
          | inr b ↦
              let failed : nt_success call.result ≡ false = ap nt_success is_last.exhausted in
              let last : (call.result == status_no_more_files || call.result == status_no_such_file)
                  ≡ true =
                ap (λ r. r == status_no_more_files || r == status_no_such_file) is_last.exhausted in
              let same : inserted D stat fold sort ntdll tests g c enum_dir h call
                  ≡ emitted D stat fold sort ntdll tests g c enum_dir l h call =
                known D stat fold sort ntdll tests g c enum_dir l laid h call
                ∙ rw (started, dir, b, failed, last) in
              let less =
                finish-progress l laid call.state call.len is_buffer.small h call.buffer call.has_io
                  call.result failed _
                  (All-drop (λ n. record_size l n ≤ call.len) h.cursor h.snapshot fits)
                  (emit_outcome h call is_buffer names) in
              rw same less
        ]
