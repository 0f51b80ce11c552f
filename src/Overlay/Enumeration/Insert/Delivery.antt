-- ===== src/Overlay/Enumeration/Insert/Delivery.antt =====
-- What the callers of `InsertOverlayEntries` in src/overlay_engine.cpp get over a whole scan: every name
-- of the overlay once, in order, inside their buffers.
use bazel_sandbox_windows.Base.{ℕ, ◌≤◌, ◌≡◌, refl, ap, sym, ◌∙◌}
use bazel_sandbox_windows.Base.{List, [], ◌∷◌, ◌++◌, append_assoc, Bool, true, subst}
use bazel_sandbox_windows.Base.{some, WString, All}
use bazel_sandbox_windows.Overlay.Globals.{Globals}
use bazel_sandbox_windows.Overlay.Disk.{Disk}
use bazel_sandbox_windows.Overlay.Records.{AttributeData, Layout, try_get_dir_info_layout}
use bazel_sandbox_windows.Overlay.Enumeration.{HandleOverlay, Ntdll}
use bazel_sandbox_windows.Overlay.Enumeration.Scan.{pending}
use bazel_sandbox_windows.Overlay.Enumeration.Insert.{record_size}
use bazel_sandbox_windows.Overlay.Enumeration.Insert.Run.{IsName}
use bazel_sandbox_windows.Overlay.Enumeration.Insert.Calls.{
  Call, inserted, delivered, IsBuffer, IsLast,
}
use bazel_sandbox_windows.Overlay.Enumeration.Insert.Kept.{insert_overlay_entries-Kept}

module _ (D : Disk) (stat : D.Entry → AttributeData) (fold : ℕ → ℕ)
    (sort : (WString → WString → Bool) → List WString → List WString) (ntdll : Ntdll)
    (tests : List WString) (g : Globals) (c : ℕ) (enum_dir : WString) where
  abbrev pub Calls : Type 0
  Calls = List (Call D stat fold sort ntdll tests g c enum_dir)

  abbrev step : HandleOverlay → Call D stat fold sort ntdll tests g c enum_dir → HandleOverlay
  step h call = (inserted D stat fold sort ntdll tests g c enum_dir h call).handle

  -- The handle after the calls.
  unfoldable pub after : HandleOverlay → Calls → HandleOverlay
  after h [] = h
  after h (call ∷ calls) = after (step h call) calls

  -- The names that the callers read, one call after the other.
  unfoldable pub delivered_all : Layout → HandleOverlay → Calls → List WString
  delivered_all l h [] = []
  delivered_all l h (call ∷ calls) =
      delivered D stat fold sort ntdll tests g c enum_dir l h call
      ++ delivered_all l (step h call) calls

  module _ (l : Layout) (laid : try_get_dir_info_layout c ≡ some l) where
    -- A step keeps what the next one needs of the handle.
    step_keeps :
        (h : HandleOverlay) (call : Call D stat fold sort ntdll tests g c enum_dir)
        → IsBuffer D stat fold sort ntdll tests g c enum_dir call
        → All IsName h.snapshot
        → h.started ≡ true
        → ((step h call).snapshot ≡ h.snapshot) × ((step h call).started ≡ true)
    step_keeps h call is_buffer names started =
        let kept =
          insert_overlay_entries-Kept D stat fold sort ntdll tests g c enum_dir l laid h call
            is_buffer names started in
        (ap (λ k. k.snapshot) kept.moved, ap (λ k. k.started) kept.moved ∙ started)

    -- Calls of `InsertOverlayEntries` that continue a scan, for a class of records that it knows and
    -- on a handle with a snapshot, never lose, repeat or reorder a name, whatever the status of the
    -- real calls, the length of the buffers and the state of the disk: the names that the callers
    -- read from its records, then those that are pending after the calls, are those that were pending
    -- before. A buffer has the length that is passed, at most 2^32 - 8; a name is shorter than 2^16.
    pub insert_overlay_entries-conserves :
        (h : HandleOverlay) (calls : Calls)
        → All (IsBuffer D stat fold sort ntdll tests g c enum_dir) calls
        → All IsName h.snapshot
        → h.started ≡ true
        → delivered_all l h calls ++ pending ntdll (after h calls) ≡ pending ntdll h
    unfolding delivered_all after
    insert_overlay_entries-conserves h [] ok names started = refl
    insert_overlay_entries-conserves h (call ∷ calls) ok names started =
        let keeps = step_keeps h call ok.0 names started in
        let kept =
          insert_overlay_entries-Kept D stat fold sort ntdll tests g c enum_dir l laid h call ok.0
            names started in
        let now = delivered D stat fold sort ntdll tests g c enum_dir l h call in
        let rest =
          insert_overlay_entries-conserves (step h call) calls ok.1
            (subst (All IsName) (sym keeps.0) names) keeps.1 in
        append_assoc now (delivered_all l (step h call) calls)
          (pending ntdll (after (step h call) calls))
        ∙ (ap (λ ns. now ++ ns) rest ∙ kept.conserved)

    -- The call is at the end of the real scan, and any name of the handle fits into its buffer.
    pub record IsRoomy (h : HandleOverlay) (call : Call D stat fold sort ntdll tests g c enum_dir)
        : Type 0 where
      pub is_last : IsLast D stat fold sort ntdll tests g c enum_dir h call
      pub fits : All (λ n. record_size l n ≤ call.len) h.snapshot
