-- ===== src/Overlay/Enumeration/FindFirst/Entries.antt =====
-- The search handle that `TrySynthesizeOverlayFindFirstW` of src/overlay_engine.cpp opens shows the
-- overlay's names, and there is one exactly when there is a name to show.
use bazel_sandbox_windows.Base.{ℕ, suc, ◌≤◌, ◌≡◌, refl, ap, ◌∙◌}
use bazel_sandbox_windows.Base.{List, [], ◌∷◌, ◌++◌, Bool, true, false, not, inl, inr}
use bazel_sandbox_windows.Base.{
  Option, none, some, WString, wide, is_nil, trim_end, length, arith, Bool-cases,
}
use bazel_sandbox_windows.Overlay.Globals.{Globals}
use bazel_sandbox_windows.Overlay.Disk.{Disk}
use bazel_sandbox_windows.Overlay.Records.{AttributeData}
use bazel_sandbox_windows.Overlay.Enumeration.{
  HandleOverlay, Ntdll, FindData, keep, is_slash, find_data,
}
use bazel_sandbox_windows.Overlay.Enumeration.{
  overlay_name_matches_filter, is_absent, list_backing_children,
}
use bazel_sandbox_windows.Overlay.Enumeration.Scan.{
  pending, ensure, stop, give, step, ensured, ensure-started, next,
}
use bazel_sandbox_windows.Overlay.Enumeration.Snapshot.{
  IsSort, IsFresh, new_names, pending-fresh, perm-length,
}
use bazel_sandbox_windows.Overlay.Enumeration.FindFirst.{
  RealFind, FindHandle, consume, registered, any_match, first_entry,
}
use bazel_sandbox_windows.Overlay.Enumeration.FindFirst.{
  open_search, first_overlay_entry, try_synthesize_overlay_find_first,
}

module _ (D : Disk) (stat : D.Entry → AttributeData) (fold : ℕ → ℕ)
    (sort : (WString → WString → Bool) → List WString → List WString) (ntdll : Ntdll) (g : Globals)
    (find_first : WString → Option RealFind) (policy_dir dir_path expr : WString)
    (s : D.State) where
  abbrev pub base : WString
  base = trim_end is_slash dir_path

  abbrev pub opened : HandleOverlay
  opened = registered policy_dir expr

  -- The names that the search has to show.
  abbrev pub shown : List WString
  shown =
      keep (λ n. overlay_name_matches_filter ntdll n expr)
        (new_names D stat fold sort ntdll g base s)

  abbrev pub synthesized : Option (FindHandle × FindData)
  synthesized =
      try_synthesize_overlay_find_first D stat fold sort ntdll [] g find_first true policy_dir
        dir_path expr s

  any_match_lem :
      (names : List WString)
      → any_match D stat fold sort ntdll [] g base s expr names
        ≡ not (
            is_nil (
              keep
                (λ n. overlay_name_matches_filter ntdll n expr)
                (keep (is_absent D stat fold sort ntdll [] g base s) names)))
  unfolding any_match
  any_match_lem [] = refl
  any_match_lem (name ∷ names) =
      elim (Bool-cases (is_absent D stat fold sort ntdll [] g base s name)) [
        | inl a ↦ elim (Bool-cases (overlay_name_matches_filter ntdll name expr)) [
          | inl m ↦ rw (a, m)
          | inr m ↦ rw (a, m) (any_match_lem names)
        ]
        | inr a ↦ rw a (any_match_lem names)
      ]

  -- No name is shown and no handle is returned, or the entry is the first of the names that the handle
  -- has to show and the handle has the others pending.
  pub data Synthesized : Type 0 where
    nothing : shown ≡ [] → synthesized ≡ none → Synthesized
    entry :
        (name : WString) (h : FindHandle)
        → synthesized ≡ some (h, find_data D stat fold sort ntdll [] g base s name)
        → h.others ≡ []
        → pending ntdll (ensure D stat fold sort ntdll [] g base opened s)
          ≡ name ∷ pending ntdll h.overlay
        → length shown ≡ suc (length (pending ntdll h.overlay))
        → Synthesized

  guarded : (is_nil base ≡ false) → shown ≡ [] → synthesized ≡ none
  unfolding try_synthesize_overlay_find_first
  guarded named e =
      let none_there =
        any_match_lem (list_backing_children D stat fold sort ntdll [] g base s)
        ∙ ap (λ ns. not (is_nil ns)) e in
      rw (named, none_there)

  searched :
      (found : RealFind)
      → is_nil base ≡ false
      → is_nil shown ≡ false
      → find_first (base ++ wide "\\*") ≡ some found
      → consume ntdll expr found.entry found.others ≡ none
      → synthesized
        ≡ first_overlay_entry D stat fold sort ntdll [] g []
            (next D stat fold sort ntdll [] g base opened s)
  unfolding try_synthesize_overlay_find_first open_search first_entry
  searched found named some_there opens none_real =
      let there =
        any_match_lem (list_backing_children D stat fold sort ntdll [] g base s)
        ∙ ap not some_there in
      rw (named, there)
        (ap (open_search D stat fold sort ntdll [] g true base opened s) opens ∙ rw none_real)

  -- `TrySynthesizeOverlayFindFirstW` in a directory that is there on the real disk, where the real search
  -- opens and none of its entries match the wildcard, without test names, and where the handle is found
  -- after `RegisterHandleOverlay`: it returns no handle
  -- exactly where no child of the backing directory is both absent from the real directory and a match;
  -- else the entry is of the first such name in the handle's order, the real entries are consumed, and
  -- the handle has the other names pending, one fewer than there are. `std::sort` is taken to give a
  -- permutation of its input.
  pub try_synthesize_overlay_find_first-Synthesized :
      (found : RealFind)
      → IsSort sort
      → IsFresh D stat fold sort ntdll g base opened s
      → find_first (base ++ wide "\\*") ≡ some found
      → consume ntdll expr found.entry found.others ≡ none
      → Synthesized
  unfolding first_overlay_entry
  try_synthesize_overlay_find_first-Synthesized found sorts fresh opens none_real =
      let size = perm-length (pending-fresh D stat fold sort ntdll g base opened s sorts fresh) in
      elim (Bool-cases (is_nil shown)) [
        | inl e ↦ nothing (is_nil-eq shown e) (guarded fresh.named (is_nil-eq shown e))
        | inr e ↦
            let at =
              searched found fresh.named e opens none_real
              ∙ ap (first_overlay_entry D stat fold sort ntdll [] g [])
                  (ensured D stat fold sort ntdll [] g base opened s) in
            elim (step D stat fold sort ntdll [] g base
              (ensure D stat fold sort ntdll [] g base opened s) s
              (ensure-started D stat fold sort ntdll [] g base opened s)) [
                | stop a b c ↦
                    let gone = ap length b in
                    let some_left = is_nil-length shown e in absurd (omega arith)
                | give name a b ↦
                    let split = ap length b in
                    entry name (record { others = []; overlay = _ })
                      (at ∙ ap (first_overlay_entry D stat fold sort ntdll [] g []) a) refl b
                      (omega arith)
              ]
      ]
    where
      is_nil-eq : (names : List WString) → is_nil names ≡ true → names ≡ []
      is_nil-eq [] e = refl
      is_nil-eq (n ∷ names) e = absurd (ground arith)

      is_nil-length : (names : List WString) → is_nil names ≡ false → 1 ≤ length names
      is_nil-length [] e = absurd (ground arith)
      is_nil-length (n ∷ names) e = omega arith
