-- ===== src/Overlay/Enumeration/Scan.antt =====
-- A `FindNextFileW` scan of the overlay's entries in src/overlay_engine.cpp: what the calls return one
-- after the other, whatever happens to the disk between them.
use bazel_sandbox_windows.Base.{ℕ, suc, zero, ◌+◌, ◌-◌, leb, ◌≡◌, refl, ap, sym, ◌∙◌, ◌<◌}
use bazel_sandbox_windows.Base.{List, [], ◌∷◌, map, Bool, true, false, ◌⊎◌, inl, inr}
use bazel_sandbox_windows.Base.{Option, none, some, WString, length, take, drop, get_or}
use bazel_sandbox_windows.Base.{arith, Bool-cases, length-drop, drop-length}
use bazel_sandbox_windows.Overlay.Globals.{Globals}
use bazel_sandbox_windows.Overlay.Paths.{max_path}
use bazel_sandbox_windows.Overlay.Disk.{Disk}
use bazel_sandbox_windows.Overlay.Records.{AttributeData}
use bazel_sandbox_windows.Overlay.Enumeration.{
  HandleOverlay, Ntdll, keep, FindData, overlay_name_matches_filter,
}
use bazel_sandbox_windows.Overlay.Enumeration.{
  skip_unmatched, ensure_overlay_enum_snapshot, next_overlay_find_data, find_data,
}

-- The names that a scan has still to give: those from the cursor on that match the wildcard.
unfoldable pub pending : Ntdll → HandleOverlay → List WString
pending ntdll h =
    keep (λ n. overlay_name_matches_filter ntdll n h.filter) (drop h.cursor h.snapshot)

drop-nil {ℓ} : {A : Type ℓ} (n : ℕ) → drop {A = A} n [] ≡ []
drop-nil zero = refl
drop-nil (suc n) = refl

take-nil {ℓ} : {A : Type ℓ} (n : ℕ) → take {A = A} n [] ≡ []
take-nil zero = refl
take-nil (suc n) = refl

pub drop_add {ℓ} : {A : Type ℓ} (m n : ℕ) (xs : List A) → drop n (drop m xs) ≡ drop (m + n) xs
drop_add zero n xs = let e : 0 + n ≡ n = omega arith in rw e
drop_add (suc m) n [] = let e : suc m + n ≡ suc (m + n) = omega arith in rw e (drop-nil n)
drop_add (suc m) n (x ∷ xs) =
    let e : suc m + n ≡ suc (m + n) = omega arith in rw e (drop_add m n xs)

get_or-drop {ℓ} :
    {A : Type ℓ} (m n : ℕ) (xs : List A) (d : A) → get_or (drop m xs) n d ≡ get_or xs (m + n) d
get_or-drop zero n xs d = let e : 0 + n ≡ n = omega arith in rw e
get_or-drop (suc m) n [] d = refl
get_or-drop (suc m) n (x ∷ xs) d =
    let e : suc m + n ≡ suc (m + n) = omega arith in rw e (get_or-drop m n xs d)

module _ (D : Disk) (stat : D.Entry → AttributeData) (fold : ℕ → ℕ)
    (sort : (WString → WString → Bool) → List WString → List WString) (ntdll : Ntdll)
    (tests : List WString) (g : Globals) where
  -- What is left after the names that do not match.
  skip_unmatched_lem :
      (expr : WString) (names : List WString)
      → let k = skip_unmatched D stat fold sort ntdll tests g expr names in
        ((k ≡ length names) × (keep (λ n. overlay_name_matches_filter ntdll n expr) names ≡ []))
        ⊎ ((k < length names)
            × (keep (λ n. overlay_name_matches_filter ntdll n expr) names
                ≡ get_or names k []
                  ∷ keep (λ n. overlay_name_matches_filter ntdll n expr) (drop (suc k) names)))
  unfolding skip_unmatched
  skip_unmatched_lem expr [] = inl (refl, refl)
  skip_unmatched_lem expr (name ∷ names) =
      elim (Bool-cases (overlay_name_matches_filter ntdll name expr)) [
        | inl e ↦ rw e (inr (omega arith, refl))
        | inr e ↦ rw e (elim (skip_unmatched_lem expr names) [
          | inl (a, b) ↦ inl (ap suc a, b)
          | inr (a, b) ↦ inr (omega arith, b)
        ])
      ]

  abbrev pub next : WString → HandleOverlay → D.State → HandleOverlay × Option FindData
  next = next_overlay_find_data D stat fold sort ntdll tests g

  abbrev pub ensure : WString → HandleOverlay → D.State → HandleOverlay
  ensure = ensure_overlay_enum_snapshot D stat fold sort ntdll tests g

  abbrev pub at_of : HandleOverlay → ℕ
  at_of h =
      h.cursor + skip_unmatched D stat fold sort ntdll tests g h.filter (drop h.cursor h.snapshot)

  -- One call on a handle with a snapshot: nothing is pending and it returns false, or it returns the
  -- first of the pending names and the others stay.
  pub data Step (enum_dir : WString) (h : HandleOverlay) (s : D.State) : Type 0 where
    stop :
        next enum_dir h s ≡ (record h { cursor = at_of h }, none)
        → pending ntdll h ≡ []
        → pending ntdll (record h { cursor = at_of h }) ≡ []
        → Step enum_dir h s
    give :
        (name : WString)
        → next enum_dir h s ≡ (
          record h { cursor = suc (at_of h) },
          some (find_data D stat fold sort ntdll tests g enum_dir s name),
        )
        → pending ntdll h ≡ name ∷ pending ntdll (record h { cursor = suc (at_of h) })
        → Step enum_dir h s

  the_sum : (m n : ℕ) → m + suc n ≡ suc (m + n)
  the_sum m n = omega arith

  pub step :
      (enum_dir : WString) (h : HandleOverlay) (s : D.State) → h.started ≡ true → Step enum_dir h s
  unfolding next_overlay_find_data ensure_overlay_enum_snapshot pending
  step enum_dir h s e =
      let names = drop h.cursor h.snapshot in
      let k = skip_unmatched D stat fold sort ntdll tests g h.filter names in
      let size = length-drop h.cursor h.snapshot in
      elim (skip_unmatched_lem h.filter names) [
        | inl (a, b) ↦
            let over : leb (length h.snapshot) (at_of h) ≡ true = ground arith in
            let gone : drop (at_of h) h.snapshot ≡ [] =
              sym (drop_add h.cursor k h.snapshot)
              ∙ (ap (λ n. drop n names) a ∙ drop-length names) in
            stop (rw (e, over)) b (rw gone)
        | inr (a, b) ↦
            let under : leb (length h.snapshot) (at_of h) ≡ false = ground arith in
            let there = get_or-drop h.cursor k h.snapshot [] in
            let ahead : drop (suc k) names ≡ drop (suc (at_of h)) h.snapshot =
              drop_add h.cursor (suc k) h.snapshot
              ∙ ap (λ n. drop n h.snapshot) (the_sum h.cursor k) in
            give (get_or names k []) (rw (e, under, there)) (
              b
              ∙ ap
                  (λ ns.
                    get_or names k [] ∷ keep (λ n. overlay_name_matches_filter ntdll n h.filter) ns)
                  ahead)
      ]

  add_found : Option FindData → List FindData → List FindData
  add_found none found = found
  add_found (some d) found = d ∷ found

  -- The entries that calls at these states of the disk return, one call a state.
  unfoldable pub scan : WString → List D.State → HandleOverlay → List FindData
  unfolding add_found
  scan enum_dir [] h = []
  scan enum_dir (s ∷ ss) h =
      add_found (next enum_dir h s).1 (scan enum_dir ss (next enum_dir h s).0)

  abbrev pub cut : WString → WString
  cut name = take (max_path - 1) name

  abbrev pub names_of : List FindData → List WString
  names_of found = map (λ (d : FindData). d.file_name) found

  scan-cons :
      (enum_dir : WString) (s : D.State) (ss : List D.State) (h : HandleOverlay)
      (p : HandleOverlay × Option FindData)
      → next enum_dir h s ≡ p
      → names_of (scan enum_dir (s ∷ ss) h) ≡ names_of (add_found p.1 (scan enum_dir ss p.0))
  unfolding scan
  scan-cons enum_dir s ss h p e =
      ap (λ (q : HandleOverlay × Option FindData). names_of (add_found q.1 (scan enum_dir ss q.0)))
        e

  scan_started :
      (enum_dir : WString) (ss : List D.State) (h : HandleOverlay)
      → h.started ≡ true
      → names_of (scan enum_dir ss h) ≡ map cut (take (length ss) (pending ntdll h))
  unfolding scan add_found find_data
  scan_started enum_dir [] h e = refl
  scan_started enum_dir (s ∷ ss) h e = elim (step enum_dir h s e) [
    | stop a b c ↦
        let rest = scan_started enum_dir ss (record h { cursor = at_of h }) e in
        scan-cons enum_dir s ss h _ a
        ∙ (rest ∙ rw (b, c) (ap (map cut) (take-nil {A = WString} (length ss))))
    | give name a b ↦
        let rest = scan_started enum_dir ss (record h { cursor = suc (at_of h) }) e in
        scan-cons enum_dir s ss h _ a ∙ rw b (ap (λ ns. cut name ∷ ns) rest)
  ]

  pub ensured :
      (enum_dir : WString) (h : HandleOverlay) (s : D.State)
      → next enum_dir h s ≡ next enum_dir (ensure enum_dir h s) s
  unfolding next_overlay_find_data ensure_overlay_enum_snapshot
  ensured enum_dir h s = elim (Bool-cases h.started) [ inl e ↦ rw e | inr e ↦ rw e ]

  pub ensure-started :
      (enum_dir : WString) (h : HandleOverlay) (s : D.State) → (ensure enum_dir h s).started ≡ true
  unfolding ensure_overlay_enum_snapshot
  ensure-started enum_dir h s = elim (Bool-cases h.started) [ inl e ↦ rw e | inr e ↦ rw e ]

  -- However the disk changes between the calls of a scan, `n + 1` calls of `NextOverlayFindDataW`
  -- return, in order and each once, the first `n + 1` names of the snapshot that stand at the cursor
  -- or behind it and match the wildcard; the snapshot is the handle's own or, on a handle that has
  -- none yet, the one that the first call takes. A name is cut to the 259 units of its field.
  pub next_overlay_find_data-emits_once :
      (enum_dir : WString) (s : D.State) (ss : List D.State) (h : HandleOverlay)
      → names_of (scan enum_dir (s ∷ ss) h)
        ≡ map cut (take (suc (length ss)) (pending ntdll (ensure enum_dir h s)))
  unfolding scan
  next_overlay_find_data-emits_once enum_dir s ss h =
      scan-cons enum_dir s ss h _ (ensured enum_dir h s)
      ∙ (scan_started enum_dir (s ∷ ss) (ensure enum_dir h s) (ensure-started enum_dir h s))
