-- ===== src/Overlay/Enumeration/Snapshot.antt =====
-- What `EnsureOverlayEnumSnapshot` of src/overlay_engine.cpp holds, and what a whole scan lists: with
-- the real entries of the directory, every name of the overlay once.
use mathlib.Core.List.{Perm, Permᴰ}
use mathlib.Core.List.Perm
use mathlib.Core.List.Permᴰ
use mathlib.Core.Logic.{∥∥₁_map, ∥∥₁_elim}
use bazel_sandbox_windows.Base.{ℕ, suc, zero, ◌≡◌, refl, ap, ◌∙◌, ◌≤◌}
use bazel_sandbox_windows.Base.{List, [], ◌∷◌, ◌++◌, map, Bool, true, false, inl, inr}
use bazel_sandbox_windows.Base.{WString, length, take, is_nil}
use bazel_sandbox_windows.Base.{arith, Bool-cases}
use bazel_sandbox_windows.Overlay.Globals.{Globals}
use bazel_sandbox_windows.Overlay.Paths.{device_prefix}
use bazel_sandbox_windows.Overlay.Disk.{Disk, overlay_is_directory}
use bazel_sandbox_windows.Overlay.Records.{AttributeData}
use bazel_sandbox_windows.Overlay.Enumeration.{
  HandleOverlay, Ntdll, keep, overlay_name_matches_filter,
}
use bazel_sandbox_windows.Overlay.Enumeration.{snapshot_of, ensure_overlay_enum_snapshot, is_absent}
use bazel_sandbox_windows.Overlay.Enumeration.{list_backing_children, add_tests}
use bazel_sandbox_windows.Overlay.Enumeration.Scan.{scan, pending, names_of, cut, ensure}
use bazel_sandbox_windows.Overlay.Enumeration.Scan.{next_overlay_find_data-emits_once}

-- What is documented of `std::sort`: the result is a permutation of the input.
pub record IsSort (sort : (WString → WString → Bool) → List WString → List WString) : Type 0 where
  pub perm : (less : WString → WString → Bool) (xs : List WString) → Perm (sort less xs) xs

permd_keep :
    (p : WString → Bool) {xs ys : List WString} → Permᴰ xs ys → Permᴰ (keep p xs) (keep p ys)
permd_keep p Permᴰ.nil = Permᴰ.nil
permd_keep p (Permᴰ.cons {a = a} {b = b} e d) = elim (Bool-cases (p b)) [
  | inl t ↦ rw (e, t) (Permᴰ.cons refl (permd_keep p d))
  | inr t ↦ rw (e, t) (permd_keep p d)
]
permd_keep p (Permᴰ.swap {a' = a} {b' = b} {l = l} e f) = elim (Bool-cases (p a)) [
  | inl t ↦ elim (Bool-cases (p b)) [
    | inl u ↦ rw (e, f, t, u) (Permᴰ.swap refl refl)
    | inr u ↦ rw (e, f, t, u) (Permᴰ.refl _)
  ]
  | inr t ↦ elim (Bool-cases (p b)) [
    | inl u ↦ rw (e, f, t, u) (Permᴰ.refl _)
    | inr u ↦ rw (e, f, t, u) (Permᴰ.refl _)
  ]
]
permd_keep p (Permᴰ.trans d f) = Permᴰ.trans (permd_keep p d) (permd_keep p f)

permd-length : {xs ys : List WString} → Permᴰ xs ys → length xs ≡ length ys
permd-length Permᴰ.nil = refl
permd-length (Permᴰ.cons e d) = ap suc (permd-length d)
permd-length (Permᴰ.swap e f) = refl
permd-length (Permᴰ.trans d f) = permd-length d ∙ permd-length f

length-keep : (p : WString → Bool) (xs : List WString) → length (keep p xs) ≤ length xs
length-keep p [] = omega arith
length-keep p (x ∷ xs) = ground (arith, length-keep p xs)

take_all : (n : ℕ) (xs : List WString) → length xs ≤ n → take n xs ≡ xs
take_all zero [] h = refl
take_all zero (x ∷ xs) h = absurd (omega arith)
take_all (suc n) [] h = refl
take_all (suc n) (x ∷ xs) h = rw (take_all n xs (omega arith))

perm_keep : (p : WString → Bool) {xs ys : List WString} → Perm xs ys → Perm (keep p xs) (keep p ys)
perm_keep p {xs} {ys} h = ∥∥₁_map {B = Permᴰ (keep p xs) (keep p ys)} h (permd_keep p)

pub perm-length : {xs ys : List WString} → Perm xs ys → length xs ≡ length ys
perm-length h = ∥∥₁_elim h (hlevel) permd-length

module _ (D : Disk) (stat : D.Entry → AttributeData) (fold : ℕ → ℕ)
    (sort : (WString → WString → Bool) → List WString → List WString) (ntdll : Ntdll)
    (g : Globals) where
  -- A handle whose scan has not begun, for a directory that is there on the real disk.
  pub record IsFresh (enum_dir : WString) (h : HandleOverlay) (s : D.State) : Type 0 where
    pub not_started : h.started ≡ false
    pub at_start : h.cursor ≡ 0
    pub named : is_nil enum_dir ≡ false
    pub real : overlay_is_directory D s (device_prefix ++ enum_dir) ≡ true

  abbrev pub children : WString → D.State → List WString
  children = list_backing_children D stat fold sort ntdll [] g

  abbrev pub new_names : WString → D.State → List WString
  new_names enum_dir s =
      keep (is_absent D stat fold sort ntdll [] g enum_dir s) (children enum_dir s)

  pub pending-fresh :
      (enum_dir : WString) (h : HandleOverlay) (s : D.State)
      → IsSort sort
      → IsFresh enum_dir h s
      → Perm
          (pending ntdll (ensure D stat fold sort ntdll [] g enum_dir h s))
          (keep (λ n. overlay_name_matches_filter ntdll n h.filter) (new_names enum_dir s))
  unfolding pending ensure_overlay_enum_snapshot snapshot_of add_tests
  pending-fresh enum_dir h s sorts fresh =
      rw (fresh.not_started, fresh.at_start, fresh.named, fresh.real)
        (perm_keep (λ n. overlay_name_matches_filter ntdll n h.filter) (sorts.perm _ _))

  -- A whole scan of a directory that is there on the real disk, by a handle that has not begun one and
  -- without test names, lists exactly the names of the backing directory's children that are absent
  -- from the real directory and match the wildcard, each as often as the backing directory has it, in
  -- some order; it makes at least one call more than the backing directory has children, and the disk
  -- may change after the first. `std::sort` is taken to give a permutation of its input. A name is cut
  -- to the 259 units of its field.
  pub scan-lists_new_names :
      (enum_dir : WString) (s : D.State) (ss : List D.State) (h : HandleOverlay)
      → IsSort sort
      → IsFresh enum_dir h s
      → length (children enum_dir s) ≤ length ss
      → Perm
          (names_of D stat fold sort ntdll [] g
            (scan D stat fold sort ntdll [] g enum_dir (s ∷ ss) h))
          (map
            (cut D stat fold sort ntdll [] g)
            (keep (λ n. overlay_name_matches_filter ntdll n h.filter) (new_names enum_dir s)))
  scan-lists_new_names enum_dir s ss h sorts fresh enough =
      let found = pending-fresh enum_dir h s sorts fresh in
      let size = perm-length found in
      let match =
        length-keep (λ n. overlay_name_matches_filter ntdll n h.filter) (new_names enum_dir s) in
      let absent =
        length-keep (is_absent D stat fold sort ntdll [] g enum_dir s) (children enum_dir s) in
      let all =
        take_all (suc (length ss)) (pending ntdll (ensure D stat fold sort ntdll [] g enum_dir h s))
          (omega arith) in
      rw (next_overlay_find_data-emits_once D stat fold sort ntdll [] g enum_dir s ss h, all)
        (Perm.map (cut D stat fold sort ntdll [] g) found)
