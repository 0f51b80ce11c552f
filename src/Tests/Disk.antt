-- ===== src/Tests/Disk.antt =====
-- A file system to run src/overlay_engine.cpp on: a list of the paths that exist, with their attributes.
use bazel_sandbox_windows.Base.{
  ℕ, ◌≡◌, ◌≢◌, refl, ap, sym, ◌∙◌, ◌++◌, starts_with, starts_with-append, Bool, true, false, Option,
  none, some, WString, wcs_eq,
}
use bazel_sandbox_windows.Base.{
  List, [], ◌∷◌, if◌then◌else◌, is_some, wcs_eq_iff, Bool-cases, inl, inr, map,
}
use bazel_sandbox_windows.Overlay.Disk.{Disk, IsLocal}

abbrev pub Files : Type 0
Files = List (WString × ℕ)

unfoldable pub lookup : Files → WString → Option ℕ
unfolding wcs_eq
lookup [] q = none
lookup ((p, a) ∷ s) q = if wcs_eq p q then some a else lookup s q

unfoldable pub make_directory : Files → WString → Files
unfolding lookup
make_directory s p = if is_some (lookup s p) then s else (p, 0x10) ∷ s

unfoldable pub copy : Files → WString → WString → Files
unfolding lookup
copy s from to = elim (lookup s from) [
  | none ↦ s
  | some a ↦ if is_some (lookup s to) then s else (to, a) ∷ s
]

abbrev pub disk : Disk
disk = record {
  State = Files;
  Entry = ℕ;
  entry_at = lookup;
  attributes = λ a. a;
  create_directory = make_directory;
  copy_file = copy;
  children = λ s p. map (λ f. f.0) s;
}

lookup-cons : (s : Files) (p q : WString) (a : ℕ) → p ≢ q → lookup ((p, a) ∷ s) q ≡ lookup s q
unfolding lookup
lookup-cons s p q a h = elim (Bool-cases (wcs_eq p q)) [
  | inl e ↦ absurd (h ((wcs_eq_iff p q).0 e))
  | inr e ↦ rw e
]

make_directory_ne : (s : Files) (p q : WString) → p ≢ q → lookup (make_directory s p) q ≡ lookup s q
unfolding make_directory
make_directory_ne s p q h = elim (Bool-cases (is_some (lookup s p))) [
  | inl e ↦ rw e
  | inr e ↦ rw e (lookup-cons s p q 0x10 h)
]

placed_ne :
    (s : Files) (to q : WString) (a : ℕ) (b : Bool)
    → to ≢ q
    → lookup (if b then s else (to, a) ∷ s) q ≡ lookup s q
placed_ne s to q a true h = refl
placed_ne s to q a false h = lookup-cons s to q a h

copied_ne :
    (s : Files) (to q : WString) (found : Option ℕ)
    → to ≢ q
    → lookup (elim found [ none ↦ s | some a ↦ if is_some (lookup s to) then s else (to, a) ∷ s ]) q
      ≡ lookup s q
copied_ne s to q none h = refl
copied_ne s to q (some a) h = placed_ne s to q a (is_some (lookup s to)) h

copy_ne : (s : Files) (from to q : WString) → to ≢ q → lookup (copy s from to) q ≡ lookup s q
unfolding copy
copy_ne s from to q h = copied_ne s to q (lookup s from) h

module _ (fold : ℕ → ℕ) where
  -- Paths that differ in case only name one file.
  abbrev pub Same : WString → WString → Type 0
  Same p q = map fold p ≡ map fold q

  pub disk-IsLocal : IsLocal disk Same
  disk-IsLocal = record {
    create_directory_ne = λ s p q h. make_directory_ne s p q (λ e. h (ap (map fold) e));
    copy_file_ne = λ s from to q h. copy_ne s from to q (λ e. h (ap (map fold) e));
  }

  map-append_fold : (p more : WString) → map fold (p ++ more) ≡ map fold p ++ map fold more
  map-append_fold [] more = refl
  map-append_fold (c ∷ p) more = ap (λ t. fold c ∷ t) (map-append_fold p more)

  -- A path is another file than each beginning of a path that does not start with it up to case.
  pub apart_of :
      (q path : WString)
      → starts_with (map fold q) (map fold path) ≡ false
      → (p more : WString) → p ++ more ≡ path
      → ¬ Same p q
  apart_of q path h p more e same =
      let begins = starts_with-append (map fold p) (map fold more) in
      cc (
        h,
        ap (λ t. starts_with t (map fold path)) same,
        ap (λ t. starts_with (map fold p) t) (ap (map fold) (sym e) ∙ map-append_fold p more),
        begins,
      )
