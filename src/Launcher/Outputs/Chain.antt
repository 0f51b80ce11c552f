-- ===== src/Launcher/Outputs/Chain.antt =====
-- The walk of src/main.cpp ends by itself, and it gives only directories whose path goes on
-- behind that of the working directory.
use bazel_sandbox_windows.Base.{ℕ, zero, suc, ◌≤◌, ◌<◌, ◌≡◌, refl, sym, ap, ◌∙◌, arith}
use bazel_sandbox_windows.Base.{Bool, true, false, Bool-cases, inl, inr, List, [], ◌∷◌, ◌++◌, All}
use bazel_sandbox_windows.Base.{
  Option, none, some, Option-cases, WString, length, take, length-take, leb,
}
use bazel_sandbox_windows.Base.{map, get_or, drop, ◌-◌, ◌==◌, ==_iff, &&_cases, ◌⊎◌, ◌≢◌}
use bazel_sandbox_windows.Overlay.Paths.{wcsnicmp_eq}
use bazel_sandbox_windows.Base.{find_last_of, if◌then◌else◌, All-append}
use bazel_sandbox_windows.Manifest.Fragment.{is_sep}
use bazel_sandbox_windows.Launcher.Outputs.{
  is_strictly_under, parent_dir, walk_up, add_new, is_member, ends_in_sep,
}
use bazel_sandbox_windows.Launcher.Outputs.{collect_dirs, output_dirs, sort_by_size, insert_by_size}

find_last_of-lt : (p : ℕ → Bool) (s : WString) (i : ℕ) → find_last_of p s ≡ some i → i < length s
unfolding find_last_of
find_last_of-lt p [] i e = cc
find_last_of-lt p (c ∷ s) i e = elim (Option-cases (find_last_of p s)) [
  | inl absent ↦ elim (Bool-cases (p c)) [
    | inl t ↦
        let at : some 0 ≡ some i = rw (absent, t) at e in let z : 0 ≡ i = cc in omega (arith, z)
    | inr t ↦ let at : none ≡ some i = rw (absent, t) at e in cc
  ]
  | inr (j, present) ↦
      let at : some (suc j) ≡ some i = rw present at e in
      let z : suc j ≡ i = cc in omega (arith, z, find_last_of-lt p s j present)
]

-- A parent is shorter than its directory, unless that is empty.
parent_of-lt :
    (c : ℕ) (s : WString) (found : Option ℕ)
    → find_last_of is_sep (c ∷ s) ≡ found
    → length (elim found [ none ↦ [] | some pos ↦ take pos (c ∷ s) ]) < length (c ∷ s)
parent_of-lt c s none e = omega arith
parent_of-lt c s (some i) e =
    omega (arith, length-take i (c ∷ s), find_last_of-lt is_sep (c ∷ s) i e)

parent_dir-lt : (c : ℕ) (s : WString) → length (parent_dir (c ∷ s)) < length (c ∷ s)
unfolding parent_dir
parent_dir-lt c s = parent_of-lt c s (find_last_of is_sep (c ∷ s)) refl

split_at :
    (n : ℕ) (xs : WString) → n < length xs → xs ≡ take n xs ++ get_or xs n 0 ∷ drop (suc n) xs
split_at n [] h = absurd (omega arith)
split_at zero (x ∷ xs) h = refl
split_at (suc n) (x ∷ xs) h = ap (λ t. x ∷ t) (split_at n xs (omega arith))

take_all : (xs : WString) → take (length xs) xs ≡ xs
take_all [] = refl
take_all (x ∷ xs) = ap (λ t. x ∷ t) (take_all xs)

-- The root without the separator that it may end in.
abbrev pub without_sep : WString → WString
without_sep root = if ends_in_sep root then take (length root - 1) root else root

abbrev root_length : WString → ℕ
root_length root = if ends_in_sep root then length root - 1 else length root

take-root_length : (root : WString) → take (root_length root) root ≡ without_sep root
take-root_length root = elim (Bool-cases (ends_in_sep root)) [
  | inl e ↦ rw e refl
  | inr e ↦ rw e (take_all root)
]

module _ (fold : ℕ → ℕ) where
  nothing_under : (root : WString) → is_strictly_under fold [] root ≡ false
  unfolding is_strictly_under
  nothing_under [] = refl
  nothing_under (c ∷ root) = ground arith

  walk_up-nil : (fuel : ℕ) (root : WString) → walk_up fold fuel root [] ≡ []
  unfolding walk_up
  walk_up-nil zero root = refl
  walk_up-nil (suc fuel) root = rw (nothing_under root)

  -- More rounds than the directory has characters change nothing: the loop has ended by itself.
  pub walk_up-enough :
      (fuel more : ℕ) (root dir : WString)
      → length dir ≤ fuel
      → length dir ≤ more
      → walk_up fold fuel root dir ≡ walk_up fold more root dir
  unfolding walk_up
  walk_up-enough fuel more root [] h k = walk_up-nil fuel root ∙ sym (walk_up-nil more root)
  walk_up-enough zero more root (c ∷ dir) h k = absurd (omega arith)
  walk_up-enough (suc fuel) zero root (c ∷ dir) h k = absurd (omega arith)
  walk_up-enough (suc fuel) (suc more) root (c ∷ dir) h k =
      let shorter = parent_dir-lt c dir in
      let rest = walk_up-enough fuel more root (parent_dir (c ∷ dir)) (omega arith) (omega arith) in
      ap (λ above. if is_strictly_under fold (c ∷ dir) root then (c ∷ dir) ∷ above else []) rest

  abbrev pub Under : WString → WString → Type 0
  Under root dir = is_strictly_under fold dir root ≡ true

  walk_up-All : (fuel : ℕ) (root dir : WString) → All (Under root) (walk_up fold fuel root dir)
  unfolding walk_up
  walk_up-All zero root dir = tt
  walk_up-All (suc fuel) root dir = elim (Bool-cases (is_strictly_under fold dir root)) [
    | inl e ↦ rw e (e, walk_up-All fuel root (parent_dir dir))
    | inr e ↦ rw e tt
  ]

  add_new-All :
      (root : WString) (dirs ds : List WString)
      → All (Under root) dirs
      → All (Under root) ds
      → All (Under root) (add_new dirs ds)
  unfolding add_new
  add_new-All root dirs [] a b = a
  add_new-All root dirs (d ∷ ds) a b = elim (Bool-cases (is_member d dirs)) [
    | inl e ↦ rw e (add_new-All root dirs ds a b.1)
    | inr e ↦
        rw e (add_new-All root (dirs ++ d ∷ []) ds (All-append _ dirs (d ∷ []) a (b.0, tt)) b.1)
  ]

  collect_dirs-All :
      (root : WString) (ps dirs : List WString)
      → All (Under root) dirs
      → All (Under root) (collect_dirs fold root ps dirs)
  unfolding collect_dirs
  collect_dirs-All root [] dirs a = a
  collect_dirs-All root (p ∷ ps) dirs a =
      let dir = parent_dir p in
      let ds = walk_up fold (length dir) root dir in
      collect_dirs-All root ps (add_new dirs ds)
        (add_new-All root dirs ds a (walk_up-All (length dir) root dir))

  insert_by_size-All :
      (root d : WString) (es : List WString)
      → Under root d
      → All (Under root) es
      → All (Under root) (insert_by_size d es)
  unfolding insert_by_size
  insert_by_size-All root d [] u a = (u, tt)
  insert_by_size-All root d (e ∷ es) u a = elim (Bool-cases (leb (length d) (length e))) [
    | inl t ↦ rw t (u, a)
    | inr t ↦ rw t (a.0, insert_by_size-All root d es u a.1)
  ]

  sort_by_size-All :
      (root : WString) (ds : List WString)
      → All (Under root) ds
      → All (Under root) (sort_by_size ds)
  unfolding sort_by_size
  sort_by_size-All root [] a = tt
  sort_by_size-All root (d ∷ ds) a =
      insert_by_size-All root d (sort_by_size ds) a.0 (sort_by_size-All root ds a.1)

  -- `_wcsnicmp` compares beginnings up to case.
  map-take :
      (n : ℕ) (a b : WString)
      → wcsnicmp_eq fold n a b ≡ true
      → map fold (take n a) ≡ map fold (take n b)
  unfolding wcsnicmp_eq
  map-take zero a b h = refl
  map-take (suc n) [] [] h = refl
  map-take (suc n) [] (y ∷ b) h = cc
  map-take (suc n) (x ∷ a) [] h = cc
  map-take (suc n) (x ∷ a) (y ∷ b) h =
      let parts = &&_cases (fold x == fold y) (wcsnicmp_eq fold n a b) h in
      rw ((==_iff (fold x) (fold y)).0 parts.0, map-take n a b parts.1)

  -- A directory strictly below the root: up to case the root, without the separator that it may end in,
  -- then a separator, then anything.
  pub record IsBelow (root dir : WString) : Type 0 where
    pub before : WString
    pub sep : ℕ
    pub after : WString
    pub split : dir ≡ before ++ sep ∷ after
    pub separates : (sep ≡ 0x5C) ⊎ (sep ≡ 0x2F)
    pub same : map fold before ≡ map fold (without_sep root)
    pub rooted : root ≢ []

  IsBelow-of :
      (root dir : WString) (n : ℕ)
      → take n root ≡ without_sep root
      → root ≢ []
      → leb (length dir) n ≡ false
      → wcsnicmp_eq fold n dir root ≡ true
      → is_sep (get_or dir n 0) ≡ true
      → IsBelow root dir
  unfolding is_sep
  IsBelow-of root dir n cut ne longer eq at = record {
    before = take n dir;
    sep = get_or dir n 0;
    after = drop (suc n) dir;
    split = split_at n dir (ground (arith, longer));
    separates = ground (arith, at);
    same = map-take n dir root eq ∙ ap (map fold) cut;
    rooted = ne;
  }

  Under-IsBelow : (root dir : WString) → Under root dir → IsBelow root dir
  unfolding is_strictly_under
  Under-IsBelow [] dir u = cc
  Under-IsBelow (c ∷ root) dir u =
      IsBelow-of (c ∷ root) dir (root_length (c ∷ root)) (take-root_length (c ∷ root)) (λ e. cc)
        (ground (arith, u)) (ground (arith, u)) (ground (arith, u))

  All-IsBelow : (root : WString) (ds : List WString) → All (Under root) ds → All (IsBelow root) ds
  All-IsBelow root [] a = tt
  All-IsBelow root (d ∷ ds) a = (Under-IsBelow root d a.0, All-IsBelow root ds a.1)

  -- Every directory that the launcher creates and reveals for the declared outputs starts, up to case,
  -- with the working directory, from which a separator that it ends in is taken off, and a separator
  -- comes next.
  pub output_dirs-All :
      (root : WString) (writable_files : List WString)
      → All (IsBelow root) (output_dirs fold root writable_files)
  unfolding output_dirs
  output_dirs-All root writable_files = All-IsBelow root (output_dirs fold root writable_files) (
      sort_by_size-All root (collect_dirs fold root writable_files [])
        (collect_dirs-All root writable_files [] tt))
