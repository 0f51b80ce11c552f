-- ===== src/Manifest/Builder/ReadBack.antt =====
-- Words read back from the bytes that src/manifest_builder.cpp wrote, patched and appended to.
use bazel_sandbox_windows.Base.{ℕ, zero, suc, ◌+◌, ◌*◌, ◌/◌, ◌%◌, ◌^◌, ◌≤◌, ◌<◌, ◌≡◌, refl, ap}
use bazel_sandbox_windows.Base.{inl, ◌⊎◌, ◌∙◌, List, [], ◌∷◌, ◌++◌, arith}
use bazel_sandbox_windows.Base.{length, set}
use bazel_sandbox_windows.Base.{get_or, length-set, get_or-set}
use bazel_sandbox_windows.Manifest.Bytes.{Bytes, put_u32, patch_u32, u32_bytes}
use bazel_sandbox_windows.Manifest.Bytes.Laws.{read_u32}
use bazel_sandbox_windows.Manifest.Bytes.Laws.{read_u32-patch_u32, length-patch_u32}
use bazel_sandbox_windows.Manifest.Builder.{patch_all}
use bazel_sandbox_windows.Manifest.Buckets.Chains.{slot}

set-append_left : (a b : Bytes) (i v : ℕ) → i < length a → set (a ++ b) i v ≡ set a i v ++ b
set-append_left [] b i v h = absurd (omega arith)
set-append_left (x ∷ a) b zero v h = refl
set-append_left (x ∷ a) b (suc i) v h = ap (λ t. x ∷ t) (set-append_left a b i v (omega arith))

patch_u32-append_left :
    (a b : Bytes) (p v : ℕ) → p + 4 ≤ length a → patch_u32 (a ++ b) p v ≡ patch_u32 a p v ++ b
unfolding patch_u32
patch_u32-append_left a b p v h =
    let s0 = set a p (v % 256) in
    let s1 = set s0 (p + 1) (v / 2 ^ 8 % 256) in
    let s2 = set s1 (p + 2) (v / 2 ^ 16 % 256) in
    let l0 = length-set a p (v % 256) in
    let l1 = length-set s0 (p + 1) (v / 2 ^ 8 % 256) in
    let l2 = length-set s1 (p + 2) (v / 2 ^ 16 % 256) in
    rw (
      set-append_left a b p (v % 256) (omega arith),
      set-append_left s0 b (p + 1) (v / 2 ^ 8 % 256) (omega arith),
      set-append_left s1 b (p + 2) (v / 2 ^ 16 % 256) (omega arith),
      set-append_left s2 b (p + 3) (v / 2 ^ 24 % 256) (omega arith),
    )

pub patch_all-append_left :
    (os : List ℕ) (p : ℕ) (a b : Bytes)
    → p + length os * 4 ≤ length a
    → patch_all os p (a ++ b) ≡ patch_all os p a ++ b
unfolding patch_all
patch_all-append_left [] p a b h = refl
patch_all-append_left (o ∷ os) p a b h =
    rw (patch_u32-append_left a b p o (omega arith))
      (patch_all-append_left os (p + 4) (patch_u32 a p o) b (omega (arith, length-patch_u32 a p o)))

-- A patch does not touch the words in front of it, nor those behind it.
read_u32-patch_u32_ne :
    (out : Bytes) (p q v : ℕ)
    → p + 4 ≤ length out
    → (q + 4 ≤ p) ⊎ (p + 4 ≤ q)
    → read_u32 (patch_u32 out p v) q ≡ read_u32 out q
unfolding read_u32 patch_u32
read_u32-patch_u32_ne out p q v h apart =
    let s0 = set out p (v % 256) in
    let s1 = set s0 (p + 1) (v / 2 ^ 8 % 256) in
    let s2 = set s1 (p + 2) (v / 2 ^ 16 % 256) in
    let l0 = length-set out p (v % 256) in
    let l1 = length-set s0 (p + 1) (v / 2 ^ 8 % 256) in
    let l2 = length-set s1 (p + 2) (v / 2 ^ 16 % 256) in
    let same = λ (j : ℕ) (out_of : (j < p) ⊎ (p + 4 ≤ j)).
      let e0 = get_or-set out p j (v % 256) 0 (omega arith) in
      let e1 = get_or-set s0 (p + 1) j (v / 2 ^ 8 % 256) 0 (omega arith) in
      let e2 = get_or-set s1 (p + 2) j (v / 2 ^ 16 % 256) 0 (omega arith) in
      let e3 = get_or-set s2 (p + 3) j (v / 2 ^ 24 % 256) 0 (omega arith) in
      let whole : get_or (set s2 (p + 3) (v / 2 ^ 24 % 256)) j 0 ≡ get_or out j 0 =
        ground (arith, e0, e1, e2, e3) in
      whole in
    omega (
      arith,
      same q (omega arith),
      same (q + 1) (omega arith),
      same (q + 2) (omega arith),
      same (q + 3) (omega arith),
    )

pub read_u32-patch_all_before :
    (os : List ℕ) (p q : ℕ) (out : Bytes)
    → p + length os * 4 ≤ length out
    → q + 4 ≤ p
    → read_u32 (patch_all os p out) q ≡ read_u32 out q
unfolding patch_all
read_u32-patch_all_before [] p q out h before = refl
read_u32-patch_all_before (o ∷ os) p q out h before =
    read_u32-patch_all_before os (p + 4) q (patch_u32 out p o)
      (omega (arith, length-patch_u32 out p o)) (omega arith)
    ∙ read_u32-patch_u32_ne out p q o (omega arith) (inl before)

-- Bucket `i` is read back as it was patched.
pub read_u32-patch_all :
    (os : List ℕ) (p i : ℕ) (out : Bytes)
    → p + length os * 4 ≤ length out
    → i < length os
    → read_u32 (patch_all os p out) (p + i * 4) ≡ slot os i % 2 ^ 32
unfolding patch_all
read_u32-patch_all [] p i out h below = absurd (omega arith)
read_u32-patch_all (o ∷ os) p zero out h below =
    let e : p + 0 * 4 ≡ p = omega arith in
    rw e (
      read_u32-patch_all_before os (p + 4) p (patch_u32 out p o)
        (omega (arith, length-patch_u32 out p o)) (omega arith)
      ∙ read_u32-patch_u32 out p o (omega arith))
read_u32-patch_all (o ∷ os) p (suc i) out h below =
    let e : p + suc i * 4 ≡ p + 4 + i * 4 = omega arith in
    rw e (
      read_u32-patch_all os (p + 4) i (patch_u32 out p o) (omega (arith, length-patch_u32 out p o))
        (omega arith))

get_or-append_left : (a b : Bytes) (i : ℕ) → i < length a → get_or (a ++ b) i 0 ≡ get_or a i 0
get_or-append_left [] b i h = absurd (omega arith)
get_or-append_left (x ∷ a) b zero h = refl
get_or-append_left (x ∷ a) b (suc i) h = get_or-append_left a b i (omega arith)

pub read_u32-append_left :
    (a b : Bytes) (q : ℕ) → q + 4 ≤ length a → read_u32 (a ++ b) q ≡ read_u32 a q
unfolding read_u32
read_u32-append_left a b q h = omega (
  arith,
  get_or-append_left a b q (omega arith),
  get_or-append_left a b (q + 1) (omega arith),
  get_or-append_left a b (q + 2) (omega arith),
  get_or-append_left a b (q + 3) (omega arith),
)

pub read_u32-put_u32_before :
    (out : Bytes) (v q : ℕ) → q + 4 ≤ length out → read_u32 (put_u32 out v) q ≡ read_u32 out q
unfolding put_u32
read_u32-put_u32_before out v q h = read_u32-append_left out (u32_bytes v) q h
