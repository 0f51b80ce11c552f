-- ===== src/Manifest/Bytes/Laws.antt =====
-- The writers of src/manifest_builder.cpp append, a word is read back as it was put, and every block
-- is a multiple of four bytes long.
use bazel_sandbox_windows.Base.{ℕ, zero, suc, ◌+◌, ◌-◌, ◌*◌, ◌/◌, ◌%◌, ◌^◌, ◌≤◌, ◌≡◌, refl, ap}
use bazel_sandbox_windows.Base.{[], ◌∷◌, ◌++◌, append_assoc, arith, WString, length, set, get_or}
use bazel_sandbox_windows.Base.{take, replicate, length-append, length-set}
use bazel_sandbox_windows.Base.{length-take, length-replicate, get_or-set}
use bazel_sandbox_windows.Manifest.Bytes.{Bytes, u32_bytes, put_u32, patch_u32, padded_ansi_length}
use bazel_sandbox_windows.Manifest.Bytes.{padded_from, put_padded_ansi, wide_bytes, raw_bytes}
use bazel_sandbox_windows.Manifest.Bytes.{padded_bytes, put_path_block}

-- How a reader takes the word at a position.
unfoldable pub read_u32 : Bytes → ℕ → ℕ
read_u32 out p =
    get_or out p 0
    + get_or out (p + 1) 0 * 2 ^ 8
    + get_or out (p + 2) 0 * 2 ^ 16
    + get_or out (p + 3) 0 * 2 ^ 24

pub length-put_u32 : (out : Bytes) (v : ℕ) → length (put_u32 out v) ≡ length out + 4
unfolding put_u32
length-put_u32 out v = omega (arith, length-append out (u32_bytes v))

pub length-patch_u32 : (out : Bytes) (p v : ℕ) → length (patch_u32 out p v) ≡ length out
unfolding patch_u32
length-patch_u32 out p v = rw (length-set, length-set, length-set, length-set)

pub put_u32-append : (a b : Bytes) (v : ℕ) → put_u32 (a ++ b) v ≡ a ++ put_u32 b v
unfolding put_u32
put_u32-append a b v = append_assoc a b (u32_bytes v)

get_or-append : (a b : Bytes) (i : ℕ) → get_or (a ++ b) (length a + i) 0 ≡ get_or b i 0
get_or-append [] b i = let e : 0 + i ≡ i = omega arith in rw e
get_or-append (x ∷ a) b i =
    let e : suc (length a) + i ≡ suc (length a + i) = omega arith in rw e (get_or-append a b i)

word_parts :
    (v : ℕ)
    → v % 256 + v / 2 ^ 8 % 256 * 2 ^ 8 + v / 2 ^ 16 % 256 * 2 ^ 16 + v / 2 ^ 24 % 256 * 2 ^ 24
      ≡ v % 2 ^ 32
word_parts v = omega arith

-- What `PutU32` wrote is read back, in 32 bits.
pub read_u32-put_u32 : (out : Bytes) (v : ℕ) → read_u32 (put_u32 out v) (length out) ≡ v % 2 ^ 32
unfolding read_u32 put_u32
read_u32-put_u32 out v =
    let w = u32_bytes v in
    let e0 : get_or (out ++ w) (length out) 0 ≡ v % 256 =
      let e : length out ≡ length out + 0 = omega arith in rw e (get_or-append out w 0) in
    let e1 = get_or-append out w 1 in
    let e2 = get_or-append out w 2 in
    let e3 = get_or-append out w 3 in omega (arith, e0, e1, e2, e3, word_parts v)

-- What `PatchU32` wrote is read back, in 32 bits.
pub read_u32-patch_u32 :
    (out : Bytes) (p v : ℕ) → p + 4 ≤ length out → read_u32 (patch_u32 out p v) p ≡ v % 2 ^ 32
unfolding read_u32 patch_u32
read_u32-patch_u32 out p v h =
    let b0 = v % 256 in
    let b1 = v / 2 ^ 8 % 256 in
    let b2 = v / 2 ^ 16 % 256 in
    let b3 = v / 2 ^ 24 % 256 in
    let s0 = set out p b0 in
    let s1 = set s0 (p + 1) b1 in
    let s2 = set s1 (p + 2) b2 in
    let l0 = length-set out p b0 in
    let l1 = length-set s0 (p + 1) b1 in
    let l2 = length-set s1 (p + 2) b2 in
    let r0 = λ (j : ℕ). get_or-set out p j b0 0 (omega arith) in
    let r1 = λ (j : ℕ). get_or-set s0 (p + 1) j b1 0 (omega arith) in
    let r2 = λ (j : ℕ). get_or-set s1 (p + 2) j b2 0 (omega arith) in
    let r3 = λ (j : ℕ). get_or-set s2 (p + 3) j b3 0 (omega arith) in
    let e0 : get_or (set s2 (p + 3) b3) p 0 ≡ b0 = ground (arith, r3 p, r2 p, r1 p, r0 p) in
    let e1 : get_or (set s2 (p + 3) b3) (p + 1) 0 ≡ b1 =
      ground (arith, r3 (p + 1), r2 (p + 1), r1 (p + 1)) in
    let e2 : get_or (set s2 (p + 3) b3) (p + 2) 0 ≡ b2 = ground (arith, r3 (p + 2), r2 (p + 2)) in
    let e3 : get_or (set s2 (p + 3) b3) (p + 3) 0 ≡ b3 = ground (arith, r3 (p + 3)) in
    omega (arith, e0, e1, e2, e3, word_parts v)

set-append : (a b : Bytes) (i v : ℕ) → set (a ++ b) (length a + i) v ≡ a ++ set b i v
set-append [] b i v = let e : 0 + i ≡ i = omega arith in rw e
set-append (x ∷ a) b i v =
    let e : suc (length a) + i ≡ suc (length a + i) = omega arith in
    rw e (ap (λ t. x ∷ t) (set-append a b i v))

pub patch_u32-append :
    (a b : Bytes) (p v : ℕ) → patch_u32 (a ++ b) (length a + p) v ≡ a ++ patch_u32 b p v
unfolding patch_u32
patch_u32-append a b p v =
    let e1 : length a + p + 1 ≡ length a + (p + 1) = omega arith in
    let e2 : length a + p + 2 ≡ length a + (p + 2) = omega arith in
    let e3 : length a + p + 3 ≡ length a + (p + 3) = omega arith in
    rw (e1, e2, e3) (simp set-append)

length-padded_from : (n : ℕ) (s : Bytes) → length (padded_from n s) ≡ n
unfolding padded_from
length-padded_from zero s = refl
length-padded_from (suc n) [] = ap suc (length-padded_from n [])
length-padded_from (suc n) (c ∷ s) = ap suc (length-padded_from n s)

pub length-put_padded_ansi :
    (out s : Bytes) → length (put_padded_ansi out s) ≡ length out + padded_ansi_length s
unfolding put_padded_ansi
length-put_padded_ansi out s =
    rw (length-append out (padded_from (padded_ansi_length s) s), length-padded_from)

pub padded_ansi_length_aligned : (s : Bytes) → padded_ansi_length s % 4 ≡ 0
unfolding padded_ansi_length
padded_ansi_length_aligned s = omega arith

pub length-wide_bytes : (path : WString) → length (wide_bytes path) ≡ length path * 2
unfolding wide_bytes
length-wide_bytes [] = refl
length-wide_bytes (c ∷ path) = omega (arith, length-wide_bytes path)

-- A path block keeps the blocks behind it on a multiple of four.
pub put_path_block_aligned :
    (out : Bytes) (path : WString) → length out % 4 ≡ 0 → length (put_path_block out path) % 4 ≡ 0
unfolding put_path_block
put_path_block_aligned out [] h = omega (arith, length-put_u32 out 0)
put_path_block_aligned out (c ∷ cs) h =
    let path = c ∷ cs in
    let named = wide_bytes path ++ 0 ∷ 0 ∷ [] in
    let padding = (padded_bytes path + 2 ^ 32 - raw_bytes path) % 2 ^ 32 in
    omega (
      arith,
      length-append (put_u32 out (padded_bytes path) ++ take (raw_bytes path) named)
          (replicate padding 0),
      length-append (put_u32 out (padded_bytes path)) (take (raw_bytes path) named),
      length-put_u32 out (padded_bytes path),
      length-take (raw_bytes path) named,
      length-append (wide_bytes path) (0 ∷ 0 ∷ []),
      length-wide_bytes path,
      length-replicate {A = ℕ} padding 0,
    )
