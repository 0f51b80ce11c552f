-- ===== src/Manifest/Builder/Relocation.antt =====
-- Where `SerializeNode` of src/manifest_builder.cpp writes: only behind what is there, in whole words,
-- and the same bytes wherever the node starts.
use bazel_sandbox_windows.Base.{ℕ, zero, suc, ◌+◌, ◌-◌, ◌*◌, ◌%◌, ◌^◌, ◌≡◌, refl}
use bazel_sandbox_windows.Base.{◌∙◌, List, [], ◌∷◌, ◌++◌, append_assoc, append-nil, arith, WString}
use bazel_sandbox_windows.Base.{length, replicate, length-append, ◌==◌}
use bazel_sandbox_windows.Base.{length-replicate, Bool-cases, inl, inr}
use bazel_sandbox_windows.Manifest.Bytes.{Bytes, put_u32, patch_u32, wide_bytes}
use bazel_sandbox_windows.Manifest.Bytes.Laws.{length-put_u32, put_u32-append, length-patch_u32}
use bazel_sandbox_windows.Manifest.Bytes.Laws.{patch_u32-append}
use bazel_sandbox_windows.Manifest.Bytes.Laws.{length-put_padded_ansi, put_path_block_aligned}
use bazel_sandbox_windows.Manifest.Bytes.Laws.{padded_ansi_length_aligned}
use bazel_sandbox_windows.Manifest.Tree.{Scope, Node, Children, node, leaf, entry}
use bazel_sandbox_windows.Manifest.Buckets.{bucket_count, place_child}
use bazel_sandbox_windows.Manifest.Builder.{child_count, put_zeros, put_fragment, put_header}
use bazel_sandbox_windows.Manifest.Builder.{patch_all, serialize, serialize_children, node_hash}
use bazel_sandbox_windows.Manifest.Builder.{ManifestBuilder, put_blocks}

pub length-put_header :
    (out : Bytes) (s : Scope) (k : ℕ) → length (put_header out s k) ≡ length out + 16
unfolding put_header put_u32
length-put_header out s k =
    rw (length-append, length-append, length-append, length-append) (omega arith)

put_header-append :
    (a out : Bytes) (s : Scope) (k : ℕ) → put_header (a ++ out) s k ≡ a ++ put_header out s k
unfolding put_header put_u32
put_header-append a out s k = simp append_assoc

pub length-put_zeros : (k : ℕ) (out : Bytes) → length (put_zeros k out) ≡ length out + k * 4
unfolding put_zeros
length-put_zeros zero out = omega arith
length-put_zeros (suc k) out =
    omega (arith, length-put_zeros k (put_u32 out 0), length-put_u32 out 0)

put_zeros-append : (k : ℕ) (a out : Bytes) → put_zeros k (a ++ out) ≡ a ++ put_zeros k out
unfolding put_zeros
put_zeros-append zero a out = refl
put_zeros-append (suc k) a out = rw put_u32-append (put_zeros-append k a (put_u32 out 0))

pub put_fragment_aligned :
    (out : Bytes) (f : WString) → length out % 4 ≡ 0 → length (put_fragment out f) % 4 ≡ 0
unfolding put_fragment
put_fragment_aligned out [] h = omega (arith, length-put_u32 out 0)
put_fragment_aligned out (c ∷ cs) h =
    let named = out ++ (wide_bytes (c ∷ cs) ++ 0 ∷ 0 ∷ []) in
    omega (
      arith,
      length-append named (replicate ((4 - length named % 4) % 4) 0),
      length-replicate {A = ℕ} ((4 - length named % 4) % 4) 0,
    )

put_fragment-append :
    (a out : Bytes) (f : WString)
    → length a % 4 ≡ 0
    → put_fragment (a ++ out) f ≡ a ++ put_fragment out f
unfolding put_fragment
put_fragment-append a out [] h = put_u32-append a out 0
put_fragment-append a out (c ∷ cs) h =
    let name = wide_bytes (c ∷ cs) ++ 0 ∷ 0 ∷ [] in
    let e : length (a ++ (out ++ name)) % 4 ≡ length (out ++ name) % 4 =
      omega (arith, length-append a (out ++ name)) in
    rw (append_assoc a out name, e) (append_assoc a (out ++ name) _)

pub length-patch_all :
    (os : List ℕ) (p : ℕ) (out : Bytes) → length (patch_all os p out) ≡ length out
unfolding patch_all
length-patch_all [] p out = refl
length-patch_all (o ∷ os) p out =
    length-patch_all os (p + 4) (patch_u32 out p o) ∙ length-patch_u32 out p o

patch_all-append :
    (os : List ℕ) (p : ℕ) (a out : Bytes)
    → patch_all os (length a + p) (a ++ out) ≡ a ++ patch_all os p out
unfolding patch_all
patch_all-append [] p a out = refl
patch_all-append (o ∷ os) p a out =
    let e : length a + p + 4 ≡ length a + (p + 4) = omega arith in
    rw (e, patch_u32-append a out p o) (patch_all-append os (p + 4) a (patch_u32 out p o))

-- The bytes of a node in front of its children.
abbrev head_of : Scope → Children → Bytes → Bytes
head_of s cs out =
    let buckets = bucket_count (child_count cs) in
    put_fragment (put_zeros buckets (put_header out s buckets)) s.normalized_fragment

head_of-append :
    (s : Scope) (cs : Children) (a out : Bytes)
    → length a % 4 ≡ 0
    → head_of s cs (a ++ out) ≡ a ++ head_of s cs out
head_of-append s cs a out h =
    let k = bucket_count (child_count cs) in
    rw (put_header-append a out s k, put_zeros-append k a (put_header out s k))
      (put_fragment-append a _ s.normalized_fragment h)

head_of_aligned :
    (s : Scope) (cs : Children) (out : Bytes)
    → length out % 4 ≡ 0
    → length (head_of s cs out) % 4 ≡ 0
head_of_aligned s cs out h =
    let k = bucket_count (child_count cs) in
    put_fragment_aligned _ s.normalized_fragment
      (omega (arith, length-put_zeros k (put_header out s k), length-put_header out s k))

mutual
  unfolding serialize

  aligned_node : (n : Node) (out : Bytes) → length out % 4 ≡ 0 → length (serialize n out) % 4 ≡ 0
  aligned_node (node s cs) out h =
      let k = bucket_count (child_count cs) in
      let done = serialize_children cs (length out) k (head_of s cs out) (replicate k 0) in
      let ih =
        aligned_children cs (length out) k (head_of s cs out) (replicate k 0)
          (head_of_aligned s cs out h) in
      elim (Bool-cases (k == 0)) [
        | inl e ↦ rw e (head_of_aligned s cs out h)
        | inr e ↦ rw (e, length-patch_all done.1 _ done.0) ih
      ]

  aligned_children :
      (cs : Children) (start k : ℕ) (out : Bytes) (os : List ℕ)
      → length out % 4 ≡ 0
      → length (serialize_children cs start k out os).0 % 4 ≡ 0
  aligned_children leaf start k out os h = h
  aligned_children (entry key child rest) start k out os h =
      aligned_children rest start k (serialize child out) _ (aligned_node child out h)

-- A node that starts on a multiple of four ends on one.
pub serialize_aligned :
    (n : Node) (out : Bytes) → length out % 4 ≡ 0 → length (serialize n out) % 4 ≡ 0
serialize_aligned n out h = aligned_node n out h

-- The blocks in front of the tree end on a multiple of four.
pub put_blocks_aligned : (b : ManifestBuilder) → length (put_blocks b) % 4 ≡ 0
unfolding put_blocks
put_blocks_aligned b = put_path_block_aligned _ b.overlay_source_root (
    put_path_block_aligned _ b.write_overlay_root (
      rw
        (
          length-put_padded_ansi, length-put_padded_ansi, length-put_u32, length-put_u32,
          length-put_u32, length-put_u32,
        )
        (omega (
          arith,
          padded_ansi_length_aligned b.dll_x86,
          padded_ansi_length_aligned b.dll_x64,
          put_path_block_aligned (put_u32 (put_u32 [] b.flags) b.extra_flags) b.report_path (
              omega (
                arith,
                length-put_u32 [] b.flags,
                length-put_u32 (put_u32 [] b.flags) b.extra_flags,
              )),
        ))))

abbrev Moved : Bytes × List ℕ → Bytes → Bytes × List ℕ → Type 0
Moved x a y = (x.0 ≡ a ++ y.0) × (x.1 ≡ y.1)

Moved-of_eq :
    (rest : Children) (a : Bytes) (start k h : ℕ) (os : List ℕ) (x y : Bytes) (d e : ℕ)
    → x ≡ a ++ y
    → d ≡ e
    → Moved
        (serialize_children rest (length a + start) k (a ++ y) (place_child k os h (e % 2 ^ 32)))
        a
        (serialize_children rest start k y (place_child k os h (e % 2 ^ 32)))
    → Moved
        (serialize_children rest (length a + start) k x (place_child k os h (d % 2 ^ 32)))
        a
        (serialize_children rest start k y (place_child k os h (e % 2 ^ 32)))
Moved-of_eq rest a start k h os x y d e p q m = rw (p, q) m

mutual
  unfolding serialize

  moved_node :
      (n : Node) (a out : Bytes) → length a % 4 ≡ 0 → serialize n (a ++ out) ≡ a ++ serialize n out
  moved_node (node s cs) a out h =
      let k = bucket_count (child_count cs) in
      let zs : List ℕ = replicate k 0 in
      let move = head_of-append s cs a out h in
      let len : length (put_header (a ++ out) s k) ≡ length a + length (put_header out s k) =
        omega (
          arith,
          length-put_header (a ++ out) s k,
          length-put_header out s k,
          length-append a out,
        ) in
      let ih = Moved-children cs a (length out) k (head_of s cs out) zs h in
      let done = serialize_children cs (length out) k (head_of s cs out) zs in
      elim (Bool-cases (k == 0)) [
        | inl e ↦ rw e move
        | inr e ↦
            rw (e, len, length-append a out, move, ih.0, ih.1)
              (patch_all-append done.1 (length (put_header out s k)) a done.0)
      ]

  Moved-children :
      (cs : Children) (a : Bytes) (start k : ℕ) (out : Bytes) (os : List ℕ)
      → length a % 4 ≡ 0
      → Moved
          (serialize_children cs (length a + start) k (a ++ out) os)
          a
          (serialize_children cs start k out os)
  Moved-children leaf a start k out os h = (refl, refl)
  Moved-children (entry key child rest) a start k out os h =
      let e : length (a ++ out) - (length a + start) ≡ length out - start =
        omega (arith, length-append a out) in
      Moved-of_eq rest a start k (node_hash child) os _ (serialize child out) _ (length out - start)
        (moved_node child a out h) e (Moved-children rest a start k (serialize child out) _ h)

-- Behind bytes that end on a multiple of four, a node is written as it is behind none, and the bytes in
-- front stay.
pub serialize-append :
    (n : Node) (out : Bytes) → length out % 4 ≡ 0 → serialize n out ≡ out ++ serialize n []
serialize-append n out h =
    let e : out ++ [] ≡ out = append-nil out in rw e at (moved_node n out [] h)
