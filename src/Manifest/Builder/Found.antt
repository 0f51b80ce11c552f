-- ===== src/Manifest/Builder/Found.antt =====
-- A reader of the tree that `SerializeNode` of src/manifest_builder.cpp wrote finds every child: its
-- bytes stand at an offset to which the chain of its hash leads.
use native.Mathlib.Nat.{mod-eq_of_lt}
use bazel_sandbox_windows.Base.{ℕ, zero, suc, ◌+◌, ◌-◌, ◌*◌, ◌%◌, ◌^◌, ◌≤◌, ◌<◌, ◌≡◌, refl}
use bazel_sandbox_windows.Base.{sym, ◌∙◌, List, [], ◌∷◌, ◌++◌, append_assoc, append-nil, arith}
use bazel_sandbox_windows.Base.{length, replicate, length-append, ◌==◌, WString}
use bazel_sandbox_windows.Base.{length-replicate, Bool-cases, inl, inr}
use bazel_sandbox_windows.Manifest.Bytes.{Bytes}
use bazel_sandbox_windows.Manifest.Bytes.Laws.{length-put_u32}
use bazel_sandbox_windows.Manifest.Tree.{Scope, Node, Children, node, leaf, entry}
use bazel_sandbox_windows.Manifest.Buckets.{bucket_count, place_child}
use bazel_sandbox_windows.Manifest.Buckets.Chains.{Extends, Extends-refl, Extends-trans, Finds}
use bazel_sandbox_windows.Manifest.Buckets.Chains.{used_slots}
use bazel_sandbox_windows.Manifest.Buckets.Probe.{place_child-Placed}
use bazel_sandbox_windows.Manifest.Builder.{child_count, put_zeros, put_fragment, put_header}
use bazel_sandbox_windows.Manifest.Builder.{serialize, serialize_children, node_hash}
use bazel_sandbox_windows.Manifest.Builder.Relocation.{length-put_header, length-put_zeros}
use bazel_sandbox_windows.Manifest.Builder.Relocation.{put_fragment_aligned, length-patch_all}
use bazel_sandbox_windows.Manifest.Builder.Relocation.{serialize-append, serialize_aligned}

-- The child's own bytes stand in `body` at an offset from `start` that its hash leads to.
pub record FoundAt (k : ℕ) (body : Bytes) (table : List ℕ) (start : ℕ) (child : Node) : Type 0 where
  pub offset : ℕ
  pub before : Bytes
  pub after : Bytes
  pub stands : body ≡ before ++ (serialize child [] ++ after)
  pub measured : length before ≡ start + offset
  pub behind_buckets : start + 16 + k * 4 ≤ length before
  pub finds : Finds k table offset (node_hash child)

abbrev pub AllChildren {ℓ} : (Node → Type ℓ) → Children → Type ℓ
AllChildren P leaf = Unit {ℓ}
AllChildren P (entry key child rest) = P child × AllChildren P rest

length-put_fragment-le : (out : Bytes) (f : WString) → length out ≤ length (put_fragment out f)
unfolding put_fragment
length-put_fragment-le out [] = omega (arith, length-put_u32 out 0)
length-put_fragment-le out (c ∷ cs) =
    omega (arith, length-append (out ++ _) (replicate {A = ℕ} _ 0), length-append out _)

pub length-head-le :
    (s : Scope) (k : ℕ) (out : Bytes)
    → length out + 16 + k * 4
      ≤ length (put_fragment (put_zeros k (put_header out s k)) s.normalized_fragment)
length-head-le s k out = omega (
  arith,
  length-put_fragment-le (put_zeros k (put_header out s k)) s.normalized_fragment,
  length-put_zeros k (put_header out s k),
  length-put_header out s k,
)

mutual
  unfolding serialize

  grows_node : (n : Node) (out : Bytes) → length out + 16 ≤ length (serialize n out)
  grows_node (node s cs) out =
      let k = bucket_count (child_count cs) in
      let head = put_fragment (put_zeros k (put_header out s k)) s.normalized_fragment in
      let done = serialize_children cs (length out) k head (replicate k 0) in
      let le = length-head-le s k out in
      elim (Bool-cases (k == 0)) [
        | inl e ↦ rw e (omega arith)
        | inr e ↦
            rw (e, length-patch_all done.1 _ done.0)
              (omega (arith, grows_children cs (length out) k head (replicate k 0)))
      ]

  grows_children :
      (cs : Children) (start k : ℕ) (out : Bytes) (os : List ℕ)
      → length out ≤ length (serialize_children cs start k out os).0
  grows_children leaf start k out os = omega arith
  grows_children (entry key child rest) start k out os = omega (
    arith,
    grows_node child out,
    grows_children rest start k (serialize child out)
        (place_child k os (node_hash child) ((length out - start) % 2 ^ 32)),
  )

-- What the loop over the children leaves: the bytes in front stay, the table only gains, and every
-- child is found.
pub record Written (k : ℕ) (out : Bytes) (os : List ℕ) (start : ℕ) (cs : Children)
    (r : Bytes × List ℕ) : Type 0 where
  pub tail : Bytes
  pub appends : r.0 ≡ out ++ tail
  pub extends : Extends os r.1
  pub width : length r.1 ≡ k
  pub found : AllChildren (FoundAt k r.0 r.1 start) cs

appends_trans :
    (body mid out a b : Bytes) → body ≡ mid ++ b → mid ≡ out ++ a → body ≡ out ++ (a ++ b)
appends_trans body mid out a b p q = p ∙ (rw q (append_assoc out a b))

found_after :
    (k start : ℕ) (child : Node) (out body tail : Bytes) (os table : List ℕ) (offset : ℕ)
    → length out ≡ start + offset
    → start + 16 + k * 4 ≤ length out
    → length out % 4 ≡ 0
    → body ≡ serialize child out ++ tail
    → Finds k table offset (node_hash child)
    → FoundAt k body table start child
found_after k start child out body tail os table offset measured behind aligned e finds = record {
  offset = offset;
  before = out;
  after = tail;
  stands =
      appends_trans body (serialize child out) out (serialize child []) tail e
        (serialize-append child out aligned);
  measured = measured;
  behind_buckets = behind;
  finds = finds;
}

-- The loop over the children, on a table with a free bucket for each of them and in less than 4 GB.
serialize_children-Written :
    (cs : Children) (start k : ℕ) (out : Bytes) (os : List ℕ)
    → start + 16 + k * 4 ≤ length out
    → length out % 4 ≡ 0
    → start % 4 ≡ 0
    → length os ≡ k
    → used_slots os + child_count cs ≤ k
    → length (serialize_children cs start k out os).0 < start + 2 ^ 32
    → Written k out os start cs (serialize_children cs start k out os)
unfolding serialize child_count
serialize_children-Written leaf start k out os behind a b w room small = record {
  tail = [];
  appends = sym (append-nil out);
  extends = Extends-refl os;
  width = w;
  found = tt;
}
serialize_children-Written (entry key child rest) start k out os behind a b w room small =
    let o = (length out - start) % 2 ^ 32 in
    let placed = place_child k os (node_hash child) o in
    let size = grows_children rest start k (serialize child out) placed in
    let grown = grows_node child out in
    let whole : o ≡ length out - start = mod-eq_of_lt (omega arith) in
    let p =
      place_child-Placed k os (node_hash child) o w (omega arith) (omega arith) (omega arith) in
    let r =
      serialize_children-Written rest start k (serialize child out) placed (omega arith)
        (serialize_aligned child out a) b p.width (omega (arith, p.load)) small in
    let final = serialize_children rest start k (serialize child out) placed in
    record {
      tail = serialize child [] ++ r.tail;
      appends =
          appends_trans final.0 (serialize child out) out (serialize child []) r.tail r.appends
            (serialize-append child out a);
      extends = Extends-trans p.extends r.extends;
      width = r.width;
      found = (
        found_after k start child out final.0 r.tail os final.1 o (omega arith) behind a r.appends
            (p.finds final.1 r.extends),
        r.found,
      );
    }

pub count_bound :
    (cs : Children) (start k : ℕ) (out : Bytes) (os : List ℕ)
    → length out + child_count cs * 16 ≤ length (serialize_children cs start k out os).0
unfolding serialize child_count
count_bound leaf start k out os = omega arith
count_bound (entry key child rest) start k out os = omega (
  arith,
  grows_node child out,
  count_bound rest start k (serialize child out)
      (place_child k os (node_hash child) ((length out - start) % 2 ^ 32)),
)

used_slots-replicate : (k : ℕ) → used_slots (replicate k 0) ≡ 0
used_slots-replicate zero = refl
used_slots-replicate (suc k) = omega (arith, used_slots-replicate k)

pub bucket_count-ge : (n : ℕ) → n < 2 ^ 28 → n ≤ bucket_count n
unfolding bucket_count
bucket_count-ge n h = ground arith

-- The children of a node, as `SerializeNode` writes them behind the head of the node.
abbrev pub written_children : Children → Scope → Bytes → Bytes × List ℕ
written_children cs s out =
    let k = bucket_count (child_count cs) in
    serialize_children cs (length out) k
      (put_fragment (put_zeros k (put_header out s k)) s.normalized_fragment) (replicate k 0)

-- In a tree of less than 4 GB that starts on a multiple of four, each child of a node can be found:
-- its bytes stand, whole, at the offset from the node's start to which the buckets lead from its hash.
pub written_children-Written :
    (s : Scope) (cs : Children) (out : Bytes)
    → length out % 4 ≡ 0
    → length (written_children cs s out).0 < length out + 2 ^ 32
    → let k = bucket_count (child_count cs) in
      Written k
        (put_fragment (put_zeros k (put_header out s k)) s.normalized_fragment)
        (replicate k 0)
        (length out)
        cs
        (written_children cs s out)
written_children-Written s cs out a small =
    let k = bucket_count (child_count cs) in
    let head = put_fragment (put_zeros k (put_header out s k)) s.normalized_fragment in
    let zs : List ℕ = replicate k 0 in
    let le = length-head-le s k out in
    let count = count_bound cs (length out) k head zs in
    serialize_children-Written cs (length out) k head zs (omega arith)
      (put_fragment_aligned (put_zeros k (put_header out s k)) s.normalized_fragment
        (omega (arith, length-put_zeros k (put_header out s k), length-put_header out s k)))
      a (length-replicate k 0)
      (omega (arith, used_slots-replicate k, bucket_count-ge (child_count cs) (omega arith))) small
