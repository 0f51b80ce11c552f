-- ===== src/Manifest/Builder/Reader.antt =====
-- What a reader sees in the finished bytes of a node of src/manifest_builder.cpp: its four words, its
-- patched buckets and, through them, its children.
use bazel_sandbox_windows.Base.{ℕ, zero, suc, ◌+◌, ◌*◌, ◌%◌, ◌^◌, ◌≤◌, ◌<◌, ◌≡◌, refl, ap}
use bazel_sandbox_windows.Base.{map, sym, ◌∙◌, List, [], ◌∷◌, ◌++◌, append_assoc, append-nil, arith}
use bazel_sandbox_windows.Base.{length, replicate, length-append, ◌==◌, WString}
use bazel_sandbox_windows.Base.{false}
use bazel_sandbox_windows.Manifest.Bytes.{Bytes, put_u32, patch_u32, u32_bytes}
use bazel_sandbox_windows.Manifest.Bytes.Laws.{length-put_u32, read_u32, read_u32-put_u32}
use bazel_sandbox_windows.Manifest.Bytes.Laws.{read_u32-patch_u32, length-patch_u32}
use bazel_sandbox_windows.Manifest.Tree.{Scope, Node, Children, node, leaf, entry}
use bazel_sandbox_windows.Manifest.Buckets.{bucket_count}
use bazel_sandbox_windows.Manifest.Builder.{child_count, put_zeros, put_fragment, put_header}
use bazel_sandbox_windows.Manifest.Builder.{patch_all, serialize}
use bazel_sandbox_windows.Manifest.Builder.Relocation.{length-put_header, length-patch_all}
use bazel_sandbox_windows.Manifest.Builder.Found.{FoundAt, AllChildren, written_children-Written}
use bazel_sandbox_windows.Manifest.Builder.Found.{
  written_children, length-head-le, count_bound, bucket_count-ge,
}
use bazel_sandbox_windows.Manifest.Builder.ReadBack.{
  patch_all-append_left, read_u32-patch_all_before,
}
use bazel_sandbox_windows.Manifest.Builder.ReadBack.{read_u32-append_left}
use bazel_sandbox_windows.Manifest.Builder.ReadBack.{read_u32-put_u32_before}

-- The four words in front of a node's buckets.
pub record Words (f : Bytes) (p : ℕ) (s : Scope) (buckets : ℕ) : Type 0 where
  pub hash_word : read_u32 f p ≡ s.hash % 2 ^ 32
  pub cone_word : read_u32 f (p + 4) ≡ s.cone_policy % 2 ^ 32
  pub node_word : read_u32 f (p + 8) ≡ s.node_policy % 2 ^ 32
  pub count_word : read_u32 f (p + 12) ≡ buckets % 2 ^ 32

put_header-Words : (out : Bytes) (s : Scope) (k : ℕ) → Words (put_header out s k) (length out) s k
unfolding put_header
put_header-Words out s k =
    let w1 = put_u32 out s.hash in
    let w2 = put_u32 w1 s.cone_policy in
    let w3 = put_u32 w2 s.node_policy in
    let l1 = length-put_u32 out s.hash in
    let l2 = length-put_u32 w1 s.cone_policy in
    let l3 = length-put_u32 w2 s.node_policy in
    let e1 : length out + 4 ≡ length w1 = omega arith in
    let e2 : length out + 8 ≡ length w2 = omega arith in
    let e3 : length out + 12 ≡ length w3 = omega arith in
    record {
      hash_word =
          read_u32-put_u32_before w3 k (length out) (omega arith)
          ∙ read_u32-put_u32_before w2 s.node_policy (length out) (omega arith)
          ∙ read_u32-put_u32_before w1 s.cone_policy (length out) (omega arith)
          ∙ read_u32-put_u32 out s.hash;
      cone_word = rw e1 (
          read_u32-put_u32_before w3 k (length w1) (omega arith)
          ∙ read_u32-put_u32_before w2 s.node_policy (length w1) (omega arith)
          ∙ read_u32-put_u32 w1 s.cone_policy);
      node_word = rw e2 (
          read_u32-put_u32_before w3 k (length w2) (omega arith)
          ∙ read_u32-put_u32 w2 s.node_policy);
      count_word = rw e3 (read_u32-put_u32 w3 k);
    }

Appends : Bytes → Bytes → Type 0
Appends whole out = (tail : Bytes) × (whole ≡ out ++ tail)

put_zeros-Appends : (k : ℕ) (out : Bytes) → Appends (put_zeros k out) out
unfolding put_zeros put_u32 Appends
put_zeros-Appends zero out = ([], sym (append-nil out))
put_zeros-Appends (suc k) out =
    let (tail, e) = put_zeros-Appends k (put_u32 out 0) in
    (u32_bytes 0 ++ tail, e ∙ append_assoc out (u32_bytes 0) tail)

put_fragment-Appends : (out : Bytes) (f : WString) → Appends (put_fragment out f) out
unfolding put_fragment put_u32 Appends
put_fragment-Appends out [] = (_, refl)
put_fragment-Appends out (c ∷ cs) = (_, append_assoc out _ _)

Appends-of : (whole out tail : Bytes) → whole ≡ out ++ tail → Appends whole out
unfolding Appends
Appends-of whole out tail e = (tail, e)

Appends-trans : (a b c : Bytes) → Appends a b → Appends b c → Appends a c
unfolding Appends
Appends-trans a b c (x, p) (y, q) = (y ++ x, p ∙ (rw q (append_assoc c y x)))

Words-Appends :
    (whole out : Bytes) (p : ℕ) (s : Scope) (k : ℕ)
    → Appends whole out
    → p + 16 ≤ length out
    → Words out p s k
    → Words whole p s k
unfolding Appends
Words-Appends whole out p s k (tail, e) h w = record {
  hash_word = rw e (read_u32-append_left out tail p (omega arith) ∙ w.hash_word);
  cone_word = rw e (read_u32-append_left out tail (p + 4) (omega arith) ∙ w.cone_word);
  node_word = rw e (read_u32-append_left out tail (p + 8) (omega arith) ∙ w.node_word);
  count_word = rw e (read_u32-append_left out tail (p + 12) (omega arith) ∙ w.count_word);
}

Words-patch_all :
    (os : List ℕ) (out : Bytes) (p : ℕ) (s : Scope) (k : ℕ)
    → p + 16 + length os * 4 ≤ length out
    → Words out p s k
    → Words (patch_all os (p + 16) out) p s k
Words-patch_all os out p s k h w =
    let same = λ (q : ℕ) (b : q + 4 ≤ p + 16). read_u32-patch_all_before os (p + 16) q out h b in
    record {
      hash_word = same p (omega arith) ∙ w.hash_word;
      cone_word = same (p + 4) (omega arith) ∙ w.cone_word;
      node_word = same (p + 8) (omega arith) ∙ w.node_word;
      count_word = same (p + 12) (omega arith) ∙ w.count_word;
    }

-- The words of a table, as a reader takes them one after the other.
abbrev pub read_table : Bytes → ℕ → ℕ → List ℕ
read_table f p zero = []
read_table f p (suc k) = read_u32 f p ∷ read_table f (p + 4) k

read_table-patch_all :
    (os : List ℕ) (out : Bytes) (p : ℕ)
    → p + length os * 4 ≤ length out
    → read_table (patch_all os p out) p (length os) ≡ map (λ o. o % 2 ^ 32) os
unfolding patch_all
read_table-patch_all [] out p h = refl
read_table-patch_all (o ∷ os) out p h =
    let same = length-patch_u32 out p o in
    let word : read_u32 (patch_all os (p + 4) (patch_u32 out p o)) p ≡ o % 2 ^ 32 =
      read_u32-patch_all_before os (p + 4) p (patch_u32 out p o) (omega arith) (omega arith)
      ∙ read_u32-patch_u32 out p o (omega arith) in
    rw (word, read_table-patch_all os (patch_u32 out p o) (p + 4) (omega arith))

read_table_at :
    (k p q : ℕ) (os : List ℕ) (out : Bytes)
    → length os ≡ k
    → read_table (patch_all os q out) q (length os) ≡ map (λ o. o % 2 ^ 32) os
    → q ≡ p + 16
    → read_table (patch_all os (p + 16) out) (p + 16) k ≡ map (λ o. o % 2 ^ 32) os
read_table_at k p q os out w e at = cc

-- Everything that a reader of a node needs: its words, its buckets and its children.
pub record ReadsBack (f : Bytes) (p : ℕ) (s : Scope) (cs : Children) (table : List ℕ) : Type 0 where
  pub words : Words f p s (bucket_count (child_count cs))
  pub buckets : read_table f (p + 16) (bucket_count (child_count cs)) ≡ map (λ o. o % 2 ^ 32) table
  pub children : AllChildren (FoundAt (bucket_count (child_count cs)) f table p) cs

FoundAt-patch_all :
    (k start : ℕ) (body : Bytes) (table : List ℕ) (child : Node)
    → length table ≡ k
    → FoundAt k body table start child
    → FoundAt k (patch_all table (start + 16) body) table start child
FoundAt-patch_all k start body table child w f = record {
  offset = f.offset;
  before = patch_all table (start + 16) f.before;
  after = f.after;
  stands =
      rw f.stands
        (patch_all-append_left table (start + 16) f.before _ (omega (arith, f.behind_buckets)));
  measured = length-patch_all table (start + 16) f.before ∙ f.measured;
  behind_buckets = rw (length-patch_all table (start + 16) f.before) f.behind_buckets;
  finds = f.finds;
}

AllChildren-map :
    (P Q : Node → Type 0) (cs : Children)
    → ((n : Node) → P n → Q n)
    → AllChildren P cs
    → AllChildren Q cs
AllChildren-map P Q leaf f a = tt
AllChildren-map P Q (entry key child rest) f a = (f child a.0, AllChildren-map P Q rest f a.1)

children-ReadsBack :
    (s : Scope) (cs : Children) (out : Bytes)
    → length out % 4 ≡ 0
    → length (written_children cs s out).0 < length out + 2 ^ 32
    → ReadsBack
        (patch_all (written_children cs s out).1 (length out + 16) (written_children cs s out).0)
        (length out)
        s
        cs
        (written_children cs s out).1
children-ReadsBack s cs out aligned small =
    let k = bucket_count (child_count cs) in
    let head = put_fragment (put_zeros k (put_header out s k)) s.normalized_fragment in
    let r = written_children cs s out in
    let w = written_children-Written s cs out aligned small in
    let le = length-head-le s k out in
    let size : length out + 16 + length r.1 * 4 ≤ length r.0 =
      omega (arith, w.width, ap length w.appends, length-append head w.tail) in
    let behind =
      Appends-trans r.0 head (put_header out s k) (Appends-of r.0 head w.tail w.appends) (
        Appends-trans head (put_zeros k (put_header out s k)) (put_header out s k)
          (put_fragment-Appends _ s.normalized_fragment)
          (put_zeros-Appends k (put_header out s k))) in
    record {
      words = Words-patch_all r.1 r.0 (length out) s k size (
          Words-Appends r.0 (put_header out s k) (length out) s k behind
            (omega (arith, length-put_header out s k)) (put_header-Words out s k));
      buckets =
          read_table_at k (length out) (length out + 16) r.1 r.0 w.width
            (read_table-patch_all r.1 r.0 (length out + 16) size) refl;
      children =
          AllChildren-map _ _ cs (λ n. FoundAt-patch_all k (length out) r.0 r.1 n w.width) w.found;
    }

bucket_count_of_entry :
    (s : Scope) (key : WString) (child : Node) (rest : Children) (out : Bytes)
    → length (written_children (entry key child rest) s out).0 < length out + 2 ^ 32
    → (bucket_count (child_count (entry key child rest)) == 0) ≡ false
bucket_count_of_entry s key child rest out small =
    let cs = entry key child rest in
    let k = bucket_count (child_count cs) in
    let head = put_fragment (put_zeros k (put_header out s k)) s.normalized_fragment in
    let le = length-head-le s k out in
    let count = count_bound cs (length out) k head (replicate k 0) in
    let some_child : 1 ≤ child_count cs = unfold child_count in omega arith in
    ground (arith, bucket_count-ge (child_count cs) (omega arith))

-- A node whose bytes are less than 4 GB, written from a multiple of four on, reads back: its hash, its
-- two policies and its bucket count stand in its first four words, its buckets behind them hold the
-- table, and each of its children stands whole at the offset to which the table leads from its hash.
pub serialize-ReadsBack :
    (s : Scope) (cs : Children) (out : Bytes)
    → length out % 4 ≡ 0
    → length (written_children cs s out).0 < length out + 2 ^ 32
    → ReadsBack (serialize (node s cs) out) (length out) s cs (written_children cs s out).1
unfolding serialize
serialize-ReadsBack s leaf out aligned small = children-ReadsBack s leaf out aligned small
serialize-ReadsBack s (entry key child rest) out aligned small =
    let cs = entry key child rest in
    let k = bucket_count (child_count cs) in
    rw (bucket_count_of_entry s key child rest out small, length-put_header out s k)
      (children-ReadsBack s cs out aligned small)
