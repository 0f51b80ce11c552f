-- ===== src/Manifest/Builder.antt =====
-- The class `ManifestBuilder` of src/manifest_builder.cpp: its members, its setters, `SerializeNode`
-- and `Build`.
pub mod Relocation
pub mod Found
pub mod ReadBack
pub mod Reader
pub mod Whole
pub mod Scopes
use mathlib.Core.Option
use bazel_sandbox_windows.Base.{ℕ, zero, suc, ◌+◌, ◌-◌, ◌%◌, ◌^◌, ◌==◌, List, [], ◌∷◌, ◌++◌}
use bazel_sandbox_windows.Base.{
  Option, none, some, WString, length, replicate, is_nil, if◌then◌else◌,
}
use bazel_sandbox_windows.Manifest.Policy.{policy_deny}
use bazel_sandbox_windows.Manifest.Fragment.{path_fragments}
use bazel_sandbox_windows.Manifest.Bytes.{Bytes, put_u32, patch_u32, padded_ansi_length}
use bazel_sandbox_windows.Manifest.Bytes.{put_padded_ansi, wide_bytes, put_path_block}
use bazel_sandbox_windows.Manifest.Canonical.{canonicalize_for_tree}
use bazel_sandbox_windows.Manifest.Tree.{Scope, Node, Children, node, leaf, entry, empty_scope}
use bazel_sandbox_windows.Manifest.Tree.{change_at, apply_cone, apply_node, finalize}
use bazel_sandbox_windows.Manifest.Buckets.{bucket_count, place_child}

pub record ManifestBuilder : Type 0 where
  pub flags : ℕ
  pub extra_flags : ℕ
  pub dll_x86 : Bytes
  pub dll_x64 : Bytes
  pub report_path : WString
  pub write_overlay_root : WString
  pub overlay_source_root : WString
  pub root : Node

-- The constructor.
unfoldable pub new : ℕ → ℕ → Bytes → Bytes → ManifestBuilder
new flags extra_flags dll_x86 dll_x64 = record {
  flags = flags;
  extra_flags = extra_flags;
  dll_x86 = dll_x86;
  dll_x64 = dll_x64;
  report_path = [];
  write_overlay_root = [];
  overlay_source_root = [];
  root = node (empty_scope [] 0) leaf;
}

unfoldable pub set_report_path : ManifestBuilder → WString → ManifestBuilder
set_report_path b path = record b { report_path = path }

unfoldable pub set_write_overlay_root : ManifestBuilder → WString → ManifestBuilder
set_write_overlay_root b path = record b { write_overlay_root = path }

unfoldable pub set_overlay_source_root : ManifestBuilder → WString → ManifestBuilder
set_overlay_source_root b path = record b { overlay_source_root = path }

module _ (upper : ℕ → ℕ) (full_path : WString → ℕ → ℕ × WString) where
  -- `AddRootScope`
  unfoldable pub add_root_scope : ManifestBuilder → ℕ → ℕ → ManifestBuilder
  unfolding change_at apply_cone
  add_root_scope b mask values = record b {
    root = change_at upper (apply_cone mask values) [] b.root;
  }

  -- `AddScope`: `none` where the code returns false, and then the builder is as it was
  unfoldable pub add_scope : ManifestBuilder → WString → ℕ → ℕ → Option ManifestBuilder
  unfolding change_at apply_cone canonicalize_for_tree path_fragments
  add_scope b path mask values =
      Option.map
        (λ canonical. record b {
          root = change_at upper (apply_cone mask values) (path_fragments canonical) b.root;
        })
        (canonicalize_for_tree full_path path)

  -- `AddNodeScope`
  unfoldable pub add_node_scope : ManifestBuilder → WString → ℕ → ℕ → Option ManifestBuilder
  unfolding change_at apply_node canonicalize_for_tree path_fragments
  add_node_scope b path mask values =
      Option.map
        (λ canonical. record b {
          root = change_at upper (apply_node mask values) (path_fragments canonical) b.root;
        })
        (canonicalize_for_tree full_path path)

unfoldable pub child_count : Children → ℕ
child_count leaf = 0
child_count (entry key n rest) = suc (child_count rest)

-- `n` placeholders
unfoldable pub put_zeros : ℕ → Bytes → Bytes
put_zeros zero out = out
put_zeros (suc n) out = put_zeros n (put_u32 out 0)

-- The fragment of a node with its NUL, padded to a multiple of four bytes; a zero word for the root.
unfoldable pub put_fragment : Bytes → WString → Bytes
unfolding put_u32 wide_bytes
put_fragment out fragment =
    if is_nil fragment
    then put_u32 out 0
    else (let named = out ++ (wide_bytes fragment ++ 0 ∷ 0 ∷ []) in
        named ++ replicate ((4 - length named % 4) % 4) 0)

-- The last loop of `SerializeNode`: bucket `i` is patched at `at_pos + 4 * i`.
unfoldable pub patch_all : List ℕ → ℕ → Bytes → Bytes
unfolding patch_u32
patch_all [] at_pos out = out
patch_all (o ∷ os) at_pos out = patch_all os (at_pos + 4) (patch_u32 out at_pos o)

-- What `SerializeNode` writes in front of the buckets.
unfoldable pub put_header : Bytes → Scope → ℕ → Bytes
unfolding put_u32
put_header out s buckets =
    put_u32 (put_u32 (put_u32 (put_u32 out s.hash) s.cone_policy) s.node_policy) buckets

abbrev pub node_hash : Node → ℕ
node_hash (node s cs) = s.hash

unfoldable mutual
  unfolding put_header put_zeros put_fragment patch_all place_child bucket_count child_count

  -- `SerializeNode`
  pub serialize : Node → Bytes → Bytes
  serialize (node s cs) out =
      let buckets = bucket_count (child_count cs) in
      let before = put_header out s buckets in
      let head = put_fragment (put_zeros buckets before) s.normalized_fragment in
      let done = serialize_children cs (length out) buckets head (replicate buckets 0) in
      if buckets == 0 then head else patch_all done.1 (length before) done.0

  -- The loop over the children: the bytes and the table of offsets.
  pub serialize_children : Children → ℕ → ℕ → Bytes → List ℕ → Bytes × List ℕ
  serialize_children leaf start n out offsets = (out, offsets)
  serialize_children (entry key child rest) start n out offsets =
      serialize_children rest start n (serialize child out)
        (place_child n offsets (node_hash child) ((length out - start) % 2 ^ 32))

-- Blocks 1 to 11.6 of `Build`.
unfoldable pub put_blocks : ManifestBuilder → Bytes
unfolding put_u32 put_path_block put_padded_ansi
put_blocks b =
    let l0 = padded_ansi_length b.dll_x86 in
    let l1 = padded_ansi_length b.dll_x64 in
    let flags = put_u32 (put_u32 [] b.flags) b.extra_flags in
    let report = put_path_block flags b.report_path in
    let sizes = put_u32 (put_u32 (put_u32 (put_u32 report ((l0 + l1) % 2 ^ 32)) 2) 0) l0 in
    let dlls = put_padded_ansi (put_padded_ansi sizes b.dll_x86) b.dll_x64 in
    put_path_block (put_path_block dlls b.write_overlay_root) b.overlay_source_root

-- `Build`
unfoldable pub build : ManifestBuilder → Bytes
unfolding finalize serialize put_blocks
build b = serialize (finalize b.root policy_deny) (put_blocks b)
