-- ===== src/Manifest/Builder/Whole.antt =====
-- What a reader finds behind the header blocks of the bytes that `Build` of src/manifest_builder.cpp
-- returns.
use bazel_sandbox_windows.Base.{◌+◌, ◌^◌, ◌<◌, ◌≡◌, length}
use bazel_sandbox_windows.Manifest.Policy.{policy_deny}
use bazel_sandbox_windows.Manifest.Tree.{Scope, Children, node, finalize, finalize_scope}
use bazel_sandbox_windows.Manifest.Tree.{finalize_children}
use bazel_sandbox_windows.Manifest.Builder.{ManifestBuilder, put_blocks, build}
use bazel_sandbox_windows.Manifest.Builder.Relocation.{put_blocks_aligned}
use bazel_sandbox_windows.Manifest.Builder.Found.{written_children}
use bazel_sandbox_windows.Manifest.Builder.Reader.{ReadsBack, serialize-ReadsBack}

-- The finalized root and its finalized children.
abbrev pub final_scope : Scope → Scope
final_scope s = finalize_scope s policy_deny

abbrev pub final_children : Scope → Children → Children
final_children s cs = finalize_children cs (final_scope s).cone_policy

-- The bytes of `Build`, for a tree of less than 4 GB with the root `s` and the children `cs`, read back
-- right behind the header blocks: the finalized policies of the root, its buckets, and each of its
-- finalized children whole at the offset to which the buckets lead from its hash.
pub build-ReadsBack :
    (b : ManifestBuilder) (s : Scope) (cs : Children)
    → b.root ≡ node s cs
    → length (written_children (final_children s cs) (final_scope s) (put_blocks b)).0
      < length (put_blocks b) + 2 ^ 32
    → ReadsBack
        (build b)
        (length (put_blocks b))
        (final_scope s)
        (final_children s cs)
        (written_children (final_children s cs) (final_scope s) (put_blocks b)).1
unfolding build finalize
build-ReadsBack b s cs root small = rw root (
    serialize-ReadsBack (final_scope s) (final_children s cs) (put_blocks b) (put_blocks_aligned b)
      small)
