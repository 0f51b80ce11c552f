-- ===== src/Tests/Manifest.antt =====
-- Runs of the tree, the table and the writer of src/manifest_builder.cpp on small inputs.
use mathlib.Core.Option
use bazel_sandbox_windows.Base.{ℕ, ◌-◌, ◌^◌, ◌<◌, ◌≡◌, refl, arith, ◌&&◌, leb}
use bazel_sandbox_windows.Base.{
  some, WString, wide, List, [], ◌∷◌, ◌++◌, length, if◌then◌else◌, bit_or,
}
use bazel_sandbox_windows.Base.{Bool-cases, inl, inr}
use bazel_sandbox_windows.Manifest.Policy.{policy_deny, policy_mask_all}
use bazel_sandbox_windows.Manifest.Fragment.{path_fragments, is_sep}
use bazel_sandbox_windows.Manifest.Fragment.Split.{join, path_fragments-join}
use bazel_sandbox_windows.Manifest.Canonical.{canonicalize_for_tree}
use bazel_sandbox_windows.Manifest.Tree.{Scope, Node, Children, node, leaf, entry, empty_scope}
use bazel_sandbox_windows.Manifest.Tree.{change_at, apply_cone, finalize}
use bazel_sandbox_windows.Manifest.Tree.Order.{is_ordered, find}
use bazel_sandbox_windows.Manifest.Tree.Lookup.{no_grants, grants_at, keys_eq, keys_of}
use bazel_sandbox_windows.Manifest.Tree.Lookup.{grants_at-change_at}
use bazel_sandbox_windows.Manifest.Tree.Resolve.{resolve, policy_along, resolve-finalize}
use bazel_sandbox_windows.Manifest.Buckets.{place_child}
use bazel_sandbox_windows.Manifest.Buckets.Chains.{Finds, direct, used_slots, Extends-refl}
use bazel_sandbox_windows.Manifest.Buckets.Probe.{place_child-Finds, place_child-keeps}
use bazel_sandbox_windows.Manifest.Builder.{
  ManifestBuilder, new, add_scope, serialize, put_blocks, build,
}
use bazel_sandbox_windows.Manifest.Builder.Found.{written_children}
use bazel_sandbox_windows.Manifest.Builder.Whole.{final_scope, final_children, build-ReadsBack}
use bazel_sandbox_windows.Manifest.Builder.Reader.{ReadsBack, serialize-ReadsBack}
use bazel_sandbox_windows.Manifest.Builder.Relocation.{serialize-append}
use bazel_sandbox_windows.Manifest.Builder.Scopes.{cone_effect, add_scope-resolve}

-- `towupper` on ASCII
abbrev upper : ℕ → ℕ
upper c = if leb 0x61 c && leb c 0x7A then c - 32 else c

-- Every path is absolute already.
abbrev full_path : WString → ℕ → ℕ × WString
full_path p n = (length p, p)

-- Two children whose hashes meet in the second bucket.
abbrev root_scope : Scope
root_scope = empty_scope [] 0

abbrev two_children : Children
two_children =
    entry (wide "A") (node (empty_scope (wide "A") 5) leaf)
      (entry (wide "B") (node (empty_scope (wide "B") 7) leaf) leaf)

written_length : length (written_children two_children root_scope []).0 ≡ 68
unfolding serialize
written_length = refl

serialize-ReadsBack_example :
    ReadsBack
      (serialize (node root_scope two_children) [])
      0
      root_scope
      two_children
      (written_children two_children root_scope []).1
serialize-ReadsBack_example =
    serialize-ReadsBack root_scope two_children [] refl (omega (arith, written_length))

-- A tree with a grant of 0x1F under `C:\a`.
abbrev granted : Node
granted =
    change_at upper (apply_cone 0 0x1F) (wide "c:" ∷ wide "a" ∷ []) (node (empty_scope [] 0) leaf)

empty_none : (q : List WString) → grants_at q (node (empty_scope [] 0) leaf) ≡ no_grants
unfolding grants_at find
empty_none [] = refl
empty_none (k ∷ q) = refl

granted_small : (q : List WString) → (grants_at q granted).cone_values < 2 ^ 16
unfolding apply_cone is_ordered
granted_small q =
    let ks = keys_of upper (wide "c:" ∷ wide "a" ∷ []) in
    let law =
      grants_at-change_at upper (apply_cone 0 0x1F) (cone_effect 0 0x1F) (wide "c:" ∷ wide "a" ∷ [])
        q (node (empty_scope [] 0) leaf) (λ s. refl) refl in
    elim (Bool-cases (keys_eq q ks)) [
      | inl e ↦ rw (law, e, empty_none q) (omega arith)
      | inr e ↦ rw (law, e, empty_none q) (omega arith)
    ]

resolve-finalize_example :
    resolve (wide "C:" ∷ wide "A" ∷ wide "F" ∷ []) (finalize granted 0)
    ≡ policy_along (λ r. grants_at r granted) 0 (wide "C:" ∷ wide "A" ∷ wide "F" ∷ [])
resolve-finalize_example =
    resolve-finalize (wide "C:" ∷ wide "A" ∷ wide "F" ∷ []) granted 0 (omega arith) granted_small

path_fragments-join_example :
    path_fragments (join (wide "C:" ∷ wide "a" ∷ [])) ≡ wide "C:" ∷ wide "a" ∷ []
unfolding is_sep
path_fragments-join_example =
    path_fragments-join (wide "C:" ∷ wide "a" ∷ [])
      ((refl, (refl, (refl, tt))), ((refl, (refl, tt)), tt))

place_child-Finds_example : Finds 2 (place_child 2 (0 ∷ 40 ∷ []) 7 60) 60 7
place_child-Finds_example =
    place_child-Finds 2 (0 ∷ 40 ∷ []) (place_child 2 (0 ∷ 40 ∷ []) 7 60) 7 60 refl (omega arith)
      (omega arith) refl (Extends-refl _)

place_child-keeps_example :
    (used_slots (place_child 2 (0 ∷ 40 ∷ []) 7 60) ≡ 2)
    × (length (place_child 2 (0 ∷ 40 ∷ []) 7 60) ≡ 2)
    × Finds 2 (place_child 2 (0 ∷ 40 ∷ []) 7 60) 40 5
place_child-keeps_example =
    place_child-keeps 2 (0 ∷ 40 ∷ []) 7 60 5 40 refl (omega arith) (omega arith) refl
      (direct refl (omega arith)) (omega arith)

grants_at-change_at_example :
    grants_at
      (wide "C:" ∷ wide "A" ∷ [])
      (change_at upper (apply_cone 0 0x100) (wide "c:" ∷ wide "a" ∷ []) granted)
    ≡ (if keys_eq (wide "C:" ∷ wide "A" ∷ []) (keys_of upper (wide "c:" ∷ wide "a" ∷ []))
        then cone_effect 0 0x100 (grants_at (wide "C:" ∷ wide "A" ∷ []) granted)
        else grants_at (wide "C:" ∷ wide "A" ∷ []) granted)
unfolding apply_cone is_ordered change_at
grants_at-change_at_example =
    grants_at-change_at upper (apply_cone 0 0x100) (cone_effect 0 0x100) (wide "c:" ∷ wide "a" ∷ [])
      (wide "C:" ∷ wide "A" ∷ []) granted (λ s. refl) refl

serialize-append_example :
    serialize (node root_scope two_children) (1 ∷ 2 ∷ 3 ∷ 4 ∷ [])
    ≡ 1 ∷ 2 ∷ 3 ∷ 4 ∷ serialize (node root_scope two_children) []
serialize-append_example = serialize-append (node root_scope two_children) (1 ∷ 2 ∷ 3 ∷ 4 ∷ []) refl

abbrev builder : ManifestBuilder
builder = new 0x18 0x1000 (wide "x86.dll") (wide "x64.dll")

builder_none : (q : List WString) → grants_at q builder.root ≡ no_grants
unfolding new
builder_none q = empty_none q

builder_small : (q : List WString) → (grants_at q builder.root).cone_values < 2 ^ 16
builder_small q = rw (builder_none q) (omega arith)

add_scope-resolve_example :
    Option.map
      (λ (c : ManifestBuilder).
        resolve
          (keys_of upper (path_fragments (wide "C:\\a")) ++ wide "F" ∷ [])
          (finalize c.root policy_deny))
      (add_scope upper full_path builder (wide "C:\\a") policy_mask_all 0x1F)
    ≡ some (
        bit_or 0x1F
          (grants_at (keys_of upper (path_fragments (wide "C:\\a"))) builder.root).cone_values)
unfolding new canonicalize_for_tree is_ordered
add_scope-resolve_example =
    add_scope-resolve upper full_path builder (wide "C:\\a") (wide "C:\\a") 0x1F (wide "F") [] refl
      refl (omega arith) builder_small (λ j r. builder_none _)

abbrev whole : ManifestBuilder
whole = record builder { root = node root_scope two_children }

whole-length :
    length
      (written_children
        (final_children root_scope two_children)
        (final_scope root_scope)
        (put_blocks whole)).0
    ≡ 120
unfolding serialize finalize new put_blocks
whole-length = refl

build-ReadsBack_example :
    ReadsBack
      (build whole)
      (length (put_blocks whole))
      (final_scope root_scope)
      (final_children root_scope two_children)
      (written_children
        (final_children root_scope two_children)
        (final_scope root_scope)
        (put_blocks whole)).1
build-ReadsBack_example =
    build-ReadsBack whole root_scope two_children refl (omega (arith, whole-length))
