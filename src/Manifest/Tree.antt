-- ===== src/Manifest/Tree.antt =====
-- The tree of `ManifestBuilder::Node`: the descent of `AddPathFragments`, the three scope operations
-- and `Finalize`, all of src/manifest_builder.cpp.
pub mod Order
pub mod Lookup
pub mod Resolve
use bazel_sandbox_windows.Base.{
  ℕ, suc, ◌+◌, bit_and, bit_or, List, [], ◌∷◌, WString, wcs_eq, wcs_lt,
}
use bazel_sandbox_windows.Base.{if◌then◌else◌}
use bazel_sandbox_windows.Manifest.Policy.{policy_deny, policy_mask_nothing}
use bazel_sandbox_windows.Manifest.Fragment.{normalize_and_hash_fragment}

-- The fields of a `Node` but its children.
pub record Scope : Type 0 where
  pub normalized_fragment : WString
  pub hash : ℕ
  pub cone_mask : ℕ
  pub cone_values : ℕ
  pub node_mask : ℕ
  pub node_values : ℕ
  pub cone_policy : ℕ
  pub node_policy : ℕ

-- A node; its children are a `std::map` from the normalized fragment, in the order of the keys.
mutual
  pub data Node : Type 0 where
    node : Scope → Children → Node

  pub data Children : Type 0 where
    leaf : Children
    entry : WString → Node → Children → Children

-- The default member initializers.
abbrev pub empty_scope : WString → ℕ → Scope
empty_scope fragment h = record {
  normalized_fragment = fragment;
  hash = h;
  cone_mask = policy_mask_nothing;
  cone_values = policy_deny;
  node_mask = policy_mask_nothing;
  node_values = policy_deny;
  cone_policy = 0;
  node_policy = 0;
}

-- `children.find(key)`, `children.emplace(key, …)` where it is absent, and the step to that child,
-- which `go` changes.
unfoldable pub visit_child : WString → (Node → Node) → Node → Children → Children
unfolding wcs_eq wcs_lt
visit_child key go fresh leaf = entry key (go fresh) leaf
visit_child key go fresh (entry j n rest) =
    if wcs_eq key j
    then entry j (go n) rest
    else if wcs_lt key j
    then entry key (go fresh) (entry j n rest)
    else entry j n (visit_child key go fresh rest)

module _ (upper : ℕ → ℕ) where
  abbrev pub fresh_node : WString → Node
  fresh_node fragment =
      let (h, normalized) = normalize_and_hash_fragment upper fragment in
      node (empty_scope normalized h) leaf

  -- `AddPathFragments` and the change of the leaf that it returns.
  unfoldable pub change_at : (Scope → Scope) → List WString → Node → Node
  unfolding visit_child normalize_and_hash_fragment
  change_at change [] (node s cs) = node (change s) cs
  change_at change (f ∷ fs) (node s cs) =
      node s (
        visit_child (normalize_and_hash_fragment upper f).1 (change_at change fs) (fresh_node f) cs)

-- `ApplyConeFileAccess`: what `AddRootScope` and `AddScope` do to their node.
unfoldable pub apply_cone : ℕ → ℕ → Scope → Scope
apply_cone mask values s = record s {
  cone_mask = bit_and mask s.cone_mask;
  cone_values = bit_or values s.cone_values;
}

-- `ApplyNodeFileAccess`: what `AddNodeScope` does to its node.
unfoldable pub apply_node : ℕ → ℕ → Scope → Scope
apply_node mask values s = record s {
  node_mask = bit_and mask s.node_mask;
  node_values = bit_or values s.node_values;
}

-- The two assignments of `Finalize`.
unfoldable pub finalize_scope : Scope → ℕ → Scope
finalize_scope s parent_policy =
    let cone = bit_or (bit_and parent_policy s.cone_mask) s.cone_values in
    record s { cone_policy = cone; node_policy = bit_or (bit_and cone s.node_mask) s.node_values }

unfoldable mutual
  unfolding finalize_scope

  -- `Finalize`
  pub finalize : Node → ℕ → Node
  finalize (node s cs) parent_policy =
      node (finalize_scope s parent_policy)
        (finalize_children cs (finalize_scope s parent_policy).cone_policy)

  pub finalize_children : Children → ℕ → Children
  finalize_children leaf parent_policy = leaf
  finalize_children (entry key n rest) parent_policy =
      entry key (finalize n parent_policy) (finalize_children rest parent_policy)
