-- ===== src/Manifest/Builder/Scopes.antt =====
-- What `AddScope` and `AddRootScope` of src/manifest_builder.cpp mean for the policy of a path.
use mathlib.Core.Option
use bazel_sandbox_windows.Base.{ℕ, ◌^◌, ◌<◌, ◌≡◌, refl, ◌∙◌, ap, arith, WString, true}
use bazel_sandbox_windows.Base.{false, Bool-cases, inl, inr, some, List, [], ◌∷◌, ◌++◌}
use bazel_sandbox_windows.Base.{
  bit_and, bit_or, zero-bit_or, zero-bit_and, bit_and-zero, bit_or-lt, if◌then◌else◌,
}
use bazel_sandbox_windows.Base.{wcs_eq_refl}
use bazel_sandbox_windows.Manifest.Policy.{policy_mask_all, policy_deny}
use bazel_sandbox_windows.Manifest.Fragment.{path_fragments}
use bazel_sandbox_windows.Manifest.Canonical.{canonicalize_for_tree}
use bazel_sandbox_windows.Manifest.Tree.{Scope, apply_cone, change_at, finalize}
use bazel_sandbox_windows.Manifest.Tree.Order.{is_ordered, change_at-is_ordered}
use bazel_sandbox_windows.Manifest.Tree.Lookup.{
  Grants, no_grants, grants, grants_at, keys_eq, keys_of,
}
use bazel_sandbox_windows.Manifest.Tree.Lookup.{grants_at-change_at}
use bazel_sandbox_windows.Manifest.Tree.Resolve.{resolve, under_cone, policy_along}
use bazel_sandbox_windows.Manifest.Tree.Resolve.{policy_along_none, resolve-finalize}
use bazel_sandbox_windows.Manifest.Builder.{ManifestBuilder, add_scope}

-- The effect of `ApplyConeFileAccess` on the accumulators.
abbrev pub cone_effect : ℕ → ℕ → Grants → Grants
cone_effect mask values g = record g {
  cone_mask = bit_and mask g.cone_mask;
  cone_values = bit_or values g.cone_values;
}

apply_cone-grants :
    (mask values : ℕ) (s : Scope)
    → grants (apply_cone mask values s) ≡ cone_effect mask values (grants s)
unfolding apply_cone
apply_cone-grants mask values s = refl

keys_eq_refl : (ks : List WString) → keys_eq ks ks ≡ true
unfolding keys_eq
keys_eq_refl [] = refl
keys_eq_refl (k ∷ ks) = rw (wcs_eq_refl k) (keys_eq_refl ks)

keys_eq_longer :
    (ks : List WString) (k : WString) (r : List WString) → keys_eq (ks ++ k ∷ r) ks ≡ false
unfolding keys_eq
keys_eq_longer [] k r = refl
keys_eq_longer (j ∷ ks) k r = rw (wcs_eq_refl j) (keys_eq_longer ks k r)

-- A scope that masks everything away decides below it, if nothing deeper is granted.
policy_along_blanket :
    (g : List WString → Grants) (p : ℕ) (ks : List WString) (k : WString) (rest : List WString)
    → (g ks).cone_mask ≡ 0
    → (g ks).cone_values < 2 ^ 16
    → ((j : WString) (r : List WString) → g (ks ++ j ∷ r) ≡ no_grants)
    → policy_along g p (ks ++ k ∷ rest) ≡ (g ks).cone_values
unfolding policy_along
policy_along_blanket g p [] k rest mask small none_below =
    let all : under_cone p (g []) ≡ (g []).cone_values =
      rw (mask, bit_and-zero p) (zero-bit_or (g []).cone_values) in
    rw (policy_along, all)
      (policy_along_none (λ r. g (k ∷ r)) (g []).cone_values rest small (λ r. none_below k r))
policy_along_blanket g p (j ∷ ks) k rest mask small none_below =
    policy_along_blanket (λ r. g (j ∷ r)) (under_cone p (g [])) ks k rest mask small none_below

small_after :
    (b c : ManifestBuilder) (ks : List WString) (values : ℕ)
    → values < 2 ^ 16
    → ((q : List WString) → (grants_at q b.root).cone_values < 2 ^ 16)
    → ((q : List WString)
        → grants_at q c.root ≡ (
            if keys_eq q ks then cone_effect 0 values (grants_at q b.root) else grants_at q b.root))
    → (q : List WString) → (grants_at q c.root).cone_values < 2 ^ 16
small_after b c ks values v small law q = elim (Bool-cases (keys_eq q ks)) [
  | inl e ↦ rw (law q, e) (bit_or-lt 16 values _ v (small q))
  | inr e ↦ rw (law q, e) (small q)
]

module _ (upper : ℕ → ℕ) (full_path : WString → ℕ → ℕ × WString) where
  -- What the accumulators are after `AddScope`, at every path of keys.
  pub add_scope-grants :
      (b : ManifestBuilder) (path canonical : WString) (mask values : ℕ)
      → canonicalize_for_tree full_path path ≡ some canonical
      → is_ordered b.root ≡ true
      → (c : ManifestBuilder) × (add_scope upper full_path b path mask values ≡ some c)
        × (is_ordered c.root ≡ true)
        × ((q : List WString)
            → grants_at q c.root ≡ (
                if keys_eq q (keys_of upper (path_fragments canonical))
                then cone_effect mask values (grants_at q b.root)
                else grants_at q b.root))
  unfolding add_scope
  add_scope-grants b path canonical mask values e o = (
    record b { root = change_at upper (apply_cone mask values) (path_fragments canonical) b.root },
    rw e,
    change_at-is_ordered upper (apply_cone mask values) (path_fragments canonical) b.root o,
    λ q.
        grants_at-change_at upper (apply_cone mask values) (cone_effect mask values)
          (path_fragments canonical) q b.root (apply_cone-grants mask values) o,
  )

  -- `AddScope` with `Policy_MaskAll` at a path that can be made canonical succeeds, and in the finalized
  -- tree every path strictly below gets the granted values, together with those that were granted at
  -- the same path before and whatever stands above; if nothing deeper was granted, the keys of the tree
  -- ascend and all granted cone values fit 16 bits.
  pub add_scope-resolve :
      (b : ManifestBuilder) (path canonical : WString) (values : ℕ) (k : WString)
      (rest : List WString)
      → canonicalize_for_tree full_path path ≡ some canonical
      → is_ordered b.root ≡ true
      → values < 2 ^ 16
      → ((q : List WString) → (grants_at q b.root).cone_values < 2 ^ 16)
      → ((j : WString) (r : List WString)
          → grants_at (keys_of upper (path_fragments canonical) ++ j ∷ r) b.root ≡ no_grants)
      → let ks = keys_of upper (path_fragments canonical) in
        Option.map
          (λ (c : ManifestBuilder). resolve (ks ++ k ∷ rest) (finalize c.root policy_deny))
          (add_scope upper full_path b path policy_mask_all values)
        ≡ some (bit_or values (grants_at ks b.root).cone_values)
  add_scope-resolve b path canonical values k rest e o v small none_below =
      let ks = keys_of upper (path_fragments canonical) in
      let (c, done, ordered, law) = add_scope-grants b path canonical 0 values e o in
      let at_ks : grants_at ks c.root ≡ cone_effect 0 values (grants_at ks b.root) =
        law ks ∙ (rw (keys_eq_refl ks)) in
      let small_c = λ (q : List WString). small_after b c ks values v small law q in
      let below : (j : WString) (r : List WString) → grants_at (ks ++ j ∷ r) c.root ≡ no_grants =
        λ j r. law (ks ++ j ∷ r) ∙ (rw (keys_eq_longer ks j r) (none_below j r)) in
      let mask : (grants_at ks c.root).cone_mask ≡ 0 =
        ap (λ (g : Grants). g.cone_mask) at_ks ∙ zero-bit_and (grants_at ks b.root).cone_mask in
      rw done (
        ap some (
          resolve-finalize (ks ++ k ∷ rest) c.root 0 (omega arith) small_c
          ∙ policy_along_blanket (λ q. grants_at q c.root) 0 ks k rest mask (small_c ks) below
          ∙ ap (λ (g : Grants). g.cone_values) at_ks))
