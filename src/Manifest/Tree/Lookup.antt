-- ===== src/Manifest/Tree/Lookup.antt =====
-- The tree of src/manifest_builder.cpp as a function from paths to scope accumulators: a scope
-- operation is an update of that function at one path.
use bazel_sandbox_windows.Base.{◌≡◌, refl, ◌∙◌, ◌&&◌, &&_cases, WString, wcs_eq}
use bazel_sandbox_windows.Base.{Bool, true, false, Bool-cases, inl, inr, none, some, List, [], ◌∷◌}
use bazel_sandbox_windows.Base.{wcs_eq_iff, wcs_eq_refl, if◌then◌else◌, ℕ, map, Option-cases}
use bazel_sandbox_windows.Manifest.Policy.{policy_deny, policy_mask_nothing}
use bazel_sandbox_windows.Manifest.Fragment.{normalize_and_hash_fragment}
use bazel_sandbox_windows.Manifest.Tree.{Scope, Node, Children, node, leaf, entry, visit_child}
use bazel_sandbox_windows.Manifest.Tree.{change_at, fresh_node}
use bazel_sandbox_windows.Manifest.Tree.Order.{is_ordered, are_ordered, find, find-visit_child}
use bazel_sandbox_windows.Manifest.Tree.Order.{find-visit_child_ne}

-- The four accumulators of a scope; the default ones change nothing.
pub record Grants : Type 0 where
  pub cone_mask : ℕ
  pub cone_values : ℕ
  pub node_mask : ℕ
  pub node_values : ℕ

abbrev pub no_grants : Grants
no_grants = record {
  cone_mask = policy_mask_nothing;
  cone_values = policy_deny;
  node_mask = policy_mask_nothing;
  node_values = policy_deny;
}

abbrev pub grants : Scope → Grants
grants s = record {
  cone_mask = s.cone_mask;
  cone_values = s.cone_values;
  node_mask = s.node_mask;
  node_values = s.node_values;
}

-- The accumulators at a path of keys; a path that the tree lacks has the default ones.
unfoldable pub grants_at : List WString → Node → Grants
unfolding find
grants_at [] (node s cs) = grants s
grants_at (k ∷ ks) (node s cs) = elim (find k cs) [ none ↦ no_grants | some n ↦ grants_at ks n ]

pub grants_at-none :
    (k : WString) (q : List WString) (s : Scope) (cs : Children)
    → find k cs ≡ none
    → grants_at (k ∷ q) (node s cs) ≡ no_grants
unfolding grants_at
grants_at-none k q s cs e = rw (e, grants_at)

pub grants_at-some :
    (k : WString) (q : List WString) (s : Scope) (cs : Children) (n : Node)
    → find k cs ≡ some n
    → grants_at (k ∷ q) (node s cs) ≡ grants_at q n
unfolding grants_at
grants_at-some k q s cs n e = rw (e, grants_at)

grants_at_congr :
    (k : WString) (q : List WString) (s : Scope) (cs ds : Children)
    → find k cs ≡ find k ds
    → grants_at (k ∷ q) (node s cs) ≡ grants_at (k ∷ q) (node s ds)
unfolding grants_at
grants_at_congr k q s cs ds e = rw (e, grants_at)

unfoldable pub keys_eq : List WString → List WString → Bool
keys_eq [] [] = true
keys_eq [] (k ∷ ks) = false
keys_eq (j ∷ js) [] = false
keys_eq (j ∷ js) (k ∷ ks) = wcs_eq j k && keys_eq js ks

are_ordered-find :
    (key : WString) (cs : Children) (n : Node)
    → are_ordered cs ≡ true
    → find key cs ≡ some n
    → is_ordered n ≡ true
unfolding find is_ordered
are_ordered-find key leaf n o e = cc
are_ordered-find key (entry j m rest) n o e =
    let all = &&_cases (is_ordered m) _ o in
    let parts = &&_cases _ (are_ordered rest) all.1 in
    elim (Bool-cases (wcs_eq key j)) [
      | inl t ↦ let same : some m ≡ some n = rw t at e in let eq : m ≡ n = cc in rw (← eq) all.0
      | inr t ↦ are_ordered-find key rest n parts.1 (rw t at e)
    ]

module _ (upper : ℕ → ℕ) where
  -- The keys of a path: its fragments, normalized.
  abbrev pub key_of : WString → WString
  key_of f = (normalize_and_hash_fragment upper f).1

  abbrev pub keys_of : List WString → List WString
  keys_of path = map key_of path

  grants_at-fresh_node :
      (q : List WString) (f : WString) → grants_at q (fresh_node upper f) ≡ no_grants
  unfolding grants_at
  grants_at-fresh_node [] f = refl
  grants_at-fresh_node (k ∷ q) f = refl

  -- A change of the node at a path, in a tree whose keys ascend, changes the accumulators of that path
  -- of keys by the effect of the change and those of no other path.
  pub grants_at-change_at :
      (change : Scope → Scope) (effect : Grants → Grants) (path q : List WString) (n : Node)
      → ((s : Scope) → grants (change s) ≡ effect (grants s))
      → is_ordered n ≡ true
      → grants_at q (change_at upper change path n)
        ≡ (if keys_eq q (keys_of path) then effect (grants_at q n) else grants_at q n)
  unfolding grants_at change_at keys_eq is_ordered
  grants_at-change_at change effect [] [] (node s cs) law o = law s
  grants_at-change_at change effect [] (k ∷ q) (node s cs) law o = refl
  grants_at-change_at change effect (f ∷ fs) [] (node s cs) law o = refl
  grants_at-change_at change effect (f ∷ fs) (k ∷ q) (node s cs) law o =
      elim (Bool-cases (wcs_eq k (key_of f))) [
        | inr e ↦
            let go = change_at upper change fs in
            let fresh = fresh_node upper f in
            grants_at_congr k q s (visit_child (key_of f) go fresh cs) cs
              (find-visit_child_ne (key_of f) k go fresh cs e)
            ∙ (rw e)
        | inl e ↦
            let go = change_at upper change fs in
            let fresh = fresh_node upper f in
            let visited = find-visit_child (key_of f) go fresh cs o in
            let same : k ≡ key_of f = (wcs_eq_iff k (key_of f)).0 e in
            rw (same, wcs_eq_refl (key_of f))
              (elim (Option-cases (find (key_of f) cs)) [
                | inl absent ↦
                    grants_at-some (key_of f) q s (visit_child (key_of f) go fresh cs) (go fresh)
                      (visited ∙ (rw absent))
                    ∙ grants_at-change_at change effect fs q fresh law refl
                    ∙ (rw (grants_at-fresh_node q f, grants_at-none (key_of f) q s cs absent))
                | inr (m, present) ↦
                    grants_at-some (key_of f) q s (visit_child (key_of f) go fresh cs) (go m)
                      (visited ∙ (rw present))
                    ∙ grants_at-change_at change effect fs q m law
                        (are_ordered-find (key_of f) cs m o present)
                    ∙ (rw (grants_at-some (key_of f) q s cs m present))
              ])
      ]
