-- ===== src/Manifest/Tree/Resolve.antt =====
-- The policies that `Finalize` of src/manifest_builder.cpp computes: what a reader that walks the tree
-- gets for a path is the fold of the accumulators along that path, whichever nodes exist.
use bazel_sandbox_windows.Base.{ℕ, ◌^◌, ◌<◌, ◌≡◌, refl, sym, ◌∙◌, arith, WString, wcs_eq}
use bazel_sandbox_windows.Base.{Bool-cases, inl, inr, none, some, List, [], ◌∷◌, bit_and}
use bazel_sandbox_windows.Base.{bit_or, bit_or-zero, bit_and_ones, bit_or-lt}
use bazel_sandbox_windows.Base.{bit_and-le, Option-cases}
use bazel_sandbox_windows.Manifest.Tree.{Scope, Node, Children, node, leaf, entry, finalize}
use bazel_sandbox_windows.Manifest.Tree.{finalize_children, finalize_scope}
use bazel_sandbox_windows.Manifest.Tree.Order.{find}
use bazel_sandbox_windows.Manifest.Tree.Lookup.{
  Grants, no_grants, grants, grants_at, grants_at-none,
}
use bazel_sandbox_windows.Manifest.Tree.Lookup.{grants_at-some}

-- How the tree is read: the node's own policy where the path ends, and the cone policy of the deepest
-- node where the path goes on below the tree.
unfoldable pub resolve : List WString → Node → ℕ
unfolding find
resolve [] (node s cs) = s.node_policy
resolve (k ∷ ks) (node s cs) = elim (find k cs) [ none ↦ s.cone_policy | some n ↦ resolve ks n ]

-- A mask and values: `(policy & mask) | values`
abbrev pub under_cone : ℕ → Grants → ℕ
under_cone policy g = bit_or (bit_and policy g.cone_mask) g.cone_values

abbrev pub at_node : ℕ → Grants → ℕ
at_node policy g = bit_or (bit_and policy g.node_mask) g.node_values

-- The policy of a path, by the accumulators of all its prefixes and no tree.
unfoldable pub policy_along : (List WString → Grants) → ℕ → List WString → ℕ
policy_along g policy [] = at_node (under_cone policy (g [])) (g [])
policy_along g policy (k ∷ ks) = policy_along (λ q. g (k ∷ q)) (under_cone policy (g [])) ks

no_grants-cone : (p : ℕ) → p < 2 ^ 16 → under_cone p no_grants ≡ p
no_grants-cone p h = bit_or-zero (bit_and p 0xFFFF) ∙ bit_and_ones 16 p 0xFFFF h refl

policy_along_congr :
    (g h : List WString → Grants) (p : ℕ) (q : List WString)
    → ((r : List WString) → g r ≡ h r)
    → policy_along g p q ≡ policy_along h p q
unfolding policy_along
policy_along_congr g h p [] e = rw (e [])
policy_along_congr g h p (k ∷ q) e =
    rw (e []) (policy_along_congr (λ r. g (k ∷ r)) (λ r. h (k ∷ r)) _ q (λ r. e (k ∷ r)))

-- Where nothing is granted the policy comes through as it is.
pub policy_along_none :
    (g : List WString → Grants) (p : ℕ) (q : List WString)
    → p < 2 ^ 16
    → ((r : List WString) → g r ≡ no_grants)
    → policy_along g p q ≡ p
unfolding policy_along
policy_along_none g p [] h e = rw (e [], no_grants-cone p h) (no_grants-cone p h)
policy_along_none g p (k ∷ q) h e =
    rw (e [], no_grants-cone p h) (policy_along_none (λ r. g (k ∷ r)) p q h (λ r. e (k ∷ r)))

find-finalize_children-none :
    (k : WString) (cs : Children) (p : ℕ)
    → find k cs ≡ none
    → find k (finalize_children cs p) ≡ none
unfolding find finalize
find-finalize_children-none k leaf p h = refl
find-finalize_children-none k (entry j n rest) p h = elim (Bool-cases (wcs_eq k j)) [
  | inl e ↦ let bad : some n ≡ none = rw e at h in cc
  | inr e ↦ rw e (find-finalize_children-none k rest p (rw e at h))
]

find-finalize_children-some :
    (k : WString) (cs : Children) (p : ℕ) (m : Node)
    → find k cs ≡ some m
    → find k (finalize_children cs p) ≡ some (finalize m p)
unfolding find finalize
find-finalize_children-some k leaf p m h = cc
find-finalize_children-some k (entry j n rest) p m h = elim (Bool-cases (wcs_eq k j)) [
  | inl e ↦ let bad : some n ≡ some m = rw e at h in let same : n ≡ m = cc in rw (e, same)
  | inr e ↦ rw e (find-finalize_children-some k rest p m (rw e at h))
]

under_cone-lt : (p : ℕ) (g : Grants) → p < 2 ^ 16 → g.cone_values < 2 ^ 16 → under_cone p g < 2 ^ 16
under_cone-lt p g h v =
    bit_or-lt 16 (bit_and p g.cone_mask) g.cone_values (omega (arith, bit_and-le p g.cone_mask)) v

resolve-none :
    (k : WString) (q : List WString) (s : Scope) (cs : Children)
    → find k cs ≡ none
    → resolve (k ∷ q) (node s cs) ≡ s.cone_policy
unfolding resolve
resolve-none k q s cs e = rw (e, resolve)

resolve-some :
    (k : WString) (q : List WString) (s : Scope) (cs : Children) (n : Node)
    → find k cs ≡ some n
    → resolve (k ∷ q) (node s cs) ≡ resolve q n
unfolding resolve
resolve-some k q s cs n e = rw (e, resolve)

-- Reading the finalized tree at a path of keys gives the fold of the accumulators along the path, for
-- every path and tree, if the inherited policy and all cone values that were granted fit 16 bits.
pub resolve-finalize :
    (q : List WString) (n : Node) (p : ℕ)
    → p < 2 ^ 16
    → ((r : List WString) → (grants_at r n).cone_values < 2 ^ 16)
    → resolve q (finalize n p) ≡ policy_along (λ r. grants_at r n) p q
unfolding resolve finalize policy_along grants_at
resolve-finalize [] (node s cs) p h small = refl
resolve-finalize (k ∷ q) (node s cs) p h small =
    let c = under_cone p (grants s) in
    let below = under_cone-lt p (grants s) h (small []) in
    elim (Option-cases (find k cs)) [
      | inl absent ↦
          resolve-none k q (finalize_scope s p) (finalize_children cs c)
            (find-finalize_children-none k cs c absent)
          ∙ sym (
              policy_along_none (λ r. grants_at (k ∷ r) (node s cs)) c q below
                (λ r. grants_at-none k r s cs absent))
      | inr (m, present) ↦
          resolve-some k q (finalize_scope s p) (finalize_children cs c) (finalize m c)
            (find-finalize_children-some k cs c m present)
          ∙ resolve-finalize q m c below
              (λ r. rw (← grants_at-some k r s cs m present) (small (k ∷ r)))
          ∙ sym (
              policy_along_congr (λ r. grants_at (k ∷ r) (node s cs)) (λ r. grants_at r m) c q
                (λ r. grants_at-some k r s cs m present))
    ]
