-- ===== src/Manifest/Tree/Order.antt =====
-- The children of src/manifest_builder.cpp are a `std::map`: their keys ascend in every node, the
-- descent keeps that, and it changes what `find` gives at one key only.
use bazel_sandbox_windows.Base.{◌≡◌, refl, ◌&&◌, &&_cases, WString, wcs_eq, wcs_lt}
use bazel_sandbox_windows.Base.{
  Bool, true, false, Bool-cases, inl, inr, Option, none, some, List, [], ◌∷◌,
}
use bazel_sandbox_windows.Base.{wcs_eq_iff, wcs_eq_refl, wcs_lt_irrefl, wcs_lt_trans, wcs_lt_total}
use bazel_sandbox_windows.Base.{if◌then◌else◌, ℕ}
use bazel_sandbox_windows.Manifest.Fragment.{normalize_and_hash_fragment}
use bazel_sandbox_windows.Manifest.Tree.{Scope, Node, Children, node, leaf, entry, visit_child}
use bazel_sandbox_windows.Manifest.Tree.{change_at, fresh_node}

-- Every key of the rest is above, as its first one is.
abbrev above : WString → Children → Bool
above key leaf = true
above key (entry j n rest) = wcs_lt key j

unfoldable mutual
  -- The keys of a node ascend strictly, at every depth.
  pub is_ordered : Node → Bool
  is_ordered (node s cs) = are_ordered cs

  pub are_ordered : Children → Bool
  are_ordered leaf = true
  are_ordered (entry key n rest) = is_ordered n && (above key rest && are_ordered rest)

-- `children.find(key)`
unfoldable pub find : WString → Children → Option Node
find key leaf = none
find key (entry j n rest) = if wcs_eq key j then some n else find key rest

above_trans :
    (k j : WString) (cs : Children) → wcs_lt k j ≡ true → above j cs ≡ true → above k cs ≡ true
above_trans k j leaf h a = refl
above_trans k j (entry i n rest) h a = wcs_lt_trans k j i h a

wcs_eq_of_lt : (k j : WString) → wcs_lt k j ≡ true → wcs_eq k j ≡ false
wcs_eq_of_lt k j h = elim (Bool-cases (wcs_eq k j)) [
  | inl e ↦
      let same : wcs_lt k k ≡ true = rw (← (wcs_eq_iff k j).0 e) at h in cc (same, wcs_lt_irrefl k)
  | inr e ↦ e
]

find-above :
    (key : WString) (cs : Children)
    → above key cs ≡ true
    → are_ordered cs ≡ true
    → find key cs ≡ none
unfolding find is_ordered
find-above key leaf a o = refl
find-above key (entry j n rest) a o =
    let parts = &&_cases (above j rest) (are_ordered rest) (&&_cases (is_ordered n) _ o).1 in
    rw (wcs_eq_of_lt key j a) (find-above key rest (above_trans key j rest a parts.0) parts.1)

abbrev pub found_or : Option Node → Node → Node
found_or none fresh = fresh
found_or (some n) fresh = n

-- After a visit the key leads to the changed child, or to the changed new one.
pub find-visit_child :
    (key : WString) (go : Node → Node) (fresh : Node) (cs : Children)
    → are_ordered cs ≡ true
    → find key (visit_child key go fresh cs) ≡ some (go (found_or (find key cs) fresh))
unfolding visit_child find is_ordered
find-visit_child key go fresh leaf o = rw (wcs_eq_refl key)
find-visit_child key go fresh (entry j n rest) o =
    let parts = &&_cases (above j rest) (are_ordered rest) (&&_cases (is_ordered n) _ o).1 in
    elim (Bool-cases (wcs_eq key j)) [
      | inl e ↦ rw (e, e)
      | inr e ↦ elim (Bool-cases (wcs_lt key j)) [
        | inl l ↦
            rw (
              e,
              l,
              wcs_eq_refl key,
              find-above key rest (above_trans key j rest l parts.0) parts.1,
            )
        | inr l ↦ rw (e, l, e) (find-visit_child key go fresh rest parts.1)
      ]
    ]

-- Every other key leads where it did.
pub find-visit_child_ne :
    (key other : WString) (go : Node → Node) (fresh : Node) (cs : Children)
    → wcs_eq other key ≡ false
    → find other (visit_child key go fresh cs) ≡ find other cs
unfolding visit_child find
find-visit_child_ne key other go fresh leaf h = rw h
find-visit_child_ne key other go fresh (entry j n rest) h = elim (Bool-cases (wcs_eq key j)) [
  | inl e ↦ let differ : wcs_eq other j ≡ false = rw (← (wcs_eq_iff key j).0 e) h in rw (e, differ)
  | inr e ↦ elim (Bool-cases (wcs_lt key j)) [
    | inl l ↦ rw (e, l, h)
    | inr l ↦ rw (e, l, find-visit_child_ne key other go fresh rest h)
  ]
]

above-visit_child :
    (low key : WString) (go : Node → Node) (fresh : Node) (cs : Children)
    → wcs_lt low key ≡ true
    → above low cs ≡ true
    → above low (visit_child key go fresh cs) ≡ true
unfolding visit_child
above-visit_child low key go fresh leaf l a = l
above-visit_child low key go fresh (entry j n rest) l a = elim (Bool-cases (wcs_eq key j)) [
  | inl e ↦ rw e a
  | inr e ↦ elim (Bool-cases (wcs_lt key j)) [ inl k ↦ rw (e, k) l | inr k ↦ rw (e, k) a ]
]

-- The keys still ascend.
visit_child-are_ordered :
    (key : WString) (go : Node → Node) (fresh : Node) (cs : Children)
    → ((n : Node) → is_ordered n ≡ true → is_ordered (go n) ≡ true)
    → is_ordered fresh ≡ true
    → are_ordered cs ≡ true
    → are_ordered (visit_child key go fresh cs) ≡ true
unfolding visit_child is_ordered
visit_child-are_ordered key go fresh leaf keeps f o = rw (keeps fresh f)
visit_child-are_ordered key go fresh (entry j n rest) keeps f o =
    let all = &&_cases (is_ordered n) _ o in
    let parts = &&_cases (above j rest) (are_ordered rest) all.1 in
    elim (Bool-cases (wcs_eq key j)) [
      | inl e ↦ rw (e, keeps n all.0, parts.0, parts.1)
      | inr e ↦ elim (Bool-cases (wcs_lt key j)) [
        | inl l ↦ rw (e, l, keeps fresh f, l, all.0, parts.0, parts.1)
        | inr l ↦
            let up = above-visit_child j key go fresh rest (wcs_lt_total key j e l) parts.0 in
            rw (e, l, all.0, up, visit_child-are_ordered key go fresh rest keeps f parts.1)
      ]
    ]

module _ (upper : ℕ → ℕ) where
  -- Every change of a node at a path keeps the keys of all nodes ascending.
  pub change_at-is_ordered :
      (change : Scope → Scope) (path : List WString) (n : Node)
      → is_ordered n ≡ true
      → is_ordered (change_at upper change path n) ≡ true
  unfolding change_at is_ordered
  change_at-is_ordered change [] (node s cs) o = o
  change_at-is_ordered change (f ∷ fs) (node s cs) o =
      visit_child-are_ordered (normalize_and_hash_fragment upper f).1 (change_at upper change fs)
        (fresh_node upper f) cs (λ n h. change_at-is_ordered change fs n h) refl o
