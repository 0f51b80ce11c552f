-- ===== src/Manifest/Fragment.antt =====
-- Path fragments: the separators, the normalizer and the FNV-1 hash of src/manifest_builder.cpp, and
-- the cut of a canonical path into fragments by the loop of `AddPathFragments`.
-- The case table `towupper` belongs to the C runtime and is the parameter `upper`.
pub mod Split
use bazel_sandbox_windows.Base.{◌++◌, ℕ, ◌*◌, ◌/◌, ◌%◌, ◌^◌, bit_xor, ◌==◌, ◌||◌, Bool}
use bazel_sandbox_windows.Base.{true, false, List, [], ◌∷◌, map, WString, is_nil, if◌then◌else◌}

-- `IsSep`
unfoldable pub is_sep : ℕ → Bool
is_sep c = c == 0x5C || c == 0x2F

abbrev fnv1_basis : ℕ
fnv1_basis = 2166136261

abbrev fnv1_prime : ℕ
fnv1_prime = 16777619

-- `hash = (hash * kFnv1Prime) ^ byte`, in 32 bits
unfoldable pub fnv1_byte : ℕ → ℕ → ℕ
fnv1_byte hash byte = bit_xor ((hash * fnv1_prime) % 2 ^ 32) byte

-- The low byte of a code unit, then the high one.
unfoldable pub fnv1_unit : ℕ → ℕ → ℕ
unfolding fnv1_byte
fnv1_unit hash c = fnv1_byte (fnv1_byte hash (c % 256)) (c / 256 % 256)

unfoldable pub fnv1_units : ℕ → WString → ℕ
unfolding fnv1_unit
fnv1_units hash [] = hash
fnv1_units hash (c ∷ cs) = fnv1_units (fnv1_unit hash c) cs

module _ (upper : ℕ → ℕ) where
  -- `normalizedOut`: the code units through `towupper`, cut to a `wchar_t`
  unfoldable pub normalize : WString → WString
  normalize fragment = map (λ ch. upper ch % 2 ^ 16) fragment

  -- `NormalizeAndHashFragment`: the hash and the normalized fragment
  unfoldable pub normalize_and_hash_fragment : WString → ℕ × WString
  unfolding normalize fnv1_units
  normalize_and_hash_fragment fragment =
      (fnv1_units fnv1_basis (normalize fragment), normalize fragment)

-- The loop of `AddPathFragments` over the characters. `current` is what it has read of a fragment,
-- from `start` on; a separator ends a fragment that is not empty.
unfoldable pub fragments_from : WString → WString → List WString
unfolding is_sep
fragments_from current [] = if is_nil current then [] else current ∷ []
fragments_from current (c ∷ cs) = elim (is_sep c) [
  | false ↦ fragments_from (current ++ c ∷ []) cs
  | true ↦ let rest = fragments_from [] cs in if is_nil current then rest else current ∷ rest
]

unfoldable pub path_fragments : WString → List WString
unfolding fragments_from
path_fragments path = fragments_from [] path
