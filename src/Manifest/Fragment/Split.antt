-- ===== src/Manifest/Fragment/Split.antt =====
-- The cut of a path into fragments, and the hash: no fragment is empty or holds a separator, joining
-- fragments and cutting again gives them back, and the hash fits 32 bits.
use bazel_sandbox_windows.Base.{ℕ, ◌%◌, ◌^◌, ◌<◌, ◌≡◌, refl, ◌∙◌, ap, arith}
use bazel_sandbox_windows.Base.{
  true, false, Bool-cases, inl, inr, List, [], ◌∷◌, ◌++◌, WString, All,
}
use bazel_sandbox_windows.Base.{is_nil, append_assoc, All-append, bit_xor-lt, append-nil}
use bazel_sandbox_windows.Manifest.Fragment.{is_sep, fnv1_byte, fnv1_unit, fnv1_units, normalize}
use bazel_sandbox_windows.Manifest.Fragment.{
  normalize_and_hash_fragment, fragments_from, path_fragments,
}

abbrev pub NoSep : WString → Type 0
NoSep f = All (λ c. is_sep c ≡ false) f

abbrev pub IsFragment : WString → Type 0
IsFragment f = (is_nil f ≡ false) × NoSep f

fragments_from-All :
    (current path : WString) → NoSep current → All IsFragment (fragments_from current path)
unfolding fragments_from
fragments_from-All [] [] h = tt
fragments_from-All (x ∷ current) [] h = ((refl, h), tt)
fragments_from-All current (c ∷ path) h = elim (Bool-cases (is_sep c)) [
  | inr e ↦
      rw (e, fragments_from)
        (fragments_from-All (current ++ c ∷ []) path (All-append _ current (c ∷ []) h (e, tt)))
  | inl e ↦ at_sep current (fragments_from-All [] path tt) e h
]
  where
    at_sep :
        (current : WString)
        → All IsFragment (fragments_from [] path)
        → is_sep c ≡ true
        → NoSep current
        → All IsFragment (fragments_from current (c ∷ path))
    at_sep [] rest e h = rw (e, fragments_from) rest
    at_sep (x ∷ current) rest e h = rw (e, fragments_from) ((refl, h), rest)

-- Every fragment of every path has a character and no separator.
pub path_fragments-All : (path : WString) → All IsFragment (path_fragments path)
unfolding path_fragments
path_fragments-All path = fragments_from-All [] path tt

-- The fragments, each behind a backslash.
unfoldable pub join : List WString → WString
join [] = []
join (f ∷ fs) = 0x5C ∷ (f ++ join fs)

fragments_from-append :
    (current f rest : WString)
    → NoSep f
    → fragments_from current (f ++ rest) ≡ fragments_from (current ++ f) rest
unfolding fragments_from
fragments_from-append current [] rest h = rw (append-nil current)
fragments_from-append current (c ∷ f) rest h =
    rw (h.0, fragments_from)
      (fragments_from-append (current ++ c ∷ []) f rest h.1
        ∙ (rw (append_assoc current (c ∷ []) f)))

fragments_from-join :
    (current : WString) (fs : List WString)
    → is_nil current ≡ false
    → All IsFragment fs
    → fragments_from current (join fs) ≡ current ∷ fs
unfolding fragments_from join is_sep
fragments_from-join [] fs n h = cc
fragments_from-join (x ∷ current) [] n h = refl
fragments_from-join (x ∷ current) (f ∷ fs) n h =
    ap (λ t. (x ∷ current) ∷ t)
      (fragments_from-append [] f (join fs) h.0.1 ∙ fragments_from-join f fs h.0.0 h.1)

-- Fragments with a character and no separator, each behind a backslash, are cut into the same
-- fragments again.
pub path_fragments-join : (fs : List WString) → All IsFragment fs → path_fragments (join fs) ≡ fs
unfolding path_fragments join is_sep
path_fragments-join [] h = refl
path_fragments-join (f ∷ fs) h =
    fragments_from-append [] f (join fs) h.0.1 ∙ fragments_from-join f fs h.0.0 h.1

fnv1_byte-lt : (hash byte : ℕ) → byte < 256 → fnv1_byte hash byte < 2 ^ 32
unfolding fnv1_byte
fnv1_byte-lt hash byte h = bit_xor-lt 32 _ byte (omega arith) (omega arith)

fnv1_units-lt : (hash : ℕ) (s : WString) → hash < 2 ^ 32 → fnv1_units hash s < 2 ^ 32
unfolding fnv1_units
fnv1_units-lt hash [] h = h
fnv1_units-lt hash (c ∷ s) h =
    fnv1_units-lt (fnv1_unit hash c) s (fnv1_byte-lt (fnv1_byte hash (c % 256)) _ (omega arith))

-- The hash of a fragment fits the 32 bits that it is stored in.
pub normalize_and_hash_fragment-lt :
    (upper : ℕ → ℕ) (f : WString) → (normalize_and_hash_fragment upper f).0 < 2 ^ 32
unfolding normalize_and_hash_fragment
normalize_and_hash_fragment-lt upper f = fnv1_units-lt _ (normalize upper f) (omega arith)
