-- ===== src/Manifest/Bytes.antt =====
-- The byte writers of src/manifest_builder.cpp: little-endian words, a patch, padded texts.
pub mod Laws
use bazel_sandbox_windows.Base.{ℕ, zero, suc, ◌+◌, ◌-◌, ◌*◌, ◌/◌, ◌%◌, ◌^◌, List, [], ◌∷◌, ◌++◌}
use bazel_sandbox_windows.Base.{WString, length, set, take, replicate, is_nil, if◌then◌else◌}

abbrev pub Bytes : Type 0
Bytes = List ℕ

-- The four bytes of a 32-bit word, lowest first.
abbrev pub u32_bytes : ℕ → Bytes
u32_bytes v = v % 256 ∷ v / 2 ^ 8 % 256 ∷ v / 2 ^ 16 % 256 ∷ v / 2 ^ 24 % 256 ∷ []

-- `PutU32`
unfoldable pub put_u32 : Bytes → ℕ → Bytes
put_u32 out v = out ++ u32_bytes v

-- `PatchU32`
unfoldable pub patch_u32 : Bytes → ℕ → ℕ → Bytes
patch_u32 out at_pos v =
    set
      (set (set (set out at_pos (v % 256)) (at_pos + 1) (v / 2 ^ 8 % 256)) (at_pos + 2)
        (v / 2 ^ 16 % 256))
      (at_pos + 3) (v / 2 ^ 24 % 256)

-- `PaddedAnsiLength`: `(len + 4) & ~3`
unfoldable pub padded_ansi_length : Bytes → ℕ
padded_ansi_length s = ((length s + 4) / 4 * 4) % 2 ^ 32

-- The loop of `PutPaddedAnsi`: `total` rounds, a byte of the text or a zero in each.
padded_from : ℕ → Bytes → Bytes
padded_from zero s = []
padded_from (suc n) [] = 0 ∷ padded_from n []
padded_from (suc n) (c ∷ s) = c % 256 ∷ padded_from n s

-- `PutPaddedAnsi`
unfoldable pub put_padded_ansi : Bytes → Bytes → Bytes
unfolding padded_from padded_ansi_length
put_padded_ansi out s = out ++ padded_from (padded_ansi_length s) s

-- The two bytes of each code unit, lowest first.
unfoldable pub wide_bytes : WString → Bytes
wide_bytes [] = []
wide_bytes (c ∷ cs) = c % 256 ∷ c / 256 % 256 ∷ wide_bytes cs

-- `rawBytes` and `paddedBytes` of a block that holds a path and its NUL
unfoldable pub raw_bytes : WString → ℕ
raw_bytes path = ((length path + 1) * 2) % 2 ^ 32

unfoldable pub padded_bytes : WString → ℕ
unfolding raw_bytes
padded_bytes path = ((raw_bytes path + 3) % 2 ^ 32) / 4 * 4

-- The report block and the two overlay root blocks of `Build`: a size word, then the path with its
-- NUL and its padding; an empty path is a size of 0.
unfoldable pub put_path_block : Bytes → WString → Bytes
unfolding put_u32 wide_bytes padded_bytes
put_path_block out path =
    if is_nil path
    then put_u32 out 0
    else ((put_u32 out (padded_bytes path) ++ take (raw_bytes path) (wide_bytes path ++ 0 ∷ 0 ∷ []))
        ++ replicate ((padded_bytes path + 2 ^ 32 - raw_bytes path) % 2 ^ 32) 0)
