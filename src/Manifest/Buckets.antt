-- ===== src/Manifest/Buckets.antt =====
-- The open-addressing table of `SerializeNode` of src/manifest_builder.cpp: how a child's bucket is
-- found and which chain flags the search leaves behind.
pub mod Chains
pub mod Probe
use bazel_sandbox_windows.Base.{
  ℕ, zero, suc, ◌+◌, ◌*◌, ◌/◌, ◌%◌, ◌^◌, bit_or, ◌==◌, List, [], ◌∷◌, true, false,
}
use bazel_sandbox_windows.Base.{get_or, set, if◌then◌else◌}

abbrev pub chain_start : ℕ
chain_start = 0x01

abbrev pub chain_continuation : ℕ
chain_continuation = 0x02

-- `(uint32_t)(childCount / 0.7)`. The quotient of doubles is rounded to the nearest double, and it
-- falls below the next integer exactly where `10 * childCount / 7` does, for every count that fits
-- 32 bits, so the cast is the integer quotient.
unfoldable pub bucket_count : ℕ → ℕ
bucket_count child_count = if child_count == 0 then 0 else (child_count * 10 / 7) % 2 ^ 32

-- `while (offsets[index] != 0) { offsets[index] |= kChainContinuation; index = (index + 1) % n; }`
-- on fuel: the table and the index of the free bucket that ends the loop.
unfoldable pub skip_used : ℕ → ℕ → List ℕ → ℕ → List ℕ × ℕ
skip_used zero n offsets index = (offsets, index)
skip_used (suc fuel) n offsets index = elim (get_or offsets index 0 == 0) [
  | true ↦ (offsets, index)
  | false ↦
      skip_used fuel n (set offsets index (bit_or (get_or offsets index 0) chain_continuation))
        ((index + 1) % n)
]

-- The search for a child's bucket, from the hash to `offsets[index] = childOffset`. The loop is given
-- as many rounds as there are buckets.
unfoldable pub claim_bucket : ℕ → List ℕ → ℕ → List ℕ × ℕ
unfolding skip_used
claim_bucket n offsets hash =
    let index = hash % n in
    if get_or offsets index 0 == 0
    then (offsets, index)
    else skip_used n n (set offsets index (bit_or (get_or offsets index 0) chain_start))
        ((index + 1) % n)

unfoldable pub place_child : ℕ → List ℕ → ℕ → ℕ → List ℕ
unfolding claim_bucket
place_child n offsets hash child_offset =
    let (marked, index) = claim_bucket n offsets hash in set marked index child_offset
