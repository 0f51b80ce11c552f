-- ===== src/Overlay/Enumeration/Filter/Batches.antt =====
-- The loops `ApplyEnumerationFilterNt` and `ApplyEnumerationFilterNtEx` of src/overlay_engine.cpp end, and
-- hand back no batch that shows nothing.
use bazel_sandbox_windows.Base.{ℕ, suc, zero, ◌^◌, ◌≤◌, ◌<◌, ◌≡◌, ◌%◌, refl, bit_and, bit_and_step}
use bazel_sandbox_windows.Base.{List, [], ◌∷◌, Bool, true, false, inl, inr, ◌⊎◌}
use bazel_sandbox_windows.Base.{Option, some, WString, length, arith, Bool-cases}
use bazel_sandbox_windows.Manifest.Bytes.{Bytes}
use bazel_sandbox_windows.Overlay.Records.{Layout, try_get_dir_info_layout}
use bazel_sandbox_windows.Overlay.Records.Chain.{Chain, read_names}
use bazel_sandbox_windows.Overlay.Enumeration.{keep}
use bazel_sandbox_windows.Overlay.Enumeration.Insert.{nt_success}
use bazel_sandbox_windows.Overlay.Enumeration.Filter.{
  Query, Reply, query_again, filter_batches, filtered_batch, count,
}
use bazel_sandbox_windows.Overlay.Enumeration.Filter.{
  filter_directory_information, apply_enumeration_filter_nt, apply_enumeration_filter_nt_ex,
}
use bazel_sandbox_windows.Overlay.Enumeration.Filter.Listing.{
  reveals, filter_directory_information-lists,
}

-- A batch: the caller's buffer holds a chain of records.
pub record IsBatch (l : Layout) (len : ℕ) (b : Bytes) : Type 0 where
  pub names : List WString
  pub room : len ≤ length b
  pub chain : Chain l b len 0 names

-- The flags that `ApplyEnumerationFilterNtEx` passes on have no `SL_RESTART_SCAN`.
without_restart : (flags : ℕ) → bit_and flags 0xFFFFFFFE % 2 ≡ 0
without_restart flags = omega (arith, bit_and_step flags 0xFFFFFFFE)

module _ {S : Type 0} (real : S → ℕ → Reply S) (to_dos_error : ℕ → ℕ) (visible : WString → Bool)
    (info_class len : ℕ) (same_buffer : Bool) where
  -- What is documented of the real call, for flags without `SL_RESTART_SCAN`, the lowest bit: it goes on
  -- with the scan, of which less is left after every batch, and a call that succeeds leaves a chain of
  -- records in the caller's buffer, copied or direct. A call that restarts the scan may do anything.
  pub record IsScan (l : Layout) (left : S → ℕ) : Type 0 where
    pub shrinks :
        (s : S) (flags : ℕ)
        → flags % 2 ≡ 0
        → nt_success (real s flags).status ≡ true
        → left (real s flags).scan < left s
    pub packed :
        (flags : ℕ) (q : Query S)
        → flags % 2 ≡ 0
        → nt_success (real q.scan flags).status ≡ true
        → IsBatch l len
            (query_again real to_dos_error visible info_class len same_buffer flags q).information

  -- How the loop ends: with the failed status of the last query, or with a batch of which the caller
  -- reads at least one visible name.
  pub data Shows (l : Layout) (q : Query S) : Type 0 where
    failed : nt_success q.result ≡ false → Shows l q
    shows :
        (names : List WString) (n : WString) (ns : List WString)
        → keep visible names ≡ n ∷ ns
        → read_names len l q.information 0 ≡ reveals visible names
        → Shows l q

  module _ (l : Layout) (laid : try_get_dir_info_layout info_class ≡ some l) (small : len < 2 ^ 32)
      (left : S → ℕ) (scan : IsScan l left) where
    abbrev batches : ℕ → ℕ → Query S → Option (Query S)
    batches = filter_batches real to_dos_error visible info_class len same_buffer

    abbrev Ends : ℕ → ℕ → Query S → Type 0
    Ends fuel flags q = (q' : Query S) × (batches fuel flags q ≡ some q') × Shows l q'

    -- The query has failed, or its batch is there and the fuel is enough for what is left of the scan.
    abbrev Ready : ℕ → Query S → Type 0
    Ready fuel q =
        ((nt_success q.result ≡ false) × (0 < fuel))
        ⊎ (IsBatch l len q.information × (suc (left q.scan) < fuel))

    next_Ready :
        (fuel flags : ℕ) (q : Query S)
        → flags % 2 ≡ 0
        → suc (left q.scan) < suc fuel
        → Ready fuel (query_again real to_dos_error visible info_class len same_buffer flags q)
    unfolding query_again
    next_Ready fuel flags q even few = elim (Bool-cases (nt_success (real q.scan flags).status)) [
      | inl s ↦
          let less = scan.shrinks q.scan flags even s in
          inr (scan.packed flags q even s, omega arith)
      | inr s ↦ inl (s, omega arith)
    ]

    -- A round of the loop, by the names that the filter kept.
    round :
        (fuel flags : ℕ) (q : Query S) (names : List WString) (kept : List WString) (out : Bytes)
        → keep visible names ≡ kept
        → filter_directory_information q.information info_class len visible
          ≡ some (out, count (length (keep visible names)))
        → read_names len l out 0 ≡ reveals visible names
        → nt_success q.result ≡ true
        → Ends fuel flags (
            query_again real to_dos_error visible info_class len same_buffer flags
              (record q { information = out }))
        → Ends (suc fuel) flags q
    unfolding filter_batches filtered_batch
    round fuel flags q names (n ∷ ns) out k runs reads t rest =
        (record q { information = out }, rw (t, runs, k), shows names n ns k reads)
    round fuel flags q names [] out k runs reads t rest = (rest.0, rw (t, runs, k) rest.1, rest.2)

    ends : (fuel flags : ℕ) (q : Query S) → flags % 2 ≡ 0 → Ready fuel q → Ends fuel flags q
    unfolding filter_batches
    ends zero flags q even (inl (f, few)) = absurd (omega arith)
    ends zero flags q even (inr (batch, few)) = absurd (omega arith)
    ends (suc fuel) flags q even (inl (f, few)) = (q, rw f, failed f)
    ends (suc fuel) flags q even (inr (batch, few)) = elim (Bool-cases (nt_success q.result)) [
      | inr f ↦ (q, rw f, failed f)
      | inl t ↦
          let got =
            filter_directory_information-lists visible info_class len l q.information batch.names
              laid small batch.room batch.chain in
          let q' : Query S = record q { information = got.0 } in
          round fuel flags q batch.names (keep visible batch.names) got.0 refl got.1 got.2 t (
            ends fuel flags
              (query_again real to_dos_error visible info_class len same_buffer flags q') even
              (next_Ready fuel flags q' even few))
    ]

    -- `ApplyEnumerationFilterNt` and `ApplyEnumerationFilterNtEx`, for a class of records that the filter
    -- knows, end and hand back a failed status or a batch of which the caller reads at least one visible
    -- name, whatever flags the caller passed. The first query has failed or gave a chain of records; a query
    -- without `SL_RESTART_SCAN` goes on with the scan of the real directory, which ends, and gives a chain
    -- of records in the caller's buffer, which is as long as is passed, below 2^32. The fuel is more than what is left of the scan, and one.
    pub apply_enumeration_filter_nt-Shows :
        (fuel query_flags : ℕ) (q : Query S)
        → Ready fuel q
        → ((q' : Query S) × (apply_enumeration_filter_nt real to_dos_error visible info_class len
                same_buffer fuel q
              ≡ some q')
            × Shows l q')
          × ((q' : Query S) × (apply_enumeration_filter_nt_ex real to_dos_error visible info_class
                  len same_buffer fuel query_flags q
                ≡ some q')
              × Shows l q')
    unfolding apply_enumeration_filter_nt apply_enumeration_filter_nt_ex
    apply_enumeration_filter_nt-Shows fuel query_flags q ready = (
      ends fuel 0 q (omega arith) ready,
      ends fuel (bit_and query_flags 0xFFFFFFFE) q (without_restart query_flags) ready,
    )
