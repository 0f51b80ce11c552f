-- ===== src/Overlay/Records/Stored.antt =====
-- One record that src/overlay_engine.cpp stores: what a reader finds in it, and that no byte beside it
-- changes.
use bazel_sandbox_windows.Base.{ℕ, ◌+◌, ◌*◌, ◌/◌, ◌%◌, ◌^◌, ◌≤◌, ◌<◌, ◌≡◌, refl, ap}
use bazel_sandbox_windows.Base.{◌++◌, true, false, ◌⊎◌, inl, inr, ◌==◌}
use bazel_sandbox_windows.Base.{
  WString, length, get_or, replicate, All, arith, ◌∙◌, Option, none, some,
}
use bazel_sandbox_windows.Base.{length-replicate, Bool-cases}
use bazel_sandbox_windows.Manifest.Bytes.{Bytes, u32_bytes, wide_bytes}
use bazel_sandbox_windows.Manifest.Bytes.Laws.{read_u32, length-wide_bytes}
use bazel_sandbox_windows.Overlay.Records.{
  Layout, try_get_dir_info_layout, store, store_u32, store_u64,
}
use bazel_sandbox_windows.Overlay.Records.{
  put_record, fill_overlay_dir_record_metadata, put_attributes,
}
use bazel_sandbox_windows.Overlay.Records.{put_file_id, AttributeData}
use bazel_sandbox_windows.Overlay.Records.Reads.{Agree-trans, length-store, Agree, Agree-store}
use bazel_sandbox_windows.Overlay.Records.Reads.{
  read_u32-Agree, read_units-Agree, read_u32-store_u32,
}
use bazel_sandbox_windows.Overlay.Records.Reads.{read_units-store}
use bazel_sandbox_windows.Overlay.Records.Chain.{RecordAt, try_get_dir_info_layout-IsLayout}

-- The parts of a record that its metadata leaves alone.
abbrev Untouched : ℕ → Layout → ℕ → ℕ → Type 0
Untouched rec l lo hi =
    (hi ≤ rec + 8) ⊎ (((rec + 60 ≤ lo) × (hi ≤ rec + 64)) ⊎ (rec + l.file_name_offset ≤ lo))

store_u64-Agree :
    (b : Bytes) (p v lo hi : ℕ) → (hi ≤ p) ⊎ (p + 8 ≤ lo) → Agree (store_u64 b p v) b lo hi
unfolding store_u64
store_u64-Agree b p v lo hi h = Agree-store b p (u32_bytes v ++ u32_bytes (v / 2 ^ 32)) lo hi h

pub store_u32-Agree :
    (b : Bytes) (p v lo hi : ℕ) → (hi ≤ p) ⊎ (p + 4 ≤ lo) → Agree (store_u32 b p v) b lo hi
unfolding store_u32
store_u32-Agree b p v lo hi h = Agree-store b p (u32_bytes v) lo hi h

-- A range beside the bytes 8 to 60 of a record is beside every word of its metadata.
beside :
    (rec k n lo hi : ℕ)
    → 8 ≤ k
    → k + n ≤ 60
    → (hi ≤ rec + 8) ⊎ (rec + 60 ≤ lo)
    → (hi ≤ rec + k) ⊎ (rec + k + n ≤ lo)
beside rec k n lo hi low high (inl h) = inl (omega arith)
beside rec k n lo hi low high (inr h) = inr (omega arith)

put_attributes-Agree :
    (b : Bytes) (rec : ℕ) (fad : AttributeData) (lo hi : ℕ)
    → (hi ≤ rec + 8) ⊎ (rec + 60 ≤ lo)
    → Agree (put_attributes b rec fad) b lo hi
unfolding put_attributes
put_attributes-Agree b rec fad lo hi h j l r =
    let word = λ (b : Bytes) (k v : ℕ) (low : 8 ≤ k) (high : k + 8 ≤ 60).
      store_u64-Agree b (rec + k) v lo hi (beside rec k 8 lo hi low high h) j l r in
    store_u32-Agree _ (rec + 56) _ lo hi (beside rec 56 4 lo hi (omega arith) (omega arith) h) j l r
    ∙ (word _ 48 _ (omega arith) (omega arith)
        ∙ (word _ 40 _ (omega arith) (omega arith)
            ∙ (word _ 32 _ (omega arith) (omega arith)
                ∙ (word _ 24 _ (omega arith) (omega arith)
                    ∙ (word _ 16 _ (omega arith) (omega arith)
                        ∙ word b 8 _ (omega arith) (omega arith))))))

put_file_id-Agree :
    (b : Bytes) (rec c : ℕ) (path : WString) (l : Layout) (lo hi : ℕ)
    → try_get_dir_info_layout c ≡ some l
    → Untouched rec l lo hi
    → Agree (put_file_id b rec c path) b lo hi
unfolding put_file_id try_get_dir_info_layout
put_file_id-Agree b rec c path l lo hi e h = elim (Bool-cases (c == 37)) [
  | inl t ↦ rw t (store_u64-Agree b (rec + 96) _ lo hi (ground arith))
  | inr t ↦ elim (Bool-cases (c == 38)) [
    | inl s ↦ rw (t, s) (store_u64-Agree b (rec + 72) _ lo hi (ground arith))
    | inr s ↦ rw (t, s) (λ j p q. refl)
  ]
]

-- The classes with metadata keep the length word at byte 60.
metadata_low :
    (c : ℕ) (l : Layout)
    → try_get_dir_info_layout c ≡ some l
    → (c == 12) ≡ false
    → 64 ≤ l.file_name_offset
unfolding try_get_dir_info_layout
metadata_low c l e h = ground arith

fill-Agree :
    (b : Bytes) (rec c : ℕ) (path : WString) (stat : Option AttributeData) (l : Layout) (lo hi : ℕ)
    → try_get_dir_info_layout c ≡ some l
    → Untouched rec l lo hi
    → Agree (fill_overlay_dir_record_metadata b rec c path stat) b lo hi
unfolding fill_overlay_dir_record_metadata
fill-Agree b rec c path none l lo hi e h = λ j p q. refl
fill-Agree b rec c path (some fad) l lo hi e h = elim (Bool-cases (c == 12)) [
  | inl t ↦ rw t (λ j p q. refl)
  | inr t ↦
      let low = metadata_low c l e t in
      let b' = put_attributes b rec fad in
      rw t (
        Agree-trans _ b' b lo hi (put_file_id-Agree b' rec c path l lo hi e h)
          (put_attributes-Agree b rec fad lo hi (ground arith)))
]

-- The length word and the name are not metadata.
length-Untouched :
    (c : ℕ) (l : Layout) (rec : ℕ)
    → try_get_dir_info_layout c ≡ some l
    → (c == 12) ≡ false
    → Untouched rec l (rec + l.file_name_length_offset) (rec + l.file_name_length_offset + 4)
unfolding try_get_dir_info_layout
length-Untouched c l rec e h = ground arith

fill_names :
    (b : Bytes) (rec c : ℕ) (path : WString) (stat : Option AttributeData)
    → (c == 12) ≡ true
    → fill_overlay_dir_record_metadata b rec c path stat ≡ b
unfolding fill_overlay_dir_record_metadata
fill_names b rec c path none t = refl
fill_names b rec c path (some fad) t = rw t

mod_small : (n : ℕ) → n < 2 ^ 32 → n % 2 ^ 32 ≡ n
mod_small n h = omega arith

fill-length_word :
    (b : Bytes) (rec c : ℕ) (path : WString) (stat : Option AttributeData) (l : Layout)
    → try_get_dir_info_layout c ≡ some l
    → Agree
        (fill_overlay_dir_record_metadata b rec c path stat)
        b
        (rec + l.file_name_length_offset)
        (rec + l.file_name_length_offset + 4)
fill-length_word b rec c path stat l e = elim (Bool-cases (c == 12)) [
  | inl t ↦ λ j p q. ap (λ x. get_or x j 0) (fill_names b rec c path stat t)
  | inr t ↦
      let p = rec + l.file_name_length_offset in
      fill-Agree b rec c path stat l p (p + 4) e (length-Untouched c l rec e t)
]

length-put_file_id :
    (b : Bytes) (rec c : ℕ) (path : WString) → length (put_file_id b rec c path) ≡ length b
unfolding put_file_id store_u64
length-put_file_id b rec c path = elim (Bool-cases (c == 37)) [
  | inl t ↦ rw (t, length-store)
  | inr t ↦ elim (Bool-cases (c == 38)) [ inl s ↦ rw (t, s, length-store) | inr s ↦ rw (t, s) ]
]

length-fill :
    (b : Bytes) (rec c : ℕ) (path : WString) (stat : Option AttributeData)
    → length (fill_overlay_dir_record_metadata b rec c path stat) ≡ length b
unfolding fill_overlay_dir_record_metadata put_attributes store_u64 store_u32
length-fill b rec c path none = refl
length-fill b rec c path (some fad) = elim (Bool-cases (c == 12)) [
  | inl t ↦ rw t
  | inr t ↦ rw (t, length-put_file_id) (simp length-store)
]

module _ (b : Bytes) (rec c : ℕ) (l : Layout) (name path : WString) (stat : Option AttributeData)
    (e : try_get_dir_info_layout c ≡ some l) where
  abbrev zeroed : Bytes
  zeroed = store b rec (replicate l.file_name_offset 0)

  abbrev headed : Bytes
  headed = store_u32 zeroed rec 0

  abbrev sized : Bytes
  sized = store_u32 headed (rec + l.file_name_length_offset) (length name * 2)

  abbrev named : Bytes
  named = store sized (rec + l.file_name_offset) (wide_bytes name)

  abbrev stored : Bytes
  stored = put_record b rec l c name path stat

  length-sized : length sized ≡ length b
  unfolding store_u32
  length-sized =
      length-store headed (rec + l.file_name_length_offset) (u32_bytes (length name * 2))
      ∙ (length-store zeroed rec (u32_bytes 0)
          ∙ length-store b rec (replicate l.file_name_offset 0))

  length-headed : length headed ≡ length b
  unfolding store_u32
  length-headed =
      length-store zeroed rec (u32_bytes 0) ∙ length-store b rec (replicate l.file_name_offset 0)

  pub length-put_record : length stored ≡ length b
  unfolding put_record
  length-put_record =
      length-fill named rec c path stat
      ∙ (length-store sized (rec + l.file_name_offset) (wide_bytes name) ∙ length-sized)

  -- No byte before the record or behind its name changes.
  pub put_record-Agree :
      (lo hi : ℕ)
      → (hi ≤ rec) ⊎ (rec + l.file_name_offset + length name * 2 ≤ lo)
      → Agree stored b lo hi
  unfolding put_record
  put_record-Agree lo hi h j p q =
      let lay = try_get_dir_info_layout-IsLayout c l e in
      let low = lay.length_low in
      let high = lay.offset_low in
      let nlo = l.file_name_length_offset in
      let zeros = length-replicate {A = ℕ} l.file_name_offset 0 in
      let wides = length-wide_bytes name in
      fill-Agree named rec c path stat l lo hi e
        (elim h [ inl m ↦ inl (omega arith) | inr m ↦ inr (inr (omega arith)) ]) j p q
      ∙ (Agree-store sized (rec + l.file_name_offset) (wide_bytes name) lo hi
            (elim h [ inl m ↦ inl (omega arith) | inr m ↦ inr (omega arith) ]) j p q
          ∙ (store_u32-Agree headed (rec + nlo) (length name * 2) lo hi
                (elim h [ inl m ↦ inl (omega arith) | inr m ↦ inr (omega arith) ]) j p q
              ∙ (store_u32-Agree zeroed rec 0 lo hi
                    (elim h [ inl m ↦ inl (omega arith) | inr m ↦ inr (omega arith) ]) j p q
                  ∙ Agree-store b rec (replicate l.file_name_offset 0) lo hi
                      (elim h [ inl m ↦ inl (omega arith) | inr m ↦ inr (omega arith) ]) j p q)))

  module _ (fits : rec + l.file_name_offset + length name * 2 ≤ length b) where
    -- The new record is the last of its chain.
    pub put_record-next : read_u32 stored rec ≡ 0
    unfolding put_record
    put_record-next =
        let lay = try_get_dir_info_layout-IsLayout c l e in
        let low = lay.length_low in
        let high = lay.offset_low in
        let nlo = l.file_name_length_offset in
        let same =
          Agree-trans stored named sized rec (rec + 4)
            (fill-Agree named rec c path stat l rec (rec + 4) e (inl (omega arith)))
            (Agree-store sized (rec + l.file_name_offset) (wide_bytes name) rec (rec + 4)
              (inl (omega arith))) in
        let same' = Agree-trans stored sized headed rec (rec + 4) same (
          store_u32-Agree headed (rec + nlo) (length name * 2) rec (rec + 4) (inl (omega arith))) in
        let size = length-store b rec (replicate l.file_name_offset 0) in
        read_u32-Agree stored headed rec same' ∙ read_u32-store_u32 zeroed rec 0 (omega arith)

    -- The new record holds the name.
    pub put_record-RecordAt :
        (limit : ℕ)
        → rec + l.file_name_offset + length name * 2 ≤ limit
        → length name * 2 < 2 ^ 32
        → All (λ u. u < 2 ^ 16) name
        → RecordAt l stored limit rec name
    unfolding put_record
    put_record-RecordAt limit inside short wide_name =
        let lay = try_get_dir_info_layout-IsLayout c l e in
        let low = lay.length_low in
        let high = lay.offset_low in
        let p = rec + l.file_name_length_offset in
        let q = rec + l.file_name_offset in
        let n = length name * 2 in
        let word =
          Agree-trans stored named sized p (p + 4) (fill-length_word named rec c path stat l e)
            (Agree-store sized q (wide_bytes name) p (p + 4) (inl (omega arith))) in
        let size = length-headed in
        let size' = length-sized in
        record {
          fits = inside;
          name_length =
              read_u32-Agree stored sized p word
              ∙ (read_u32-store_u32 headed p n (omega arith) ∙ mod_small n short);
          name_units =
              read_units-Agree stored named q (length name)
                (fill-Agree named rec c path stat l q (q + n) e (inr (inr (omega arith))))
              ∙ read_units-store sized q name wide_name (omega arith);
        }
