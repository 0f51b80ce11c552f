-- ===== src/Launcher/Stats.antt =====
-- The statistics message of src/main.cpp: `PutVarint`, `PutInt64Field` and the bytes that `WriteStats`
-- makes. What the job object counts is an argument.
pub mod RoundTrip
pub mod Message
use bazel_sandbox_windows.Base.{
  ℕ, zero, suc, ◌+◌, ◌*◌, ◌/◌, ◌%◌, ◌^◌, ◌==◌, ltb, bit_or, List, [], ◌∷◌, ◌++◌,
}
use bazel_sandbox_windows.Base.{if◌then◌else◌, length, Option, none, some}

-- `PutVarint` on a value below 2 ^ (7 * rounds): what it appends. A 64-bit value takes ten rounds.
unfoldable pub varint : ℕ → ℕ → List ℕ
varint zero v = v % 256 ∷ []
varint (suc rounds) v =
    let rest = varint rounds (v / 2 ^ 7) in
    if ltb v 0x80 then v % 256 ∷ [] else bit_or (v % 128) 0x80 ∷ rest

unfoldable pub put_varint : List ℕ → ℕ → List ℕ
unfolding varint
put_varint out v = out ++ varint 10 (v % 2 ^ 64)

-- `PutInt64Field`
unfoldable pub put_int64_field : List ℕ → ℕ → ℕ → List ℕ
unfolding put_varint
put_int64_field out field_num value =
    if value == 0 then out else put_varint (out ++ (field_num * 8) % 256 ∷ []) value

-- The counters of the job object; `none` where a query fails, which leaves zeros.
pub record Accounting : Type 0 where
  pub total_user_time : ℕ
  pub total_kernel_time : ℕ
  pub read_operation_count : ℕ
  pub write_operation_count : ℕ

-- The seven values of `WriteStats`.
pub record Usage : Type 0 where
  pub utime_sec : ℕ
  pub utime_usec : ℕ
  pub stime_sec : ℕ
  pub stime_usec : ℕ
  pub maxrss_kb : ℕ
  pub in_block : ℕ
  pub ou_block : ℕ

unfoldable pub usage : Option Accounting → Option ℕ → Usage
usage accounting peak_memory = record {
  utime_sec = elim accounting [ none ↦ 0 | some a ↦ a.total_user_time / 10000000 ];
  utime_usec = elim accounting [ none ↦ 0 | some a ↦ a.total_user_time % 10000000 / 10 ];
  stime_sec = elim accounting [ none ↦ 0 | some a ↦ a.total_kernel_time / 10000000 ];
  stime_usec = elim accounting [ none ↦ 0 | some a ↦ a.total_kernel_time % 10000000 / 10 ];
  maxrss_kb = elim peak_memory [ none ↦ 0 | some m ↦ m / 1024 ];
  in_block = elim accounting [ none ↦ 0 | some a ↦ a.read_operation_count ];
  ou_block = elim accounting [ none ↦ 0 | some a ↦ a.write_operation_count ];
}

-- The ResourceUsage message.
unfoldable pub resource_usage : Usage → List ℕ
unfolding put_int64_field
resource_usage u =
    put_int64_field
      (put_int64_field
        (put_int64_field
          (put_int64_field
            (put_int64_field (put_int64_field (put_int64_field [] 1 u.utime_sec) 2 u.utime_usec) 3
              u.stime_sec)
            4 u.stime_usec)
          5 u.maxrss_kb)
        12 u.in_block)
      13 u.ou_block

-- The bytes that `WriteStats` writes to the file.
unfoldable pub stats_message : Option Accounting → Option ℕ → List ℕ
unfolding usage resource_usage put_varint
stats_message accounting peak_memory =
    let ru = resource_usage (usage accounting peak_memory) in
    put_varint (0x0A ∷ []) (length ru) ++ ru
