-- ===== src/Launcher/Stats/Message.antt =====
-- The fields of the ResourceUsage message of src/main.cpp, and that a protobuf reader gets them back.
use bazel_sandbox_windows.Base.{ℕ, ◌*◌, ◌%◌, ◌^◌, ◌<◌, ◌==◌, List, [], ◌∷◌, ◌++◌, map, All}
use bazel_sandbox_windows.Base.{
  if◌then◌else◌, ◌≡◌, refl, sym, ap, ◌∙◌, arith, Bool-cases, inl, inr, Bool, true,
}
use bazel_sandbox_windows.Base.{false, not, append_assoc, append-nil}
use native.Mathlib.Nat.{mod-eq_of_lt}
use bazel_sandbox_windows.Launcher.Stats.{
  varint, put_varint, put_int64_field, Usage, resource_usage,
}
use bazel_sandbox_windows.Launcher.Stats.RoundTrip.{read_varint, varint-read_back}

-- The bytes of one field.
abbrev field : ℕ → ℕ → List ℕ
field n v = if v == 0 then [] else (n * 8) % 256 ∷ varint 10 (v % 2 ^ 64)

put_int64_field-append : (out : List ℕ) (n v : ℕ) → put_int64_field out n v ≡ out ++ field n v
unfolding put_int64_field put_varint
put_int64_field-append out n v = elim (Bool-cases (v == 0)) [
  | inl e ↦ rw (e, append-nil out)
  | inr e ↦ rw (e, append_assoc)
]

-- A reader that knows the field numbers: an absent field is 0.
abbrev pub read_field : ℕ → List ℕ → ℕ × List ℕ
read_field n [] = (0, [])
read_field n (tag ∷ bytes) = if tag == n * 8 then read_varint bytes else (0, tag ∷ bytes)

unfoldable pub read_message : List ℕ → List ℕ → List ℕ
unfolding read_varint
read_message [] bytes = []
read_message (n ∷ numbers) bytes =
    let (value, rest) = read_field n bytes in value ∷ read_message numbers rest

-- The next field is another one.
abbrev apart : ℕ → List ℕ → Bool
apart n [] = true
apart n (tag ∷ bytes) = not (tag == n * 8)

read_field-absent : (n : ℕ) (tail : List ℕ) → apart n tail ≡ true → read_field n tail ≡ (0, tail)
read_field-absent n [] h = refl
read_field-absent n (tag ∷ bytes) h = let other : (tag == n * 8) ≡ false = ground arith in rw other

read_field-field :
    (n v : ℕ) (tail : List ℕ)
    → n < 32
    → v < 2 ^ 64
    → apart n tail ≡ true
    → read_field n (field n v ++ tail) ≡ (v, tail)
read_field-field n v tail small fits h = elim (Bool-cases (v == 0)) [
  | inl e ↦
      let z : 0 ≡ v = ground arith in rw e (read_field-absent n tail h ∙ ap (λ x. (x, tail)) z)
  | inr e ↦
      let tag : ((n * 8) % 256 == n * 8) ≡ true = ground (arith, small) in
      rw (e, tag) (varint-read_back v tail ∙ ap (λ x. (x, tail)) (mod-eq_of_lt fits))
]

abbrev message : List (ℕ × ℕ) → List ℕ
message [] = []
message ((n, v) ∷ fields) = field n v ++ message fields

-- The numbers ascend and the values fit 64 bits.
abbrev Ascends : List (ℕ × ℕ) → Type 0
Ascends [] = Unit
Ascends ((n, v) ∷ fields) = (n < 32) × (v < 2 ^ 64) × All (λ f. n < f.0) fields × Ascends fields

field-apart :
    (n m v : ℕ) (tail : List ℕ)
    → n < m
    → m < 32
    → apart n tail ≡ true
    → apart n (field m v ++ tail) ≡ true
field-apart n m v tail lt small h = elim (Bool-cases (v == 0)) [
  | inl e ↦ rw e h
  | inr e ↦ rw e (ground (arith, lt, small))
]

message-apart :
    (n : ℕ) (fields : List (ℕ × ℕ))
    → All (λ f. n < f.0) fields
    → Ascends fields
    → apart n (message fields) ≡ true
message-apart n [] a b = refl
message-apart n ((m, v) ∷ fields) a b =
    field-apart n m v (message fields) a.0 b.0 (message-apart n fields a.1 b.3)

read_message-message :
    (fields : List (ℕ × ℕ))
    → Ascends fields
    → read_message (map (λ f. f.0) fields) (message fields) ≡ map (λ f. f.1) fields
unfolding read_message
read_message-message [] a = refl
read_message-message ((n, v) ∷ fields) a =
    rw (read_field-field n v (message fields) a.0 a.1 (message-apart n fields a.2 a.3))
      (ap (λ t. v ∷ t) (read_message-message fields a.3))

abbrev usage_fields : Usage → List (ℕ × ℕ)
usage_fields u =
    (1, u.utime_sec)
    ∷ (2, u.utime_usec)
    ∷ (3, u.stime_sec)
    ∷ (4, u.stime_usec)
    ∷ (5, u.maxrss_kb)
    ∷ (12, u.in_block)
    ∷ (13, u.ou_block)
    ∷ []

abbrev pub usage_values : Usage → List ℕ
usage_values u =
    u.utime_sec ∷ u.utime_usec ∷ u.stime_sec ∷ u.stime_usec ∷ u.maxrss_kb ∷ u.in_block ∷ u.ou_block
    ∷ []

-- The fields are put one after the other.
abbrev put_all : List ℕ → List (ℕ × ℕ) → List ℕ
put_all out [] = out
put_all out ((n, v) ∷ fields) = put_all (put_int64_field out n v) fields

put_all-message :
    (fields : List (ℕ × ℕ)) (out : List ℕ) → put_all out fields ≡ out ++ message fields
put_all-message [] out = sym (append-nil out)
put_all-message ((n, v) ∷ fields) out =
    put_all-message fields (put_int64_field out n v)
    ∙ ap (λ t. t ++ message fields) (put_int64_field-append out n v)
    ∙ append_assoc out (field n v) (message fields)

resource_usage-eq : (u : Usage) → resource_usage u ≡ put_all [] (usage_fields u)
unfolding resource_usage put_int64_field
resource_usage-eq u = refl

-- A reader that knows the seven field numbers gets the seven values of the usage back from the message
-- that `WriteStats` makes of them, values of 0 included, if they are 64-bit numbers.
pub read_message-resource_usage :
    (u : Usage)
    → All (λ v. v < 2 ^ 64) (usage_values u)
    → read_message (1 ∷ 2 ∷ 3 ∷ 4 ∷ 5 ∷ 12 ∷ 13 ∷ []) (resource_usage u) ≡ usage_values u
read_message-resource_usage u h =
    ap (read_message _) (resource_usage-eq u ∙ put_all-message (usage_fields u) [])
    ∙ read_message-message (usage_fields u) ascends
  where
    ascends : Ascends (usage_fields u)
    ascends = (
      omega arith,
      h.0,
      (omega arith, (omega arith, (omega arith, (omega arith, (omega arith, (omega arith, tt)))))),
      (
        omega arith,
        h.1.0,
        (omega arith, (omega arith, (omega arith, (omega arith, (omega arith, tt))))),
        (
          omega arith,
          h.1.1.0,
          (omega arith, (omega arith, (omega arith, (omega arith, tt)))),
          (
            omega arith,
            h.1.1.1.0,
            (omega arith, (omega arith, (omega arith, tt))),
            (
              omega arith,
              h.1.1.1.1.0,
              (omega arith, (omega arith, tt)),
              (
                omega arith,
                h.1.1.1.1.1.0,
                (omega arith, tt),
                (omega arith, h.1.1.1.1.1.1.0, tt, tt),
              ),
            ),
          ),
        ),
      ),
    )
