-- ===== src/Manifest/Buckets/Chains.antt =====
-- How a reader follows the chain flags in the table that `SerializeNode` of src/manifest_builder.cpp
-- leaves, and that a table which only gains keeps what is found.
use bazel_sandbox_windows.Base.{ℕ, zero, suc, ◌+◌, ◌*◌, ◌/◌, ◌%◌, ◌<◌, ◌≡◌, refl}
use bazel_sandbox_windows.Base.{◌∙◌, ◌≢◌, List, [], ◌∷◌, arith, bit_or, bit_or_one, bit_or_two}
use bazel_sandbox_windows.Base.{length, get_or, set, get_or-set, ◌==◌}
use bazel_sandbox_windows.Base.{if◌then◌else◌, Bool-cases, inl, inr}

-- A bucket holds four times a number, plus the two chain flags: an offset without its flags, and the
-- two flags.
abbrev pub offset_of : ℕ → ℕ
offset_of o = o / 4 * 4

abbrev pub slot : List ℕ → ℕ → ℕ
slot t i = get_or t i 0

-- The offset `o` stands in the bucket, or further on along continuation flags.
pub data Continues (n : ℕ) (t : List ℕ) (o : ℕ) : ℕ → Type 0 where
  hit : (i : ℕ) → offset_of (slot t i) ≡ o → Continues n t o i
  skip :
      (i : ℕ)
      → slot t i ≢ 0
      → slot t i / 2 % 2 ≡ 1
      → Continues n t o ((i + 1) % n)
      → Continues n t o i

-- The offset `o` stands in the bucket of the hash, or on the chain that starts there.
pub data Finds (n : ℕ) (t : List ℕ) (o h : ℕ) : Type 0 where
  direct : offset_of (slot t (h % n)) ≡ o → slot t (h % n) ≢ 0 → Finds n t o h
  chained :
      slot t (h % n) ≢ 0
      → slot t (h % n) % 2 ≡ 1
      → Continues n t o ((h % n + 1) % n)
      → Finds n t o h

-- `u` holds what `t` holds, with at least its flags.
pub record Extends (t u : List ℕ) : Type 0 where
  pub keeps_offset : (i : ℕ) → slot t i ≢ 0 → offset_of (slot u i) ≡ offset_of (slot t i)
  pub keeps_used : (i : ℕ) → slot t i ≢ 0 → slot u i ≢ 0
  pub keeps_start : (i : ℕ) → slot t i % 2 ≡ 1 → slot u i % 2 ≡ 1
  pub keeps_continuation : (i : ℕ) → slot t i / 2 % 2 ≡ 1 → slot u i / 2 % 2 ≡ 1

pub Extends-refl : (t : List ℕ) → Extends t t
Extends-refl t = record {
  keeps_offset = λ i h. refl;
  keeps_used = λ i h. h;
  keeps_start = λ i h. h;
  keeps_continuation = λ i h. h;
}

pub Extends-trans : {t u v : List ℕ} → Extends t u → Extends u v → Extends t v
Extends-trans a b = record {
  keeps_offset = λ i h. b.keeps_offset i (a.keeps_used i h) ∙ a.keeps_offset i h;
  keeps_used = λ i h. b.keeps_used i (a.keeps_used i h);
  keeps_start = λ i h. b.keeps_start i (a.keeps_start i h);
  keeps_continuation = λ i h. b.keeps_continuation i (a.keeps_continuation i h);
}

slot_used : (t : List ℕ) (i o : ℕ) → offset_of (slot t i) ≡ o → o ≢ 0 → slot t i ≢ 0
slot_used t i o e ne z = ne (omega (arith, e, z))

Continues-Extends :
    (n : ℕ) (t u : List ℕ) (o i : ℕ) → Extends t u → o ≢ 0 → Continues n t o i → Continues n u o i
Continues-Extends n t u o i e ne (hit j p) = hit j (e.keeps_offset j (slot_used t j o p ne) ∙ p)
Continues-Extends n t u o i e ne (skip j used flag rest) =
    skip j (e.keeps_used j used) (e.keeps_continuation j flag)
      (Continues-Extends n t u o ((j + 1) % n) e ne rest)

-- What is found stays found when a table only gains.
pub Finds-Extends :
    (n : ℕ) (t u : List ℕ) (o h : ℕ) → Extends t u → o ≢ 0 → Finds n t o h → Finds n u o h
Finds-Extends n t u o h e ne (direct p used) =
    direct (e.keeps_offset (h % n) used ∙ p) (e.keeps_used (h % n) used)
Finds-Extends n t u o h e ne (chained used flag rest) =
    chained (e.keeps_used (h % n) used) (e.keeps_start (h % n) flag)
      (Continues-Extends n t u o ((h % n + 1) % n) e ne rest)

-- The value that a write leaves in a bucket in use keeps what was there.
pub record Upgrades (old new : ℕ) : Type 0 where
  pub same_offset : offset_of new ≡ offset_of old
  pub used : new ≢ 0
  pub start : old % 2 ≡ 1 → new % 2 ≡ 1
  pub continuation : old / 2 % 2 ≡ 1 → new / 2 % 2 ≡ 1

pub start_Upgrades : (o : ℕ) → o ≢ 0 → Upgrades o (bit_or o 1)
start_Upgrades o h = omega (arith, bit_or_one o)

pub continuation_Upgrades : (o : ℕ) → o ≢ 0 → Upgrades o (bit_or o 2)
continuation_Upgrades o h = omega (arith, bit_or_two o)

pub set-Extends :
    (t : List ℕ) (i v : ℕ) → i < length t → Upgrades (slot t i) v → Extends t (set t i v)
set-Extends t i v h up = record {
  keeps_offset = λ j u. ground (arith, get_or-set t i j v 0 h, up.same_offset);
  keeps_used = λ j u. ground (arith, get_or-set t i j v 0 h, up.used);
  keeps_start = λ j u. ground (arith, get_or-set t i j v 0 h, up.start);
  keeps_continuation = λ j u. ground (arith, get_or-set t i j v 0 h, up.continuation);
}

-- A write to a free bucket.
pub fill-Extends : (t : List ℕ) (i v : ℕ) → i < length t → slot t i ≡ 0 → Extends t (set t i v)
fill-Extends t i v h free = record {
  keeps_offset = λ j u. ground (arith, get_or-set t i j v 0 h);
  keeps_used = λ j u. ground (arith, get_or-set t i j v 0 h);
  keeps_start = λ j u. ground (arith, get_or-set t i j v 0 h);
  keeps_continuation = λ j u. ground (arith, get_or-set t i j v 0 h);
}

-- How many buckets are in use.
abbrev pub used_slots : List ℕ → ℕ
used_slots [] = 0
used_slots (x ∷ xs) = (if x == 0 then 0 else 1) + used_slots xs

abbrev pub busy : ℕ → ℕ
busy x = if x == 0 then 0 else 1

pub used_slots-set :
    (t : List ℕ) (i v : ℕ)
    → i < length t
    → used_slots (set t i v) + busy (slot t i) ≡ used_slots t + busy v
used_slots-set [] i v h = absurd (omega arith)
used_slots-set (x ∷ t) zero v h = omega arith
used_slots-set (x ∷ t) (suc i) v h = omega (arith, used_slots-set t i v (omega arith))

pub free_slot : (t : List ℕ) → used_slots t < length t → (i : ℕ) × (i < length t) × (slot t i ≡ 0)
free_slot [] h = absurd (omega arith)
free_slot (x ∷ t) h = elim (Bool-cases (x == 0)) [
  | inl e ↦ (0, omega arith, ground arith)
  | inr e ↦ let (i, p, q) = free_slot t (ground arith) in (suc i, omega arith, q)
]
