-- ===== src/Base/Bits.antt =====
-- Laws of the bitwise operations at variables, from one equation for the lowest digit.
use Prim.Native.Nat.{ℕ, zero, suc, ◌+◌, ◌-◌, ◌*◌, ◌/◌, ◌%◌, ◌^◌, ◌≤◌, ◌<◌, min, max, bit_and}
use Prim.Native.Nat.{bit_or, bit_xor, differ, bitwise, digits}
use Prim.Native.Nat.{bit_and-bitwise, bit_or-bitwise, bit_xor-bitwise}
use mathlib.Core.Path.{◌≡◌, refl, sym, ◌∙◌}
use native.Mathlib.Nat.{pow-suc}
use native.Mathlib.Omega.{arith}

module _ (z : ℕ → ℕ) (f : ℕ → ℕ → ℕ) where
  digits-zero : (k y : ℕ) → digits z f k 0 y ≡ digits z f 0 0 y
  digits-zero zero y = refl
  digits-zero (suc k) y = refl

  -- Fuel beyond the value itself changes nothing.
  digits_more : (k fuel x y : ℕ) → x ≤ fuel → digits z f (fuel + k) x y ≡ digits z f fuel x y
  digits_more k fuel zero y h = digits-zero (fuel + k) y ∙ sym (digits-zero fuel y)
  digits_more k zero (suc x) y h = absurd (omega arith)
  digits_more k (suc fuel) (suc x) y h =
      let e : suc fuel + k ≡ suc (fuel + k) = omega arith in
      rw (e, digits_more k fuel (suc x / 2) (y / 2) (omega arith))

  bitwise_layer :
      (x y : ℕ)
      → bitwise z f (suc x) y ≡ bitwise z f (suc x / 2) (y / 2) * 2 + f (suc x % 2) (y % 2)
  bitwise_layer x y =
      let half = suc x / 2 in
      let e : half + (x - half) ≡ x = omega arith in
      let same : digits z f x half (y / 2) ≡ digits z f half half (y / 2) =
        rw e at (digits_more (x - half) half half (y / 2) (omega arith)) in
      omega (arith, same)

pub bit_or_step : (x y : ℕ) → bit_or x y ≡ bit_or (x / 2) (y / 2) * 2 + max (x % 2) (y % 2)
bit_or_step zero y = simp bit_or-bitwise (omega arith)
bit_or_step (suc x) y = simp bit_or-bitwise (bitwise_layer (λ d. d) max x y)

pub bit_and_step : (x y : ℕ) → bit_and x y ≡ bit_and (x / 2) (y / 2) * 2 + min (x % 2) (y % 2)
bit_and_step zero y = simp bit_and-bitwise (omega arith)
bit_and_step (suc x) y = simp bit_and-bitwise (bitwise_layer (λ d. 0) min x y)

zero_digit : (b : ℕ) → differ 0 b ≡ b
zero_digit b = refl

differ-le : (a b : ℕ) → a ≤ 1 → b ≤ 1 → differ a b ≤ 1
differ-le zero b p q = q
differ-le (suc zero) zero p q = omega arith
differ-le (suc zero) (suc zero) p q = omega arith
differ-le (suc zero) (suc (suc b)) p q = absurd (omega arith)
differ-le (suc (suc a)) b p q = absurd (omega arith)

bit_xor_step : (a b : ℕ) → bit_xor a b ≡ bit_xor (a / 2) (b / 2) * 2 + differ (a % 2) (b % 2)
bit_xor_step zero b = simp bit_xor-bitwise (omega (arith, zero_digit (b % 2)))
bit_xor_step (suc a) b = simp bit_xor-bitwise (bitwise_layer (λ y. y) differ a b)

-- Both operands below a power of two: so is the exclusive or.
pub bit_xor-lt : (k a b : ℕ) → a < 2 ^ k → b < 2 ^ k → bit_xor a b < 2 ^ k
bit_xor-lt zero a b p q =
    let ea : a ≡ 0 = omega arith in let eb : b ≡ 0 = omega arith in rw (ea, eb) (omega arith)
bit_xor-lt (suc k) a b p q = omega (
  arith,
  bit_xor_step a b,
  pow-suc 2 k,
  bit_xor-lt k (a / 2) (b / 2) (omega (arith, pow-suc 2 k)) (omega (arith, pow-suc 2 k)),
  differ-le (a % 2) (b % 2) (omega arith) (omega arith),
)

bit_or-zero_below : (n a : ℕ) → a ≤ n → bit_or a 0 ≡ a
bit_or-zero_below n zero h = refl
bit_or-zero_below zero (suc a) h = absurd (omega arith)
bit_or-zero_below (suc n) (suc a) h =
    omega (arith, bit_or_step (suc a) 0, bit_or-zero_below n (suc a / 2) (omega arith))

pub bit_or-zero : (a : ℕ) → bit_or a 0 ≡ a
bit_or-zero a = bit_or-zero_below a a (omega arith)

pub zero-bit_or : (b : ℕ) → bit_or 0 b ≡ b
zero-bit_or b = simp bit_or-bitwise refl

pub zero-bit_and : (b : ℕ) → bit_and 0 b ≡ 0
zero-bit_and b = simp bit_and-bitwise refl

bit_and-zero_below : (n a : ℕ) → a ≤ n → bit_and a 0 ≡ 0
bit_and-zero_below n zero h = refl
bit_and-zero_below zero (suc a) h = absurd (omega arith)
bit_and-zero_below (suc n) (suc a) h =
    omega (arith, bit_and_step (suc a) 0, bit_and-zero_below n (suc a / 2) (omega arith))

pub bit_and-zero : (a : ℕ) → bit_and a 0 ≡ 0
bit_and-zero a = bit_and-zero_below a a (omega arith)

pub bit_or_one : (a : ℕ) → bit_or a 1 ≡ a / 2 * 2 + 1
bit_or_one a = omega (arith, bit_or_step a 1, bit_or-zero (a / 2))

pub bit_or_two : (a : ℕ) → bit_or a 2 ≡ a / 4 * 4 + 2 + a % 2
bit_or_two a = omega (arith, bit_or_step a 2, bit_or_one (a / 2))

-- A mask of ones that is as wide as the operand keeps it.
pub bit_and_ones : (k a m : ℕ) → a < 2 ^ k → m + 1 ≡ 2 ^ k → bit_and a m ≡ a
bit_and_ones zero a m h e = let ea : a ≡ 0 = omega arith in rw (ea, zero-bit_and m)
bit_and_ones (suc k) a m h e = omega (
  arith,
  bit_and_step a m,
  pow-suc 2 k,
  bit_and_ones k (a / 2) (m / 2) (omega (arith, pow-suc 2 k)) (omega (arith, pow-suc 2 k)),
)

or_comm_below : (n a b : ℕ) → a + b ≤ n → bit_or a b ≡ bit_or b a
or_comm_below zero a b h =
    let ea : a ≡ 0 = omega arith in let eb : b ≡ 0 = omega arith in rw (ea, eb)
or_comm_below (suc n) zero b h = omega (arith, zero-bit_or b, bit_or-zero b)
or_comm_below (suc n) (suc a) b h = omega (
  arith,
  bit_or_step (suc a) b,
  bit_or_step b (suc a),
  or_comm_below n (suc a / 2) (b / 2) (omega arith),
)

pub bit_or_comm : (a b : ℕ) → bit_or a b ≡ bit_or b a
bit_or_comm a b = or_comm_below (a + b) a b (omega arith)

or_half : (a b : ℕ) → bit_or a b / 2 ≡ bit_or (a / 2) (b / 2)
or_half a b = omega (arith, bit_or_step a b)

or_digit : (a b : ℕ) → bit_or a b % 2 ≡ max (a % 2) (b % 2)
or_digit a b = omega (arith, bit_or_step a b)

or_assoc_below : (n a b c : ℕ) → a + b + c ≤ n → bit_or (bit_or a b) c ≡ bit_or a (bit_or b c)
or_assoc_below n zero b c h = rw (zero-bit_or b, zero-bit_or (bit_or b c))
or_assoc_below zero (suc a) b c h = absurd (omega arith)
or_assoc_below (suc n) (suc a) b c h =
    let ih = or_assoc_below n (suc a / 2) (b / 2) (c / 2) (omega arith) in
    let left : bit_or (bit_or (suc a) b / 2) (c / 2) ≡ bit_or (suc a / 2) (bit_or b c / 2) =
      rw (or_half (suc a) b, or_half b c) ih in
    omega (
      arith,
      bit_or_step (bit_or (suc a) b) c,
      bit_or_step (suc a) (bit_or b c),
      or_digit (suc a) b,
      or_digit b c,
      left,
    )

pub bit_or_assoc : (a b c : ℕ) → bit_or (bit_or a b) c ≡ bit_or a (bit_or b c)
bit_or_assoc a b c = or_assoc_below (a + b + c) a b c (omega arith)

and_comm_below : (n a b : ℕ) → a + b ≤ n → bit_and a b ≡ bit_and b a
and_comm_below zero a b h =
    let ea : a ≡ 0 = omega arith in let eb : b ≡ 0 = omega arith in rw (ea, eb)
and_comm_below (suc n) zero b h = omega (arith, zero-bit_and b, bit_and-zero b)
and_comm_below (suc n) (suc a) b h = omega (
  arith,
  bit_and_step (suc a) b,
  bit_and_step b (suc a),
  and_comm_below n (suc a / 2) (b / 2) (omega arith),
)

pub bit_and_comm : (a b : ℕ) → bit_and a b ≡ bit_and b a
bit_and_comm a b = and_comm_below (a + b) a b (omega arith)

and_half : (a b : ℕ) → bit_and a b / 2 ≡ bit_and (a / 2) (b / 2)
and_half a b = omega (arith, bit_and_step a b)

and_digit : (a b : ℕ) → bit_and a b % 2 ≡ min (a % 2) (b % 2)
and_digit a b = omega (arith, bit_and_step a b)

and_assoc_below : (n a b c : ℕ) → a + b + c ≤ n → bit_and (bit_and a b) c ≡ bit_and a (bit_and b c)
and_assoc_below n zero b c h = rw (zero-bit_and b, zero-bit_and (bit_and b c), zero-bit_and c)
and_assoc_below zero (suc a) b c h = absurd (omega arith)
and_assoc_below (suc n) (suc a) b c h =
    let ih = and_assoc_below n (suc a / 2) (b / 2) (c / 2) (omega arith) in
    let left : bit_and (bit_and (suc a) b / 2) (c / 2) ≡ bit_and (suc a / 2) (bit_and b c / 2) =
      rw (and_half (suc a) b, and_half b c) ih in
    omega (
      arith,
      bit_and_step (bit_and (suc a) b) c,
      bit_and_step (suc a) (bit_and b c),
      and_digit (suc a) b,
      and_digit b c,
      left,
    )

pub bit_and_assoc : (a b c : ℕ) → bit_and (bit_and a b) c ≡ bit_and a (bit_and b c)
bit_and_assoc a b c = and_assoc_below (a + b + c) a b c (omega arith)

-- Both operands below a power of two: so is the union.
pub bit_or-lt : (k a b : ℕ) → a < 2 ^ k → b < 2 ^ k → bit_or a b < 2 ^ k
bit_or-lt zero a b p q =
    let ea : a ≡ 0 = omega arith in let eb : b ≡ 0 = omega arith in rw (ea, eb) (omega arith)
bit_or-lt (suc k) a b p q = omega (
  arith,
  bit_or_step a b,
  pow-suc 2 k,
  bit_or-lt k (a / 2) (b / 2) (omega (arith, pow-suc 2 k)) (omega (arith, pow-suc 2 k)),
)

and-le_below : (n a b : ℕ) → a ≤ n → bit_and a b ≤ a
and-le_below n zero b h = omega (arith, zero-bit_and b)
and-le_below zero (suc a) b h = absurd (omega arith)
and-le_below (suc n) (suc a) b h =
    omega (arith, bit_and_step (suc a) b, and-le_below n (suc a / 2) (b / 2) (omega arith))

pub bit_and-le : (a b : ℕ) → bit_and a b ≤ a
bit_and-le a b = and-le_below a a b (omega arith)
