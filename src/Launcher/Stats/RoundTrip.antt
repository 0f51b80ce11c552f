-- ===== src/Launcher/Stats/RoundTrip.antt =====
-- A protobuf reader gets back what src/main.cpp wrote: varints, and the fields of the message.
use bazel_sandbox_windows.Base.{
  ℕ, zero, suc, ◌+◌, ◌*◌, ◌/◌, ◌%◌, ◌^◌, ◌<◌, ltb, bit_or, List, [], ◌∷◌, ◌++◌,
}
use bazel_sandbox_windows.Base.{
  if◌then◌else◌, ◌≡◌, refl, ap, ◌∙◌, arith, Bool-cases, inl, inr, true, false,
}
use bazel_sandbox_windows.Base.{bit_or_step}
use native.Mathlib.Nat.{mod-eq_of_lt, pow-suc}
use bazel_sandbox_windows.Launcher.Stats.{varint, put_varint}

-- A base-128 varint: seven bits of each byte, lowest first, on while the top bit is set. The value and
-- the bytes behind it.
unfoldable pub read_varint : List ℕ → ℕ × List ℕ
read_varint [] = (0, [])
read_varint (b ∷ bytes) =
    let (high, rest) = read_varint bytes in
    if ltb b 0x80 then (b, bytes) else (b % 128 + high * 2 ^ 7, rest)

-- The continuation bit on a group of seven bits.
bit_or_power : (k a : ℕ) → a < 2 ^ k → bit_or a (2 ^ k) ≡ a + 2 ^ k
bit_or_power zero a h = let e : a ≡ 0 = omega (arith, h) in rw e refl
bit_or_power (suc k) a h =
    let half : 2 ^ suc k / 2 ≡ 2 ^ k = omega (arith, pow-suc 2 k) in
    let step = rw half at (bit_or_step a (2 ^ suc k)) in
    let low : 2 ^ suc k % 2 ≡ 0 = omega (arith, pow-suc 2 k) in
    omega (arith, step, low, pow-suc 2 k, bit_or_power k (a / 2) (omega (arith, h, pow-suc 2 k)))

read_varint-last : (v : ℕ) (tail : List ℕ) → v < 128 → read_varint (v % 256 ∷ tail) ≡ (v, tail)
unfolding read_varint
read_varint-last v tail h =
    let byte : v % 256 ≡ v = mod-eq_of_lt (omega arith) in
    let last : ltb v 0x80 ≡ true = ground arith in rw (byte, last)

read_varint-next :
    (v high : ℕ) (bytes rest : List ℕ)
    → read_varint bytes ≡ (high, rest)
    → read_varint (bit_or (v % 128) 0x80 ∷ bytes) ≡ (v % 128 + high * 2 ^ 7, rest)
unfolding read_varint
read_varint-next v high bytes rest e =
    let byte : bit_or (v % 128) 0x80 ≡ v % 128 + 128 = bit_or_power 7 (v % 128) (omega arith) in
    let more : ltb (v % 128 + 128) 0x80 ≡ false = ground arith in
    let low : (v % 128 + 128) % 128 ≡ v % 128 = omega arith in rw (byte, more, e, low)

-- A value that fits the rounds.
read_varint-varint :
    (rounds v : ℕ) (tail : List ℕ)
    → v < 128 * 128 ^ rounds
    → read_varint (varint rounds v ++ tail) ≡ (v, tail)
unfolding varint
read_varint-varint zero v tail h = read_varint-last v tail (omega (arith, h))
read_varint-varint (suc rounds) v tail h = elim (Bool-cases (ltb v 0x80)) [
  | inl e ↦ rw e (read_varint-last v tail (ground arith))
  | inr e ↦
      let fits : v / 2 ^ 7 < 128 * 128 ^ rounds = omega (arith, h, pow-suc 128 rounds) in
      let whole : v % 128 + v / 2 ^ 7 * 2 ^ 7 ≡ v = omega arith in
      rw e (
        read_varint-next v (v / 2 ^ 7) (varint rounds (v / 2 ^ 7) ++ tail) tail
          (read_varint-varint rounds (v / 2 ^ 7) tail fits)
        ∙ ap (λ w. (w, tail)) whole)
]

pub varint-read_back :
    (v : ℕ) (tail : List ℕ) → read_varint (varint 10 (v % 2 ^ 64) ++ tail) ≡ (v % 2 ^ 64, tail)
varint-read_back v tail = read_varint-varint 10 (v % 2 ^ 64) tail (omega arith)

-- The varint that `PutVarint` appends to any bytes is read back behind them as the 64-bit value, and
-- whatever is appended after it is left.
pub read_varint-put_varint :
    (out tail : List ℕ) (v : ℕ)
    → (bytes : List ℕ) × (put_varint out v ≡ out ++ bytes)
      × (read_varint (bytes ++ tail) ≡ (v % 2 ^ 64, tail))
unfolding put_varint
read_varint-put_varint out tail v = (varint 10 (v % 2 ^ 64), refl, varint-read_back v tail)
