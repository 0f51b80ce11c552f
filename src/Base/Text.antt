-- ===== src/Base/Text.antt =====
-- Wide strings as lists of UTF-16 code units, with the tests and cuts of `std::wstring`.
use Prim.Native.Nat.{ℕ, suc}
use Prim.Native.Char.{code}
use Prim.Native.String.{String}
use mathlib.Core.Path.{◌≡◌, refl}
use mathlib.Core.Logic.{◌↔◌}
use mathlib.Core.Bool.{Bool, true, false, ◌&&◌}
use mathlib.Core.List.{List, [], ◌∷◌, ◌++◌}
use mathlib.Core.Option.{Option, none, some}
use native.Mathlib.Omega.{arith}
use bazel_sandbox_windows.Base.Tests.{ltb, ◌==◌, if◌then◌else◌}
use bazel_sandbox_windows.Base.Lists.{is_nil}

abbrev pub WString : Type 0
WString = List ℕ

-- The code units of a literal.
abbrev pub wide : String → WString
wide String.[] = []
wide (String.◌∷◌ c s) = code c ∷ wide s

-- `a == b`
unfoldable pub wcs_eq : WString → WString → Bool
wcs_eq [] [] = true
wcs_eq [] (y ∷ ys) = false
wcs_eq (x ∷ xs) [] = false
wcs_eq (x ∷ xs) (y ∷ ys) = x == y && wcs_eq xs ys

-- `a < b`, code unit by code unit
unfoldable pub wcs_lt : WString → WString → Bool
wcs_lt xs [] = false
wcs_lt [] (y ∷ ys) = true
wcs_lt (x ∷ xs) (y ∷ ys) = if ltb x y then true else (x == y && wcs_lt xs ys)

-- `s.compare(0, p.size(), p) == 0`
unfoldable pub starts_with : WString → WString → Bool
starts_with [] s = true
starts_with (x ∷ xs) [] = false
starts_with (x ∷ xs) (y ∷ ys) = x == y && starts_with xs ys

-- `while (!s.empty() && p(s.back())) s.pop_back();`
unfoldable pub trim_end : (ℕ → Bool) → WString → WString
trim_end p [] = []
trim_end p (x ∷ xs) = let r = trim_end p xs in if is_nil r && p x then [] else x ∷ r

-- `s.find_last_of(...)`, `none` for `npos`
unfoldable pub find_last_of : (ℕ → Bool) → WString → Option ℕ
find_last_of p [] = none
find_last_of p (x ∷ xs) = elim (find_last_of p xs) [
  | some i ↦ some (suc i)
  | none ↦ if p x then some 0 else none
]

pub wcs_eq_iff : (xs ys : WString) → (wcs_eq xs ys ≡ true) ↔ (xs ≡ ys)
unfolding wcs_eq
wcs_eq_iff [] [] = (λ h. refl, λ h. refl)
wcs_eq_iff [] (y ∷ ys) = (λ h. cc, λ h. cc)
wcs_eq_iff (x ∷ xs) [] = (λ h. cc, λ h. cc)
wcs_eq_iff (x ∷ xs) (y ∷ ys) = ground (arith, wcs_eq_iff xs ys)

pub wcs_eq_refl : (xs : WString) → wcs_eq xs xs ≡ true
wcs_eq_refl xs = (wcs_eq_iff xs xs).1 refl

pub starts_with-append : (p s : WString) → starts_with p (p ++ s) ≡ true
unfolding starts_with
starts_with-append [] s = refl
starts_with-append (x ∷ p) s = ground (arith, starts_with-append p s)

pub wcs_lt_irrefl : (xs : WString) → wcs_lt xs xs ≡ false
unfolding wcs_lt
wcs_lt_irrefl [] = refl
wcs_lt_irrefl (x ∷ xs) = ground (arith, wcs_lt_irrefl xs)

pub wcs_lt_trans :
    (xs ys zs : WString) → wcs_lt xs ys ≡ true → wcs_lt ys zs ≡ true → wcs_lt xs zs ≡ true
unfolding wcs_lt
wcs_lt_trans xs ys [] h k = cc
wcs_lt_trans [] [] (z ∷ zs) h k = refl
wcs_lt_trans [] (y ∷ ys) (z ∷ zs) h k = refl
wcs_lt_trans (x ∷ xs) [] (z ∷ zs) h k = cc
wcs_lt_trans (x ∷ xs) (y ∷ ys) (z ∷ zs) h k = ground (arith, wcs_lt_trans xs ys zs)

-- Two strings that are neither equal nor in order are in the other order.
pub wcs_lt_total :
    (xs ys : WString) → wcs_eq xs ys ≡ false → wcs_lt xs ys ≡ false → wcs_lt ys xs ≡ true
unfolding wcs_lt wcs_eq
wcs_lt_total [] [] h k = cc
wcs_lt_total [] (y ∷ ys) h k = cc
wcs_lt_total (x ∷ xs) [] h k = refl
wcs_lt_total (x ∷ xs) (y ∷ ys) h k = ground (arith, wcs_lt_total xs ys)
