-- ===== src/Overlay/Records/Reads.antt =====
-- What a reader finds in a buffer after the stores of src/overlay_engine.cpp: the stored bytes where
-- they were put, the old bytes everywhere else.
use bazel_sandbox_windows.Base.{ℕ, suc, zero, ◌+◌, ◌*◌, ◌/◌, ◌%◌, ◌^◌, ◌≤◌, ◌<◌, ◌≡◌, refl, ap}
use bazel_sandbox_windows.Base.{[], ◌∷◌, ◌⊎◌, inl, inr, ◌≢◌}
use bazel_sandbox_windows.Base.{WString, length, set, get_or, All, arith, ◌∙◌}
use bazel_sandbox_windows.Base.{length-set}
use bazel_sandbox_windows.Manifest.Bytes.{Bytes, u32_bytes, wide_bytes}
use bazel_sandbox_windows.Manifest.Bytes.Laws.{read_u32}
use bazel_sandbox_windows.Overlay.Records.{store, store_u32}

-- `n` code units from position `p` on
unfoldable pub read_units : Bytes → ℕ → ℕ → WString
read_units b p zero = []
read_units b p (suc n) = (get_or b p 0 + get_or b (p + 1) 0 * 256) ∷ read_units b (p + 2) n

pub length-store : (b : Bytes) (p : ℕ) (cs : Bytes) → length (store b p cs) ≡ length b
unfolding store
length-store b p [] = refl
length-store b p (c ∷ cs) = length-store (set b p c) (suc p) cs ∙ length-set b p c

pub length-store_u32 : (b : Bytes) (p v : ℕ) → length (store_u32 b p v) ≡ length b
unfolding store_u32
length-store_u32 b p v = length-store b p (u32_bytes v)

get_or-set-ne : (b : Bytes) (i j v : ℕ) → i ≢ j → get_or (set b i v) j 0 ≡ get_or b j 0
get_or-set-ne [] i j v h = refl
get_or-set-ne (x ∷ b) zero zero v h = absurd (h refl)
get_or-set-ne (x ∷ b) zero (suc j) v h = refl
get_or-set-ne (x ∷ b) (suc i) zero v h = refl
get_or-set-ne (x ∷ b) (suc i) (suc j) v h = get_or-set-ne b i j v λ e. h (ap suc e)

pub get_or-set-eq : (b : Bytes) (i v : ℕ) → i < length b → get_or (set b i v) i 0 ≡ v
get_or-set-eq [] i v h = absurd (omega arith)
get_or-set-eq (x ∷ b) zero v h = refl
get_or-set-eq (x ∷ b) (suc i) v h = get_or-set-eq b i v (omega arith)

pub get_or-store-before :
    (b : Bytes) (p : ℕ) (cs : Bytes) (j : ℕ) → j < p → get_or (store b p cs) j 0 ≡ get_or b j 0
unfolding store
get_or-store-before b p [] j h = refl
get_or-store-before b p (c ∷ cs) j h =
    get_or-store-before (set b p c) (suc p) cs j (omega arith)
    ∙ get_or-set-ne b p j c λ (e : p ≡ j). omega arith

pub get_or-store-after :
    (b : Bytes) (p : ℕ) (cs : Bytes) (j : ℕ)
    → p + length cs ≤ j
    → get_or (store b p cs) j 0 ≡ get_or b j 0
unfolding store
get_or-store-after b p [] j h = refl
get_or-store-after b p (c ∷ cs) j h =
    get_or-store-after (set b p c) (suc p) cs j (omega arith)
    ∙ get_or-set-ne b p j c λ (e : p ≡ j). omega arith

-- The bytes of the two buffers agree from `lo` up to `hi`.
abbrev pub Agree : Bytes → Bytes → ℕ → ℕ → Type 0
Agree b b' lo hi = (j : ℕ) → lo ≤ j → j < hi → get_or b j 0 ≡ get_or b' j 0

pub Agree-trans : (a b c : Bytes) (lo hi : ℕ) → Agree a b lo hi → Agree b c lo hi → Agree a c lo hi
Agree-trans a b c lo hi f g j l r = f j l r ∙ g j l r

-- A store outside of a range leaves the range as it was.
pub Agree-store :
    (b : Bytes) (p : ℕ) (cs : Bytes) (lo hi : ℕ)
    → (hi ≤ p) ⊎ (p + length cs ≤ lo)
    → Agree (store b p cs) b lo hi
Agree-store b p cs lo hi (inl h) j l r = get_or-store-before b p cs j (omega arith)
Agree-store b p cs lo hi (inr h) j l r = get_or-store-after b p cs j (omega arith)

pub read_u32-Agree : (b b' : Bytes) (p : ℕ) → Agree b b' p (p + 4) → read_u32 b p ≡ read_u32 b' p
unfolding read_u32
read_u32-Agree b b' p h =
    let e0 = h p (omega arith) (omega arith) in
    let e1 = h (p + 1) (omega arith) (omega arith) in
    let e2 = h (p + 2) (omega arith) (omega arith) in
    let e3 = h (p + 3) (omega arith) (omega arith) in omega (arith, e0, e1, e2, e3)

pub read_units-Agree :
    (b b' : Bytes) (p n : ℕ) → Agree b b' p (p + n * 2) → read_units b p n ≡ read_units b' p n
unfolding read_units
read_units-Agree b b' p zero h = refl
read_units-Agree b b' p (suc n) h =
    let e0 = h p (omega arith) (omega arith) in
    let e1 = h (p + 1) (omega arith) (omega arith) in
    let rest =
      read_units-Agree b b' (p + 2) n
        λ j (l : p + 2 ≤ j) (r : j < p + 2 + n * 2). h j (omega arith) (omega arith) in
    rw (e0, e1, rest)

word_parts :
    (v : ℕ)
    → v % 256 + v / 2 ^ 8 % 256 * 2 ^ 8 + v / 2 ^ 16 % 256 * 2 ^ 16 + v / 2 ^ 24 % 256 * 2 ^ 24
      ≡ v % 2 ^ 32
word_parts v = omega arith

-- A stored byte is read back, whatever is stored behind it.
get_or-store-head :
    (b : Bytes) (p c : ℕ) (cs : Bytes) → p < length b → get_or (store b p (c ∷ cs)) p 0 ≡ c
unfolding store
get_or-store-head b p c cs h =
    get_or-store-before (set b p c) (suc p) cs p (omega arith) ∙ get_or-set-eq b p c h

pub read_u32-store_u32 :
    (b : Bytes) (p v : ℕ) → p + 4 ≤ length b → read_u32 (store_u32 b p v) p ≡ v % 2 ^ 32
unfolding read_u32 store_u32 store
read_u32-store_u32 b p v h =
    let b1 = set b p (v % 256) in
    let b2 = set b1 (suc p) (v / 2 ^ 8 % 256) in
    let b3 = set b2 (suc (suc p)) (v / 2 ^ 16 % 256) in
    let l1 = length-set b p (v % 256) in
    let l2 = length-set b1 (suc p) (v / 2 ^ 8 % 256) in
    let l3 = length-set b2 (suc (suc p)) (v / 2 ^ 16 % 256) in
    let w3 = v / 2 ^ 24 % 256 ∷ [] in
    let w2 = v / 2 ^ 16 % 256 ∷ w3 in
    let w1 = v / 2 ^ 8 % 256 ∷ w2 in
    let e0 = get_or-store-head b p (v % 256) w1 (omega arith) in
    let e1 = get_or-store-head b1 (suc p) (v / 2 ^ 8 % 256) w2 (omega arith) in
    let e2 = get_or-store-head b2 (suc (suc p)) (v / 2 ^ 16 % 256) w3 (omega arith) in
    let e3 = get_or-store-head b3 (suc (suc (suc p))) (v / 2 ^ 24 % 256) [] (omega arith) in
    let p1 : p + 1 ≡ suc p = omega arith in
    let p2 : p + 2 ≡ suc (suc p) = omega arith in
    let p3 : p + 3 ≡ suc (suc (suc p)) = omega arith in
    rw (p1, p2, p3, e0, e1, e2, e3) (word_parts v)

-- The code units of a text that was stored are read back.
pub read_units-store :
    (b : Bytes) (p : ℕ) (name : WString)
    → All (λ c. c < 2 ^ 16) name
    → p + length name * 2 ≤ length b
    → read_units (store b p (wide_bytes name)) p (length name) ≡ name
unfolding read_units wide_bytes store
read_units-store b p [] wide_name h = refl
read_units-store b p (c ∷ name) wide_name h =
    let b1 = set b p (c % 256) in
    let b2 = set b1 (suc p) (c / 256 % 256) in
    let l1 = length-set b p (c % 256) in
    let l2 = length-set b1 (suc p) (c / 256 % 256) in
    let e0 = get_or-store-head b p (c % 256) (c / 256 % 256 ∷ wide_bytes name) (omega arith) in
    let e1 = get_or-store-head b1 (suc p) (c / 256 % 256) (wide_bytes name) (omega arith) in
    let low = wide_name.0 in
    let unit : c % 256 + c / 256 % 256 * 256 ≡ c = omega arith in
    let next : p + 2 ≡ suc (suc p) = omega arith in
    let here : p + 1 ≡ suc p = omega arith in
    let rest = read_units-store b2 (suc (suc p)) name wide_name.1 (omega arith) in
    rw (here, next, e0, e1, unit, rest)
