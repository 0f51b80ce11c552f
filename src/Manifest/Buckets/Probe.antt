-- ===== src/Manifest/Buckets/Probe.antt =====
-- Every child that the table of `SerializeNode` of src/manifest_builder.cpp holds is found by the
-- search that the chain flags are meant for: from the bucket of the hash, on while flags say so.
use bazel_sandbox_windows.Base.{ℕ, zero, suc, ◌+◌, ◌-◌, ◌%◌, ◌<◌, ◌≡◌, refl}
use bazel_sandbox_windows.Base.{
  ==_iff, subst, sym, ◌∙◌, ◌≢◌, List, arith, bit_or, bit_or_one, bit_or_two,
}
use bazel_sandbox_windows.Base.{length, set, length-set, get_or-set, ◌==◌}
use bazel_sandbox_windows.Base.{true, false, Bool-cases, inl, inr}
use native.Mathlib.Nat.{mod-add-mod, add-mod-mod, add-mod_right, mod-lt, mod-eq_of_lt}
use bazel_sandbox_windows.Manifest.Buckets.{skip_used, place_child}
use bazel_sandbox_windows.Manifest.Buckets.Chains.{
  offset_of, slot, Continues, Finds, Extends, Extends-refl, Extends-trans, Finds-Extends,
  start_Upgrades, continuation_Upgrades, set-Extends, fill-Extends, used_slots, busy,
  used_slots-set, free_slot, hit, skip, direct, chained,
}

-- What the loop over the used buckets achieves.
record Skipped (n : ℕ) (t : List ℕ) (index : ℕ) (r : List ℕ × ℕ) : Type 0 where
  extends : Extends t r.0
  width : length r.0 ≡ n
  below : r.1 < n
  free : slot r.0 r.1 ≡ 0
  load : used_slots r.0 ≡ used_slots t
  reach : (o : ℕ) (u : List ℕ) → Extends r.0 u → offset_of (slot u r.1) ≡ o → Continues n u o index

mod_next : (i d n : ℕ) → 0 < n → ((i + 1) % n + d) % n ≡ (i + suc d) % n
mod_next i d n h = mod-add-mod (i + 1) n d ∙ (let e : i + 1 + d ≡ i + suc d = omega arith in rw e)

busy_of_ne : (x : ℕ) → x ≢ 0 → busy x ≡ 1
busy_of_ne x h = ground arith

-- One round of the loop, in front of the others.
Skipped-step :
    (n : ℕ) (t : List ℕ) (index : ℕ) (r : List ℕ × ℕ)
    → length t ≡ n
    → index < n
    → slot t index ≢ 0
    → Skipped n (set t index (bit_or (slot t index) 2)) ((index + 1) % n) r
    → Skipped n t index r
Skipped-step n t index r w b h s =
    let inside : index < length t = omega arith in
    let up = continuation_Upgrades (slot t index) h in
    let ext = set-Extends t index (bit_or (slot t index) 2) inside up in
    let marked : slot (set t index (bit_or (slot t index) 2)) index ≡ bit_or (slot t index) 2 =
      ground (arith, get_or-set t index index (bit_or (slot t index) 2) 0 inside) in
    record {
      extends = Extends-trans ext s.extends;
      width = s.width;
      below = s.below;
      free = s.free;
      load = omega (
        arith,
        s.load,
        used_slots-set t index (bit_or (slot t index) 2) inside,
        busy_of_ne (slot t index) h,
        busy_of_ne (bit_or (slot t index) 2) up.used,
      );
      reach = λ o u e p.
          let all = Extends-trans s.extends e in
          skip index (all.keeps_used index (rw marked up.used))
            (all.keeps_continuation index (rw marked (omega (arith, bit_or_two (slot t index)))))
            (s.reach o u e p);
    }

ne_of_test : (x : ℕ) → (x == 0) ≡ false → x ≢ 0
ne_of_test x e h = ground arith

free_kept :
    (t : List ℕ) (index j v : ℕ)
    → index < length t
    → slot t index ≢ 0
    → slot t j ≡ 0
    → slot (set t index v) j ≡ 0
free_kept t index j v inside h z = elim (Bool-cases (index == j)) [
  | inl e ↦ absurd (h (subst (λ k. slot t k ≡ 0) (sym ((==_iff index j).0 e)) z))
  | inr e ↦ get_or-set t index j v 0 inside ∙ rw e z
]

-- The loop ends on a free bucket if one is less than `fuel` steps away.
skip_used_lem :
    (fuel n : ℕ) (t : List ℕ) (index d : ℕ)
    → length t ≡ n
    → index < n
    → d < fuel
    → slot t ((index + d) % n) ≡ 0
    → Skipped n t index (skip_used fuel n t index)
unfolding skip_used
skip_used_lem zero n t index d w b h z = absurd (omega arith)
skip_used_lem (suc fuel) n t index zero w b h z =
    let here : slot t index ≡ 0 =
      let e : index + 0 ≡ index = omega arith in rw (e, mod-eq_of_lt b) at z in
    let test : (slot t index == 0) ≡ true = (==_iff (slot t index) 0).1 here in
    rw (test, skip_used)
      (record {
        extends = Extends-refl t;
        width = w;
        below = b;
        free = here;
        load = refl;
        reach = λ o u ext p. hit index p;
      })
skip_used_lem (suc fuel) n t index (suc d) w b h z = elim (Bool-cases (slot t index == 0)) [
  | inl e ↦
      rw (e, skip_used)
        (record {
          extends = Extends-refl t;
          width = w;
          below = b;
          free = (==_iff (slot t index) 0).0 e;
          load = refl;
          reach = λ o u ext p. hit index p;
        })
  | inr e ↦
      let used = ne_of_test (slot t index) e in
      let inside : index < length t = omega arith in
      let v = bit_or (slot t index) 2 in
      rw (e, skip_used)
        (Skipped-step n t index _ w b used (
          skip_used_lem fuel n (set t index v) ((index + 1) % n) d (length-set t index v ∙ w)
            (mod-lt (index + 1) (omega arith)) (omega arith)
            (rw (mod_next index d n (omega arith)) (free_kept t index _ v inside used z))))
]

-- What the claim of a bucket for a hash achieves, for an offset that is put there.
pub record Placed (n : ℕ) (t : List ℕ) (hash o : ℕ) (u : List ℕ) : Type 0 where
  pub extends : Extends t u
  pub width : length u ≡ n
  pub load : used_slots u ≡ used_slots t + 1
  pub finds : (v : List ℕ) → Extends u v → Finds n v o hash

distance : (i j n : ℕ) → i < n → j < n → (i + (j + n - i) % n) % n ≡ j
distance i j n p q =
    add-mod-mod i (j + n - i) n
    ∙ (let e : i + (j + n - i) ≡ j + n = omega arith in rw (e, add-mod_right) (mod-eq_of_lt q))

fill_lem :
    (n : ℕ) (t marked : List ℕ) (hash i o : ℕ)
    → Extends t marked
    → length marked ≡ n
    → i < n
    → slot marked i ≡ 0
    → used_slots marked ≡ used_slots t
    → o ≢ 0
    → ((v : List ℕ) → Extends (set marked i o) v → Finds n v o hash)
    → Placed n t hash o (set marked i o)
fill_lem n t marked hash i o ext w b free load h finds = record {
  extends = Extends-trans ext (fill-Extends marked i o (omega arith) free);
  width = length-set marked i o ∙ w;
  load = omega (arith, used_slots-set marked i o (omega arith), busy_of_ne o h, load, free_busy);
  finds = finds;
}
  where
    free_busy : busy (slot marked i) ≡ 0
    free_busy = rw free

-- A child that gets its bucket in a table with room is found there, now and after every later write
-- that only adds, and no child that was placed before is lost.
pub place_child-Placed :
    (n : ℕ) (t : List ℕ) (hash o : ℕ)
    → length t ≡ n
    → used_slots t < n
    → o ≢ 0
    → o % 4 ≡ 0
    → Placed n t hash o (place_child n t hash o)
unfolding place_child
place_child-Placed n t hash o w room h aligned =
    let index = hash % n in
    let inside : index < length t = rw w (mod-lt hash (omega arith)) in
    let own : (marked : List ℕ) (i : ℕ) → i < length marked → slot (set marked i o) i ≡ o =
      λ marked i p. ground (arith, get_or-set marked i i o 0 p) in
    let whole : offset_of o ≡ o = omega arith in
    elim (Bool-cases (slot t index == 0)) [
      | inl e ↦ rw e (
          fill_lem n t t hash index o (Extends-refl t) w (omega arith)
            ((==_iff (slot t index) 0).0 e) refl h
            (λ v ext.
              let mine = own t index inside in
              direct (ext.keeps_offset index (rw mine h) ∙ rw (mine, whole))
                (ext.keeps_used index (rw mine h))))
      | inr e ↦
          let used = ne_of_test (slot t index) e in
          let first = bit_or (slot t index) 1 in
          let up = start_Upgrades (slot t index) used in
          let t1 = set t index first in
          let ext1 = set-Extends t index first inside up in
          let w1 = length-set t index first ∙ w in
          let load1 : used_slots t1 ≡ used_slots t = omega (
            arith,
            used_slots-set t index first inside,
            busy_of_ne (slot t index) used,
            busy_of_ne first up.used,
          ) in
          let (j, jin, jfree) = free_slot t1 (omega arith) in
          let next = (index + 1) % n in
          let s =
            skip_used_lem n n t1 next ((j + n - next) % n) w1 (mod-lt (index + 1) (omega arith))
              (mod-lt (j + n - next) (omega arith))
              (rw (distance next j n (mod-lt (index + 1) (omega arith)) (omega arith)) jfree) in
          let r = skip_used n n t1 next in
          rw e (
            fill_lem n t r.0 hash r.1 o (Extends-trans ext1 s.extends) s.width s.below s.free
              (s.load ∙ load1) h
              (λ v ext.
                let fill = fill-Extends r.0 r.1 o (omega (arith, s.width, s.below)) s.free in
                let from1 = Extends-trans s.extends (Extends-trans fill ext) in
                let mine = own r.0 r.1 (omega (arith, s.width, s.below)) in
                let head : slot t1 index ≡ first =
                  ground (arith, get_or-set t index index first 0 inside) in
                chained (from1.keeps_used index (rw head up.used))
                  (from1.keeps_start index (rw head (omega (arith, bit_or_one (slot t index)))))
                  (s.reach o v (Extends-trans fill ext)
                    (ext.keeps_offset r.1 (rw mine h) ∙ rw (mine, whole)))))
    ]

-- A child whose offset, a multiple of four that is not 0, is put in a table of `n` buckets that is not
-- full is found there, and still in every table that keeps the offsets and flags of that one.
pub place_child-Finds :
    (n : ℕ) (t v : List ℕ) (hash o : ℕ)
    → length t ≡ n
    → used_slots t < n
    → o ≢ 0
    → o % 4 ≡ 0
    → Extends (place_child n t hash o) v
    → Finds n v o hash
place_child-Finds n t v hash o w room h aligned e =
    (place_child-Placed n t hash o w room h aligned).finds v e

-- A child that is put in a table that is not full takes one more bucket of the same table, and every
-- child that was found there before is still found by the same offset and hash.
pub place_child-keeps :
    (n : ℕ) (t : List ℕ) (hash o other_hash other : ℕ)
    → length t ≡ n
    → used_slots t < n
    → o ≢ 0
    → o % 4 ≡ 0
    → Finds n t other other_hash
    → other ≢ 0
    → (used_slots (place_child n t hash o) ≡ used_slots t + 1)
      × (length (place_child n t hash o) ≡ n)
      × Finds n (place_child n t hash o) other other_hash
place_child-keeps n t hash o other_hash other w room h aligned f ne =
    let p = place_child-Placed n t hash o w room h aligned in
    (p.load, p.width, Finds-Extends n t (place_child n t hash o) other other_hash p.extends ne f)
