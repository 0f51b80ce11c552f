-- ===== src/Overlay/Enumeration/Filter/Links.antt =====
-- The links that `FilterDirectoryInformation` of src/overlay_engine.cpp leaves between the records.
use bazel_sandbox_windows.Base.{
  ℕ, suc, zero, ◌+◌, ◌-◌, ◌*◌, ◌/◌, ◌%◌, ◌^◌, ◌≤◌, ◌<◌, ◌≡◌, refl, ap, sym, ◌∙◌, min, ltb, ◌==◌,
}
use bazel_sandbox_windows.Base.{List, [], ◌∷◌, Bool, false, ◌||◌, if◌then◌else◌, inl, inr, ◌⊎◌}
use bazel_sandbox_windows.Base.{Option, none, some, WString, length, arith, Bool-cases, subst}
use bazel_sandbox_windows.Manifest.Bytes.{Bytes}
use bazel_sandbox_windows.Manifest.Bytes.Laws.{read_u32}
use bazel_sandbox_windows.Overlay.Records.{Layout, store_u32}
use bazel_sandbox_windows.Overlay.Records.Reads.{
  Agree, read_u32-Agree, read_u32-store_u32, length-store_u32,
}
use bazel_sandbox_windows.Overlay.Records.Chain.{
  RecordAt, Chain, last, link, IsLayout, RecordAt-Agree, Chain-Agree,
}
use bazel_sandbox_windows.Overlay.Records.Stored.{store_u32-Agree}
use bazel_sandbox_windows.Overlay.Enumeration.{keep}
use bazel_sandbox_windows.Overlay.Enumeration.Filter.{
  filter_from, relink, terminate, clamped_name, header_min,
}

module _ (l : Layout) (lay : IsLayout l) (len : ℕ) (small : len < 2 ^ 32)
    (visible : WString → Bool) where
  -- A record inside the buffer passes the guard, and its name is not cut.
  clamped_name-RecordAt :
      (b : Bytes) (rec : ℕ) (name : WString)
      → RecordAt l b len rec name
      → clamped_name l len b rec ≡ name
  unfolding clamped_name
  clamped_name-RecordAt b rec name r =
      let fits = r.fits in
      let whole : min (length name * 2) (len - rec - l.file_name_offset) / 2 ≡ length name =
        omega arith in
      rw (r.name_length, whole) r.name_units

  guard-RecordAt :
      (b : Bytes) (rec : ℕ) (name : WString)
      → RecordAt l b len rec name
      → (ltb len rec || ltb (len - rec) (header_min l)) ≡ false
  guard-RecordAt b rec name r =
      let fits = r.fits in
      let low = lay.length_low in
      let high = lay.offset_low in
      let a : ltb len rec ≡ false = ground arith in
      let c : ltb (len - rec) (header_min l) ≡ false = ground arith in rw (a, c)

  pub Chain-low : {b : Bytes} {rec : ℕ} {names : List WString} → Chain l b len rec names → rec ≤ len
  Chain-low (last r e) = let fits = r.fits in omega arith
  Chain-low (link r e far rest) = let fits = r.fits in omega arith

  -- The step of the loop at the last record and at one that is linked on.
  pub step-last :
      (fuel : ℕ) (b : Bytes) (off : ℕ) (lk : Option ℕ) (kept : ℕ) (name : WString)
      → RecordAt l b len off name
      → read_u32 b off ≡ 0
      → filter_from l len visible (suc fuel) b off lk kept
        ≡ some (
          terminate
              (if visible name then relink b lk off else b)
              (if visible name then some off else lk),
          if visible name then suc kept else kept,
        )
  unfolding filter_from
  step-last fuel b off lk kept name r e =
      rw (guard-RecordAt b off name r, clamped_name-RecordAt b off name r, e)

  pub step-link :
      (fuel : ℕ) (b : Bytes) (off next : ℕ) (lk : Option ℕ) (kept : ℕ) (name : WString)
      → RecordAt l b len off name
      → read_u32 b off ≡ next
      → 0 < next
      → off + next ≤ len
      → filter_from l len visible (suc fuel) b off lk kept
        ≡ filter_from l len visible fuel
            (if visible name then relink b lk off else b)
            (off + next)
            (if visible name then some off else lk)
            (if visible name then suc kept else kept)
  unfolding filter_from
  step-link fuel b off next lk kept name r e pos inside =
      let more : (next == 0) ≡ false = ground arith in
      let flat : (off + next) % 2 ^ 32 ≡ off + next = omega arith in
      rw (guard-RecordAt b off name r, clamped_name-RecordAt b off name r, e, more, flat)

  -- A record before a chain is linked to it.
  join :
      (b b' : Bytes) (p off : ℕ) (nm name : WString) (names : List WString)
      → len ≤ length b
      → RecordAt l b len p nm
      → p + l.file_name_offset + length nm * 2 ≤ off
      → off ≤ len
      → Agree b' (relink b (some p) off) 0 off
      → Chain l b' len off (name ∷ names)
      → Chain l b' len p (nm ∷ name ∷ names)
  unfolding relink
  join b b' p off nm name names room at order inside same ch =
      let low = lay.length_low in
      let high = lay.offset_low in
      let v = (off + 2 ^ 32 - p) % 2 ^ 32 in
      let b1 = store_u32 b p v in
      let word : v % 2 ^ 32 ≡ off - p = omega arith in
      let tail : p + (off - p) ≡ off = omega arith in
      let at' =
        RecordAt-Agree lay b b'
          (λ j x y. sym (
            same j (omega arith) (omega arith)
            ∙ store_u32-Agree b p v (p + 4) off (inr (omega arith)) j x (omega arith)))
          at in
      let next =
        read_u32-Agree b' b1 p (λ j x y. same j (omega arith) (omega arith))
        ∙ (read_u32-store_u32 b p v (omega arith) ∙ word) in
      link at' next (omega arith) (subst (λ k. Chain l b' len k (name ∷ names)) (sym tail) ch)

  -- A record that ends the surviving chain.
  pub close :
      (b : Bytes) (p : ℕ) (nm : WString)
      → len ≤ length b
      → RecordAt l b len p nm
      → Chain l (terminate b (some p)) len p (nm ∷ [])
  unfolding terminate
  close b p nm room at =
      let low = lay.length_low in
      let high = lay.offset_low in
      let fits = at.fits in
      last
        (RecordAt-Agree lay b (store_u32 b p 0)
          (λ j x y. sym (
            store_u32-Agree b p 0 (p + 4) (p + l.file_name_offset + length nm * 2)
              (inr (omega arith)) j x y))
          at)
        (read_u32-store_u32 b p 0 (omega arith))

  -- What the loop does after the record `nm` at `p`, which is the last kept one.
  pub record Filtered (fuel : ℕ) (b : Bytes) (p : ℕ) (nm : WString) (off : ℕ) (names : List WString)
      (kept : ℕ) : Type 0 where
    pub out : Bytes
    pub runs :
        filter_from l len visible fuel b off (some p) kept
        ≡ some (out, kept + length (keep visible names))
    pub chain : Chain l out len p (nm ∷ keep visible names)
    pub below : Agree out b 0 p
    pub size : length out ≡ length b

  relinked :
      (b : Bytes) (p off lo hi : ℕ)
      → (hi ≤ p) ⊎ (p + 4 ≤ lo)
      → Agree b (relink b (some p) off) lo hi
  unfolding relink
  relinked b p off lo hi h j x y =
      sym (store_u32-Agree b p ((off + 2 ^ 32 - p) % 2 ^ 32) lo hi h j x y)

  pub ended :
      (b : Bytes) (p lo hi : ℕ) → (hi ≤ p) ⊎ (p + 4 ≤ lo) → Agree (terminate b (some p)) b lo hi
  unfolding terminate
  ended b p lo hi h = store_u32-Agree b p 0 lo hi h

  length-relink : (b : Bytes) (lk : Option ℕ) (off : ℕ) → length (relink b lk off) ≡ length b
  unfolding relink
  length-relink b none off = refl
  length-relink b (some p) off = length-store_u32 b p ((off + 2 ^ 32 - p) % 2 ^ 32)

  pub length-terminate : (b : Bytes) (lk : Option ℕ) → length (terminate b lk) ≡ length b
  unfolding terminate
  length-terminate b none = refl
  length-terminate b (some p) = length-store_u32 b p 0

  count_one : (kept n : ℕ) → suc kept + n ≡ kept + suc n
  count_one kept n = omega arith

  add_one : (kept : ℕ) → suc kept ≡ kept + 1
  add_one kept = omega arith

  add_zero : (kept : ℕ) → kept + 0 ≡ kept
  add_zero kept = omega arith

  pub filtered :
      (fuel : ℕ) (b : Bytes) (p : ℕ) (nm : WString) (off kept : ℕ) (names : List WString)
      → length names ≤ fuel
      → len ≤ length b
      → RecordAt l b len p nm
      → p + l.file_name_offset + length nm * 2 ≤ off
      → Chain l b len off names
      → Filtered fuel b p nm off names kept
  filtered zero b p nm off kept names few room at order (last r e) = absurd (omega arith)
  filtered zero b p nm off kept names few room at order (link r e far rest) = absurd (omega arith)
  filtered (suc fuel) b p nm off kept names few room at order (last {name = name} r e) =
      let high = lay.offset_low in
      let low = lay.length_low in
      let inside : off ≤ len = let fits = r.fits in omega arith in
      let b1 = relink b (some p) off in
      let size1 = length-relink b (some p) off in
      elim (Bool-cases (visible name)) [
        | inl v ↦
            let at1 =
              RecordAt-Agree lay b b1
                (λ j x y. relinked b p off (off + 4) (suc j) (inr (omega arith)) j x (omega arith))
                r in
            let same = ended b1 off 0 off (inl (omega arith)) in
            record {
              out = terminate b1 (some off);
              runs =
                  step-last fuel b off (some p) kept name r e
                  ∙ rw v (ap (λ k. some (terminate b1 (some off), k)) (add_one kept));
              chain = rw v (
                  join b (terminate b1 (some off)) p off nm name [] room at order inside same
                    (close b1 off name (omega arith) at1));
              below = λ j x y.
                  same j x (omega arith) ∙ sym (relinked b p off 0 p (inl (omega arith)) j x y);
              size = length-terminate b1 (some off) ∙ size1;
            }
        | inr v ↦ record {
          out = terminate b (some p);
          runs = step-last fuel b off (some p) kept name r e ∙ rw (v, add_zero kept);
          chain = rw v (close b p nm room at);
          below = ended b p 0 p (inl (omega arith));
          size = length-terminate b (some p);
        }
      ]
  filtered (suc fuel) b p nm off kept names few room at order
        (link {next = next} {name = name} {names = ns} r e far rest) =
      let high = lay.offset_low in
      let low = lay.length_low in
      let inside = Chain-low rest in
      let b1 = relink b (some p) off in
      let size1 = length-relink b (some p) off in
      let run = step-link fuel b off next (some p) kept name r e (omega arith) inside in
      elim (Bool-cases (visible name)) [
        | inl v ↦
            let moved = λ (lo hi : ℕ) (h : off ≤ lo). relinked b p off lo hi (inr (omega arith)) in
            let ih =
              filtered fuel b1 off name (off + next) (suc kept) ns (omega arith) (omega arith)
                (RecordAt-Agree lay b b1 (moved _ _ (omega arith)) r) (omega arith)
                (Chain-Agree lay b b1 (moved _ _ (omega arith)) rest) in
            record {
              out = ih.out;
              runs =
                  run
                  ∙ rw v (
                      ih.runs
                      ∙ ap (λ k. some (ih.out, k)) (count_one kept (length (keep visible ns))));
              chain = rw v (
                  join b ih.out p off nm name (keep visible ns) room at order (omega arith) ih.below
                    ih.chain);
              below = λ j x y.
                  ih.below j x (omega arith) ∙ sym (relinked b p off 0 p (inl (omega arith)) j x y);
              size = ih.size ∙ size1;
            }
        | inr v ↦
            let ih =
              filtered fuel b p nm (off + next) kept ns (omega arith) room at (omega arith) rest in
            record {
              out = ih.out;
              runs = run ∙ rw v ih.runs;
              chain = rw v ih.chain;
              below = ih.below;
              size = ih.size;
            }
      ]
