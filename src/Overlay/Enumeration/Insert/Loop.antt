-- ===== src/Overlay/Enumeration/Insert/Loop.antt =====
-- The whole emitting loop of `InsertOverlayEntries` in src/overlay_engine.cpp: the chain that it leaves
-- and the names that it passes.
use bazel_sandbox_windows.Base.{ℕ, suc, ◌+◌, ◌-◌, ◌*◌, ◌^◌, ◌≤◌, ◌<◌, ◌≡◌, refl, ap, sym, ◌∙◌, ltb}
use bazel_sandbox_windows.Base.{List, [], ◌∷◌, ◌++◌, Bool, true, false, ◌⊎◌, inl, inr}
use bazel_sandbox_windows.Base.{some, WString, length, All, arith, Bool-cases, subst}
use bazel_sandbox_windows.Overlay.Globals.{Globals}
use bazel_sandbox_windows.Overlay.Disk.{Disk}
use bazel_sandbox_windows.Overlay.Records.{AttributeData, Layout, try_get_dir_info_layout}
use bazel_sandbox_windows.Overlay.Records.Reads.{Agree, read_u32-Agree}
use bazel_sandbox_windows.Overlay.Records.Chain.{
  Chain, last, link, try_get_dir_info_layout-IsLayout, RecordAt-Agree,
}
use bazel_sandbox_windows.Overlay.Enumeration.{Ntdll, keep, overlay_name_matches_filter}
use bazel_sandbox_windows.Overlay.Enumeration.Insert.{Emit, record_size, emit_one, emit_entries}
use bazel_sandbox_windows.Overlay.Enumeration.Insert.Run.{
  IsName, record_size_lem, Linked, RecordAt-weaken, Before,
}
use bazel_sandbox_windows.Overlay.Enumeration.Insert.Run.{
  length-emit_one, emit_one-Linked, emit_one-above, emit_one-below, emit_one-next,
}

module _ (D : Disk) (stat : D.Entry → AttributeData) (fold : ℕ → ℕ)
    (sort : (WString → WString → Bool) → List WString → List WString) (ntdll : Ntdll)
    (tests : List WString) (g : Globals) (l : Layout) (c : ℕ)
    (laid : try_get_dir_info_layout c ≡ some l) (enum_dir : WString) (s : D.State) (len : ℕ)
    (small : len + 8 ≤ 2 ^ 32) (expr : WString) where
  abbrev pub next_emit : WString → Emit → Emit
  next_emit = emit_one D stat fold sort ntdll tests g l c enum_dir s

  abbrev pub matches : WString → Bool
  matches name = overlay_name_matches_filter ntdll name expr

  -- What the loop does after the record `name` at `p`: it passes `done`, and the chain from `p` on holds
  -- the names of `done` that match.
  pub record Ran (p : ℕ) (name : WString) (names : List WString) (e e' : Emit) : Type 0 where
    pub done : List WString
    pub left : List WString
    pub split : names ≡ done ++ left
    pub cursor : e'.cursor ≡ e.cursor + length done
    pub chain : Chain l e'.buffer e'.last_written_end p (name ∷ keep matches done)
    pub grows : e.last_written_end ≤ e'.last_written_end
    pub inside : e'.last_written_end ≤ len
    pub size : length e'.buffer ≡ length e.buffer
    pub below : Agree e'.buffer e.buffer 0 p
    pub above : (hi : ℕ) → Agree e'.buffer e.buffer e'.last_written_end hi
    pub any : e'.emitted_any ≡ true

  pub Ran-stop :
      (p : ℕ) (name : WString) (names : List WString) (e : Emit)
      → Linked l len p name e
      → Ran p name names e e
  Ran-stop p name names e h = record {
    done = [];
    left = names;
    split = refl;
    cursor = omega arith;
    chain = last h.at h.is_last;
    grows = omega arith;
    inside = h.inside;
    size = refl;
    below = λ j x y. refl;
    above = λ hi j x y. refl;
    any = h.any;
  }

  Ran-skip :
      (p : ℕ) (name n : WString) (names : List WString) (e e' : Emit)
      → matches n ≡ false
      → Ran p name names (record e { cursor = suc e.cursor }) e'
      → Ran p name (n ∷ names) e e'
  Ran-skip p name n names e e' m r =
      let cursor = r.cursor in
      record {
        done = n ∷ r.done;
        left = r.left;
        split = ap (λ ns. n ∷ ns) r.split;
        cursor = omega arith;
        chain = rw m r.chain;
        grows = r.grows;
        inside = r.inside;
        size = r.size;
        below = r.below;
        above = r.above;
        any = r.any;
      }

  Linked-Before :
      (p : ℕ) (name : WString) (e : Emit) → Linked l len p name e → Before e.prev e.write_off
  Linked-Before p name e h =
      let lay = try_get_dir_info_layout-IsLayout c l laid in
      let low = lay.length_low in
      let high = lay.offset_low in
      let r = h.at in let fits = r.fits in let order = h.before in inr (p, h.is_prev, omega arith)

  Ran-link :
      (p : ℕ) (name n : WString) (names : List WString) (e e' : Emit)
      → matches n ≡ true
      → IsName n
      → e.write_off + record_size l n ≤ len
      → Linked l len p name e
      → Ran e.write_off n names (next_emit n e) e'
      → Ran p name (n ∷ names) e e'
  unfolding emit_one
  Ran-link p name n names e e' m is_name fits h r =
      let b = (next_emit n e).buffer in
      let w = e.write_off in
      let lay = try_get_dir_info_layout-IsLayout c l laid in
      let low = lay.length_low in
      let high = lay.offset_low in
      let at = h.at in
      let fits' = at.fits in
      let order = h.before in
      let inside = h.inside in
      let grows = r.grows in
      let cursor = r.cursor in
      let size = record_size_lem c l n laid is_name.0 in
      let before = Linked-Before p name e h in
      let low_part =
        emit_one-below D stat fold sort ntdll tests g l c laid enum_dir s len small n is_name e
          h.room fits before p h.is_prev in
      let linked =
        emit_one-Linked D stat fold sort ntdll tests g l c laid enum_dir s len small n is_name e
          h.room fits before in
      let lin = linked.inside in
      let end : (next_emit n e).last_written_end ≡ w + record_size l n = omega arith in
      let word =
        emit_one-next D stat fold sort ntdll tests g l c laid enum_dir s len small n is_name e
          h.room fits before p h.is_prev (omega arith) (omega arith) in
      let tail : p + (w - p) ≡ w = omega arith in
      let same =
        λ (lo hi : ℕ) (x : hi ≤ w) (y : (hi ≤ p) ⊎ (p + 4 ≤ lo)) (j : ℕ) (u : lo ≤ j) (v : j < hi).
          r.below j (omega arith) (omega arith) ∙ low_part lo hi x y j u v in
      record {
        done = n ∷ r.done;
        left = r.left;
        split = ap (λ ns. n ∷ ns) r.split;
        cursor = omega arith;
        chain = rw m (
            link
              (RecordAt-Agree lay e.buffer e'.buffer
                (λ j x y. sym (
                  same (p + 4) (p + l.file_name_offset + length name * 2) (omega arith)
                    (inr (omega arith)) j x y))
                (RecordAt-weaken (omega arith) at))
              (read_u32-Agree e'.buffer b p (λ j x y. r.below j (omega arith) (omega arith)) ∙ word)
              (omega arith)
              (subst (λ k. Chain l e'.buffer e'.last_written_end k (n ∷ keep matches r.done))
                (sym tail) r.chain));
        grows = omega arith;
        inside = r.inside;
        size =
            r.size
            ∙ length-emit_one D stat fold sort ntdll tests g l c laid enum_dir s len small n e;
        below = same 0 p (omega arith) (inl (omega arith));
        above = λ hi j x y.
            r.above hi j x y
            ∙ emit_one-above D stat fold sort ntdll tests g l c laid enum_dir s len small n is_name
                e h.room fits before e'.last_written_end hi grows j x y;
        any = r.any;
      }

  abbrev pub run_all : Bool → List WString → Emit → Emit
  run_all single = emit_entries D stat fold sort ntdll tests g l c enum_dir s len single expr

  abbrev pub fits_none : WString → Emit → Bool
  fits_none n e = ltb len (e.write_off + record_size l n)

  -- The loop once a record is written.
  pub emit_entries-Ran :
      (single : Bool) (p : ℕ) (name : WString) (names : List WString) (e : Emit)
      → All IsName names
      → Linked l len p name e
      → Ran p name names e (run_all single names e)
  unfolding emit_entries
  emit_entries-Ran single p name [] e ok h = Ran-stop p name [] e h
  emit_entries-Ran single p name (n ∷ names) e ok h = elim (Bool-cases (matches n)) [
    | inr m ↦ rw m (
        Ran-skip p name n names e _ m (
          emit_entries-Ran single p name names (record e { cursor = suc e.cursor }) ok.1
            (moved p name e h)))
    | inl m ↦ elim (Bool-cases (fits_none n e)) [
      | inl o ↦ rw (m, o) (Ran-stop p name (n ∷ names) e h)
      | inr o ↦
          let fits : e.write_off + record_size l n ≤ len = ground arith in
          let linked =
            emit_one-Linked D stat fold sort ntdll tests g l c laid enum_dir s len small n ok.0 e
              h.room fits (Linked-Before p name e h) in
          elim (Bool-cases single) [
            | inl one ↦
                rw (m, o, one)
                  (Ran-link p name n names e (next_emit n e) m ok.0 fits h
                    (Ran-stop e.write_off n names (next_emit n e) linked))
            | inr one ↦
                rw (m, o, one)
                  (Ran-link p name n names e _ m ok.0 fits h
                    (emit_entries-Ran single e.write_off n names (next_emit n e) ok.1 linked))
          ]
    ]
  ]
    where
      moved :
          (p : ℕ) (name : WString) (e : Emit)
          → Linked l len p name e
          → Linked l len p name (record e { cursor = suc e.cursor })
      moved p name e h = record {
        is_prev = h.is_prev;
        at = h.at;
        is_last = h.is_last;
        before = h.before;
        inside = h.inside;
        room = h.room;
        any = h.any;
      }
