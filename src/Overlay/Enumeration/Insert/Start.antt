-- ===== src/Overlay/Enumeration/Insert/Start.antt =====
-- The emitting loop of `InsertOverlayEntries` in src/overlay_engine.cpp from its start: the three ways
-- in which it ends.
use bazel_sandbox_windows.Base.{ℕ, suc, ◌+◌, ◌^◌, ◌≤◌, ◌<◌, ◌≡◌, refl, ap, ◌∙◌, ltb}
use bazel_sandbox_windows.Base.{List, [], ◌∷◌, ◌++◌, Bool, true, false, inl, inr}
use bazel_sandbox_windows.Base.{none, some, WString, length, All, arith, Bool-cases, subst}
use bazel_sandbox_windows.Overlay.Globals.{Globals}
use bazel_sandbox_windows.Overlay.Disk.{Disk}
use bazel_sandbox_windows.Overlay.Records.{AttributeData, Layout, try_get_dir_info_layout}
use bazel_sandbox_windows.Overlay.Records.Reads.{Agree}
use bazel_sandbox_windows.Overlay.Records.Chain.{Chain}
use bazel_sandbox_windows.Overlay.Enumeration.{Ntdll, keep, overlay_name_matches_filter}
use bazel_sandbox_windows.Overlay.Enumeration.Insert.{Emit, record_size, emit_one, emit_entries}
use bazel_sandbox_windows.Overlay.Enumeration.Insert.Run.{IsName}
use bazel_sandbox_windows.Overlay.Enumeration.Insert.Run.{
  length-emit_one, emit_one-Linked, emit_one-above,
}
use bazel_sandbox_windows.Overlay.Enumeration.Insert.Loop.{Ran, Ran-stop, emit_entries-Ran}

module _ (D : Disk) (stat : D.Entry → AttributeData) (fold : ℕ → ℕ)
    (sort : (WString → WString → Bool) → List WString → List WString) (ntdll : Ntdll)
    (tests : List WString) (g : Globals) (l : Layout) (c : ℕ)
    (laid : try_get_dir_info_layout c ≡ some l) (enum_dir : WString) (s : D.State) (len : ℕ)
    (small : len + 8 ≤ 2 ^ 32) (expr : WString) where
  abbrev next_emit : WString → Emit → Emit
  next_emit = emit_one D stat fold sort ntdll tests g l c enum_dir s

  abbrev matches : WString → Bool
  matches name = overlay_name_matches_filter ntdll name expr

  abbrev run_all : Bool → List WString → Emit → Emit
  run_all single = emit_entries D stat fold sort ntdll tests g l c enum_dir s len single expr

  abbrev fits_none : WString → Emit → Bool
  fits_none n e = ltb len (e.write_off + record_size l n)

  -- The state before any record is written.
  pub record Blank (e : Emit) : Type 0 where
    pub no_prev : e.prev ≡ none
    pub at_zero : e.write_off ≡ 0
    pub none_emitted : e.emitted_any ≡ false
    pub room : len ≤ length e.buffer

  -- What the whole loop does. `quiet`: it passes every name and none matches. `full`: it stops, with
  -- nothing written, at a name that matches and that is too long for the buffer. `chained`: the buffer
  -- holds the chain of the names passed that match.
  pub data Outcome (names : List WString) (e e' : Emit) : Type 0 where
    quiet :
        (done : List WString)
        → names ≡ done
        → e' ≡ record e { cursor = e.cursor + length done }
        → keep matches done ≡ []
        → Outcome names e e'
    full :
        (done : List WString) (n : WString) (left : List WString)
        → names ≡ done ++ n ∷ left
        → e' ≡ record e { cursor = e.cursor + length done }
        → keep matches done ≡ []
        → matches n ≡ true
        → len < record_size l n
        → Outcome names e e'
    chained :
        (done left : List WString) (n : WString) (rest : List WString)
        → names ≡ done ++ left
        → e'.cursor ≡ e.cursor + length done
        → keep matches done ≡ n ∷ rest
        → Chain l e'.buffer e'.last_written_end 0 (n ∷ rest)
        → e'.last_written_end ≤ len
        → length e'.buffer ≡ length e.buffer
        → ((hi : ℕ) → Agree e'.buffer e.buffer e'.last_written_end hi)
        → e'.emitted_any ≡ true
        → Outcome names e e'

  skip_outcome :
      (n : WString) (names : List WString) (e e' : Emit)
      → matches n ≡ false
      → Outcome names (record e { cursor = suc e.cursor }) e'
      → Outcome (n ∷ names) e e'
  skip_outcome n names e e' m (quiet done a b k) =
      let count : suc e.cursor + length done ≡ e.cursor + suc (length done) = omega arith in
      quiet (n ∷ done) (ap (λ ns. n ∷ ns) a) (b ∙ ap (λ i. record e { cursor = i }) count) (rw m k)
  skip_outcome n names e e' m (full done o left a b k t f) =
      let count : suc e.cursor + length done ≡ e.cursor + suc (length done) = omega arith in
      full (n ∷ done) o left (ap (λ ns. n ∷ ns) a) (b ∙ ap (λ i. record e { cursor = i }) count)
        (rw m k) t f
  skip_outcome n names e e' m (chained done left o rest a b k ch i z f y) =
      chained (n ∷ done) left o rest (ap (λ ns. n ∷ ns) a) (omega arith) (rw m k) ch i z f y

  write_outcome :
      (n : WString) (names : List WString) (e e' : Emit)
      → matches n ≡ true
      → IsName n
      → Blank e
      → record_size l n ≤ len
      → Ran D stat fold sort ntdll tests g l c laid enum_dir s len small expr 0 n names
          (next_emit n e)
          e'
      → Outcome (n ∷ names) e e'
  unfolding emit_one
  write_outcome n names e e' m ok blank fits r =
      let cursor = r.cursor in
      let grows = r.grows in
      let zero = blank.at_zero in
      let fits' : e.write_off + record_size l n ≤ len = omega arith in
      chained (n ∷ r.done) r.left n (keep matches r.done) (ap (λ ns. n ∷ ns) r.split) (omega arith)
        (rw m) r.chain r.inside
        (r.size ∙ length-emit_one D stat fold sort ntdll tests g l c laid enum_dir s len small n e)
        (λ hi j x y.
          r.above hi j x y
          ∙ emit_one-above D stat fold sort ntdll tests g l c laid enum_dir s len small n ok e
              blank.room fits' (inl blank.no_prev) e'.last_written_end hi grows j x y)
        r.any

  -- The whole loop, from a state in which nothing is written.
  pub emit_entries-Outcome :
      (single : Bool) (names : List WString) (e : Emit)
      → All IsName names
      → Blank e
      → Outcome names e (run_all single names e)
  unfolding emit_entries
  emit_entries-Outcome single [] e ok blank =
      let count : e.cursor ≡ e.cursor + 0 = omega arith in
      quiet [] refl (ap (λ i. record e { cursor = i }) count) refl
  emit_entries-Outcome single (n ∷ names) e ok blank = elim (Bool-cases (matches n)) [
    | inr m ↦ rw m (
        skip_outcome n names e _ m (
          emit_entries-Outcome single names (record e { cursor = suc e.cursor }) ok.1
            (record {
              no_prev = blank.no_prev;
              at_zero = blank.at_zero;
              none_emitted = blank.none_emitted;
              room = blank.room;
            })))
    | inl m ↦
        let zero = blank.at_zero in
        elim (Bool-cases (fits_none n e)) [
          | inl o ↦
              let count : e.cursor ≡ e.cursor + 0 = omega arith in
              let long : len < e.write_off + record_size l n = ground arith in
              rw (m, o)
                (full [] n names refl (ap (λ i. record e { cursor = i }) count) refl m
                  (omega arith))
          | inr o ↦
              let fits : e.write_off + record_size l n ≤ len = ground arith in
              let linked =
                emit_one-Linked D stat fold sort ntdll tests g l c laid enum_dir s len small n ok.0
                  e blank.room fits (inl blank.no_prev) in
              elim (Bool-cases single) [
                | inl t ↦
                    rw (m, o, t)
                      (write_outcome n names e (next_emit n e) m ok.0 blank (omega arith) (
                        subst
                          (λ w.
                            Ran D stat fold sort ntdll tests g l c laid enum_dir s len small expr w
                              n names (next_emit n e) (next_emit n e))
                          zero
                          (Ran-stop D stat fold sort ntdll tests g l c laid enum_dir s len small
                            expr e.write_off n names (next_emit n e) linked)))
                | inr t ↦
                    rw (m, o, t)
                      (write_outcome n names e _ m ok.0 blank (omega arith) (
                        subst
                          (λ w.
                            Ran D stat fold sort ntdll tests g l c laid enum_dir s len small expr w
                              n names (next_emit n e) (run_all single names (next_emit n e)))
                          zero
                          (emit_entries-Ran D stat fold sort ntdll tests g l c laid enum_dir s len
                            small expr single e.write_off n names (next_emit n e) ok.1 linked)))
              ]
        ]
  ]
