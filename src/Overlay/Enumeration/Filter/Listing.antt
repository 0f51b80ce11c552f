-- ===== src/Overlay/Enumeration/Filter/Listing.antt =====
-- What a caller reads from a batch after `FilterDirectoryInformation` of src/overlay_engine.cpp.
use bazel_sandbox_windows.Base.{ℕ, suc, zero, ◌+◌, ◌^◌, ◌≤◌, ◌<◌, ◌≡◌, refl, ap, sym, ◌∙◌}
use bazel_sandbox_windows.Base.{List, [], ◌∷◌, Bool, if◌then◌else◌, inl, inr}
use bazel_sandbox_windows.Base.{none, some, WString, length, arith, Bool-cases}
use bazel_sandbox_windows.Manifest.Bytes.{Bytes}
use bazel_sandbox_windows.Overlay.Records.{Layout, try_get_dir_info_layout}
use bazel_sandbox_windows.Overlay.Records.Reads.{Agree}
use bazel_sandbox_windows.Overlay.Records.Chain.{Chain, last, link, IsLayout, RecordAt-Agree}
use bazel_sandbox_windows.Overlay.Records.Chain.{
  read_names, read_names_lem, length-Chain, try_get_dir_info_layout-IsLayout,
}
use bazel_sandbox_windows.Overlay.Records.Reads.{read_u32-Agree}
use bazel_sandbox_windows.Overlay.Enumeration.{keep}
use bazel_sandbox_windows.Overlay.Enumeration.Filter.{
  filter_from, filter_records, counted, relink, terminate, filter_directory_information, count,
}
use bazel_sandbox_windows.Overlay.Enumeration.Filter.Links.{
  filtered, step-last, step-link, Chain-low, ended, length-terminate, close,
}

-- The names that the chain from the start of the buffer holds after the filter: the hidden ones in front
-- of the first visible one stay in it, since the buffer is read from its start.
unfoldable pub reveals : (WString → Bool) → List WString → List WString
reveals visible [] = []
reveals visible (n ∷ names) =
    let rest = reveals visible names in if visible n then n ∷ keep visible names else n ∷ rest

module _ (l : Layout) (lay : IsLayout l) (len : ℕ) (small : len < 2 ^ 32)
    (visible : WString → Bool) where
  -- What the loop does before it kept a record.
  record Opened (fuel : ℕ) (b : Bytes) (off : ℕ) (names : List WString) : Type 0 where
    out : Bytes
    runs : filter_from l len visible fuel b off none 0 ≡ some (out, length (keep visible names))
    chain : Chain l out len off (reveals visible names)
    below : Agree out b 0 off
    size : length out ≡ length b

  opened :
      (fuel : ℕ) (b : Bytes) (off : ℕ) (names : List WString)
      → length names ≤ fuel
      → len ≤ length b
      → Chain l b len off names
      → Opened fuel b off names
  unfolding reveals relink terminate
  opened zero b off names few room (last r e) = absurd (omega arith)
  opened zero b off names few room (link r e far rest) = absurd (omega arith)
  opened (suc fuel) b off names few room (last {name = name} r e) =
      elim (Bool-cases (visible name)) [
        | inl v ↦ record {
          out = terminate b (some off);
          runs = step-last l lay len small visible fuel b off none 0 name r e ∙ rw v;
          chain = rw v (close l lay len small visible b off name room r);
          below = ended l lay len small visible b off 0 off (inl (omega arith));
          size = length-terminate l lay len small visible b (some off);
        }
        | inr v ↦ record {
          out = b;
          runs = step-last l lay len small visible fuel b off none 0 name r e ∙ rw v;
          chain = rw v (last r e);
          below = λ j x y. refl;
          size = refl;
        }
      ]
  opened (suc fuel) b off names few room
        (link {next = next} {name = name} {names = ns} r e far rest) =
      let high = lay.offset_low in
      let low = lay.length_low in
      let inside = Chain-low l lay len small visible rest in
      let run =
        step-link l lay len small visible fuel b off next none 0 name r e (omega arith) inside in
      elim (Bool-cases (visible name)) [
        | inl v ↦
            let ih =
              filtered l lay len small visible fuel b off name (off + next) 1 ns (omega arith) room
                r (omega arith) rest in
            record {
              out = ih.out;
              runs =
                  run
                  ∙ rw v
                      (ih.runs ∙ ap (λ k. some (ih.out, k)) (one_more (length (keep visible ns))));
              chain = rw v ih.chain;
              below = ih.below;
              size = ih.size;
            }
        | inr v ↦
            let ih = opened fuel b (off + next) ns (omega arith) room rest in
            record {
              out = ih.out;
              runs = run ∙ rw v ih.runs;
              chain = rw v (
                  link
                    (RecordAt-Agree lay b ih.out
                      (λ j x y. sym (ih.below j (omega arith) (omega arith))) r)
                    (read_u32-Agree ih.out b off (λ j x y. ih.below j (omega arith) (omega arith))
                      ∙ e)
                    far ih.chain);
              below = λ j x y. ih.below j x (omega arith);
              size = ih.size;
            }
      ]
    where
      one_more : (n : ℕ) → 1 + n ≡ suc n
      one_more n = omega arith

-- `FilterDirectoryInformation` on a batch that is a chain of records, for a class that it knows: the
-- loop ends, it counts the visible records, and a caller reads from the buffer the visible names in
-- their order, behind the hidden names that come before the first visible one. The buffer has the
-- length that is passed, below 2^32; `visible` is the test of a name by the directory's policy.
pub filter_directory_information-lists :
    (visible : WString → Bool) (c len : ℕ) (l : Layout) (b : Bytes) (names : List WString)
    → try_get_dir_info_layout c ≡ some l
    → len < 2 ^ 32
    → len ≤ length b
    → Chain l b len 0 names
    → (out : Bytes) × (filter_directory_information b c len visible
        ≡ some (out, count (length (keep visible names))))
      × (read_names len l out 0 ≡ reveals visible names)
      × (length out ≡ length b)
unfolding filter_directory_information filter_records counted
filter_directory_information-lists visible c len l b names laid small room ch =
    let lay = try_get_dir_info_layout-IsLayout c l laid in
    let few = length-Chain lay b ch in
    let ran = opened l lay len small visible (suc len) b 0 names (omega arith) room ch in
    (
      ran.out,
      ap (filter_records b len visible) laid ∙ ap counted ran.runs,
      read_names_lem lay ran.out len (omega arith) ran.chain,
      ran.size,
    )
