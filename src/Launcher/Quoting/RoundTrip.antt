-- ===== src/Launcher/Quoting/RoundTrip.antt =====
-- The rules of `CommandLineToArgvW` that src/main.cpp quotes for, and that quoted arguments are read
-- back by them.
use bazel_sandbox_windows.Base.{
  ℕ, zero, suc, ◌+◌, ◌*◌, ◌/◌, ◌%◌, ◌==◌, ◌≡◌, refl, sym, ap, ◌∙◌, arith,
}
use bazel_sandbox_windows.Base.{
  Bool, true, false, not, ◌&&◌, ◌||◌, List, [], ◌∷◌, ◌++◌, WString, length,
}
use bazel_sandbox_windows.Base.{replicate, if◌then◌else◌, append-nil, append_assoc, Bool-cases}
use bazel_sandbox_windows.Base.{inl, inr, ==_iff, subst, ◌<◌, Option, none, some}
use bazel_sandbox_windows.Launcher.Quoting.{back, quote, blank, needs_quotes, any_needs_quotes}
use bazel_sandbox_windows.Launcher.Quoting.{escape_from, escape_arg, append_args}

abbrev backs : ℕ → WString
backs n = replicate n back

-- A space or a tab ends an argument outside quotes.
abbrev pub ends_arg : ℕ → Bool
ends_arg c = c == 0x20 || c == 0x09

-- The documented rules for one argument: 2n backslashes and a quote are n backslashes and the start or
-- end of a quoted part, 2n + 1 backslashes and a quote are n backslashes and a quote, any other
-- backslash stands for itself. The argument and what is left of the line.
unfoldable pub read_arg : Bool → ℕ → WString → WString → WString × WString
read_arg quoted n arg [] = (arg ++ backs n, [])
read_arg quoted n arg (c ∷ s) =
    let counted = read_arg quoted (suc n) arg s in
    let literal = read_arg quoted 0 (arg ++ (backs (n / 2) ++ quote ∷ [])) s in
    let toggled = read_arg (not quoted) 0 (arg ++ backs (n / 2)) s in
    let plain = read_arg quoted 0 (arg ++ (backs n ++ c ∷ [])) s in
    if c == back
    then counted
    else if c == quote
    then (if n % 2 == 1 then literal else toggled)
    else if not quoted && ends_arg c
    then (arg ++ backs n, c ∷ s)
    else plain

-- The line without the separators in front.
unfoldable pub skip_blanks : WString → WString
skip_blanks [] = []
skip_blanks (c ∷ s) = let rest = skip_blanks s in if ends_arg c then rest else c ∷ s

abbrev prepend : WString → Option (List WString) → Option (List WString)
prepend arg none = none
prepend arg (some args) = some (arg ∷ args)

-- Nothing at the end of the line, else one argument and what `again` reads behind it.
unfoldable pub read_more : (WString → Option (List WString)) → WString → Option (List WString)
unfolding read_arg
read_more again [] = some []
read_more again (c ∷ s) = let (arg, rest) = read_arg false 0 [] (c ∷ s) in prepend arg (again rest)

-- The arguments of a line, each behind any number of separators, to its end; on fuel, `none` where the
-- fuel ends.
unfoldable pub read_args : ℕ → WString → Option (List WString)
unfolding read_more skip_blanks
read_args zero line = none
read_args (suc fuel) line = read_more (read_args fuel) (skip_blanks line)

backs_snoc : (n : ℕ) (s : WString) → backs n ++ back ∷ s ≡ backs (suc n) ++ s
backs_snoc zero s = refl
backs_snoc (suc n) s = ap (λ t. back ∷ t) (backs_snoc n s)

read_arg-backs :
    (quoted : Bool) (n k : ℕ) (arg s : WString)
    → read_arg quoted n arg (backs k ++ s) ≡ read_arg quoted (n + k) arg s
unfolding read_arg
read_arg-backs quoted n zero arg s = let e : n + 0 ≡ n = omega arith in rw e
read_arg-backs quoted n (suc k) arg s =
    let e : n + suc k ≡ suc n + k = omega arith in rw (e, read_arg-backs quoted (suc n) k arg s)

read_arg-first_backs :
    (quoted : Bool) (k : ℕ) (arg s : WString)
    → read_arg quoted 0 arg (backs k ++ s) ≡ read_arg quoted k arg s
read_arg-first_backs quoted k arg s =
    let e : 0 + k ≡ k = omega arith in
    subst (λ m. read_arg quoted 0 arg (backs k ++ s) ≡ read_arg quoted m arg s) e
      (read_arg-backs quoted 0 k arg s)

read_arg-toggle :
    (n : ℕ) (arg s : WString)
    → read_arg true (n * 2) arg (quote ∷ s) ≡ read_arg false 0 (arg ++ backs n) s
unfolding read_arg
read_arg-toggle n arg s =
    let even : (n * 2 % 2 == 1) ≡ false = ground arith in
    let half : n * 2 / 2 ≡ n = omega arith in rw (even, half)

read_arg-literal :
    (n : ℕ) (arg s : WString)
    → read_arg true (n * 2 + 1) arg (quote ∷ s) ≡ read_arg true 0 (arg ++ (backs n ++ quote ∷ [])) s
unfolding read_arg
read_arg-literal n arg s =
    let odd : ((n * 2 + 1) % 2 == 1) ≡ true = ground arith in
    let half : (n * 2 + 1) / 2 ≡ n = omega arith in rw (odd, half)

read_arg-plain :
    (n c : ℕ) (arg s : WString)
    → (c == back) ≡ false
    → (c == quote) ≡ false
    → read_arg true n arg (c ∷ s) ≡ read_arg true 0 (arg ++ (backs n ++ c ∷ [])) s
unfolding read_arg
read_arg-plain n c arg s b q = rw (b, q)

regroup : (arg b s : WString) (c : ℕ) → (arg ++ (b ++ c ∷ [])) ++ s ≡ arg ++ (b ++ c ∷ s)
regroup arg b s c =
    append_assoc arg (b ++ c ∷ []) s ∙ ap (λ t. arg ++ t) (append_assoc b (c ∷ []) s)

-- Inside quotes.
read_arg-escape_from :
    (n : ℕ) (s arg tail : WString)
    → read_arg true 0 arg (escape_from n s ++ quote ∷ tail)
      ≡ read_arg false 0 (arg ++ (backs n ++ s)) tail
unfolding escape_from
read_arg-escape_from n [] arg tail =
    read_arg-first_backs true (n * 2) arg (quote ∷ tail)
    ∙ read_arg-toggle n arg tail
    ∙ ap (λ t. read_arg false 0 (arg ++ t) tail) (sym (append-nil (backs n)))
read_arg-escape_from n (c ∷ s) arg tail = elim (Bool-cases (c == back)) [
  | inl b ↦
      let same : c ≡ back = (==_iff c back).0 b in
      rw (b, same)
        (read_arg-escape_from (suc n) s arg tail
          ∙ ap (λ t. read_arg false 0 (arg ++ t) tail) (sym (backs_snoc n s)))
  | inr b ↦ elim (Bool-cases (c == quote)) [
    | inl q ↦
        let same : c ≡ quote = (==_iff c quote).0 q in
        rw (b, q, same, append_assoc)
          (read_arg-first_backs true (n * 2 + 1) arg (quote ∷ (escape_from 0 s ++ quote ∷ tail))
            ∙ read_arg-literal n arg (escape_from 0 s ++ quote ∷ tail)
            ∙ read_arg-escape_from 0 s (arg ++ (backs n ++ quote ∷ [])) tail
            ∙ ap (λ t. read_arg false 0 t tail) (regroup arg (backs n) s quote))
    | inr q ↦
        rw (b, q, append_assoc)
          (read_arg-first_backs true n arg (c ∷ (escape_from 0 s ++ quote ∷ tail))
            ∙ read_arg-plain n c arg (escape_from 0 s ++ quote ∷ tail) b q
            ∙ read_arg-escape_from 0 s (arg ++ (backs n ++ c ∷ [])) tail
            ∙ ap (λ t. read_arg false 0 t tail) (regroup arg (backs n) s c))
  ]
]

-- The line is at its end or at a separator.
abbrev pub at_end : WString → Bool
at_end [] = true
at_end (c ∷ s) = ends_arg c

read_arg-at_end :
    (n : ℕ) (arg tail : WString)
    → at_end tail ≡ true
    → read_arg false n arg tail ≡ (arg ++ backs n, tail)
unfolding read_arg
read_arg-at_end n arg [] h = refl
read_arg-at_end n arg (c ∷ tail) h =
    let b : (c == back) ≡ false = ground arith in
    let q : (c == quote) ≡ false = ground arith in rw (b, q, h)

-- Outside quotes.
read_arg-unquoted :
    (n : ℕ) (s arg tail : WString)
    → any_needs_quotes s ≡ false
    → at_end tail ≡ true
    → read_arg false n arg (s ++ tail) ≡ (arg ++ (backs n ++ s), tail)
unfolding any_needs_quotes needs_quotes read_arg
read_arg-unquoted n [] arg tail h e =
    read_arg-at_end n arg tail e ∙ ap (λ t. (arg ++ t, tail)) (sym (append-nil (backs n)))
read_arg-unquoted n (c ∷ s) arg tail h e =
    let rest : any_needs_quotes s ≡ false = ground arith in
    let q : (c == quote) ≡ false = ground arith in
    let w : ends_arg c ≡ false = ground arith in
    elim (Bool-cases (c == back)) [
      | inl b ↦
          let same : c ≡ back = (==_iff c back).0 b in
          rw (b, same)
            (read_arg-unquoted (suc n) s arg tail rest e
              ∙ ap (λ t. (arg ++ t, tail)) (sym (backs_snoc n s)))
      | inr b ↦
          rw (b, q, w)
            (read_arg-unquoted 0 s (arg ++ (backs n ++ c ∷ [])) tail rest e
              ∙ ap (λ t. (t, tail)) (regroup arg (backs n) s c))
    ]

read_arg-quote : (s : WString) → read_arg false 0 [] (quote ∷ s) ≡ read_arg true 0 [] s
unfolding read_arg
read_arg-quote s = refl

-- An argument that `EscapeArg` writes in front of the end of the line or a separator is read back by
-- the rules of `CommandLineToArgvW`, whatever characters it has, and what follows is left.
pub read_arg-escape_arg :
    (s tail : WString) → at_end tail ≡ true → read_arg false 0 [] (escape_arg s ++ tail) ≡ (s, tail)
unfolding escape_arg
read_arg-escape_arg [] tail h =
    read_arg-quote (quote ∷ tail) ∙ read_arg-escape_from 0 [] [] tail ∙ read_arg-at_end 0 [] tail h
read_arg-escape_arg (c ∷ s) tail h = elim (Bool-cases (any_needs_quotes (c ∷ s))) [
  | inl e ↦
      rw (e, append_assoc)
        (read_arg-quote (escape_from 0 (c ∷ s) ++ quote ∷ tail)
          ∙ read_arg-escape_from 0 (c ∷ s) [] tail
          ∙ read_arg-at_end 0 (c ∷ s) tail h
          ∙ ap (λ t. (t, tail)) (append-nil (c ∷ s)))
  | inr e ↦ rw e (read_arg-unquoted 0 (c ∷ s) [] tail e h)
]

append_args-at_end : (is_cmd : Bool) (args : List WString) → at_end (append_args is_cmd args) ≡ true
unfolding append_args
append_args-at_end is_cmd [] = refl
append_args-at_end is_cmd (a ∷ args) = refl

-- The text is there and starts with no separator.
abbrev is_solid : WString → Bool
is_solid [] = false
is_solid (c ∷ s) = not (ends_arg c)

escape_arg-is_solid : (s : WString) → is_solid (escape_arg s) ≡ true
unfolding escape_arg any_needs_quotes needs_quotes
escape_arg-is_solid [] = refl
escape_arg-is_solid (c ∷ s) = elim (Bool-cases (any_needs_quotes (c ∷ s))) [
  | inl e ↦ rw e refl
  | inr e ↦ let plain : ends_arg c ≡ false = ground (arith, e) in rw (e, plain) refl
]

skip_blanks-blank : (c : ℕ) (s : WString) → ends_arg c ≡ false → skip_blanks (blank ∷ c ∷ s) ≡ c ∷ s
unfolding skip_blanks
skip_blanks-blank c s h = rw h refl

read_more-is_solid :
    (again : WString → Option (List WString)) (s tail : WString)
    → is_solid s ≡ true
    → read_more again (skip_blanks (blank ∷ (s ++ tail)))
      ≡ prepend (read_arg false 0 [] (s ++ tail)).0 (again (read_arg false 0 [] (s ++ tail)).1)
unfolding read_more
read_more-is_solid again [] tail h = cc
read_more-is_solid again (c ∷ s) tail h =
    ap (read_more again) (skip_blanks-blank c (s ++ tail) (ground (arith, h)))

-- The arguments that `BuildChildCommandLine` appends for a tool that is not cmd.exe are read back, all
-- of them, in order and no others, by the rules of `CommandLineToArgvW`, which skip every run of spaces
-- and tabs between arguments. The fuel is more than the number of arguments.
pub read_args-append_args :
    (fuel : ℕ) (args : List WString)
    → length args < fuel
    → read_args fuel (append_args false args) ≡ some args
unfolding read_args append_args
read_args-append_args zero args h = absurd (omega arith)
read_args-append_args (suc fuel) [] h = unfold read_more skip_blanks in refl
read_args-append_args (suc fuel) (a ∷ args) h =
    let tail = append_args false args in
    let first = read_arg-escape_arg a tail (append_args-at_end false args) in
    read_more-is_solid (read_args fuel) (escape_arg a) tail (escape_arg-is_solid a)
    ∙ rw (first, read_args-append_args fuel args (omega arith)) refl
