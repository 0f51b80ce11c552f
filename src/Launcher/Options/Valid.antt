-- ===== src/Launcher/Options/Valid.antt =====
-- What holds of the options that `ParseOptions` of src/main.cpp returns.
use bazel_sandbox_windows.Base.{
  ℕ, ◌==◌, ◌≤◌, ◌≡◌, refl, ◌∙◌, arith, Bool, true, false, not, ◌||◌, List, [], ◌∷◌,
}
use bazel_sandbox_windows.Base.{
  WString, wide, wcs_eq, is_nil, All, if◌then◌else◌, Bool-cases, inl, inr, drop,
}
use bazel_sandbox_windows.Launcher.Options.{
  Outcome, done, died, usage_shown, then_, System, Options, no_options,
}
use bazel_sandbox_windows.Launcher.Options.{
  Action, switch, with_value, help, unknown, actions, first_action, action_of, is_option,
}
use bazel_sandbox_windows.Launcher.Options.{
  to_absolute, parse_from, complete, parse_options, path_option,
}
use bazel_sandbox_windows.Launcher.Options.{separator, expand_arguments}

-- The predicate holds of the result, if the process goes on.
abbrev pub InResult {ℓ} : {A : Type ℓ} → (A → Type 0) → Outcome A → Type 0
InResult P (done a) = P a
InResult P (died message) = Unit {0}
InResult P usage_shown = Unit {0}

InResult-then_ {ℓ} :
    {A B : Type ℓ} (P : A → Type 0) (Q : B → Type 0) (x : Outcome A) (f : A → Outcome B)
    → InResult P x
    → ((a : A) → P a → InResult Q (f a))
    → InResult Q (then_ x f)
InResult-then_ P Q (done a) f p next = next a p
InResult-then_ P Q (died message) f p next = tt
InResult-then_ P Q usage_shown f p next = tt

InResult-Unit {ℓ} : {A : Type ℓ} (x : Outcome A) → InResult (λ (a : A). Unit {0}) x
InResult-Unit (done a) = tt
InResult-Unit (died message) = tt
InResult-Unit usage_shown = tt

-- `--filter-inputs` comes with `-H`, and the network policy is one of the three.
pub record IsConsistent (o : Options) : Type 0 where
  pub filter_is_hermetic : (not o.filter_inputs || o.hermetic) ≡ true
  pub network_policy_le : o.network_policy ≤ 2

-- The action keeps the options consistent.
data Keeps : Action → Type 0 where
  keeps_switch :
      (change : Options → Outcome Options)
      → ((o : Options) → IsConsistent o → InResult IsConsistent (change o))
      → Keeps (switch change)
  keeps_with_value :
      (change : WString → Options → Outcome Options)
      → ((value : WString) (o : Options) → IsConsistent o → InResult IsConsistent (change value o))
      → Keeps (with_value change)
  keeps_help : Keeps help
  keeps_unknown : Keeps unknown

first_action-Keeps :
    (name : WString) (table : List (WString × Action))
    → All (λ e. Keeps e.1) table
    → Keeps (first_action name table)
unfolding first_action
first_action-Keeps name [] k = keeps_unknown
first_action-Keeps name ((entry, action) ∷ table) k = elim (Bool-cases (wcs_eq name entry)) [
  | inl e ↦ rw e k.0
  | inr e ↦ rw e (first_action-Keeps name table k.1)
]

or_true : (b : Bool) → (b || true) ≡ true
or_true b = ground arith

same :
    (o p : Options)
    → (not p.filter_inputs || p.hermetic) ≡ (not o.filter_inputs || o.hermetic)
    → p.network_policy ≡ o.network_policy
    → IsConsistent o
    → IsConsistent p
same o p e n h = record {
  filter_is_hermetic = e ∙ h.filter_is_hermetic;
  network_policy_le = omega (arith, n, h.network_policy_le);
}

hermetic-IsConsistent :
    (o p : Options)
    → p.hermetic ≡ true
    → p.network_policy ≡ o.network_policy
    → IsConsistent o
    → IsConsistent p
hermetic-IsConsistent o p e n h = record {
  filter_is_hermetic = rw e (or_true (not p.filter_inputs));
  network_policy_le = omega (arith, n, h.network_policy_le);
}

network-IsConsistent :
    (o : Options) (n : ℕ) → n ≤ 2 → IsConsistent o → IsConsistent (record o { network_policy = n })
network-IsConsistent o n le h = record {
  filter_is_hermetic = h.filter_is_hermetic;
  network_policy_le = le;
}

exclusive-InResult :
    (b : Bool) (message : WString) (o : Options)
    → IsConsistent o
    → InResult IsConsistent (if b then died message else done o)
exclusive-InResult true message o h = tt
exclusive-InResult false message o h = h

abbrev Parsed : Type 0
Parsed = Options × List WString

abbrev ConsistentRest : Parsed → Type 0
ConsistentRest r = IsConsistent r.0

if-InResult :
    (b : Bool) (x y : Outcome Parsed)
    → InResult ConsistentRest x
    → InResult ConsistentRest y
    → InResult ConsistentRest (if b then x else y)
if-InResult true x y p q = p
if-InResult false x y p q = q

last-InResult :
    (act : Action) (o : Options) (none_left missing bad : WString)
    → Keeps act
    → IsConsistent o
    → InResult ConsistentRest (elim act [
      | switch change ↦ then_ (change o) (λ next. died none_left)
      | with_value change ↦ died missing
      | help ↦ usage_shown
      | unknown ↦ died bad
    ])
last-InResult (switch change) o none_left missing bad (keeps_switch _ k) h =
    InResult-then_ IsConsistent ConsistentRest (change o) _ (k o h) (λ p q. tt)
last-InResult (with_value change) o none_left missing bad k h = tt
last-InResult help o none_left missing bad k h = tt
last-InResult unknown o none_left missing bad k h = tt

act-InResult :
    (act : Action) (o : Options) (value bad : WString) (f g : Options → Outcome Parsed)
    → Keeps act
    → IsConsistent o
    → ((p : Options) → IsConsistent p → InResult ConsistentRest (f p))
    → ((p : Options) → IsConsistent p → InResult ConsistentRest (g p))
    → InResult ConsistentRest (elim act [
      | switch change ↦ then_ (change o) f
      | with_value change ↦ then_ (change value o) g
      | help ↦ usage_shown
      | unknown ↦ died bad
    ])
act-InResult (switch change) o value bad f g (keeps_switch _ k) h p q =
    InResult-then_ IsConsistent ConsistentRest (change o) f (k o h) p
act-InResult (with_value change) o value bad f g (keeps_with_value _ k) h p q =
    InResult-then_ IsConsistent ConsistentRest (change value o) g (k value o h) q
act-InResult help o value bad f g k h p q = tt
act-InResult unknown o value bad f g k h p q = tt

module _ (system : System) where
  path_option-Keeps :
      (set_path : WString → Options → Options)
      → ((path : WString) (o : Options) → IsConsistent o → IsConsistent (set_path path o))
      → Keeps (path_option system set_path)
  path_option-Keeps set_path keeps = keeps_with_value _ (λ value o h.
      InResult-then_ (λ path. Unit {0}) IsConsistent (to_absolute system value) _
        (InResult-Unit (to_absolute system value)) (λ path u. keeps path o h))

  actions-Keeps : All (λ e. Keeps e.1) (actions system)
  unfolding actions
  actions-Keeps = (
    keeps_help,
    (
      path_option-Keeps _ (λ p o h. same o _ refl refl h),
      (
        keeps_with_value _ (λ v o h. same o _ refl refl h),
        (
          keeps_with_value _ (λ v o h. same o _ refl refl h),
          (
            path_option-Keeps _ (λ p o h. same o _ refl refl h),
            (
              path_option-Keeps _ (λ p o h. same o _ refl refl h),
              (
                path_option-Keeps _ (λ p o h. same o _ refl refl h),
                (
                  path_option-Keeps _ (λ p o h. same o _ refl refl h),
                  (
                    path_option-Keeps _ (λ p o h. same o _ refl refl h),
                    (
                      keeps_switch _ (λ o h.
                          exclusive-InResult (o.network_policy == 2) _ _
                            (network-IsConsistent o 1 (omega arith) h)),
                      (
                        keeps_switch _ (λ o h.
                            exclusive-InResult (o.network_policy == 1) _ _
                              (network-IsConsistent o 2 (omega arith) h)),
                        (
                          keeps_switch _ (λ o h. hermetic-IsConsistent o _ refl refl h),
                          (
                            keeps_switch _ (λ o h. hermetic-IsConsistent o _ refl refl h),
                            (
                              keeps_switch _ (λ o h. hermetic-IsConsistent o _ refl refl h),
                              (
                                keeps_switch _ (λ o h. same o _ refl refl h),
                                (
                                  path_option-Keeps _ (λ p o h. same o _ refl refl h),
                                  (
                                    path_option-Keeps _ (λ p o h. same o _ refl refl h),
                                    (
                                      path_option-Keeps _ (λ p o h. same o _ refl refl h),
                                      (path_option-Keeps _ (λ p o h. same o _ refl refl h), tt),
                                    ),
                                  ),
                                ),
                              ),
                            ),
                          ),
                        ),
                      ),
                    ),
                  ),
                ),
              ),
            ),
          ),
        ),
      ),
    ),
  )

  action_of-Keeps : (name : WString) → Keeps (action_of system name)
  unfolding action_of
  action_of-Keeps name = first_action-Keeps name (actions system) actions-Keeps

  parse_from-InResult :
      (o : Options) (args : List WString)
      → IsConsistent o
      → InResult (λ r. IsConsistent r.0) (parse_from system o args)
  unfolding parse_from
  parse_from-InResult o [] h = tt
  parse_from-InResult o (arg ∷ []) h = if-InResult (wcs_eq arg separator) _ _ h (
      if-InResult (is_option system arg) _ _
        (last-InResult (action_of system (drop 1 arg)) o _ _ _ (action_of-Keeps (drop 1 arg)) h) tt)
  parse_from-InResult o (arg ∷ value ∷ rest) h = if-InResult (wcs_eq arg separator) _ _ h (
      if-InResult (is_option system arg) _ _
        (act-InResult (action_of system (drop 1 arg)) o value _ _ _ (action_of-Keeps (drop 1 arg)) h
          (λ p k. parse_from-InResult p (value ∷ rest) k) (λ p k. parse_from-InResult p rest k))
        tt)

  -- Whatever the arguments and the system, if `ParseOptions` returns then the options have
  -- `--filter-inputs` only together with the hermetic mode, a network policy that is 0, 1 or 2, and a
  -- command to run.
  pub parse_options-InResult :
      (args : List WString)
      → InResult (λ o. IsConsistent o × (is_nil o.args ≡ false)) (parse_options system args)
  unfolding parse_options
  parse_options-InResult args =
      InResult-then_ (λ xs. Unit {0}) _ (expand_arguments system args) _
        (InResult-Unit (expand_arguments system args))
        (λ xs u.
          InResult-then_ ConsistentRest _ (parse_from system no_options xs) _
            (parse_from-InResult no_options xs
              (record { filter_is_hermetic = refl; network_policy_le = omega arith }))
            (λ r h. finished r.0 r.1 h))
    where
      finished :
          (o : Options) (command : List WString)
          → IsConsistent o
          → InResult
              (λ p. IsConsistent p × (is_nil p.args ≡ false))
              (if is_nil command
                then died (wide "no command specified after --")
                else done (complete system o command))
      finished o [] h = tt
      finished o (c ∷ command) h = unfold complete in (same o _ refl refl h, refl)
