-- ===== src/Network/Attached.antt =====
-- Any number of calls of `InitializeAndAttachNetworkDetours` of src/network_detours.cpp: how often the
-- hooks are attached.
use bazel_sandbox_windows.Base.{ℕ, ◌≡◌, refl, arith, Bool, false, ◌&&◌, if◌then◌else◌}
use bazel_sandbox_windows.Base.{List, [], ◌∷◌, WString}
use bazel_sandbox_windows.Network.{Network, NetworkPolicy, allow, is_allow, read_policy}
use bazel_sandbox_windows.Network.{initialize_and_attach}

-- What one call finds: the variable, and whether its transaction begins and commits.
pub record Attempt : Type 0 where
  pub variable : ℕ × WString
  pub begun : Bool
  pub committed : Bool

-- The state of the DLL when it is loaded.
abbrev pub unattached : Network
unattached = record { policy = allow; attached = false; hooked = 0 }

module _ (fold : ℕ → ℕ) where
  -- The calls one after the other.
  abbrev pub initialize_all : List Attempt → Network → Network
  initialize_all [] g = g
  initialize_all (a ∷ more) g =
      initialize_all more (initialize_and_attach fold a.variable a.begun a.committed g)

  abbrev IsHooked : Network → Type 0
  IsHooked g =
      (g.hooked ≡ (if g.attached then 1 else 0)) × ((g.attached && is_allow g.policy) ≡ false)

  -- A policy that restricts is never lifted.
  is_allow-read_policy :
      (variable : ℕ × WString) (policy : NetworkPolicy)
      → is_allow policy ≡ false
      → is_allow (read_policy fold variable policy) ≡ false
  unfolding read_policy
  is_allow-read_policy variable policy h = ground (arith, h)

  initialize_and_attach-IsHooked :
      (a : Attempt) (g : Network)
      → IsHooked g
      → IsHooked (initialize_and_attach fold a.variable a.begun a.committed g)
  unfolding initialize_and_attach
  initialize_and_attach-IsHooked a g (once, restricts) =
      let kept = is_allow-read_policy a.variable g.policy in ground (arith, once, restricts, kept)

  initialize_all-IsHooked :
      (calls : List Attempt) (g : Network) → IsHooked g → IsHooked (initialize_all calls g)
  initialize_all-IsHooked [] g h = h
  initialize_all-IsHooked (a ∷ more) g h =
      initialize_all-IsHooked more (initialize_and_attach fold a.variable a.begun a.committed g)
        (initialize_and_attach-IsHooked a g h)

  -- However often the initialization runs in a process, and whatever the variable holds and the
  -- transactions answer each time, each hook stands at most once in front of its real function: once
  -- where the state says attached, and not at all where it does not. It says attached only under a policy
  -- that restricts.
  pub initialize_all-unattached :
      (calls : List Attempt)
      → let g = initialize_all calls unattached in
        (g.hooked ≡ (if g.attached then 1 else 0)) × ((g.attached && is_allow g.policy) ≡ false)
  initialize_all-unattached calls = initialize_all-IsHooked calls unattached (refl, refl)
