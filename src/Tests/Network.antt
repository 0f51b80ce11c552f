-- ===== src/Tests/Network.antt =====
-- Runs of the hooks of src/network_detours.cpp on a network that records whether it was reached.
use bazel_sandbox_windows.Base.{ℕ, ◌≡◌, refl, arith, true, some}
use bazel_sandbox_windows.Base.{wide, wcs_eq, starts_with, List, [], ◌∷◌}
use bazel_sandbox_windows.Network.{allow, loopback_only, SockAddr, Winsock}
use bazel_sandbox_windows.Network.{detoured_connect, detoured_wsa_connect, detoured_sendto}
use bazel_sandbox_windows.Network.{detoured_wsa_send_to, detoured_bind}
use bazel_sandbox_windows.Network.{is_local_name, wcsicmp_eq, read_policy, variable_for}
use bazel_sandbox_windows.Network.{is_afd_device_name, names_afd, folds_to_prefix}
use bazel_sandbox_windows.Network.Verdicts.{refused, loopback_only-refused}
use bazel_sandbox_windows.Network.Attached.{
  Attempt, initialize_all, unattached, initialize_all-unattached,
}
use bazel_sandbox_windows.Network.Refused.{
  IsObserved, HookCall, connect, bind, getaddrinfo, after_calls, IsNotFound, traffic-after_calls,
  names-IsNotFound,
}
use bazel_sandbox_windows.Network.{detoured_getaddrinfo, detoured_get_addr_info_w}
use bazel_sandbox_windows.Network.{detoured_gethostbyname, is_allow, block_all}
use bazel_sandbox_windows.Base.{inr, none, false, suc, ◌&&◌, ◌==◌, ==_refl, if◌then◌else◌}
use bazel_sandbox_windows.Network.Verdicts.{policy_for, handed_down, read_policy-variable_for}

-- The world is the last error and the number of real calls.
abbrev reached : ℕ × List ℕ → ℕ × (ℕ × List ℕ)
reached w = (0, (w.0, 1 ∷ w.1))

abbrev winsock : Winsock
winsock = record {
  World = ℕ × List ℕ;
  Socket = ℕ;
  Extra = ℕ;
  Host = ℕ;
  set_last_error = λ e w. (e, w.1);
  clear_result = λ r w. w;
  real_connect = λ s a n w. reached w;
  real_wsa_connect = λ s a n e w. reached w;
  real_sendto = λ s e a n w. reached w;
  real_wsa_send_to = λ s e a n f w. reached w;
  real_bind = λ s a n w. reached w;
  real_getaddrinfo = λ n q r w. reached w;
  real_get_addr_info_w = λ n q r w. reached w;
  real_gethostbyname = λ n w. (some 1, w);
}

abbrev quiet : ℕ × List ℕ
quiet = (0, [])

abbrev outside : SockAddr
outside = record { family = 2; address = 8 ∷ 8 ∷ 8 ∷ 8 ∷ [] }

abbrev same_case : ℕ → ℕ
same_case c = c

loopback_only-refused_example :
    (detoured_connect winsock loopback_only 1 (some outside) 16 quiet ≡ refused winsock quiet)
    × (detoured_wsa_connect winsock loopback_only 1 (some outside) 16 5 quiet
        ≡ refused winsock quiet)
    × (detoured_sendto winsock loopback_only 1 5 (some outside) 16 quiet ≡ refused winsock quiet)
    × (detoured_wsa_send_to winsock loopback_only 1 5 (some outside) 16 6 quiet
        ≡ refused winsock quiet)
    × (detoured_bind winsock loopback_only 1 (some outside) 16 quiet ≡ refused winsock quiet)
loopback_only-refused_example =
    loopback_only-refused winsock 1 5 6 outside 16 quiet refl (omega arith)

read_policy-variable_for_example :
    read_policy same_case (handed_down (variable_for 2)) allow ≡ policy_for 2
read_policy-variable_for_example = read_policy-variable_for same_case 2

-- Winsock with the last error, how often a real function was reached, and the result that is null.
abbrev Seen : Type 0
Seen = ℕ × ℕ × ℕ

abbrev sent : Seen → ℕ × Seen
sent w = (0, (w.0, suc w.1, w.2))

abbrev watched : Winsock
watched = record {
  World = Seen;
  Socket = ℕ;
  Extra = ℕ;
  Host = ℕ;
  set_last_error = λ e w. (e, w.1, w.2);
  clear_result = λ r w. (w.0, w.1, r);
  real_connect = λ s a n w. sent w;
  real_wsa_connect = λ s a n e w. sent w;
  real_sendto = λ s e a n w. sent w;
  real_wsa_send_to = λ s e a n f w. sent w;
  real_bind = λ s a n w. sent w;
  real_getaddrinfo = λ n q r w. sent w;
  real_get_addr_info_w = λ n q r w. sent w;
  real_gethostbyname = λ n w. (some 1, (sent w).1);
}

abbrev watched-IsObserved : IsObserved watched
watched-IsObserved = record {
  Traffic = ℕ;
  traffic = λ w. w.1;
  last_error = λ w. w.0;
  is_null = λ w r. w.2 == r;
  last_error-set = λ e w. refl;
  traffic-set = λ e w. refl;
  is_null-set = λ e w r. refl;
  is_null-clear = λ r w. ==_refl r;
  traffic-clear = λ r w. refl;
}

abbrev attempts : List (HookCall watched)
attempts =
    connect 1 (some outside) 16
    ∷ getaddrinfo (some (wide "example.com")) 5 (some 6)
    ∷ bind 1 none 0
    ∷ []

traffic-after_calls_example :
    (after_calls watched watched-IsObserved same_case block_all attempts (0, 0, 0)).1 ≡ 0
traffic-after_calls_example =
    traffic-after_calls watched watched-IsObserved same_case attempts (0, 0, 0)

names-IsNotFound_example :
    IsNotFound watched watched-IsObserved same_case 6 (
      detoured_getaddrinfo watched loopback_only same_case
        (some (wide "example.com"))
        5
        (some 6)
        (0, 0, 0))
    × IsNotFound watched watched-IsObserved same_case 6 (
        detoured_get_addr_info_w watched loopback_only same_case
          (some (wide "example.com"))
          5
          (some 6)
          (0, 0, 0))
    × ((detoured_gethostbyname watched loopback_only same_case
          (some (wide "example.com"))
          (0, 0, 0)).0
        ≡ none)
    × ((detoured_gethostbyname watched loopback_only same_case
          (some (wide "example.com"))
          (0, 0, 0)).1.0
        ≡ 11001)
unfolding is_local_name wcs_eq starts_with wcsicmp_eq
names-IsNotFound_example =
    names-IsNotFound watched watched-IsObserved same_case loopback_only (some (wide "example.com"))
      5 6 (0, 0, 0) (inr (refl, refl))

-- The initialization runs twice, with a policy each time.
abbrev twice : List Attempt
twice =
    (record { variable = (5, wide "block"); begun = true; committed = true })
    ∷ (record { variable = (8, wide "loopback"); begun = true; committed = true })
    ∷ []

initialize_all-unattached_example :
    let g = initialize_all same_case twice unattached in
    (g.hooked ≡ (if g.attached then 1 else 0)) × ((g.attached && is_allow g.policy) ≡ false)
initialize_all-unattached_example = initialize_all-unattached same_case twice

-- A host name that starts with `127.` counts as local.
is_local_name_run : is_local_name same_case (some (wide "127.example.com")) ≡ true
unfolding is_local_name wcs_eq starts_with wcsicmp_eq
is_local_name_run = refl

is_afd_device_name_run : is_afd_device_name same_case (some (wide "\\Device\\Afd\\Endpoint")) ≡ true
unfolding is_afd_device_name names_afd folds_to_prefix starts_with
is_afd_device_name_run = refl
