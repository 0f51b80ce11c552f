-- ===== src/Network/Verdicts.antt =====
-- What the address hooks of src/network_detours.cpp let through under `LoopbackOnly`, and the policy that
-- the launcher hands down.
use bazel_sandbox_windows.Base.{ℕ, ◌==◌, ltb, ◌≤◌, ◌≡◌, refl, ap, arith, true, false}
use bazel_sandbox_windows.Base.{[], map, Option, none, some, WString, wide, wcs_eq, wcs_eq_refl}
use bazel_sandbox_windows.Base.{length, get_or, if◌then◌else◌, wcs_eq_iff, inl, inr, Bool-cases}
use bazel_sandbox_windows.Network.{
  NetworkPolicy, allow, loopback_only, block_all, SockAddr, Winsock,
}
use bazel_sandbox_windows.Network.{af_inet, is_loopback_addr, addr_allowed}
use bazel_sandbox_windows.Network.{detoured_connect, detoured_wsa_connect, detoured_sendto}
use bazel_sandbox_windows.Network.{detoured_wsa_send_to, detoured_bind}
use bazel_sandbox_windows.Network.{socket_error, wsaeacces}
use bazel_sandbox_windows.Network.{wcsicmp_eq, read_policy}
use bazel_sandbox_windows.Network.{variable_for}

module _ (W : Winsock) where
  -- What a refused address call does: the error code and nothing else.
  abbrev pub refused : W.World → ℕ × W.World
  refused w = (socket_error, W.set_last_error wsaeacces w)

  -- Under `LoopbackOnly` an IPv4 address of full length outside 127.0.0.0/8 is refused by all five
  -- address hooks, and one inside goes to the real function.
  pub loopback_only-refused :
      (s : W.Socket) (a b : W.Extra) (sa : SockAddr) (len : ℕ) (w : W.World)
      → sa.family ≡ af_inet
      → 16 ≤ len
      → let loops = get_or sa.address 0 0 == 127 in
        (detoured_connect W loopback_only s (some sa) len w
          ≡ (if loops then W.real_connect s (some sa) len w else refused w))
        × (detoured_wsa_connect W loopback_only s (some sa) len a w
            ≡ (if loops then W.real_wsa_connect s (some sa) len a w else refused w))
        × (detoured_sendto W loopback_only s a (some sa) len w
            ≡ (if loops then W.real_sendto s a (some sa) len w else refused w))
        × (detoured_wsa_send_to W loopback_only s a (some sa) len b w
            ≡ (if loops then W.real_wsa_send_to s a (some sa) len b w else refused w))
        × (detoured_bind W loopback_only s (some sa) len w
            ≡ (if loops then W.real_bind s (some sa) len w else refused w))
  unfolding detoured_connect detoured_wsa_connect detoured_sendto detoured_wsa_send_to detoured_bind
  loopback_only-refused s a b sa len w v4 full =
      let verdict = addr_allowed_v4 sa len v4 full in
      elim (Bool-cases (get_or sa.address 0 0 == 127)) [
        | inl e ↦ rw (verdict, e) (refl, refl, refl, refl, refl)
        | inr e ↦ rw (verdict, e) (refl, refl, refl, refl, refl)
      ]
    where
      addr_allowed_v4 :
          (sa : SockAddr) (len : ℕ)
          → sa.family ≡ af_inet
          → 16 ≤ len
          → addr_allowed loopback_only (some sa) len ≡ (get_or sa.address 0 0 == 127)
      addr_allowed_v4 sa len v4 full =
          let long : ltb len 2 ≡ false = ground arith in
          let enough : ltb len 16 ≡ false = ground arith in
          unfold addr_allowed is_loopback_addr in rw (v4, long, enough)

-- The policy that the launcher's options mean: 0 without restriction, 1 for `-N`, 2 for `-n`.
abbrev pub policy_for : ℕ → NetworkPolicy
policy_for network_policy =
    if network_policy == 1 then loopback_only else if network_policy == 2 then block_all else allow

-- What `GetEnvironmentVariableW` gives for a variable that is set to a text, or not at all.
abbrev pub handed_down : Option WString → ℕ × WString
handed_down none = (0, [])
handed_down (some text) = (length text, text)

wcs_eq-length : (xs ys : WString) → wcs_eq xs ys ≡ true → length xs ≡ length ys
wcs_eq-length xs ys e = ap length ((wcs_eq_iff xs ys).0 e)

module _ (fold : ℕ → ℕ) where
  wcsicmp_eq_self : (text : WString) → wcsicmp_eq fold text text ≡ true
  unfolding wcsicmp_eq
  wcsicmp_eq_self text = wcs_eq_refl (map fold text)

  block_is_not_loopback : wcsicmp_eq fold (wide "block") (wide "loopback") ≡ false
  unfolding wcsicmp_eq
  block_is_not_loopback =
      elim (Bool-cases (wcs_eq (map fold (wide "block")) (map fold (wide "loopback")))) [
        | inl e ↦
            absurd (
              omega (arith, wcs_eq-length (map fold (wide "block")) (map fold (wide "loopback")) e))
        | inr e ↦ e
      ]

  -- The variable that the launcher sets is read by the injected DLL as the policy of the launcher's
  -- option, for every option and whatever the case folding, if the variable is unset where the launcher
  -- leaves it.
  pub read_policy-variable_for :
      (network_policy : ℕ)
      → read_policy fold (handed_down (variable_for network_policy)) allow
        ≡ policy_for network_policy
  unfolding read_policy variable_for
  read_policy-variable_for network_policy = elim (Bool-cases (network_policy == 1)) [
    | inl e ↦ rw (e, wcsicmp_eq_self (wide "loopback"))
    | inr e ↦ elim (Bool-cases (network_policy == 2)) [
      | inl k ↦ rw (e, k, block_is_not_loopback, wcsicmp_eq_self (wide "block"))
      | inr k ↦ rw (e, k)
    ]
  ]
