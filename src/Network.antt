-- ===== src/Network.antt =====
-- The Winsock hooks, src/network_detours.cpp. Winsock is a record of an unknown state with the real
-- functions; `fold` is the case folding of `_wcsicmp`, `_stricmp` and `_wcsnicmp`.
pub mod Verdicts
pub mod Attached
pub mod Refused
use mathlib.Core.Option
use bazel_sandbox_windows.Base.{
  ℕ, suc, ◌-◌, ◌==◌, ltb, Bool, true, false, not, ◌&&◌, ◌||◌, List, [], ◌∷◌, map,
}
use bazel_sandbox_windows.Base.{
  Option, none, some, WString, wide, wcs_eq, starts_with, length, drop, take,
}
use bazel_sandbox_windows.Base.{get_or, is_nil, replicate, if◌then◌else◌, ◌++◌}

pub data NetworkPolicy : Type 0 where
  allow loopback_only block_all : NetworkPolicy

-- What the hooks read of a `sockaddr`: the family and the bytes of the address.
pub record SockAddr : Type 0 where
  pub family : ℕ
  pub address : List ℕ

abbrev pub af_inet : ℕ
af_inet = 2

abbrev pub af_inet6 : ℕ
af_inet6 = 23

-- The bytes of `::1`, for `IN6_IS_ADDR_LOOPBACK`.
abbrev pub loopback6 : List ℕ
loopback6 = replicate 15 0 ++ 1 ∷ []

-- `IsLoopbackAddr`; a negative length is 0, which is below every size as well
unfoldable pub is_loopback_addr : Option SockAddr → ℕ → Bool
unfolding wcs_eq
is_loopback_addr none len = true
is_loopback_addr (some sa) len =
    if ltb len 2
    then true
    else if sa.family == af_inet
    then (if ltb len 16 then false else get_or sa.address 0 0 == 127)
    else if sa.family == af_inet6
    then (if ltb len 28 then false else wcs_eq sa.address loopback6)
    else true

-- `AddrAllowed`
unfoldable pub addr_allowed : NetworkPolicy → Option SockAddr → ℕ → Bool
unfolding is_loopback_addr
addr_allowed allow sa len = true
addr_allowed block_all sa len = false
addr_allowed loopback_only sa len = is_loopback_addr sa len

-- `NameResolutionAllowed`
unfoldable pub name_resolution_allowed : NetworkPolicy → Bool → Bool
name_resolution_allowed allow is_local_name = true
name_resolution_allowed block_all is_local_name = false
name_resolution_allowed loopback_only is_local_name = is_local_name

module _ (fold : ℕ → ℕ) where
  -- `_wcsicmp(a, b) == 0`
  unfoldable pub wcsicmp_eq : WString → WString → Bool
  unfolding wcs_eq
  wcsicmp_eq a b = wcs_eq (map fold a) (map fold b)

  -- `IsLocalNameW` and `IsLocalNameA`, which make the same tests; `none` is a null pointer
  unfoldable pub is_local_name : Option WString → Bool
  unfolding wcsicmp_eq wcs_eq starts_with
  is_local_name none = true
  is_local_name (some name) =
      is_nil name
      || wcsicmp_eq name (wide "localhost")
      || wcsicmp_eq name (wide "ip6-localhost")
      || wcs_eq name (wide "127.0.0.1")
      || wcs_eq name (wide "::1")
      || starts_with (wide "127.") name

  -- `_wcsnicmp(p, prefix, n) == 0` for a prefix of length n
  unfoldable pub folds_to_prefix : WString → WString → Bool
  unfolding starts_with
  folds_to_prefix prefix p = starts_with (map fold prefix) (map fold p)

  -- `Afd`, at its end or at a backslash
  unfoldable pub names_afd : WString → Bool
  unfolding folds_to_prefix
  names_afd p = folds_to_prefix (wide "Afd") p && (is_nil (drop 3 p) || get_or p 3 0 == 0x5C)

  -- `IsAfdDeviceName`
  unfoldable pub is_afd_device_name : Option WString → Bool
  unfolding names_afd folds_to_prefix
  is_afd_device_name none = false
  is_afd_device_name (some path) =
      if folds_to_prefix (wide "\\Device\\") path
      then names_afd (drop 8 path)
      else if folds_to_prefix (wide "\\??\\") path
      then names_afd (drop 4 path)
      else false

-- The real functions on the state of the operating system. The arguments that the hooks only pass on
-- are of unknown types; a result is what the function returns.
pub record Winsock : Type 1 where
  pub World : Type 0
  pub Socket : Type 0
  pub Extra : Type 0
  pub Host : Type 0
  pub set_last_error : ℕ → World → World
  pub clear_result : Extra → World → World
  pub real_connect : Socket → Option SockAddr → ℕ → World → ℕ × World
  pub real_wsa_connect : Socket → Option SockAddr → ℕ → Extra → World → ℕ × World
  pub real_sendto : Socket → Extra → Option SockAddr → ℕ → World → ℕ × World
  pub real_wsa_send_to : Socket → Extra → Option SockAddr → ℕ → Extra → World → ℕ × World
  pub real_bind : Socket → Option SockAddr → ℕ → World → ℕ × World
  pub real_getaddrinfo : Option WString → Extra → Option Extra → World → ℕ × World
  pub real_get_addr_info_w : Option WString → Extra → Option Extra → World → ℕ × World
  pub real_gethostbyname : Option WString → World → Option Host × World

-- `SOCKET_ERROR` is -1 in 32 bits.
abbrev pub socket_error : ℕ
socket_error = 0xFFFFFFFF

abbrev pub wsaeacces : ℕ
wsaeacces = 10013

abbrev pub wsahost_not_found : ℕ
wsahost_not_found = 11001

module _ (W : Winsock) (policy : NetworkPolicy) where
  unfoldable pub detoured_connect : W.Socket → Option SockAddr → ℕ → W.World → ℕ × W.World
  unfolding addr_allowed
  detoured_connect s name namelen w =
      if not (addr_allowed policy name namelen)
      then (socket_error, W.set_last_error wsaeacces w)
      else W.real_connect s name namelen w

  unfoldable pub detoured_wsa_connect :
      W.Socket → Option SockAddr → ℕ → W.Extra → W.World → ℕ × W.World
  unfolding addr_allowed
  detoured_wsa_connect s name namelen extra w =
      if not (addr_allowed policy name namelen)
      then (socket_error, W.set_last_error wsaeacces w)
      else W.real_wsa_connect s name namelen extra w

  unfoldable pub detoured_sendto : W.Socket → W.Extra → Option SockAddr → ℕ → W.World → ℕ × W.World
  unfolding addr_allowed
  detoured_sendto s message to tolen w =
      if not (addr_allowed policy to tolen)
      then (socket_error, W.set_last_error wsaeacces w)
      else W.real_sendto s message to tolen w

  unfoldable pub detoured_wsa_send_to :
      W.Socket → W.Extra → Option SockAddr → ℕ → W.Extra → W.World → ℕ × W.World
  unfolding addr_allowed
  detoured_wsa_send_to s message to tolen overlapped w =
      if not (addr_allowed policy to tolen)
      then (socket_error, W.set_last_error wsaeacces w)
      else W.real_wsa_send_to s message to tolen overlapped w

  unfoldable pub detoured_bind : W.Socket → Option SockAddr → ℕ → W.World → ℕ × W.World
  unfolding addr_allowed
  detoured_bind s name namelen w =
      if not (addr_allowed policy name namelen)
      then (socket_error, W.set_last_error wsaeacces w)
      else W.real_bind s name namelen w

  -- `if (ppResult != nullptr) *ppResult = nullptr;` and the error
  unfoldable pub refuse_lookup : Option W.Extra → W.World → ℕ × W.World
  refuse_lookup none w = (wsahost_not_found, W.set_last_error wsahost_not_found w)
  refuse_lookup (some result) w =
      (wsahost_not_found, W.set_last_error wsahost_not_found (W.clear_result result w))

  unfoldable pub detoured_getaddrinfo :
      (ℕ → ℕ) → Option WString → W.Extra → Option W.Extra → W.World → ℕ × W.World
  unfolding name_resolution_allowed is_local_name refuse_lookup
  detoured_getaddrinfo fold node_name query result w =
      if not (name_resolution_allowed policy (is_local_name fold node_name))
      then refuse_lookup result w
      else W.real_getaddrinfo node_name query result w

  unfoldable pub detoured_get_addr_info_w :
      (ℕ → ℕ) → Option WString → W.Extra → Option W.Extra → W.World → ℕ × W.World
  unfolding name_resolution_allowed is_local_name refuse_lookup
  detoured_get_addr_info_w fold node_name query result w =
      if not (name_resolution_allowed policy (is_local_name fold node_name))
      then refuse_lookup result w
      else W.real_get_addr_info_w node_name query result w

  unfoldable pub detoured_gethostbyname :
      (ℕ → ℕ) → Option WString → W.World → Option W.Host × W.World
  unfolding name_resolution_allowed is_local_name
  detoured_gethostbyname fold name w =
      if not (name_resolution_allowed policy (is_local_name fold name))
      then (none, W.set_last_error wsahost_not_found w)
      else W.real_gethostbyname name w

-- `g_policy` and `g_attached`; `hooked` is how many of the transactions that attach the hooks took effect,
-- so how often each hook stands in front of its real function.
pub record Network : Type 0 where
  pub policy : NetworkPolicy
  pub attached : Bool
  pub hooked : ℕ

abbrev pub is_allow : NetworkPolicy → Bool
is_allow allow = true
is_allow loopback_only = false
is_allow block_all = false

-- The part of `InitializeAndAttachNetworkDetours` that reads the variable; `environment_variable` is
-- `GetEnvironmentVariableW` with a buffer of 32: the returned length and the buffer's text.
unfoldable pub read_policy : (ℕ → ℕ) → ℕ × WString → NetworkPolicy → NetworkPolicy
unfolding wcsicmp_eq
read_policy fold environment_variable policy =
    let n = environment_variable.0 in
    let value = environment_variable.1 in
    if ltb 0 n && ltb n 32
    then (if wcsicmp_eq fold value (wide "loopback")
        then loopback_only
        else if wcsicmp_eq fold value (wide "block")
        then block_all
        else policy)
    else policy

-- `InitializeAndAttachNetworkDetours`; `begun` and `committed` say whether `DetourTransactionBegin` and
-- `DetourTransactionCommit` succeed.
unfoldable pub initialize_and_attach : (ℕ → ℕ) → ℕ × WString → Bool → Bool → Network → Network
unfolding read_policy
initialize_and_attach fold environment_variable begun committed g =
    let policy = read_policy fold environment_variable g.policy in
    if is_allow policy || g.attached
    then record g { policy = policy }
    else if not begun
    then record g { policy = policy }
    else if committed
    then record g { policy = policy; attached = true; hooked = suc g.hooked }
    else record g { policy = policy }

-- What `wmain` of src/main.cpp sets the variable to for the options `-N` and `-n`; `none` leaves it.
unfoldable pub variable_for : ℕ → Option WString
variable_for network_policy =
    if network_policy == 1
    then some (wide "loopback")
    else if network_policy == 2
    then some (wide "block")
    else none
