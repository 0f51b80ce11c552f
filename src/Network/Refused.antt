-- ===== src/Network/Refused.antt =====
-- What a restricted tool can do through the hooks of src/network_detours.cpp, as Winsock sees it.
use bazel_sandbox_windows.Base.{ℕ, ◌≡◌, refl, ◌∙◌, Bool, true, false, List, [], ◌∷◌, ◌⊎◌, inl, inr}
use bazel_sandbox_windows.Base.{Option, none, some, WString}
use bazel_sandbox_windows.Network.{NetworkPolicy, loopback_only, block_all, SockAddr, Winsock}
use bazel_sandbox_windows.Network.{detoured_connect, detoured_wsa_connect, detoured_sendto}
use bazel_sandbox_windows.Network.{detoured_wsa_send_to, detoured_bind, detoured_getaddrinfo}
use bazel_sandbox_windows.Network.{detoured_get_addr_info_w, detoured_gethostbyname, refuse_lookup}
use bazel_sandbox_windows.Network.{is_local_name}

-- What can be seen of the state: what has gone to the network, the last error, and whether a result
-- pointer is null. `WSASetLastError` sets the last error alone, and clearing a result sets that pointer.
pub record IsObserved (W : Winsock) : Type 1 where
  pub Traffic : Type 0
  pub traffic : W.World → Traffic
  pub last_error : W.World → ℕ
  pub is_null : W.World → W.Extra → Bool
  pub last_error-set : (e : ℕ) (w : W.World) → last_error (W.set_last_error e w) ≡ e
  pub traffic-set : (e : ℕ) (w : W.World) → traffic (W.set_last_error e w) ≡ traffic w
  pub is_null-set :
      (e : ℕ) (w : W.World) (r : W.Extra) → is_null (W.set_last_error e w) r ≡ is_null w r
  pub is_null-clear : (r : W.Extra) (w : W.World) → is_null (W.clear_result r w) r ≡ true
  pub traffic-clear : (r : W.Extra) (w : W.World) → traffic (W.clear_result r w) ≡ traffic w

-- A call of one of the eight hooks, with its arguments.
pub data HookCall (W : Winsock) : Type 0 where
  connect bind : W.Socket → Option SockAddr → ℕ → HookCall W
  wsa_connect : W.Socket → Option SockAddr → ℕ → W.Extra → HookCall W
  sendto : W.Socket → W.Extra → Option SockAddr → ℕ → HookCall W
  wsa_send_to : W.Socket → W.Extra → Option SockAddr → ℕ → W.Extra → HookCall W
  getaddrinfo get_addr_info_w : Option WString → W.Extra → Option W.Extra → HookCall W
  gethostbyname : Option WString → HookCall W

module _ (W : Winsock) (O : IsObserved W) (fold : ℕ → ℕ) where
  -- The state after a call.
  abbrev pub after_call : NetworkPolicy → HookCall W → W.World → W.World
  after_call policy (connect s sa len) w = (detoured_connect W policy s sa len w).1
  after_call policy (bind s sa len) w = (detoured_bind W policy s sa len w).1
  after_call policy (wsa_connect s sa len a) w = (detoured_wsa_connect W policy s sa len a w).1
  after_call policy (sendto s a sa len) w = (detoured_sendto W policy s a sa len w).1
  after_call policy (wsa_send_to s a sa len b) w = (detoured_wsa_send_to W policy s a sa len b w).1
  after_call policy (getaddrinfo name a r) w = (detoured_getaddrinfo W policy fold name a r w).1
  after_call policy (get_addr_info_w name a r) w =
      (detoured_get_addr_info_w W policy fold name a r w).1
  after_call policy (gethostbyname name) w = (detoured_gethostbyname W policy fold name w).1

  abbrev pub after_calls : NetworkPolicy → List (HookCall W) → W.World → W.World
  after_calls policy [] w = w
  after_calls policy (c ∷ cs) w = after_calls policy cs (after_call policy c w)

  traffic-refuse_lookup :
      (r : Option W.Extra) (w : W.World) → O.traffic (refuse_lookup W block_all r w).1 ≡ O.traffic w
  unfolding refuse_lookup
  traffic-refuse_lookup none w = O.traffic-set _ w
  traffic-refuse_lookup (some r) w = O.traffic-set _ (W.clear_result r w) ∙ O.traffic-clear r w

  traffic-after_call :
      (c : HookCall W) (w : W.World) → O.traffic (after_call block_all c w) ≡ O.traffic w
  unfolding detoured_connect detoured_wsa_connect detoured_sendto detoured_wsa_send_to detoured_bind
      detoured_getaddrinfo detoured_get_addr_info_w detoured_gethostbyname
  traffic-after_call (connect s sa len) w = O.traffic-set _ w
  traffic-after_call (bind s sa len) w = O.traffic-set _ w
  traffic-after_call (wsa_connect s sa len a) w = O.traffic-set _ w
  traffic-after_call (sendto s a sa len) w = O.traffic-set _ w
  traffic-after_call (wsa_send_to s a sa len b) w = O.traffic-set _ w
  traffic-after_call (getaddrinfo name a r) w = traffic-refuse_lookup r w
  traffic-after_call (get_addr_info_w name a r) w = traffic-refuse_lookup r w
  traffic-after_call (gethostbyname name) w = O.traffic-set _ w

  -- Under `BlockAll` no sequence of calls of the eight hooks, whatever the addresses and the names, sends
  -- anything to the network: the traffic is what it was, whatever the real functions would do.
  -- `WSASetLastError` and the store of a null result are no traffic.
  pub traffic-after_calls :
      (cs : List (HookCall W)) (w : W.World) → O.traffic (after_calls block_all cs w) ≡ O.traffic w
  traffic-after_calls [] w = refl
  traffic-after_calls (c ∷ cs) w =
      traffic-after_calls cs (after_call block_all c w) ∙ traffic-after_call c w

  -- The lookup has failed as one of a host that is not there, and the result is null.
  abbrev pub IsNotFound : W.Extra → ℕ × W.World → Type 0
  IsNotFound r out = (out.0 ≡ 11001) × (O.last_error out.1 ≡ 11001) × (O.is_null out.1 r ≡ true)

  refuse_lookup-IsNotFound :
      (policy : NetworkPolicy) (r : W.Extra) (w : W.World)
      → IsNotFound r (refuse_lookup W policy (some r) w)
  unfolding refuse_lookup
  refuse_lookup-IsNotFound policy r w = (
    refl,
    O.last_error-set _ (W.clear_result r w),
    O.is_null-set _ (W.clear_result r w) r ∙ O.is_null-clear r w,
  )

  -- A name that may not be looked up, any under `BlockAll` and one that is not local under
  -- `LoopbackOnly`, is not found for the tool: `getaddrinfo` and `GetAddrInfoW` return 11001 with a null
  -- result, `gethostbyname` returns null, and the last error is 11001 after each of them.
  pub names-IsNotFound :
      (policy : NetworkPolicy) (name : Option WString) (a r : W.Extra) (w : W.World)
      → (policy ≡ block_all) ⊎ ((policy ≡ loopback_only) × (is_local_name fold name ≡ false))
      → IsNotFound r (detoured_getaddrinfo W policy fold name a (some r) w)
        × IsNotFound r (detoured_get_addr_info_w W policy fold name a (some r) w)
        × ((detoured_gethostbyname W policy fold name w).0 ≡ none)
        × (O.last_error (detoured_gethostbyname W policy fold name w).1 ≡ 11001)
  unfolding detoured_getaddrinfo detoured_get_addr_info_w detoured_gethostbyname
  names-IsNotFound policy name a r w (inl e) =
      let no = refuse_lookup-IsNotFound policy r w in rw e (no, no, refl, O.last_error-set _ w)
  names-IsNotFound policy name a r w (inr (e, k)) =
      let no = refuse_lookup-IsNotFound policy r w in rw (e, k) (no, no, refl, O.last_error-set _ w)
