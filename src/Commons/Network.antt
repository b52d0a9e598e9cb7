-- ===== src/Commons/Network.antt =====
-- lib/coo_commons/network.c: the state of the network, the wait for it, and sockets. The network
-- stack's answers are parameters. Error numbers are positive here; their sign is in the results.
pub mod Waiting
pub mod Sockets
pub mod Timeouts
pub mod Told
use hispec_tib.Prelude.{
  ℕ, zero, suc, ◌+◌, ◌-◌, ◌%◌, ◌^◌, ℤ, pos, negsuc, Bool, true, false, ◌&&◌, ◌||◌, not, List, [],
  ◌∷◌, ◌++◌, Option, none, some, ltb, ◌==◌, if◌then◌else◌, is_neg, is_zero,
}

-- `-n`, for an error number.
abbrev pub neg : ℕ → ℤ
neg zero = pos 0
neg (suc n) = negsuc n

-- The numbers of the errors that are named, as Zephyr has them.
abbrev pub etimedout : ℕ
etimedout = 116

abbrev pub enetdown : ℕ
enetdown = 115

abbrev pub eagain : ℕ
eagain = 11

-- `EWOULDBLOCK` is the same number.
abbrev ewouldblock : ℕ
ewouldblock = 11

-- `network_online`, whether `user_event_cb` is set, and the calls of it, oldest first.
pub record Network : Type 0 where
  pub network_online : Bool
  pub user_event_cb : Bool
  pub told : List Bool

pub data NetEvent : Type 0 where
  l4_connected l4_disconnected other : NetEvent

unfoldable pub net_l4_evt_handler : Network → NetEvent → Network
net_l4_evt_handler n l4_connected = record n {
  network_online = true;
  told = if n.user_event_cb then n.told ++ (true ∷ []) else n.told;
}
net_l4_evt_handler n l4_disconnected = record n {
  network_online = false;
  told = if n.user_event_cb then n.told ++ (false ∷ []) else n.told;
}
net_l4_evt_handler n other = n

-- What the stack answers: whether there is an interface, and `conn_mgr_all_if_up`.
pub record Stack : Type 0 where
  pub iface : Bool
  pub if_up_rc : ℤ

-- The registration of the handler and the log lines are left out.
unfoldable pub coo_network_init : Stack → Bool → Network → ℤ × Network
coo_network_init stack event_cb n =
    let n' : Network = record n { user_event_cb = event_cb } in
    if not stack.iface
    then (neg enetdown, n')
    else if not (is_zero stack.if_up_rc)
    then (stack.if_up_rc, n')
    else (pos 0, n')

unfoldable pub coo_network_is_ready : Network → Bool
coo_network_is_ready n = n.network_online

-- `online k` is `network_online` at the k-th test of a loop. The loops say how often they slept.
module _ (online : ℕ → Bool) where
  -- The loop with a timeout, from the test `k` on; `elapsed` is a `uint32_t`. `none` when the fuel is
  -- used up.
  unfoldable pub wait_until : ℕ → ℕ → ℕ → ℕ → Option ℕ
  wait_until zero timeout_ms elapsed k = none
  wait_until (suc fuel) timeout_ms elapsed k =
      let rest = wait_until fuel timeout_ms ((elapsed + 100) % 2 ^ 32) (suc k) in
      if not (online k) && ltb elapsed timeout_ms then rest else some k

  -- The loop without one.
  unfoldable pub wait_forever : ℕ → ℕ → Option ℕ
  wait_forever zero k = none
  wait_forever (suc fuel) k =
      let rest = wait_forever fuel (suc k) in if not (online k) then rest else some k

  -- The result, and how often the function slept. The flag is read once more after the loop with a
  -- timeout: `after k` is what that read finds, if the loop ended at its test `k`.
  unfoldable pub coo_network_wait_ready : (ℕ → Bool) → ℕ → ℕ → Option (ℤ × ℕ)
  unfolding wait_until wait_forever
  coo_network_wait_ready after fuel timeout_ms =
      if timeout_ms == 0
      then elim (wait_forever fuel 0) [ none ↦ none | some k ↦ some (pos 0, k) ]
      else elim (wait_until fuel timeout_ms 0 0) [
        | none ↦ none
        | some k ↦ some (if not (after k) then neg etimedout else pos 0, k)
      ]

-- What one `send` answers: the bytes sent, or an error number.
pub data Sent : Type 0 where
  bytes : ℕ → Sent
  errno : ℕ → Sent

-- The loop of `coo_net_send_retry` with `left` = max_retries - retries; `answers k` is the answer to the
-- k-th call. The result, and how often the function slept.
unfoldable pub send_from : (ℕ → Sent) → ℕ → ℕ → ℤ × ℕ
send_from answers zero k = (neg etimedout, k)
send_from answers (suc left) k =
    let rest = send_from answers left (suc k) in
    elim (answers k) [
      | bytes n ↦ (pos n, k)
      | errno e ↦ if not (e == eagain) && not (e == ewouldblock) then (neg e, k) else rest
    ]

-- A negative `max_retries` is as 0.
unfoldable pub coo_net_send_retry : (ℕ → Sent) → ℕ → ℤ × ℕ
unfolding send_from
coo_net_send_retry answers max_retries = send_from answers max_retries 0

-- The calls on sockets.
pub data SocketCall : Type 0 where
  open_tcp open_udp : SocketCall
  reuse_address : ℕ → SocketCall
  bind_port : ℕ → ℕ → SocketCall
  listen_on : ℕ → SocketCall
  close_socket : ℕ → SocketCall

-- The answers of `socket` (a descriptor or an error number), `bind` and `listen`. `errno` is what stands
-- there when the function reads it, after `close`.
pub record SocketAnswers : Type 0 where
  pub socket_fd : Option ℕ
  pub bind_ok : Bool
  pub listen_ok : Bool
  pub errno_then : ℕ

unfoldable pub coo_net_tcp_socket_create : SocketAnswers → ℕ → Bool → ℤ × List SocketCall
coo_net_tcp_socket_create s port is_server = elim s.socket_fd [
  | none ↦ (neg s.errno_then, open_tcp ∷ [])
  | some fd ↦
      if not is_server
      then (pos fd, open_tcp ∷ reuse_address fd ∷ [])
      else if not s.bind_ok
      then (
        neg s.errno_then,
        open_tcp ∷ reuse_address fd ∷ bind_port fd port ∷ close_socket fd ∷ [],
      )
      else if not s.listen_ok
      then (
        neg s.errno_then,
        open_tcp ∷ reuse_address fd ∷ bind_port fd port ∷ listen_on fd ∷ close_socket fd ∷ [],
      )
      else (pos fd, open_tcp ∷ reuse_address fd ∷ bind_port fd port ∷ listen_on fd ∷ [])
]

unfoldable pub coo_net_udp_socket_create : SocketAnswers → ℕ → ℤ × List SocketCall
coo_net_udp_socket_create s port = elim s.socket_fd [
  | none ↦ (neg s.errno_then, open_udp ∷ [])
  | some fd ↦
      if not s.bind_ok
      then (
        neg s.errno_then,
        open_udp ∷ reuse_address fd ∷ bind_port fd port ∷ close_socket fd ∷ [],
      )
      else (pos fd, open_udp ∷ reuse_address fd ∷ bind_port fd port ∷ [])
]
