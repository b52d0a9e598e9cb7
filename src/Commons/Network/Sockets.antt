-- ===== src/Commons/Network/Sockets.antt =====
-- What happens to the sockets that are opened.
use hispec_tib.Prelude.{
  ℕ, zero, suc, ◌≡◌, ◌≢◌, refl, ◌⊎◌, ℤ, pos, Bool, true, List, [], ◌∷◌, some, arith, is_neg, ◌==◌,
  if◌then◌else◌, ==_refl,
}
use hispec_tib.Commons.Network.{
  neg, SocketAnswers, SocketCall, open_tcp, open_udp, reuse_address, bind_port, listen_on,
  close_socket, coo_net_tcp_socket_create, coo_net_udp_socket_create,
}

-- The descriptors that the calls leave open, if `fd` is what opening a socket gives.
pub left_open : ℕ → List SocketCall → List ℕ → List ℕ
left_open fd [] held = held
left_open fd (open_tcp ∷ cs) held = left_open fd cs (fd ∷ held)
left_open fd (open_udp ∷ cs) held = left_open fd cs (fd ∷ held)
left_open fd (reuse_address a ∷ cs) held = left_open fd cs held
left_open fd (bind_port a b ∷ cs) held = left_open fd cs held
left_open fd (listen_on a ∷ cs) held = left_open fd cs held
left_open fd (close_socket a ∷ cs) [] = left_open fd cs []
left_open fd (close_socket a ∷ cs) (o ∷ held) =
    let rest = left_open fd cs held in
    let kept = left_open fd cs (o ∷ held) in if a == o then rest else kept

-- The function gives the socket and leaves it open, or gives an error and leaves none open.
abbrev pub OwnsSocket : ℕ → ℤ × List SocketCall → Type 0
OwnsSocket fd out =
    ((out.0 ≡ pos fd) × (left_open fd out.1 [] ≡ fd ∷ []))
    ⊎ ((is_neg out.0 ≡ true) × (left_open fd out.1 [] ≡ []))

is_neg-neg : (e : ℕ) → e ≢ 0 → is_neg (neg e) ≡ true
is_neg-neg zero h = absurd (h refl)
is_neg-neg (suc e) h = refl

-- When a socket could be opened, `coo_net_tcp_socket_create` and `coo_net_udp_socket_create` either return
-- it and it is the one descriptor left open, or return an error and have closed it again, provided
-- that `errno` is not 0 when they read it.
pub socket_create-OwnsSocket :
    (s : SocketAnswers) (fd port : ℕ) (is_server : Bool)
    → s.socket_fd ≡ some fd
    → s.errno_then ≢ 0
    → OwnsSocket fd (coo_net_tcp_socket_create s port is_server)
      × OwnsSocket fd (coo_net_udp_socket_create s port)
unfolding coo_net_tcp_socket_create coo_net_udp_socket_create left_open
socket_create-OwnsSocket s fd port is_server e h = (
  ground (arith, e, is_neg-neg s.errno_then h, ==_refl fd),
  ground (arith, e, is_neg-neg s.errno_then h, ==_refl fd),
)
