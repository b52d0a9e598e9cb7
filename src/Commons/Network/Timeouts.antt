-- ===== src/Commons/Network/Timeouts.antt =====
-- lib/coo_commons/network.c: `coo_net_tcp_connect` and `coo_net_recv_timeout`. What `connect` and `recv`
-- answer is a parameter.
use hispec_tib.Prelude.{
  ℕ, zero, suc, ◌+◌, ◌*◌, ◌/◌, ◌%◌, ◌<◌, ◌≡◌, refl, ℤ, pos, negsuc, Bool, true, false, not, ◌≢◌,
  is_zero, is_neg, List, [], ◌∷◌, arith, if◌then◌else◌,
}
use hispec_tib.Commons.Network.{neg}

-- `struct timeval`
pub record Timeval : Type 0 where
  pub tv_sec : ℤ
  pub tv_usec : ℤ

-- The calls on a connected socket; `recv` with the length of the buffer.
pub data TimedCall : Type 0 where
  set_receive_timeout set_send_timeout : ℕ → Timeval → TimedCall
  connect_socket : ℕ → TimedCall
  receive : ℕ → ℕ → TimedCall

-- The quotient and the remainder in C go towards 0.
unfoldable timeval_of : ℤ → Timeval
timeval_of (pos n) = record { tv_sec = pos (n / 1000); tv_usec = pos (n % 1000 * 1000) }
timeval_of (negsuc n) = record { tv_sec = neg (suc n / 1000); tv_usec = neg (suc n % 1000 * 1000) }

-- `errno_then` is what stands in `errno` if `connect` fails.
unfoldable coo_net_tcp_connect : Bool → ℕ → ℕ → ℤ → ℤ × List TimedCall
unfolding timeval_of
coo_net_tcp_connect connect_ok errno_then sockfd timeout_ms = (
  if not connect_ok then neg errno_then else pos 0,
  set_receive_timeout sockfd (timeval_of timeout_ms)
      ∷ set_send_timeout sockfd (timeval_of timeout_ms)
      ∷ connect_socket sockfd
      ∷ [],
)

-- The result is that of `recv`.
unfoldable coo_net_recv_timeout : ℤ → ℕ → ℕ → ℤ → ℤ × List TimedCall
unfolding timeval_of
coo_net_recv_timeout recv_rc sockfd len timeout_ms =
    (recv_rc, set_receive_timeout sockfd (timeval_of timeout_ms) ∷ receive sockfd len ∷ [])

-- A socket's options that the calls leave: the timeouts of receiving and of sending, as far as they are set,
-- at the time when the socket is used.
pub record Used : Type 0 where
  pub receives_within : List Timeval
  pub sends_within : List Timeval

abbrev pub untouched : Used
untouched = record { receives_within = []; sends_within = [] }

when_used : List TimedCall → Used → List Used
when_used [] u = []
when_used (set_receive_timeout fd t ∷ cs) u =
    when_used cs (record u { receives_within = t ∷ u.receives_within })
when_used (set_send_timeout fd t ∷ cs) u =
    when_used cs (record u { sends_within = t ∷ u.sends_within })
when_used (connect_socket fd ∷ cs) u = u ∷ when_used cs u
when_used (receive fd n ∷ cs) u = u ∷ when_used cs u

-- A time in microseconds, as the kernel wants it.
pub record IsTimeval (ms : ℕ) (t : Timeval) : Type 0 where
  pub seconds : ℕ
  pub microseconds : ℕ
  pub whole : t.tv_sec ≡ pos seconds
  pub part : t.tv_usec ≡ pos microseconds
  pub in_range : microseconds < 1000000
  pub exact : seconds * 1000000 + microseconds ≡ ms * 1000

timeval_of_lem : (ms : ℕ) → IsTimeval ms (timeval_of (pos ms))
unfolding timeval_of
timeval_of_lem ms = record {
  seconds = ms / 1000;
  microseconds = ms % 1000 * 1000;
  whole = refl;
  part = refl;
  in_range = omega arith;
  exact = omega arith;
}

-- The socket is used once, with the given timeout for receiving and, if `both`, for sending.
pub record IsTimed (ms : ℕ) (both : Bool) (us : List Used) : Type 0 where
  pub limit : Timeval
  pub once :
      us
      ≡ record { receives_within = limit ∷ []; sends_within = if both then limit ∷ [] else [] } ∷ []
  pub exact : IsTimeval ms limit

neg_sign : (e : ℕ) → e ≢ 0 → (is_zero (neg e) ≡ false) × (is_neg (neg e) ≡ true)
neg_sign zero h = absurd (h refl)
neg_sign (suc e) h = (refl, refl)

-- For a timeout that is not negative, `coo_net_tcp_connect` connects once, when both timeouts of the
-- socket are set to exactly that time, with less than a second of microseconds; it returns 0 if
-- `connect` succeeds and a negative number if not, provided that `errno` is not 0 then.
-- `coo_net_recv_timeout` receives once, within exactly that time.
timeouts-IsTimed :
    (connect_ok : Bool) (errno_then sockfd len ms : ℕ) (recv_rc : ℤ)
    → errno_then ≢ 0
    → (is_zero (coo_net_tcp_connect connect_ok errno_then sockfd (pos ms)).0 ≡ connect_ok)
      × (is_neg (coo_net_tcp_connect connect_ok errno_then sockfd (pos ms)).0 ≡ not connect_ok)
      × IsTimed ms true
          (when_used (coo_net_tcp_connect connect_ok errno_then sockfd (pos ms)).1 untouched)
      × IsTimed ms false (when_used (coo_net_recv_timeout recv_rc sockfd len (pos ms)).1 untouched)
unfolding coo_net_tcp_connect coo_net_recv_timeout when_used
timeouts-IsTimed connect_ok errno_then sockfd len ms recv_rc h = (
  ground (arith, neg_sign errno_then h),
  ground (arith, neg_sign errno_then h),
  record { limit = timeval_of (pos ms); once = refl; exact = timeval_of_lem ms },
  record { limit = timeval_of (pos ms); once = refl; exact = timeval_of_lem ms },
)
