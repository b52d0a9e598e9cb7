-- ===== src/Commons/Mqtt/Setup.antt =====
-- lib/coo_commons/mqtt_client.c: `coo_mqtt_init`, over what `getaddrinfo` answers.
use hispec_tib.Prelude.{
  ℕ, zero, suc, ◌≤◌, ◌≡◌, ◌≢◌, refl, ap, ◌∙◌, ◌⊎◌, inl, inr, ℤ, pos, negsuc, Bool, true, false, not,
  List, [], ◌∷◌, ◌++◌, Option, none, some, arith, if◌then◌else◌, is_zero, length, length-take,
  length-append, length-replicate, take, replicate, All, min, Bool-cases, Option-cases,
}
use hispec_tib.CString.{CString, c_string}
use hispec_tib.Commons.Mqtt.{payload_size}

-- The address and the port of a resolved host.
pub record Address : Type 0 where
  pub s_addr : ℕ
  pub sin_port : ℕ

-- What `getaddrinfo` answers: its result, and the first address, if there is one.
pub record Resolved : Type 0 where
  pub rc : ℤ
  pub result : Option Address

-- `broker`, `client_id` and the fields of `struct mqtt_client` that `coo_mqtt_init` sets. The client's
-- pointers `broker`, `client_id.utf8`, `rx_buf` and `tx_buf` are to the globals of these names, and null
-- before.
pub record ClientConfig : Type 0 where
  pub broker : Address
  pub client_id : List ℕ
  pub client_id_size : ℕ
  pub has_broker : Bool
  pub has_evt_cb : Bool
  pub has_password : Bool
  pub has_user_name : Bool
  pub protocol_version : ℕ
  pub rx_buf_size : ℕ
  pub tx_buf_size : ℕ
  pub secure : Bool

-- What `client_id`, of 50 bytes, holds after `strncpy(client_id, id_str, 49)` and the NUL at its end.
unfoldable copied_id : CString → List ℕ
copied_id id_str = take 49 (id_str ++ replicate 49 0) ++ (0 ∷ [])

-- The part of `coo_mqtt_init` after the broker's address is known; MQTT_VERSION_5_0 is 5.
unfoldable pub configure_client : CString → Address → ClientConfig
unfolding copied_id
configure_client id_str address = record {
  broker = address;
  client_id = copied_id id_str;
  client_id_size = length (c_string (copied_id id_str));
  has_broker = true;
  has_evt_cb = true;
  has_password = false;
  has_user_name = false;
  protocol_version = 5;
  rx_buf_size = payload_size;
  tx_buf_size = payload_size;
  secure = false;
}

-- -EIO is -5, -ENOENT is -2.
unfoldable pub coo_mqtt_init : Resolved → CString → ClientConfig → ℤ × ClientConfig
unfolding configure_client
coo_mqtt_init r id_str c = if not (is_zero r.rc) then (negsuc 4, c) else elim r.result [
  | none ↦ (negsuc 1, c)
  | some address ↦ (pos 0, configure_client id_str address)
]

-- No byte of the string is 0.
abbrev IsString : CString → Type 0
IsString s = All (λ c. c ≢ 0) s

c_string_zeros : (n : ℕ) → c_string (replicate n 0 ++ (0 ∷ [])) ≡ []
unfolding c_string replicate
c_string_zeros zero = refl
c_string_zeros (suc n) = refl

take-replicate : (n m : ℕ) → n ≤ m → take {A = ℕ} n (replicate m 0) ≡ replicate n 0
unfolding replicate
take-replicate zero m h = refl
take-replicate (suc n) zero h = absurd (omega arith)
take-replicate (suc n) (suc m) h = ap (◌∷◌ 0) (take-replicate n m (omega arith))

-- A string that is cut or filled with zeros to `n` bytes and ended by a NUL.
c_string_copied :
    (n m : ℕ) (s : CString)
    → n ≤ m
    → IsString s
    → c_string (take n (s ++ replicate m 0) ++ (0 ∷ [])) ≡ take n s
unfolding c_string
c_string_copied zero m s h w = refl
c_string_copied (suc n) m [] h w =
    ap (λ x. c_string (x ++ (0 ∷ []))) (take-replicate (suc n) m h) ∙ c_string_zeros (suc n)
c_string_copied (suc n) m (c ∷ s) h w = ground (arith, c_string_copied n m s (omega arith) w.1)

-- What a client that could be set up has; one that could not be is left alone.
abbrev pub Configured : Resolved → CString → ClientConfig → ℤ × ClientConfig → Type 0
Configured r id_str before out =
    ((out.0 ≡ negsuc 4) × (is_zero r.rc ≡ false) × (out.1 ≡ before))
    ⊎ (((out.0 ≡ negsuc 1) × (is_zero r.rc ≡ true) × (r.result ≡ none) × (out.1 ≡ before))
        ⊎ ((address : Address) × (r.result ≡ some address)
            × (is_zero r.rc ≡ true)
            × (out.0 ≡ pos 0)
            × (out.1.broker ≡ address)
            × (c_string out.1.client_id ≡ take 49 id_str)
            × (out.1.client_id_size ≡ min 49 (length id_str))
            × (length out.1.client_id ≡ 50)
            × (out.1.has_evt_cb ≡ true)))

length-filled : (n m : ℕ) (s : CString) → n ≤ m → length (take n (s ++ replicate m 0)) ≡ n
length-filled n m s h = omega (
  arith,
  length-take n (s ++ replicate m 0),
  length-append s (replicate m 0),
  length-replicate {A = ℕ} m 0,
)

module _ (id_str : CString) (w : IsString id_str) where
  copied_id_text : c_string (copied_id id_str) ≡ take 49 id_str
  unfolding copied_id
  copied_id_text = c_string_copied 49 49 id_str (omega arith) w

  copied_id_size : length (c_string (copied_id id_str)) ≡ min 49 (length id_str)
  copied_id_size = ap length copied_id_text ∙ length-take 49 id_str

  length-copied_id : length (copied_id id_str) ≡ 50
  unfolding copied_id
  length-copied_id = omega (
    arith,
    length-append (take 49 (id_str ++ replicate 49 0)) (0 ∷ []),
    length-filled 49 49 id_str (omega arith),
  )

-- `coo_mqtt_init` fails with -EIO if the broker's name cannot be resolved and with -ENOENT if that gives
-- no address, and leaves the client as it was. Otherwise it succeeds: the broker has the address, the
-- client's id is the first 49 bytes of the one that is given, with its length, in a buffer of 50 bytes,
-- and the handler of events is set.
pub coo_mqtt_init-Configured :
    (r : Resolved) (id_str : CString) (c : ClientConfig)
    → IsString id_str
    → Configured r id_str c (coo_mqtt_init r id_str c)
unfolding coo_mqtt_init configure_client
coo_mqtt_init-Configured r id_str c w = elim (Bool-cases (is_zero r.rc)) [
  | inr bad ↦ inl (rw (bad, coo_mqtt_init) refl, bad, rw (bad, coo_mqtt_init) refl)
  | inl ok ↦ elim (Option-cases r.result) [
    | inl n ↦ inr (inl (rw (ok, n, coo_mqtt_init) refl, ok, n, rw (ok, n, coo_mqtt_init) refl))
    | inr (address, e) ↦ inr (
        inr (
          address,
          e,
          ok,
          rw (ok, e, coo_mqtt_init) refl,
          rw (ok, e, coo_mqtt_init) refl,
          rw (ok, e, coo_mqtt_init) (copied_id_text id_str w),
          rw (ok, e, coo_mqtt_init) (copied_id_size id_str w),
          rw (ok, e, coo_mqtt_init) (length-copied_id id_str w),
          rw (ok, e, coo_mqtt_init) refl,
        ))
  ]
]
