-- ===== src/Main/Sessions/Connecting.antt =====
-- What `coo_mqtt_connect` of lib/coo_commons/mqtt_client.c calls before a session.
use hispec_tib.Prelude.{
  ◌⊎◌, none, subst, sym, ℕ, ◌≡◌, refl, inl, inr, Bool, true, false, not, ◌||◌, List, [], ◌∷◌, ◌++◌,
  Option, some, arith, map, All, All-append, if◌then◌else◌, is_zero, Bool-cases, if_both,
}
use hispec_tib.Commons.Mqtt.{
  MqttTopic, MqttClient, MqttCall, connect, abort, disconnect, subscribe, qos1_ack, qos2_receive,
  qos2_release, qos2_complete, callback, msleep, MqttEvent, Round, handle_all, coo_mqtt_connect,
  await_connack, connect_loop, prepare_fds, is_pos, msecs_wait_reconnect,
}
use hispec_tib.Main.Sessions.{MainCall, mqtt}
use hispec_tib.Main.Sessions.Calls.{
  apart, trying, Runs, stop, responds, connects, retries, is_response, Responses,
  handle_all-Responses, kept,
}

-- What `coo_mqtt_connect` calls of its own.
abbrev is_attempt : MqttCall → Bool
is_attempt connect = true
is_attempt abort = true
is_attempt (msleep n) = true
is_attempt _ = false

abbrev Early : MqttCall → Type 0
Early c = (is_response c || is_attempt c) ≡ true

Early-of : (cs : List MqttCall) → Responses cs → All Early cs
Early-of [] r = tt
Early-of (c ∷ cs) (r, rs) = (rw r refl, Early-of cs rs)

attempt_next :
    (topics : List MqttTopic) (i : ℕ) (c : MqttCall) (cs : List MainCall)
    → is_attempt c ≡ true
    → Runs topics trying i cs trying i
    → Runs topics trying i (mqtt c ∷ cs) trying i
attempt_next topics i connect cs a r = connects (λ e. cc) r
attempt_next topics i abort cs a r = retries refl refl r
attempt_next topics i (msleep n) cs a r = retries refl refl r
attempt_next topics i disconnect cs a r = cc
attempt_next topics i (subscribe ts) cs a r = cc
attempt_next topics i (qos1_ack n) cs a r = cc
attempt_next topics i (qos2_receive n) cs a r = cc
attempt_next topics i (qos2_release n) cs a r = cc
attempt_next topics i (qos2_complete n) cs a r = cc
attempt_next topics i (callback p) cs a r = cc

Early-Runs :
    (topics : List MqttTopic) (i : ℕ) (cs : List MqttCall)
    → All Early cs
    → Runs topics trying i (map mqtt cs) trying i
Early-Runs topics i [] e = stop
Early-Runs topics i (c ∷ cs) (e, es) = elim (Bool-cases (is_response c)) [
  | inl r ↦ responds r (Early-Runs topics i cs es)
  | inr n ↦ attempt_next topics i c (map mqtt cs) (rw n at e) (Early-Runs topics i cs es)
]

module _ (r : Round) (c : MqttClient) where
  await-Early : All Early (await_connack r c).1
  unfolding await_connack prepare_fds
  await-Early =
      let es : List MqttEvent = if is_pos r.poll_rc then r.input else [] in
      let c1 = (handle_all es (prepare_fds c)).0 in
      let out1 =
        Early-of (handle_all es (prepare_fds c)).1 (handle_all-Responses es (prepare_fds c)) in
      let out2 = Early-of (handle_all r.aborted c1).1 (handle_all-Responses r.aborted c1) in
      elim (Bool-cases c1.mqtt_connected) [
        | inl up ↦ rw (up, await_connack) out1
        | inr down ↦
            rw (down, await_connack)
              (All-append Early (handle_all es (prepare_fds c)).1 _ out1 (refl, out2))
      ]

  await-kept : (await_connack r c).0.subscriptions ≡ c.subscriptions
  unfolding await_connack prepare_fds
  await-kept =
      let es : List MqttEvent = if is_pos r.poll_rc then r.input else [] in
      ground (arith, kept es (prepare_fds c), kept r.aborted (handle_all es (prepare_fds c)).0)

connect_loop-Early : (rs : List Round) (c : MqttClient) → All Early (connect_loop rs c).1
unfolding connect_loop
connect_loop-Early [] c = tt
connect_loop-Early (r ∷ rs) c =
    let Good : Option MqttClient × List MqttCall → Type 0 = λ out. All Early out.1 in
    if_both Good c.mqtt_connected _ _ tt (
      if_both Good (not (is_zero r.connect_rc)) _ _ (refl, (refl, connect_loop-Early rs c))
        (
          refl,
          All-append Early (await_connack r c).1 _ (await-Early r c)
              (connect_loop-Early rs (await_connack r c).0),
        ))

connect_loop-kept :
    (rs : List Round) (c c' : MqttClient)
    → (connect_loop rs c).0 ≡ some c'
    → c'.subscriptions ≡ c.subscriptions
unfolding connect_loop
connect_loop-kept [] c c' e = ground arith
connect_loop-kept (r ∷ rs) c c' e = ground (
  arith,
  await-kept r c,
  connect_loop-kept rs c c',
  connect_loop-kept rs (await_connack r c).0 c',
)

-- With a round to try, the first call is that of `mqtt_connect`.
connect_first :
    (r : Round) (rs : List Round) (c : MqttClient)
    → c.mqtt_connected ≡ false
    → (rest : List MqttCall) × ((connect_loop (r ∷ rs) c).1 ≡ connect ∷ rest)
unfolding connect_loop
connect_first r rs c off = elim (Bool-cases (is_zero r.connect_rc)) [
  | inl ok ↦ (
    (await_connack r c).1 ++ (connect_loop rs (await_connack r c).0).1,
    rw (off, ok, connect_loop) refl,
  )
  | inr bad ↦
      (msleep msecs_wait_reconnect ∷ (connect_loop rs c).1, rw (off, bad, connect_loop) refl)
]

-- Without rounds nothing is called, and there is no connection.
abbrev Links : List MqttTopic → ℕ → Option MqttClient × List MqttCall → Type 0
Links topics i out = ((out.0 ≡ none) × (out.1 ≡ [])) ⊎ Runs topics apart i (map mqtt out.1) trying i

pub connect-Links :
    (topics : List MqttTopic) (i : ℕ) (rs : List Round) (c : MqttClient)
    → Links topics i (coo_mqtt_connect rs c)
unfolding coo_mqtt_connect connect_loop
connect-Links topics i [] c = inl (refl, refl)
connect-Links topics i (r ∷ rs) c =
    let c0 : MqttClient = record c { mqtt_connected = false } in
    let (rest, e) = connect_first r rs c0 refl in
    let early = subst (All Early) e (connect_loop-Early (r ∷ rs) c0) in
    inr (
      subst (λ cs. Runs topics apart i (map mqtt cs) trying i) (sym e)
        (connects (λ e. cc) (Early-Runs topics i rest early.1)))

pub connect-kept :
    (rs : List Round) (c c' : MqttClient)
    → (coo_mqtt_connect rs c).0 ≡ some c'
    → c'.subscriptions ≡ c.subscriptions
unfolding coo_mqtt_connect
connect-kept rs c c' e = connect_loop-kept rs (record c { mqtt_connected = false }) c' e
