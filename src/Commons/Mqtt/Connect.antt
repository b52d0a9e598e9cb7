-- ===== src/Commons/Mqtt/Connect.antt =====
-- When `coo_mqtt_connect` returns, and what it has tried until then.
use hispec_tib.Prelude.{
  suc, ◌≡◌, refl, ap, ◌∙◌, ◌⊎◌, inl, inr, Bool, true, false, ◌&&◌, ◌||◌, List, [], ◌∷◌, ◌++◌,
  Option, none, some, arith, length, if◌then◌else◌, is_zero, Bool-cases, All,
}
use hispec_tib.Commons.Mqtt.{
  MqttClient, MqttEvent, connack, disconnected, pingresp, other, puback, pubrec, pubrel, pubcomp,
  suback, publish, MqttCall, connect, abort, msleep, mqtt_event_handler, handle_all, acknowledge,
  on_mqtt_publish, prepare_fds, Round, is_pos, await_connack, connect_loop, coo_mqtt_connect,
}
use hispec_tib.Commons.Mqtt.Due.{connected_after, count, count-append}
use hispec_tib.Commons.Mqtt.Events.{handle_all-IsHandled}

-- A round gets a connection: the library connects, and the last event that says something about the
-- connection, of those that the input reports, or else of those that the abort reports, is a CONNACK.
unfoldable pub is_up : Round → Bool
is_up r =
    is_zero r.connect_rc
    && (connected_after (if is_pos r.poll_rc then r.input else []) false
        || connected_after r.aborted false)

abbrev is_connect : MqttCall → Bool
is_connect connect = true
is_connect _ = false

event-quiet : (e : MqttEvent) (c : MqttClient) → count is_connect (mqtt_event_handler e c).1 ≡ 0
unfolding mqtt_event_handler count acknowledge on_mqtt_publish
event-quiet (connack result) c = ground arith
event-quiet disconnected c = refl
event-quiet pingresp c = refl
event-quiet other c = refl
event-quiet (puback result n) c = refl
event-quiet (pubrec result n) c = ground arith
event-quiet (pubrel result n) c = ground arith
event-quiet (pubcomp result n) c = refl
event-quiet (suback result) c = refl
event-quiet (publish p) c = ground arith

handle_all-quiet : (es : List MqttEvent) (c : MqttClient) → count is_connect (handle_all es c).1 ≡ 0
unfolding handle_all count
handle_all-quiet [] c = refl
handle_all-quiet (e ∷ es) c =
    count-append is_connect (mqtt_event_handler e c).1 (handle_all es (mqtt_event_handler e c).0).1
    ∙ ground (arith, event-quiet e c, handle_all-quiet es (mqtt_event_handler e c).0)

module _ (r : Round) (c : MqttClient) where
  abbrev heard : List MqttEvent
  heard = if is_pos r.poll_rc then r.input else []

  await-connected :
      c.mqtt_connected ≡ false
      → is_zero r.connect_rc ≡ true
      → (await_connack r c).0.mqtt_connected ≡ is_up r
  unfolding await_connack is_up prepare_fds
  await-connected down ok = ground (
    arith,
    down,
    ok,
    (handle_all-IsHandled heard (prepare_fds c)).connected,
    (handle_all-IsHandled r.aborted (handle_all heard (prepare_fds c)).0).connected,
  )

  await-quiet : count is_connect (await_connack r c).1 ≡ 0
  unfolding await_connack prepare_fds count
  await-quiet =
      let c1 = (handle_all heard (prepare_fds c)).0 in
      ground (
        arith,
        handle_all-quiet heard (prepare_fds c),
        handle_all-quiet r.aborted c1,
        count-append is_connect (handle_all heard (prepare_fds c)).1
            (abort ∷ (handle_all r.aborted c1).1),
      )

abbrev Down : Round → Type 0
Down r = is_up r ≡ false

-- Either no round gets a connection, and all are tried without returning; or one does, and the function
-- returns connected after it, the rounds before having failed. Each round calls `mqtt_connect` once.
abbrev pub Connects : List Round → Option MqttClient × List MqttCall → Type 0
Connects rounds out =
    (All Down rounds × (out.0 ≡ none) × (count is_connect out.1 ≡ length rounds))
    ⊎ ((before : List Round) × (r : Round) × (after : List Round) × (c' : MqttClient) × (rounds
          ≡ before ++ (r ∷ after))
        × All Down before
        × (is_up r ≡ true)
        × (out.0 ≡ some c')
        × (c'.mqtt_connected ≡ true)
        × (count is_connect out.1 ≡ suc (length before)))

connect_loop-connected :
    (rs : List Round) (c : MqttClient) → c.mqtt_connected ≡ true → connect_loop rs c ≡ (some c, [])
unfolding connect_loop
connect_loop-connected [] c e = rw e refl
connect_loop-connected (r ∷ rs) c e = rw e refl

Down-first :
    (r : Round) (rs : List Round) (end : Option MqttClient) (out1 out2 : List MqttCall)
    → Down r
    → count is_connect out1 ≡ 0
    → Connects rs (end, out2)
    → Connects (r ∷ rs) (end, connect ∷ (out1 ++ out2))
unfolding count
Down-first r rs end out1 out2 d quiet (inl (ds, n, k)) =
    inl ((d, ds), n, ground (arith, quiet, k, count-append is_connect out1 out2))
Down-first r rs end out1 out2 d quiet (inr (before, u, after, c', e, ds, up, f, g, k)) = inr (
  r ∷ before,
  u,
  after,
  c',
  ap (◌∷◌ r) e,
  (d, ds),
  up,
  f,
  g,
  ground (arith, quiet, k, count-append is_connect out1 out2),
)

module _ (r : Round) (rs : List Round) (c : MqttClient) (down : c.mqtt_connected ≡ false) where
  connect_loop-refused :
      is_zero r.connect_rc ≡ false
      → connect_loop (r ∷ rs) c
        ≡ ((connect_loop rs c).0, connect ∷ ((msleep 5000 ∷ []) ++ (connect_loop rs c).1))
  unfolding connect_loop
  connect_loop-refused e = rw (down, e) refl

  connect_loop-tried :
      is_zero r.connect_rc ≡ true
      → connect_loop (r ∷ rs) c ≡ (
        (connect_loop rs (await_connack r c).0).0,
        connect ∷ ((await_connack r c).1 ++ (connect_loop rs (await_connack r c).0).1),
      )
  unfolding connect_loop
  connect_loop-tried e = rw (down, e) refl

  refused-Down : is_zero r.connect_rc ≡ false → Down r
  unfolding is_up
  refused-Down e = rw (is_up, e) refl

  tried_up :
      is_zero r.connect_rc ≡ true → is_up r ≡ true → Connects (r ∷ rs) (connect_loop (r ∷ rs) c)
  unfolding count
  tried_up ok u =
      let linked = await-connected r c down ok ∙ u in
      rw (connect_loop-tried ok, connect_loop-connected rs (await_connack r c).0 linked)
        (inr (
          [],
          r,
          rs,
          (await_connack r c).0,
          refl,
          tt,
          u,
          refl,
          linked,
          ground (arith, await-quiet r c, count-append is_connect (await_connack r c).1 []),
        ))

connect_loop-Connects :
    (rs : List Round) (c : MqttClient) → c.mqtt_connected ≡ false → Connects rs (connect_loop rs c)
unfolding count connect_loop
connect_loop-Connects [] c e = rw (e, connect_loop) (inl (tt, refl, refl))
connect_loop-Connects (r ∷ rs) c e = elim (Bool-cases (is_zero r.connect_rc)) [
  | inr bad ↦ rw (connect_loop-refused r rs c e bad) (
      Down-first r rs (connect_loop rs c).0 (msleep 5000 ∷ []) (connect_loop rs c).1
        (refused-Down r rs c e bad) refl (connect_loop-Connects rs c e))
  | inl ok ↦ elim (Bool-cases (is_up r)) [
    | inr d ↦ rw (connect_loop-tried r rs c e ok) (
        Down-first r rs (connect_loop rs (await_connack r c).0).0 (await_connack r c).1
          (connect_loop rs (await_connack r c).0).1 d (await-quiet r c)
          (connect_loop-Connects rs (await_connack r c).0 (await-connected r c e ok ∙ d)))
    | inl u ↦ tried_up r rs c e ok u
  ]
]

-- `coo_mqtt_connect` returns in the first round that gets a connection, connected, and has called
-- `mqtt_connect` once in each round up to it; as long as no round gets one it does not return and goes on
-- trying.
pub coo_mqtt_connect-Connects :
    (rounds : List Round) (c : MqttClient) → Connects rounds (coo_mqtt_connect rounds c)
unfolding coo_mqtt_connect
coo_mqtt_connect-Connects rounds c =
    connect_loop-Connects rounds (record c { mqtt_connected = false }) refl
