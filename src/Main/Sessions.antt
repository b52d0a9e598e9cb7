-- ===== src/Main/Sessions.antt =====
-- app/src/main.c: the endless loop of `main`, which connects, subscribes, publishes and processes until
-- the connection is lost, and connects again. The watchdog, the MQTT client and the draining of the
-- outbound queue are those of the other modules.
pub mod Calls
pub mod Connecting
pub mod Discipline
pub mod Picked
pub mod Turns
pub mod Run
use hispec_tib.Prelude.{
  ℕ, ℤ, pos, Bool, true, false, not, List, [], ◌∷◌, ◌++◌, Option, none, some, leb, ◌+◌, ◌%◌, ◌^◌,
  if◌then◌else◌, is_zero, map,
}
use hispec_tib.CString.{CString, text}
use hispec_tib.Command.Types.{OutMsg}
use hispec_tib.Commons.Mqtt.{
  MqttClient, MqttCall, MqttEvent, Round, handle_all, disconnect, coo_mqtt_subscribe,
  coo_mqtt_connect, coo_mqtt_process,
}
use hispec_tib.Commons.Mqtt
use hispec_tib.Main.{Published}
use hispec_tib.Main.Watchdog.{Watchdog, Feed, wdt_feed_interval_ms}
use hispec_tib.Main.Watchdog

-- A message of the outbound queue, and the events that `mqtt_publish` reports when it sends it.
pub record Outgoing : Type 0 where
  pub msg : OutMsg
  pub reported : List MqttEvent

-- What a turn of the inner loop meets: the clock, the messages that `k_msgq_get` gives until the outbound
-- queue is empty, and what `coo_mqtt_process` meets.
pub record Turn : Type 0 where
  pub clock : Watchdog.Turn
  pub outbox : List Outgoing
  pub process : Mqtt.Turn

-- A round of the outer loop: the rounds of `coo_mqtt_connect`, the events that `mqtt_subscribe` reports,
-- the turns of the inner loop, and the events that `mqtt_disconnect` reports.
pub record Session : Type 0 where
  pub rounds : List Round
  pub greeting : List MqttEvent
  pub turns : List Turn
  pub closing : List MqttEvent

-- What `main` calls.
pub data MainCall : Type 0 where
  mqtt : MqttCall → MainCall
  feed : Feed → MainCall
  mqtt_publish : Published → MainCall

-- The variables that live through the rounds; `msg_id` and the client are static.
pub record MainState : Type 0 where
  pub client : MqttClient
  pub msg_id : ℕ
  pub last_wdt_feed : ℕ

-- The test at the head of a turn, the call of `wdt_feed`, and `last_wdt_feed` after it.
unfoldable pub feed_if_due : Watchdog → Watchdog.Turn → ℕ → List Feed × ℕ
feed_if_due w t last = elim w.wdt [
  | none ↦ ([], last)
  | some dev ↦
      if leb (last + wdt_feed_interval_ms) t.checked
      then (record { device = dev; channel = w.wdt_channel; turn = t } ∷ [], t.fed)
      else ([], last)
]

-- The loop that drains the outbound queue; what `mqtt_publish` returns is logged only.
unfoldable pub publish_all : List Outgoing → ℕ → MqttClient → ℕ × MqttClient × List MainCall
publish_all [] msg_id c = (msg_id, c, [])
publish_all (o ∷ os) msg_id c =
    let (c1, out1) = handle_all o.reported c in
    let (last, c2, out2) = publish_all os ((msg_id + 1) % 2 ^ 16) c1 in
    (last, c2, mqtt_publish (record { message_id = msg_id; msg = o.msg }) ∷ (map mqtt out1 ++ out2))

-- One turn of the inner loop, with the result of `coo_mqtt_process`.
unfoldable pub main_turn : Watchdog → Turn → MainState → ℤ × MainState × List MainCall
main_turn w t s =
    let (feeds, last) = feed_if_due w t.clock s.last_wdt_feed in
    let (msg_id, c, sent) = publish_all t.outbox s.msg_id s.client in
    let (rc, client, calls) = coo_mqtt_process t.process c in
    (
      rc,
      record { client = client; msg_id = msg_id; last_wdt_feed = last },
      map feed feeds ++ (sent ++ map mqtt calls),
    )

-- The inner loop; `none` when the turns are used up while it still runs.
unfoldable pub inner_loop : Watchdog → List Turn → MainState → Option MainState × List MainCall
inner_loop w [] s = (if s.client.mqtt_connected then none else some s, [])
inner_loop w (t ∷ ts) s =
    let (rc, s1, out1) = main_turn w t s in
    let (end, out2) = inner_loop w ts s1 in
    if not s.client.mqtt_connected
    then (some s, [])
    else if not (is_zero rc)
    then (some s1, out1)
    else (end, out1 ++ out2)

-- `mqtt_disconnect` after the inner loop, if that ends, with the events that it reports.
unfoldable pub leave : List MqttEvent → Option MainState → Option MainState × List MainCall
leave closing none = (none, [])
leave closing (some s) =
    let (c, out) = handle_all closing s.client in
    (some (record s { client = c }), mqtt disconnect ∷ map mqtt out)

-- From the subscription to the end of a round of the outer loop. What `mqtt_subscribe` and
-- `mqtt_disconnect` return is ignored.
unfoldable pub serve : Watchdog → Session → MainState → Option MainState × List MainCall
unfolding inner_loop leave
serve w e s =
    let (c, greeted) = handle_all e.greeting s.client in
    let (end, out) = inner_loop w e.turns (record s { client = c }) in
    let (left, out2) = leave e.closing end in
    (left, mqtt (coo_mqtt_subscribe s.client) ∷ (map mqtt greeted ++ (out ++ out2)))

-- A round of the outer loop; `none` when it does not end.
unfoldable pub session : Watchdog → Session → MainState → Option MainState × List MainCall
unfolding serve
session w e s =
    let (linked, calls) = coo_mqtt_connect e.rounds s.client in
    elim linked [
      | none ↦ (none, map mqtt calls)
      | some c ↦
          let (end, out) = serve w e (record s { client = c }) in (end, map mqtt calls ++ out)
    ]

-- The outer loop over the rounds that are given.
unfoldable pub main_loop : Watchdog → List Session → MainState → Option MainState × List MainCall
main_loop w [] s = (some s, [])
main_loop w (e ∷ es) s =
    let (end, out) = session w e s in
    elim end [
      | none ↦ (none, out)
      | some s' ↦ let (end2, out2) = main_loop w es s' in (end2, out ++ out2)
    ]
