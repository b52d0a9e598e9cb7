-- ===== src/Commons/Mqtt.antt =====
-- lib/coo_commons/mqtt_client.c: the client's globals, its handler of events and its loops. The MQTT
-- library and the socket's poll are not part of this repository: what they answer, and the events that
-- they report meanwhile, are parameters of each step.
pub mod Due
pub mod Events
pub mod Connect
pub mod Subscriptions
pub mod Setup
use hispec_tib.Prelude.{
  ℕ, ◌+◌, ℤ, pos, negsuc, Bool, true, false, ◌&&◌, ◌||◌, not, List, [], ◌∷◌, ◌++◌, Option, none,
  some, length, take, leb, ◌==◌, if◌then◌else◌, is_neg, is_zero,
}
use hispec_tib.CString.{CString}

abbrev pub max_subscriptions : ℕ
max_subscriptions = 4

-- CONFIG_COO_MQTT_PAYLOAD_SIZE of app/prj.conf
abbrev pub payload_size : ℕ
payload_size = 256

abbrev pub msecs_wait_reconnect : ℕ
msecs_wait_reconnect = 5000

-- `struct mqtt_topic`, as `coo_mqtt_add_subscription` fills it in.
pub record MqttTopic : Type 0 where
  pub utf8 : CString
  pub size : ℕ
  pub qos : ℕ

-- A publication as the callback is given it.
pub record Received : Type 0 where
  pub topic : CString
  pub payload : List ℕ

-- What the client calls: the MQTT library, the callback and the kernel.
pub data MqttCall : Type 0 where
  connect abort disconnect : MqttCall
  subscribe : List MqttTopic → MqttCall
  qos1_ack qos2_receive qos2_release qos2_complete : ℕ → MqttCall
  callback : Received → MqttCall
  msleep : ℕ → MqttCall

-- The globals of the file.
pub record MqttClient : Type 0 where
  pub mqtt_connected : Bool
  pub nfds : ℕ
  pub user_mqtt_cb : Bool
  pub subscriptions : List MqttTopic

-- `read` is the bytes that `mqtt_read_publish_payload` could give, or `none` if it fails.
pub record Publication : Type 0 where
  pub message_id : ℕ
  pub qos : ℕ
  pub topic : CString
  pub read : Option (List ℕ)

-- The events, with their result and message id as far as the handler reads them.
pub data MqttEvent : Type 0 where
  connack : ℤ → MqttEvent
  disconnected pingresp other : MqttEvent
  puback pubrec pubrel pubcomp : ℤ → ℕ → MqttEvent
  suback : ℤ → MqttEvent
  publish : Publication → MqttEvent

-- -ENOMEM, with Zephyr's number.
unfoldable pub coo_mqtt_add_subscription : CString → ℕ → MqttClient → ℤ × MqttClient
coo_mqtt_add_subscription topic_str qos c =
    if leb max_subscriptions (length c.subscriptions) then (negsuc 11, c) else (
      pos 0,
      record c {
        subscriptions =
            c.subscriptions
            ++ (record { utf8 = topic_str; size = length topic_str; qos = qos } ∷ []);
      },
    )

unfoldable pub prepare_fds : MqttClient → MqttClient
prepare_fds c = record c { nfds = 1 }

unfoldable pub on_mqtt_connect : MqttClient → MqttClient
on_mqtt_connect c = record c { mqtt_connected = true }

unfoldable pub on_mqtt_disconnect : MqttClient → MqttClient
on_mqtt_disconnect c = record c { mqtt_connected = false; nfds = 0 }

unfoldable pub on_mqtt_publish : Bool → Publication → List MqttCall
on_mqtt_publish user_mqtt_cb p = elim p.read [
  | none ↦ []
  | some payload ↦
      if user_mqtt_cb
      then callback (record { topic = p.topic; payload = take payload_size payload }) ∷ []
      else []
]

-- What the handler sends for a publication: QoS 1 is MQTT_QOS_1_AT_LEAST_ONCE, QoS 2 is
-- MQTT_QOS_2_EXACTLY_ONCE.
unfoldable pub acknowledge : Publication → List MqttCall
acknowledge p =
    if p.qos == 1
    then qos1_ack p.message_id ∷ []
    else if p.qos == 2
    then qos2_receive p.message_id ∷ []
    else []

unfoldable pub mqtt_event_handler : MqttEvent → MqttClient → MqttClient × List MqttCall
unfolding on_mqtt_connect on_mqtt_disconnect on_mqtt_publish acknowledge
mqtt_event_handler (connack result) c =
    if not (is_zero result) then (c, []) else (on_mqtt_connect c, [])
mqtt_event_handler disconnected c = (on_mqtt_disconnect c, [])
mqtt_event_handler pingresp c = (c, [])
mqtt_event_handler other c = (c, [])
mqtt_event_handler (puback result id) c = (c, [])
mqtt_event_handler (pubrec result id) c =
    if not (is_zero result) then (c, []) else (c, qos2_release id ∷ [])
mqtt_event_handler (pubrel result id) c =
    if not (is_zero result) then (c, []) else (c, qos2_complete id ∷ [])
mqtt_event_handler (pubcomp result id) c = (c, [])
mqtt_event_handler (suback result) c = (c, [])
mqtt_event_handler (publish p) c = (c, acknowledge p ++ on_mqtt_publish c.user_mqtt_cb p)

-- Events one after the other, as the library reports them from inside a call.
unfoldable pub handle_all : List MqttEvent → MqttClient → MqttClient × List MqttCall
unfolding mqtt_event_handler
handle_all [] c = (c, [])
handle_all (e ∷ es) c =
    let (c1, out1) = mqtt_event_handler e c in
    let (c2, out2) = handle_all es c1 in (c2, out1 ++ out2)

-- What the poll gives; -EINVAL is -22. `poll_rc` is what `zsock_poll` answers, if it is called.
unfoldable poll_mqtt_socket : ℤ → MqttClient → ℤ × MqttClient
unfolding prepare_fds
poll_mqtt_socket poll_rc c =
    let c' = prepare_fds c in if c'.nfds == 0 then (negsuc 21, c') else (poll_rc, c')

-- The call of `mqtt_subscribe`; no caller looks at the result.
abbrev pub coo_mqtt_subscribe : MqttClient → MqttCall
coo_mqtt_subscribe c = subscribe c.subscriptions

-- A call of the library: its result, and the events that it reports.
pub record Reported : Type 0 where
  pub rc : ℤ
  pub events : List MqttEvent

-- One turn of `coo_mqtt_process`: the poll, whether it found input, or a hang-up or an error, and the
-- calls of `mqtt_input` and `mqtt_live`.
pub record Turn : Type 0 where
  pub poll_rc : ℤ
  pub pollin : Bool
  pub pollhup_or_err : Bool
  pub input : Reported
  pub live : Reported

-- -ENOTCONN is -128.
unfoldable pub coo_mqtt_process : Turn → MqttClient → ℤ × MqttClient × List MqttCall
unfolding handle_all poll_mqtt_socket
coo_mqtt_process turn c =
    let (rc, polled) = poll_mqtt_socket turn.poll_rc c in
    let (c1, out1) = handle_all turn.input.events polled in
    let (c2, out2) = handle_all turn.live.events polled in
    if not (is_zero rc)
    then (if turn.pollin
        then (
          if not (is_zero turn.input.rc)
              then turn.input.rc
              else if turn.pollhup_or_err
              then negsuc 127
              else pos 0,
          c1,
          out1,
        )
        else (pos 0, polled, []))
    else (turn.live.rc, c2, out2)

-- The loop of `coo_mqtt_run`: what it calls, and the client if it ends. `none` when the turns are used
-- up while it still runs.
unfoldable pub run_loop : List Turn → MqttClient → Option MqttClient × List MqttCall
unfolding coo_mqtt_process
run_loop [] c = (if c.mqtt_connected then none else some c, [])
run_loop (t ∷ ts) c =
    let (rc, c1, out1) = coo_mqtt_process t c in
    let (end, out2) = run_loop ts c1 in
    if not c.mqtt_connected
    then (some c, [])
    else if not (is_zero rc)
    then (some c1, out1)
    else (end, out1 ++ out2)

-- `mqtt_disconnect` after the loop, if that ends, with the events that it reports.
unfoldable pub hang_up : List MqttEvent → Option MqttClient → Option MqttClient × List MqttCall
hang_up closing none = (none, [])
hang_up closing (some c) = let (c', out) = handle_all closing c in (some c', disconnect ∷ out)

-- `greeting` is the events that `mqtt_subscribe` reports, and `closing` those of `mqtt_disconnect`.
unfoldable pub coo_mqtt_run :
    List MqttEvent → List Turn → List MqttEvent → MqttClient → Option MqttClient × List MqttCall
unfolding run_loop hang_up
coo_mqtt_run greeting turns closing c =
    let (c1, greeted) = handle_all greeting c in
    let (end, out) = run_loop turns c1 in
    let (left, out2) = hang_up closing end in
    (left, coo_mqtt_subscribe c ∷ (greeted ++ (out ++ out2)))

-- One round of `coo_mqtt_connect`: `mqtt_connect`, the poll, `mqtt_input`, and what `mqtt_abort` reports.
pub record Round : Type 0 where
  pub connect_rc : ℤ
  pub poll_rc : ℤ
  pub input : List MqttEvent
  pub aborted : List MqttEvent

abbrev pub is_pos : ℤ → Bool
is_pos z = not (is_neg z) && not (is_zero z)

-- The part of a round after `mqtt_connect` has succeeded.
unfoldable pub await_connack : Round → MqttClient → MqttClient × List MqttCall
unfolding handle_all poll_mqtt_socket
await_connack r c =
    let (rc, polled) = poll_mqtt_socket r.poll_rc c in
    let (c1, out1) = handle_all (if is_pos rc then r.input else []) polled in
    let (c2, out2) = handle_all r.aborted c1 in
    if not c1.mqtt_connected then (c2, out1 ++ (abort ∷ out2)) else (c1, out1)

-- The loop of `coo_mqtt_connect`; `none` when the rounds are used up while it still tries.
unfoldable pub connect_loop : List Round → MqttClient → Option MqttClient × List MqttCall
unfolding await_connack
connect_loop [] c = (if c.mqtt_connected then some c else none, [])
connect_loop (r ∷ rs) c =
    let (late, out0) = connect_loop rs c in
    let (c1, out1) = await_connack r c in
    let (end, out2) = connect_loop rs c1 in
    if c.mqtt_connected
    then (some c, [])
    else if not (is_zero r.connect_rc)
    then (late, connect ∷ msleep msecs_wait_reconnect ∷ out0)
    else (end, connect ∷ (out1 ++ out2))

unfoldable pub coo_mqtt_connect : List Round → MqttClient → Option MqttClient × List MqttCall
unfolding connect_loop
coo_mqtt_connect rounds c = connect_loop rounds (record c { mqtt_connected = false })
