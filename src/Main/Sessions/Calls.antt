-- ===== src/Main/Sessions/Calls.antt =====
-- Series of calls that are well ordered, and what the handler of events calls.
use hispec_tib.Prelude.{
  ◌≢◌, ℕ, ◌+◌, ◌%◌, ◌^◌, ◌≡◌, Bool, true, false, List, [], ◌∷◌, ◌++◌, arith, map, All, All-append,
}
use hispec_tib.Commons.Mqtt.{
  MqttTopic, MqttClient, MqttCall, connect, abort, disconnect, subscribe, qos1_ack, qos2_receive,
  qos2_release, qos2_complete, callback, msleep, MqttEvent, Round, handle_all, mqtt_event_handler,
  coo_mqtt_connect, coo_mqtt_process, acknowledge, on_mqtt_publish, connack, disconnected, pingresp,
  other, puback, pubrec, pubrel, pubcomp, suback, publish, await_connack, connect_loop, prepare_fds,
  is_pos, msecs_wait_reconnect,
}
use hispec_tib.Commons.Mqtt
use hispec_tib.Commons.Mqtt.Events.{handle_all-IsHandled}
use hispec_tib.Main.{Published}
use hispec_tib.Main.Watchdog.{Watchdog, wdt_feed_interval_ms}
use hispec_tib.Main.Watchdog
use hispec_tib.Main.Sessions.{MainCall, mqtt, feed, mqtt_publish}

-- Acknowledgements and the callback, which may come at any time.
abbrev pub is_response : MqttCall → Bool
is_response (qos1_ack n) = true
is_response (qos2_receive n) = true
is_response (qos2_release n) = true
is_response (qos2_complete n) = true
is_response (callback r) = true
is_response _ = false

-- Where `main` is in a session: before its first call of `mqtt_connect`, after it, and from the subscription
-- to the end.
pub data Phase : Type 0 where
  apart trying serving : Phase

-- What `coo_mqtt_connect` calls after an attempt that failed.
abbrev pub is_retry : MqttCall → Bool
is_retry abort = true
is_retry (msleep n) = true
is_retry _ = false

-- A well-ordered series of calls, from a phase and an id for the next message to others.
pub data Runs (topics : List MqttTopic) : Phase → ℕ → List MainCall → Phase → ℕ → Type 0 where
  stop : {o : Phase} {i : ℕ} → Runs topics o i [] o i
  responds :
      {o o' : Phase} {i i' : ℕ} {c : MqttCall} {cs : List MainCall}
      → is_response c ≡ true
      → Runs topics o i cs o' i'
      → Runs topics o i (mqtt c ∷ cs) o' i'
  connects :
      {o o' : Phase} {i i' : ℕ} {cs : List MainCall}
      → o ≢ serving
      → Runs topics trying i cs o' i'
      → Runs topics o i (mqtt connect ∷ cs) o' i'
  retries :
      {o o' : Phase} {i i' : ℕ} {c : MqttCall} {cs : List MainCall}
      → o ≡ trying
      → is_retry c ≡ true
      → Runs topics o i cs o' i'
      → Runs topics o i (mqtt c ∷ cs) o' i'
  subscribes :
      {o o' : Phase} {i i' : ℕ} {cs : List MainCall}
      → o ≡ trying
      → Runs topics serving i cs o' i'
      → Runs topics o i (mqtt (subscribe topics) ∷ cs) o' i'
  feeds :
      {o o' : Phase} {i i' : ℕ} {f : Watchdog.Feed} {cs : List MainCall}
      → o ≡ serving
      → Runs topics o i cs o' i'
      → Runs topics o i (feed f ∷ cs) o' i'
  publishes :
      {o o' : Phase} {i i' : ℕ} {p : Published} {cs : List MainCall}
      → o ≡ serving
      → p.message_id ≡ i
      → Runs topics o ((i + 1) % 2 ^ 16) cs o' i'
      → Runs topics o i (mqtt_publish p ∷ cs) o' i'
  leaves :
      {o o' : Phase} {i i' : ℕ} {cs : List MainCall}
      → o ≡ serving
      → Runs topics apart i cs o' i'
      → Runs topics o i (mqtt disconnect ∷ cs) o' i'

module _ {topics : List MqttTopic} where
  pub Runs-append :
      {o o1 o2 : Phase} {i i1 i2 : ℕ} {xs ys : List MainCall}
      → Runs topics o i xs o1 i1
      → Runs topics o1 i1 ys o2 i2
      → Runs topics o i (xs ++ ys) o2 i2
  Runs-append stop r = r
  Runs-append (responds e q) r = responds e (Runs-append q r)
  Runs-append (connects c q) r = connects c (Runs-append q r)
  Runs-append (retries c e q) r = retries c e (Runs-append q r)
  Runs-append (subscribes c q) r = subscribes c (Runs-append q r)
  Runs-append (feeds c q) r = feeds c (Runs-append q r)
  Runs-append (publishes c e q) r = publishes c e (Runs-append q r)
  Runs-append (leaves c q) r = leaves c (Runs-append q r)

abbrev pub Responses : List MqttCall → Type 0
Responses cs = All (λ c. is_response c ≡ true) cs

pub Responses-Runs :
    (topics : List MqttTopic) (o : Phase) (i : ℕ) (cs : List MqttCall)
    → Responses cs
    → Runs topics o i (map mqtt cs) o i
Responses-Runs topics o i [] r = stop
Responses-Runs topics o i (c ∷ cs) (r, rs) = responds r (Responses-Runs topics o i cs rs)

event-Responses : (e : MqttEvent) (c : MqttClient) → Responses (mqtt_event_handler e c).1
unfolding mqtt_event_handler acknowledge on_mqtt_publish
event-Responses (connack result) c = ground arith
event-Responses disconnected c = tt
event-Responses pingresp c = tt
event-Responses other c = tt
event-Responses (puback result n) c = tt
event-Responses (pubrec result n) c = ground arith
event-Responses (pubrel result n) c = ground arith
event-Responses (pubcomp result n) c = tt
event-Responses (suback result) c = tt
event-Responses (publish p) c = ground arith

pub handle_all-Responses : (es : List MqttEvent) (c : MqttClient) → Responses (handle_all es c).1
unfolding handle_all
handle_all-Responses [] c = tt
handle_all-Responses (e ∷ es) c =
    All-append (λ x. is_response x ≡ true) (mqtt_event_handler e c).1 _ (event-Responses e c)
      (handle_all-Responses es (mqtt_event_handler e c).0)

-- What `handle_all` keeps.
pub kept :
    (es : List MqttEvent) (c : MqttClient) → (handle_all es c).0.subscriptions ≡ c.subscriptions
kept es c = (handle_all-IsHandled es c).same_subscriptions

pub process-Responses : (t : Mqtt.Turn) (c : MqttClient) → Responses (coo_mqtt_process t c).2
unfolding coo_mqtt_process prepare_fds
process-Responses t c = ground (
  arith,
  handle_all-Responses t.input.events (prepare_fds c),
  handle_all-Responses t.live.events (prepare_fds c),
)

pub process-kept :
    (t : Mqtt.Turn) (c : MqttClient) → (coo_mqtt_process t c).1.subscriptions ≡ c.subscriptions
unfolding coo_mqtt_process prepare_fds
process-kept t c =
    ground (arith, kept t.input.events (prepare_fds c), kept t.live.events (prepare_fds c))
