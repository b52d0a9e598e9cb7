-- ===== src/Commons/Mqtt/Due.antt =====
-- What a sequence of MQTT events asks for: the connection's state, acknowledgements and callbacks.
use hispec_tib.Prelude.{
  ℕ, suc, ◌+◌, ◌≤◌, ◌≡◌, Bool, true, false, ◌&&◌, List, [], ◌∷◌, ◌++◌, Option, none, some, arith,
  length, ◌==◌, if◌then◌else◌, is_zero, All,
}
use hispec_tib.Commons.Mqtt.{
  MqttClient, MqttEvent, connack, disconnected, pingresp, other, puback, pubrec, pubrel, pubcomp,
  suback, publish, MqttCall, qos1_ack, qos2_receive, qos2_release, qos2_complete, callback,
  payload_size,
}

-- What an event says about the connection, if it says something.
unfoldable pub connection : MqttEvent → Option Bool
connection (connack result) = if is_zero result then some true else none
connection disconnected = some false
connection pingresp = none
connection other = none
connection (puback result id) = none
connection (pubrec result id) = none
connection (pubrel result id) = none
connection (pubcomp result id) = none
connection (suback result) = none
connection (publish p) = none

-- What the last of the events that say something says.
unfoldable pub connected_after : List MqttEvent → Bool → Bool
connected_after [] before = before
connected_after (e ∷ es) before =
    connected_after es (elim (connection e) [ none ↦ before | some b ↦ b ])

-- How many entries pass a test.
unfoldable pub count : {A : Type 0} → (A → Bool) → List A → ℕ
count p [] = 0
count p (x ∷ xs) = let rest = count p xs in if p x then suc rest else rest

pub count-append :
    {A : Type 0} (p : A → Bool) (xs ys : List A) → count p (xs ++ ys) ≡ count p xs + count p ys
unfolding count
count-append p [] ys = omega arith
count-append p (x ∷ xs) ys = ground (arith, count-append p xs ys)

-- An acknowledgement: the kind of call that it is, and the message.
pub data Ack : Type 0 where
  of_qos1 of_qos2 release complete : Ack

abbrev pub is_ack : Ack → ℕ → MqttCall → Bool
is_ack of_qos1 id (qos1_ack n) = n == id
is_ack of_qos2 id (qos2_receive n) = n == id
is_ack release id (qos2_release n) = n == id
is_ack complete id (qos2_complete n) = n == id
is_ack _ id _ = false

-- The events that are to be answered with it.
abbrev pub asks_for : Ack → ℕ → MqttEvent → Bool
asks_for of_qos1 id (publish p) = p.qos == 1 && p.message_id == id
asks_for of_qos2 id (publish p) = p.qos == 2 && p.message_id == id
asks_for release id (pubrec result n) = is_zero result && n == id
asks_for complete id (pubrel result n) = is_zero result && n == id
asks_for _ id _ = false

abbrev pub is_callback : MqttCall → Bool
is_callback (callback r) = true
is_callback _ = false

-- A publication of which the payload could be read.
abbrev pub is_readable : MqttEvent → Bool
is_readable (publish p) = elim p.read [ none ↦ false | some bytes ↦ true ]
is_readable _ = false

-- A payload that the callback is given fits the buffer.
abbrev pub FitsBuffer : MqttCall → Type 0
FitsBuffer (callback r) = length r.payload ≤ payload_size
FitsBuffer _ = Unit

-- `out` is the client after the events, and the calls made.
pub record IsHandled (es : List MqttEvent) (c : MqttClient) (out : MqttClient × List MqttCall)
    : Type 0 where
  pub connected : out.0.mqtt_connected ≡ connected_after es c.mqtt_connected
  pub acks : (a : Ack) (id : ℕ) → count (is_ack a id) out.1 ≡ count (asks_for a id) es
  pub callbacks : count is_callback out.1 ≡ (if c.user_mqtt_cb then count is_readable es else 0)
  pub fits : All FitsBuffer out.1
  pub same_callback : out.0.user_mqtt_cb ≡ c.user_mqtt_cb
  pub same_subscriptions : out.0.subscriptions ≡ c.subscriptions
