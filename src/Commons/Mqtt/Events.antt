-- ===== src/Commons/Mqtt/Events.antt =====
-- What the handler of events does over a sequence of them.
use hispec_tib.Prelude.{
  ℕ, ◌≡◌, refl, ap, ◌∙◌, inl, inr, Bool, false, List, [], ◌∷◌, ◌++◌, arith, length-take, ◌==◌,
  if◌then◌else◌, is_zero, Bool-cases, Option-cases, All, All-append,
}
use hispec_tib.Commons.Mqtt.{
  MqttClient, MqttEvent, connack, disconnected, pingresp, other, puback, pubrec, pubrel, pubcomp,
  suback, publish, qos2_release, qos2_complete, Publication, mqtt_event_handler, handle_all,
  acknowledge, on_mqtt_publish, on_mqtt_connect, on_mqtt_disconnect, payload_size,
}
use hispec_tib.Commons.Mqtt.Due.{
  connection, connected_after, count, count-append, Ack, of_qos1, of_qos2, release, complete,
  is_ack, asks_for, is_callback, is_readable, FitsBuffer, IsHandled,
}

module _ (p : Publication) (cb : Bool) where
  publish-ack :
      (a : Ack) (id : ℕ)
      → count (is_ack a id) (acknowledge p ++ on_mqtt_publish cb p)
        ≡ count (asks_for a id) (publish p ∷ [])
  unfolding count acknowledge on_mqtt_publish
  publish-ack of_qos1 id = ground arith
  publish-ack of_qos2 id = ground arith
  publish-ack release id = ground arith
  publish-ack complete id = ground arith

  publish-callback :
      count is_callback (acknowledge p ++ on_mqtt_publish cb p)
      ≡ (if cb then count is_readable (publish p ∷ []) else 0)
  unfolding count acknowledge on_mqtt_publish
  publish-callback = ground arith

  acknowledge-fits : All FitsBuffer (acknowledge p)
  unfolding acknowledge
  acknowledge-fits = elim (Bool-cases (p.qos == 1)) [
    | inl e ↦ rw (e, acknowledge) (tt, tt)
    | inr e ↦ elim (Bool-cases (p.qos == 2)) [
      | inl f ↦ rw (e, f, acknowledge) (tt, tt)
      | inr f ↦ rw (e, f, acknowledge) tt
    ]
  ]

  on_publish-fits : All FitsBuffer (on_mqtt_publish cb p)
  unfolding on_mqtt_publish
  on_publish-fits = elim (Option-cases p.read) [
    | inl n ↦ rw (n, on_mqtt_publish) tt
    | inr (bytes, f) ↦ elim (Bool-cases cb) [
      | inl e ↦ rw (f, e, on_mqtt_publish) (omega (arith, length-take payload_size bytes), tt)
      | inr e ↦ rw (f, e, on_mqtt_publish) tt
    ]
  ]

-- A statement for each kind of acknowledgement.
by_kind : (P : Ack → Type 0) → P of_qos1 → P of_qos2 → P release → P complete → (a : Ack) → P a
by_kind P x y z w of_qos1 = x
by_kind P x y z w of_qos2 = y
by_kind P x y z w release = z
by_kind P x y z w complete = w

-- An event that nothing is called for.
silent :
    (e : MqttEvent) (c c' : MqttClient)
    → c'.mqtt_connected ≡ connected_after (e ∷ []) c.mqtt_connected
    → ((a : Ack) (id : ℕ) → asks_for a id e ≡ false)
    → is_readable e ≡ false
    → c'.user_mqtt_cb ≡ c.user_mqtt_cb
    → c'.subscriptions ≡ c.subscriptions
    → IsHandled (e ∷ []) c (c', [])
unfolding count
silent e c c' h quiet dumb f g = record {
  connected = h;
  acks = λ a id. rw (quiet a id) refl;
  callbacks = ground (arith, dumb);
  fits = tt;
  same_callback = f;
  same_subscriptions = g;
}

event-IsHandled : (e : MqttEvent) (c : MqttClient) → IsHandled (e ∷ []) c (mqtt_event_handler e c)
unfolding mqtt_event_handler connected_after connection count on_mqtt_connect on_mqtt_disconnect
event-IsHandled (connack result) c = elim (Bool-cases (is_zero result)) [
  | inl e ↦
      rw (e, mqtt_event_handler)
        (silent (connack result) c (on_mqtt_connect c) (ground (arith, e))
          (λ a id. by_kind (λ k. asks_for k id (connack result) ≡ false) refl refl refl refl a) refl
          refl refl)
  | inr e ↦
      rw (e, mqtt_event_handler)
        (silent (connack result) c c (ground (arith, e))
          (λ a id. by_kind (λ k. asks_for k id (connack result) ≡ false) refl refl refl refl a) refl
          refl refl)
]
event-IsHandled disconnected c =
    silent disconnected c (on_mqtt_disconnect c) refl
      (λ a id. by_kind (λ k. asks_for k id disconnected ≡ false) refl refl refl refl a) refl refl
      refl
event-IsHandled pingresp c =
    silent pingresp c c refl
      (λ a id. by_kind (λ k. asks_for k id pingresp ≡ false) refl refl refl refl a) refl refl refl
event-IsHandled other c =
    silent other c c refl (λ a id. by_kind (λ k. asks_for k id other ≡ false) refl refl refl refl a)
      refl refl refl
event-IsHandled (puback result id') c =
    silent (puback result id') c c refl
      (λ a id. by_kind (λ k. asks_for k id (puback result id') ≡ false) refl refl refl refl a) refl
      refl refl
event-IsHandled (pubcomp result id') c =
    silent (pubcomp result id') c c refl
      (λ a id. by_kind (λ k. asks_for k id (pubcomp result id') ≡ false) refl refl refl refl a) refl
      refl refl
event-IsHandled (suback result) c =
    silent (suback result) c c refl
      (λ a id. by_kind (λ k. asks_for k id (suback result) ≡ false) refl refl refl refl a) refl refl
      refl
event-IsHandled (pubrec result n) c = elim (Bool-cases (is_zero result)) [
  | inl e ↦
      rw (e, mqtt_event_handler)
        (record {
          connected = refl;
          acks = λ a id.
              by_kind
                (λ k.
                  count (is_ack k id) (qos2_release n ∷ [])
                  ≡ count (asks_for k id) (pubrec result n ∷ []))
                (ground (arith, e)) (ground (arith, e)) (ground (arith, e)) (ground (arith, e)) a;
          callbacks = ground arith;
          fits = (tt, tt);
          same_callback = refl;
          same_subscriptions = refl;
        })
  | inr e ↦
      rw (e, mqtt_event_handler)
        (silent (pubrec result n) c c refl
          (λ a id.
            by_kind (λ k. asks_for k id (pubrec result n) ≡ false) (ground (arith, e))
              (ground (arith, e)) (ground (arith, e)) (ground (arith, e)) a)
          refl refl refl)
]
event-IsHandled (pubrel result n) c = elim (Bool-cases (is_zero result)) [
  | inl e ↦
      rw (e, mqtt_event_handler)
        (record {
          connected = refl;
          acks = λ a id.
              by_kind
                (λ k.
                  count (is_ack k id) (qos2_complete n ∷ [])
                  ≡ count (asks_for k id) (pubrel result n ∷ []))
                (ground (arith, e)) (ground (arith, e)) (ground (arith, e)) (ground (arith, e)) a;
          callbacks = ground arith;
          fits = (tt, tt);
          same_callback = refl;
          same_subscriptions = refl;
        })
  | inr e ↦
      rw (e, mqtt_event_handler)
        (silent (pubrel result n) c c refl
          (λ a id.
            by_kind (λ k. asks_for k id (pubrel result n) ≡ false) (ground (arith, e))
              (ground (arith, e)) (ground (arith, e)) (ground (arith, e)) a)
          refl refl refl)
]
event-IsHandled (publish p) c = record {
  connected = refl;
  acks = λ a id. publish-ack p c.user_mqtt_cb a id;
  callbacks = publish-callback p c.user_mqtt_cb;
  fits =
      All-append FitsBuffer (acknowledge p) (on_mqtt_publish c.user_mqtt_cb p)
        (acknowledge-fits p c.user_mqtt_cb) (on_publish-fits p c.user_mqtt_cb);
  same_callback = refl;
  same_subscriptions = refl;
}

-- After any sequence of events: the client is connected exactly if the last CONNACK without an error or
-- DISCONNECT was a CONNACK, or there was none and it was connected before; for each message id, as many
-- acknowledgements of each kind were sent as events ask for them (a publication of QoS 1 or 2, a PUBREC
-- or PUBREL without an error); and the callback, if it is set, was called once for each publication
-- that could be read, with at most 256 bytes. Callback and subscriptions are as before.
pub handle_all-IsHandled : (es : List MqttEvent) (c : MqttClient) → IsHandled es c (handle_all es c)
unfolding handle_all connected_after count
handle_all-IsHandled [] c = record {
  connected = refl;
  acks = λ a id. refl;
  callbacks = ground arith;
  fits = tt;
  same_callback = refl;
  same_subscriptions = refl;
}
handle_all-IsHandled (e ∷ es) c =
    let v = event-IsHandled e c in
    let w = handle_all-IsHandled es (mqtt_event_handler e c).0 in
    record {
      connected = w.connected ∙ ap (connected_after es) v.connected;
      acks = λ a id.
          count-append (is_ack a id) (mqtt_event_handler e c).1
            (handle_all es (mqtt_event_handler e c).0).1
          ∙ ground (arith, v.acks a id, w.acks a id);
      callbacks =
          count-append is_callback (mqtt_event_handler e c).1
            (handle_all es (mqtt_event_handler e c).0).1
          ∙ ground (arith, v.callbacks, w.callbacks, v.same_callback);
      fits = All-append FitsBuffer (mqtt_event_handler e c).1 _ v.fits w.fits;
      same_callback = w.same_callback ∙ v.same_callback;
      same_subscriptions = w.same_subscriptions ∙ v.same_subscriptions;
    }
