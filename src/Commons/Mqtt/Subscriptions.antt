-- ===== src/Commons/Mqtt/Subscriptions.antt =====
-- The table of subscriptions.
use hispec_tib.Prelude.{
  ℕ, ◌≤◌, ◌≡◌, ap, subst, sym, ◌∙◌, inl, inr, ℤ, List, [], ◌∷◌, ◌++◌, append_assoc, append-nil, map,
  arith, length, length-append, take, take_all, take-append-eq, leb, Bool-cases,
}
use hispec_tib.CString.{CString}
use hispec_tib.Commons.Mqtt.{MqttClient, MqttTopic, coo_mqtt_add_subscription, max_subscriptions}

-- Calls of `coo_mqtt_add_subscription` one after the other: the results, and the client.
unfoldable pub add_all : List (CString × ℕ) → MqttClient → List ℤ × MqttClient
unfolding coo_mqtt_add_subscription
add_all [] c = ([], c)
add_all ((t, qos) ∷ ts) c =
    let (rc, c1) = coo_mqtt_add_subscription t qos c in
    let (rcs, last) = add_all ts c1 in (rc ∷ rcs, last)

abbrev pub topic : CString × ℕ → MqttTopic
topic (t, qos) = record { utf8 = t; size = length t; qos = qos }

take_full :
    (xs ys : List MqttTopic)
    → length xs ≡ max_subscriptions
    → take max_subscriptions (xs ++ ys) ≡ xs
take_full xs ys h = subst (λ n. take n (xs ++ ys) ≡ xs) h (take-append-eq xs ys)

-- As long as the table holds 4 topics at most, it holds the first 4 of those that it had and those that
-- are added, in their order, however many are added; the others of the client's globals stay.
pub add_all_lem :
    (ts : List (CString × ℕ)) (c : MqttClient)
    → length c.subscriptions ≤ max_subscriptions
    → ((add_all ts c).1
        ≡ record c { subscriptions = take max_subscriptions (c.subscriptions ++ map topic ts) })
unfolding add_all coo_mqtt_add_subscription
add_all_lem [] c h =
    ap (λ ss. record c { subscriptions = ss })
      (sym (
        ap (take max_subscriptions) (append-nil c.subscriptions)
        ∙ take_all max_subscriptions c.subscriptions h))
add_all_lem ((t, qos) ∷ ts) c h =
    elim (Bool-cases (leb max_subscriptions (length c.subscriptions))) [
      | inl full ↦ rw full (
          add_all_lem ts c h
          ∙ ap (λ ss. record c { subscriptions = ss })
              (take_full c.subscriptions (map topic ts) (ground arith)
                ∙ sym (take_full c.subscriptions (topic (t, qos) ∷ map topic ts) (ground arith))))
      | inr room ↦ rw room (
          add_all_lem ts (record c { subscriptions = c.subscriptions ++ (topic (t, qos) ∷ []) })
            (ground (arith, length-append c.subscriptions (topic (t, qos) ∷ [])))
          ∙ ap (λ ss. record c { subscriptions = take max_subscriptions ss })
              (append_assoc c.subscriptions (topic (t, qos) ∷ []) (map topic ts)))
    ]
