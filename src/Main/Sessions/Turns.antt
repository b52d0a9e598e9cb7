-- ===== src/Main/Sessions/Turns.antt =====
-- What the inner loop of `main` publishes, and when it feeds the watchdog.
use hispec_tib.Prelude.{
  ℕ, suc, ◌+◌, ◌%◌, ◌^◌, ◌≤◌, ◌≡◌, refl, ap, ap₂, sym, ◌∙◌, inl, inr, not, List, [], ◌∷◌, ◌++◌,
  append-nil, Option, none, some, arith, map, length, take, is_zero, Option-cases, if_both,
}
use hispec_tib.Command.Types.{OutMsg}
use hispec_tib.Commons.Mqtt.{
  MqttClient, MqttCall, MqttEvent, handle_all, disconnect, coo_mqtt_subscribe, coo_mqtt_process,
}
use hispec_tib.Main.Watchdog.{Watchdog, Feed, feed_periodically, wdt_feed_interval_ms}
use hispec_tib.Main.Watchdog
use hispec_tib.Main.{drain}
use hispec_tib.Main.Publishing.{drain_both}
use hispec_tib.Main.Sessions.{
  Outgoing, Turn, MainCall, mqtt, feed, MainState, feed_if_due, publish_all, main_turn, inner_loop,
  leave, serve, Session,
}
use hispec_tib.Main.Sessions.Picked.{
  pick, pick-append, pick_none, pick_skip, pick_each, as_feed, as_published,
}

feeds-publish_all :
    (os : List Outgoing) (i : ℕ) (c : MqttClient) → pick as_feed (publish_all os i c).2 ≡ []
unfolding publish_all pick
feeds-publish_all [] i c = refl
feeds-publish_all (o ∷ os) i c =
    let (c1, out1) = handle_all o.reported c in
    pick_skip as_feed mqtt (λ x. refl) out1 _ ∙ feeds-publish_all os ((i + 1) % 2 ^ 16) c1

-- The loop over the messages is `drain`.
published-publish_all :
    (os : List Outgoing) (i : ℕ) (c : MqttClient)
    → (pick as_published (publish_all os i c).2 ≡ (drain i (map (λ o. o.msg) os)).0)
      × ((publish_all os i c).0 ≡ (drain i (map (λ o. o.msg) os)).1)
unfolding publish_all pick drain
published-publish_all [] i c = (refl, refl)
published-publish_all (o ∷ os) i c =
    let (c1, out1) = handle_all o.reported c in
    let (sent, last) = published-publish_all os ((i + 1) % 2 ^ 16) c1 in
    (
      ap (◌∷◌ (record { message_id = i; msg = o.msg }))
          (pick_skip as_published mqtt (λ x. refl) out1 _ ∙ sent),
      last,
    )

-- What the outbound queue gives in some turns.
pub taken : List Turn → List OutMsg
taken [] = []
taken (t ∷ ts) = map (λ o. o.msg) t.outbox ++ taken ts

module _ (w : Watchdog) where
  -- The loop of the feedings alone, one turn at a time.
  feed_periodically-next :
      (t : Watchdog.Turn) (ts : List Watchdog.Turn) (last : ℕ)
      → feed_periodically w (t ∷ ts) last
        ≡ (feed_if_due w t last).0 ++ feed_periodically w ts (feed_if_due w t last).1
  unfolding feed_periodically feed_if_due
  feed_periodically-next t ts last = elim (Option-cases w.wdt) [
    | inl e ↦ rw (e, feed_if_due, feed_periodically) refl
    | inr (dev, e) ↦ ground (arith, e)
  ]

  module _ (t : Turn) (s : MainState) where
    feeds-main_turn : pick as_feed (main_turn w t s).2 ≡ (feed_if_due w t.clock s.last_wdt_feed).0
    unfolding main_turn
    feeds-main_turn =
        let fed = (feed_if_due w t.clock s.last_wdt_feed).0 in
        let (i, c, sent) = publish_all t.outbox s.msg_id s.client in
        let calls = (coo_mqtt_process t.process c).2 in
        pick-append as_feed (map feed fed) (sent ++ map mqtt calls)
        ∙ ap₂ (λ x y. x ++ y) (pick_each as_feed feed (λ x. refl) fed)
            (pick-append as_feed sent (map mqtt calls)
              ∙ ap₂ (λ x y. x ++ y) (feeds-publish_all t.outbox s.msg_id s.client)
                  (pick_none as_feed mqtt (λ x. refl) calls))
        ∙ append-nil fed

    published-main_turn :
        pick as_published (main_turn w t s).2 ≡ (drain s.msg_id (map (λ o. o.msg) t.outbox)).0
    unfolding main_turn
    published-main_turn =
        let fed = (feed_if_due w t.clock s.last_wdt_feed).0 in
        let (i, c, sent) = publish_all t.outbox s.msg_id s.client in
        let calls = (coo_mqtt_process t.process c).2 in
        pick_skip as_published feed (λ x. refl) fed (sent ++ map mqtt calls)
        ∙ pick-append as_published sent (map mqtt calls)
        ∙ ap₂ (λ x y. x ++ y) (published-publish_all t.outbox s.msg_id s.client).0
            (pick_none as_published mqtt (λ x. refl) calls)
        ∙ append-nil (drain s.msg_id (map (λ o. o.msg) t.outbox)).0

  -- The calls are those of some of the turns, from the first on: the feedings are those of
  -- `feed_periodically`, and the publications are those of one draining of what the outbound queue gives.
  abbrev pub IsRunBy : List Turn → MainState → List MainCall → Type 0
  IsRunBy ts s cs =
      (n : ℕ) × (n ≤ length ts)
      × (pick as_feed cs ≡ feed_periodically w (map (λ t. t.clock) (take n ts)) s.last_wdt_feed)
      × (pick as_published cs ≡ (drain s.msg_id (taken (take n ts))).0)

  inner_loop-IsRunBy : (ts : List Turn) (s : MainState) → IsRunBy ts s (inner_loop w ts s).1
  unfolding inner_loop pick feed_periodically main_turn taken drain
  inner_loop-IsRunBy [] s = (0, omega arith, refl, refl)
  inner_loop-IsRunBy (t ∷ ts) s =
      let (n, h, e, m) = inner_loop-IsRunBy ts (main_turn w t s).1 in
      let calls = (main_turn w t s).2 in
      let rest = (inner_loop w ts (main_turn w t s).1).1 in
      let Run : Option MainState × List MainCall → Type 0 = λ out. IsRunBy (t ∷ ts) s out.1 in
      let due = feed_if_due w t.clock s.last_wdt_feed in
      let given = map (λ o. o.msg) t.outbox in
      let one : pick as_feed calls ≡ feed_periodically w (t.clock ∷ []) s.last_wdt_feed =
        feeds-main_turn t s
        ∙ sym (append-nil due.0)
        ∙ sym (feed_periodically-next t.clock [] s.last_wdt_feed) in
      let later = map (λ u. u.clock) (take n ts) in
      let more : pick as_feed (calls ++ rest)
          ≡ feed_periodically w (t.clock ∷ later) s.last_wdt_feed =
        pick-append as_feed calls rest
        ∙ ap₂ (λ x y. x ++ y) (feeds-main_turn t s) e
        ∙ sym (feed_periodically-next t.clock later s.last_wdt_feed) in
      if_both Run (not s.client.mqtt_connected) _ _ (0, omega arith, refl, refl)
        (if_both Run (not (is_zero (main_turn w t s).0)) _ _
          (
            1,
            omega arith,
            one,
            published-main_turn t s ∙ ap (λ x. (drain s.msg_id x).0) (sym (append-nil given)),
          )
          (
            suc n,
            omega arith,
            more,
            pick-append as_published calls rest
                ∙ ap₂ (λ x y. x ++ y) (published-main_turn t s)
                    (m
                      ∙ ap (λ i. (drain i (taken (take n ts))).0)
                          (published-publish_all t.outbox s.msg_id s.client).1)
                ∙ sym (drain_both s.msg_id given (taken (take n ts))),
          ))

-- Around the inner loop a round has only calls of the client.
module _ {B : Type 0} (f : MainCall → List B) (h : (c : MqttCall) → f (mqtt c) ≡ []) where
  pick-leave :
      (closing : List MqttEvent) (end : Option MainState) → pick f (leave closing end).1 ≡ []
  unfolding leave pick
  pick-leave closing none = refl
  pick-leave closing (some s) =
      ap₂ (λ x y. x ++ y) (h disconnect) (pick_none f mqtt h (handle_all closing s.client).1)

  pick-serve :
      (w : Watchdog) (e : Session) (s : MainState)
      → pick f (serve w e s).1
        ≡ pick f (inner_loop w e.turns (record s { client = (handle_all e.greeting s.client).0 })).1
  unfolding serve pick
  pick-serve w e s =
      let (c, greeted) = handle_all e.greeting s.client in
      let (end, out) = inner_loop w e.turns (record s { client = c }) in
      ap₂ (λ x y. x ++ y) (h (coo_mqtt_subscribe s.client))
        (pick_skip f mqtt h greeted _
          ∙ pick-append f out (leave e.closing end).1
          ∙ ap (λ x. pick f out ++ x) (pick-leave e.closing end)
          ∙ append-nil (pick f out))

pub serve-IsRunBy :
    (w : Watchdog) (e : Session) (s : MainState) → IsRunBy w e.turns s (serve w e s).1
serve-IsRunBy w e s =
    let (n, l, fed, sent) =
      inner_loop-IsRunBy w e.turns (record s { client = (handle_all e.greeting s.client).0 }) in
    (
      n,
      l,
      pick-serve as_feed (λ c. refl) w e s ∙ fed,
      pick-serve as_published (λ c. refl) w e s ∙ sent,
    )
