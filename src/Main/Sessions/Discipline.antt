-- ===== src/Main/Sessions/Discipline.antt =====
-- What the loop of `main` sends to the broker, and when.
use hispec_tib.Prelude.{
  ℕ, ◌+◌, ◌%◌, ◌^◌, ◌≡◌, refl, ap₂, sym, subst, ◌∙◌, inl, inr, not, List, [], ◌∷◌, ◌++◌,
  append_assoc, append-nil, Option, none, some, map, leb, is_zero, Option-cases, if_both,
}
use hispec_tib.Commons.Mqtt.{
  MqttTopic, MqttClient, subscribe, MqttEvent, handle_all, coo_mqtt_connect, coo_mqtt_process,
}
use hispec_tib.Main.Watchdog.{Watchdog, wdt_feed_interval_ms}
use hispec_tib.Main.Watchdog
use hispec_tib.Main.Sessions.{
  Outgoing, Turn, Session, MainCall, mqtt, feed, MainState, feed_if_due, publish_all, main_turn,
  inner_loop, leave, serve, session, main_loop,
}
use hispec_tib.Main.Sessions.Calls.{
  Runs, Responses-Runs, handle_all-Responses, kept, Phase, apart, trying, serving,
  process-Responses, process-kept, Runs-append, stop, subscribes, feeds, publishes, leaves,
}
use hispec_tib.Main.Sessions.Connecting.{connect-Links, connect-kept}

publish_all-Runs :
    (topics : List MqttTopic) (os : List Outgoing) (i : ℕ) (c : MqttClient)
    → Runs topics serving i (publish_all os i c).2 serving (publish_all os i c).0
unfolding publish_all
publish_all-Runs topics [] i c = stop
publish_all-Runs topics (o ∷ os) i c = publishes refl refl (
    Runs-append
      (Responses-Runs topics serving ((i + 1) % 2 ^ 16) (handle_all o.reported c).1
        (handle_all-Responses o.reported c))
      (publish_all-Runs topics os ((i + 1) % 2 ^ 16) (handle_all o.reported c).0))

publish_all-kept :
    (os : List Outgoing) (i : ℕ) (c : MqttClient)
    → (publish_all os i c).1.subscriptions ≡ c.subscriptions
unfolding publish_all
publish_all-kept [] i c = refl
publish_all-kept (o ∷ os) i c =
    publish_all-kept os ((i + 1) % 2 ^ 16) (handle_all o.reported c).0 ∙ kept o.reported c

-- The state that a loop leaves, if it ends: the next id, and the table of subscriptions.
abbrev Leaves : List MqttTopic → ℕ → Option MainState → Type 0
Leaves topics i none = Unit
Leaves topics i (some s) = (s.msg_id ≡ i) × (s.client.subscriptions ≡ topics)

-- The calls are well ordered from the given phase and id on; if the loop ends, it is between sessions,
-- and the next message is to have the id that comes next.
abbrev pub Whole : List MqttTopic → Phase → ℕ → Option MainState × List MainCall → Type 0
Whole topics o i (none, out) = (o' : Phase) × (j : ℕ) × Runs topics o i out o' j
Whole topics o i (some s, out) =
    Runs topics o i out apart s.msg_id × (s.client.subscriptions ≡ topics)

module _ (topics : List MqttTopic) (w : Watchdog) where
  feed-Runs :
      (t : Watchdog.Turn) (last i : ℕ)
      → Runs topics serving i (map feed (feed_if_due w t last).0) serving i
  unfolding feed_if_due
  feed-Runs t last i = elim (Option-cases w.wdt) [
    | inl e ↦ rw (e, feed_if_due) stop
    | inr (dev, e) ↦
        let Fine : List Watchdog.Feed × ℕ → Type 0 =
          λ out. Runs topics serving i (map feed out.0) serving i in
        rw (e, feed_if_due)
          (if_both Fine (leb (last + wdt_feed_interval_ms) t.checked) _ _ (feeds refl stop) stop)
  ]

  main_turn-Runs :
      (t : Turn) (s : MainState)
      → Runs topics serving s.msg_id (main_turn w t s).2 serving (main_turn w t s).1.msg_id
  unfolding main_turn
  main_turn-Runs t s =
      let c = (publish_all t.outbox s.msg_id s.client).1 in
      Runs-append (feed-Runs t.clock s.last_wdt_feed s.msg_id) (
        Runs-append (publish_all-Runs topics t.outbox s.msg_id s.client) (
          Responses-Runs topics serving _ (coo_mqtt_process t.process c).2
            (process-Responses t.process c)))

  main_turn-kept :
      (t : Turn) (s : MainState) → (main_turn w t s).1.client.subscriptions ≡ s.client.subscriptions
  unfolding main_turn
  main_turn-kept t s =
      process-kept t.process (publish_all t.outbox s.msg_id s.client).1
      ∙ publish_all-kept t.outbox s.msg_id s.client

  abbrev InnerRuns : ℕ → Option MainState × List MainCall → Type 0
  InnerRuns i out = (j : ℕ) × Runs topics serving i out.1 serving j × Leaves topics j out.0

  inner_loop-Runs :
      (ts : List Turn) (s : MainState)
      → s.client.subscriptions ≡ topics
      → InnerRuns s.msg_id (inner_loop w ts s)
  unfolding inner_loop
  inner_loop-Runs [] s e = (
    s.msg_id,
    stop,
    if_both (Leaves topics s.msg_id) s.client.mqtt_connected none (some s) tt (refl, e),
  )
  inner_loop-Runs (t ∷ ts) s e =
      let s1 = (main_turn w t s).1 in
      let e1 = main_turn-kept t s ∙ e in
      let (j, r, l) = inner_loop-Runs ts s1 e1 in
      if_both (InnerRuns s.msg_id) (not s.client.mqtt_connected) _ _ (s.msg_id, stop, (refl, e))
        (if_both (InnerRuns s.msg_id) (not (is_zero (main_turn w t s).0)) _ _
          (s1.msg_id, main_turn-Runs t s, (refl, e1)) (j, Runs-append (main_turn-Runs t s) r, l))

  Whole-prepend :
      {o : Phase} (i j : ℕ) (before : List MainCall) (end : Option MainState) (out : List MainCall)
      → Runs topics apart i before o j
      → Whole topics o j (end, out)
      → Whole topics apart i (end, before ++ out)
  Whole-prepend i j before none out r (o, k, q) = (o, k, Runs-append r q)
  Whole-prepend i j before (some s) out r (q, f) = (Runs-append r q, f)

  leave-Whole :
      (closing : List MqttEvent) (i j : ℕ) (end : Option MainState) (before : List MainCall)
      → Runs topics trying i before serving j
      → Leaves topics j end
      → Whole topics trying i ((leave closing end).0, before ++ (leave closing end).1)
  unfolding leave
  leave-Whole closing i j none before r l = (serving, j, rw append-nil r)
  leave-Whole closing i j (some s) before r (e, f) =
      let last =
        Responses-Runs topics apart s.msg_id (handle_all closing s.client).1
          (handle_all-Responses closing s.client) in
      (Runs-append r (leaves refl (rw (← e) last)), kept closing s.client ∙ f)

  serve-Whole :
      (e : Session) (s : MainState)
      → s.client.subscriptions ≡ topics
      → Whole topics trying s.msg_id (serve w e s)
  unfolding serve
  serve-Whole e s f =
      let c = (handle_all e.greeting s.client).0 in
      let greeted = (handle_all e.greeting s.client).1 in
      let s0 : MainState = record s { client = c } in
      let (j, r, l) = inner_loop-Runs e.turns s0 (kept e.greeting s.client ∙ f) in
      let (end, out) = inner_loop w e.turns s0 in
      let first = subscribes refl (
        Runs-append
          (Responses-Runs topics serving s.msg_id greeted
            (handle_all-Responses e.greeting s.client))
          r) in
      subst (λ x. Whole topics trying s.msg_id ((leave e.closing end).0, x))
        (ap₂ (λ ts x. mqtt (subscribe ts) ∷ x) (sym f)
          (append_assoc (map mqtt greeted) out (leave e.closing end).1))
        (leave-Whole e.closing s.msg_id j end _ first l)

  session-Whole :
      (e : Session) (s : MainState)
      → s.client.subscriptions ≡ topics
      → Whole topics apart s.msg_id (session w e s)
  unfolding session
  session-Whole e s f =
      let (linked, calls) = coo_mqtt_connect e.rounds s.client in
      let links = connect-Links topics s.msg_id e.rounds s.client in
      elim (Option-cases linked) [
        | inl n ↦
            rw (n, session)
              (elim links [
                | inl (_, idle) ↦ (apart, s.msg_id, rw idle stop)
                | inr early ↦ (trying, s.msg_id, early)
              ])
        | inr (c, e') ↦ elim links [
          | inl (off, _) ↦ cc
          | inr early ↦
              rw (e', session)
                (Whole-prepend s.msg_id s.msg_id (map mqtt calls) _ _ early (
                  serve-Whole e (record s { client = c })
                    (connect-kept e.rounds s.client c e' ∙ f)))
        ]
      ]

  -- The calls of the loop are well ordered over all sessions.
  pub main_loop-Whole :
      (es : List Session) (s : MainState)
      → s.client.subscriptions ≡ topics
      → Whole topics apart s.msg_id (main_loop w es s)
  unfolding main_loop
  main_loop-Whole [] s f = (stop, f)
  main_loop-Whole (e ∷ es) s f =
      let (end, out) = session w e s in
      elim (Option-cases end) [
        | inl n ↦
            rw (n, main_loop)
              (subst (λ x. Whole topics apart s.msg_id (x, out)) n (session-Whole e s f))
        | inr (s', g) ↦
            let (r, f') =
              subst (λ x. Whole topics apart s.msg_id (x, out)) g (session-Whole e s f) in
            rw (g, main_loop)
              (Whole-prepend s.msg_id s'.msg_id out _ _ r (main_loop-Whole es s' f'))
      ]
