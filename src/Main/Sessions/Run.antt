-- ===== src/Main/Sessions/Run.antt =====
-- The inner loop of `main` and `coo_mqtt_run` of lib/coo_commons/mqtt_client.c.
use hispec_tib.Prelude.{
  ℕ, ◌+◌, ◌%◌, ◌^◌, ◌≡◌, refl, ap, ap₂, ◌∙◌, Bool, true, false, not, List, [], ◌∷◌, ◌++◌, Option,
  none, some, arith, map, All, if◌then◌else◌, is_zero,
}
use hispec_tib.Commons.Mqtt.{
  MqttClient, MqttCall, disconnect, coo_mqtt_subscribe, handle_all, coo_mqtt_process, run_loop,
  coo_mqtt_run, hang_up, MqttEvent,
}
use hispec_tib.Main.Watchdog.{Watchdog}
use hispec_tib.Main.Sessions.Picked.{pick, pick-append, pick_none, pick_each, as_client}
use hispec_tib.Main.Sessions.Turns.{IsRunBy, serve-IsRunBy}
use hispec_tib.Main.Sessions.{
  Outgoing, Turn, Session, MainCall, mqtt, feed, MainState, feed_if_due, publish_all, main_turn,
  inner_loop, leave, serve,
}

-- The client that a loop leaves, if it ends.
abbrev pub client_left : Option MainState → Option MqttClient
client_left none = none
client_left (some s) = some s.client

-- `mqtt_publish` reports no events.
abbrev pub IsQuiet : Turn → Type 0
IsQuiet t = All (λ o. o.reported ≡ []) t.outbox

publish_all-quiet :
    (os : List Outgoing) (i : ℕ) (c : MqttClient)
    → All (λ o. o.reported ≡ []) os
    → ((publish_all os i c).1 ≡ c) × (pick as_client (publish_all os i c).2 ≡ [])
unfolding publish_all pick handle_all
publish_all-quiet [] i c q = (refl, refl)
publish_all-quiet (o ∷ os) i c (q, qs) =
    let (kept, silent) = publish_all-quiet os ((i + 1) % 2 ^ 16) c qs in (rw q kept, rw q silent)

-- Both loops leave the client in the same state and make the same calls of it.
abbrev IsSame : Option MainState × List MainCall → Option MqttClient × List MqttCall → Type 0
IsSame x y = (client_left x.0 ≡ y.0) × (pick as_client x.1 ≡ y.1)

if_related :
    {A B : Type 0} (R : A → B → Type 0) (b : Bool) {x y : A} {x' y' : B}
    → R x x'
    → R y y'
    → R (if b then x else y) (if b then x' else y')
if_related R true h k = h
if_related R false h k = k

module _ (w : Watchdog) where
  -- One turn of both loops.
  turn-same :
      (t : Turn) (s : MainState)
      → IsQuiet t
      → ((main_turn w t s).0 ≡ (coo_mqtt_process t.process s.client).0)
        × ((main_turn w t s).1.client ≡ (coo_mqtt_process t.process s.client).1)
        × (pick as_client (main_turn w t s).2 ≡ (coo_mqtt_process t.process s.client).2)
  unfolding main_turn
  turn-same t s q =
      let (kept, silent) = publish_all-quiet t.outbox s.msg_id s.client q in
      let c = (publish_all t.outbox s.msg_id s.client).1 in
      let sent = (publish_all t.outbox s.msg_id s.client).2 in
      let fed = (feed_if_due w t.clock s.last_wdt_feed).0 in
      let calls = (coo_mqtt_process t.process c).2 in
      (
        ap (λ x. (coo_mqtt_process t.process x).0) kept,
        ap (λ x. (coo_mqtt_process t.process x).1) kept,
        pick-append as_client (map feed fed) (sent ++ map mqtt calls)
            ∙ ap₂ (λ x y. x ++ y) (pick_none as_client feed (λ x. refl) fed)
                (pick-append as_client sent (map mqtt calls)
                  ∙ ap₂ (λ x y. x ++ y) silent (pick_each as_client mqtt (λ x. refl) calls))
            ∙ ap (λ x. (coo_mqtt_process t.process x).2) kept,
      )

  inner_loop-same :
      (ts : List Turn) (s : MainState)
      → All IsQuiet ts
      → (client_left (inner_loop w ts s).0 ≡ (run_loop (map (λ t. t.process) ts) s.client).0)
        × (pick as_client (inner_loop w ts s).1 ≡ (run_loop (map (λ t. t.process) ts) s.client).1)
  unfolding inner_loop run_loop pick
  inner_loop-same [] s q = (ground arith, ground arith)
  inner_loop-same (t ∷ ts) s (q, qs) =
      let (rc, client, calls) = turn-same t s q in
      let (end, out) = inner_loop-same ts (main_turn w t s).1 qs in
      let rest = map (λ t. t.process) ts in
      rw rc (
        if_related IsSame (not s.client.mqtt_connected) (refl, refl)
          (if_related IsSame (not (is_zero (coo_mqtt_process t.process s.client).0))
            (ap some client, calls)
            (
              end ∙ ap (λ x. (run_loop rest x).0) client,
              pick-append as_client (main_turn w t s).2 _
                  ∙ ap₂ (λ x y. x ++ y) calls (out ∙ ap (λ x. (run_loop rest x).1) client),
            )))

-- The end of a round.
leave-IsSame :
    (closing : List MqttEvent) (end : Option MainState)
    → IsSame (leave closing end) (hang_up closing (client_left end))
unfolding leave hang_up pick
leave-IsSame closing none = (refl, refl)
leave-IsSame closing (some s) = (
  refl,
  ap (◌∷◌ disconnect) (pick_each as_client mqtt (λ x. refl) (handle_all closing s.client).1),
)

serve-IsSame :
    (w : Watchdog) (e : Session) (s : MainState)
    → All IsQuiet e.turns
    → IsSame
        (serve w e s)
        (coo_mqtt_run e.greeting (map (λ t. t.process) e.turns) e.closing s.client)
unfolding serve coo_mqtt_run pick
serve-IsSame w e s q =
    let greeted = (handle_all e.greeting s.client).1 in
    let s0 : MainState = record s { client = (handle_all e.greeting s.client).0 } in
    let loop = inner_loop w e.turns s0 in
    let (end, out) = inner_loop-same w e.turns s0 q in
    let (left, last) = leave-IsSame e.closing loop.0 in
    (
      left ∙ ap (λ x. (hang_up e.closing x).0) end,
      ap (◌∷◌ (coo_mqtt_subscribe s.client)) (
          pick-append as_client (map mqtt greeted) _
          ∙ ap₂ (λ x y. x ++ y) (pick_each as_client mqtt (λ x. refl) greeted)
              (pick-append as_client loop.1 _
                ∙ ap₂ (λ x y. x ++ y) out (last ∙ ap (λ x. (hang_up e.closing x).1) end))),
    )

-- The part of a round of `main` from the subscription on is `coo_mqtt_run` with publications and feedings
-- in between: if `mqtt_publish` reports no events, and `mqtt_subscribe` and `mqtt_disconnect` report the
-- same events in both, the client makes the same calls over the same turns of `coo_mqtt_process`, and is
-- left in the same state, or neither ends. The feedings are those of `feed_periodically` in some number
-- of turns from the first, and the publications, with their ids, are those of one draining of all that
-- the outbound queue gives in these turns.
pub serve-coo_mqtt_run :
    (w : Watchdog) (e : Session) (s : MainState)
    → All IsQuiet e.turns
    → (client_left (serve w e s).0
        ≡ (coo_mqtt_run e.greeting (map (λ t. t.process) e.turns) e.closing s.client).0)
      × (pick as_client (serve w e s).1
          ≡ (coo_mqtt_run e.greeting (map (λ t. t.process) e.turns) e.closing s.client).1)
      × IsRunBy w e.turns s (serve w e s).1
serve-coo_mqtt_run w e s q =
    let (left, calls) = serve-IsSame w e s q in (left, calls, serve-IsRunBy w e s)
