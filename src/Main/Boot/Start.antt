-- ===== src/Main/Boot/Start.antt =====
-- How `main` starts, and what it does from then on.
use hispec_tib.Prelude.{
  ℕ, zero, suc, ◌+◌, ◌<◌, ◌≡◌, refl, sym, ◌⊎◌, inl, inr, ℤ, pos, negsuc, true, false, List, [], ◌∷◌,
  ◌++◌, Option, none, some, arith, is_zero, Bool-cases, subst,
}
use hispec_tib.CString.{text}
use hispec_tib.Board.{Doubles}
use hispec_tib.Commons.Network.Waiting.{wait_forever-found}
use hispec_tib.Commons.Network.{coo_network_init, neg, enetdown, wait_forever}
use hispec_tib.Commons.Mqtt.{MqttTopic, coo_mqtt_add_subscription}
use hispec_tib.Commons.Mqtt.Setup.{coo_mqtt_init}
use hispec_tib.Main.{boot_devices}
use hispec_tib.Main.Watchdog.{Watchdog, no_watchdog, watchdog_init}
use hispec_tib.Main.Sessions.{Session, MainCall, MainState, main_loop}
use hispec_tib.Main.Sessions.Calls.{apart}
use hispec_tib.Main.Sessions.Discipline.{Whole, main_loop-Whole}
use hispec_tib.Main.Boot.{
  BootAnswers, executor_thread, photodiode_work, Globals, Booted, waits, returns, loops, MainEnd,
  waiting, returned, looping, cmd_topics, load_settings, subscribe_commands, start_mqtt, boot, main,
}

zero_of : (z : ℤ) → is_zero z ≡ true → z ≡ pos 0
zero_of (pos zero) h = refl
zero_of (pos (suc n)) h = cc
zero_of (negsuc n) h = cc

-- The topic filter that `main` subscribes to, with QoS 2.
abbrev pub commands : MqttTopic
commands = record { utf8 = cmd_topics; size = 19; qos = 2 }

module _ {D : Type 0} (fp : Doubles D) (a : BootAnswers) (g : Globals D) where
  -- The globals after a start that gets as far as the loop.
  pub record IsStarted (w : Watchdog) (g' : Globals D) : Type 0 where
    pub board : g'.tib ≡ boot_devices fp a.gpio_ready a.gpio_dev g.tib
    pub guard : w ≡ (watchdog_init a.watchdog no_watchdog).1
    pub network : g'.network.user_event_cb ≡ false
    pub topics : g'.client.subscriptions ≡ commands ∷ []
    pub callback : g'.client.user_mqtt_cb ≡ true
    pub threads :
        g'.started
        ≡ (g.started ++ load_settings a.settings_rc) ++ (executor_thread ∷ photodiode_work ∷ [])

  -- A return before the loop: no thread has been started, but the board is set up.
  pub record IsGivenUp (g' : Globals D) : Type 0 where
    pub board : g'.tib ≡ boot_devices fp a.gpio_ready a.gpio_dev g.tib
    pub client : g'.client ≡ g.client
    pub threads : g'.started ≡ g.started ++ load_settings a.settings_rc

  abbrev pub Starts : ℕ → Booted D → Type 0
  Starts fuel waits = (a.stack.iface ≡ true) × ((n : ℕ) → n < fuel → a.online n ≡ false)
  Starts fuel (returns rc g') =
      IsGivenUp g'
      × (((a.stack.iface ≡ false) × (rc ≡ neg enetdown))
          ⊎ ((a.stack.iface ≡ true)
              × (rc ≡ (coo_mqtt_init a.resolved (text "hsfib-tib") g.client_ctx).0)
              × (is_zero rc ≡ false)))
  Starts fuel (loops w g') =
      IsStarted w g'
      × (a.stack.iface ≡ true)
      × ((n : ℕ) × (a.online n ≡ true))
      × ((coo_mqtt_init a.resolved (text "hsfib-tib") g.client_ctx).0 ≡ pos 0)

  abbrev board_up : Globals D
  board_up = record g {
    tib = boot_devices fp a.gpio_ready a.gpio_dev g.tib;
    started = g.started ++ load_settings a.settings_rc;
  }

  -- After `coo_network_init(NULL)`.
  abbrev net_up : Globals D
  net_up = record board_up { network = (coo_network_init a.stack false g.network).1 }

  no_event_cb : (coo_network_init a.stack false g.network).1.user_event_cb ≡ false
  unfolding coo_network_init
  no_event_cb = ground arith

  subscribed :
      g.client.subscriptions ≡ [] → (subscribe_commands g.client).subscriptions ≡ commands ∷ []
  unfolding subscribe_commands coo_mqtt_add_subscription
  subscribed e = ground (arith, e)

  start_mqtt-Starts :
      (fuel n : ℕ)
      → a.stack.iface ≡ true
      → a.online n ≡ true
      → g.client.subscriptions ≡ []
      → Starts fuel (start_mqtt fp a net_up)
  unfolding start_mqtt
  start_mqtt-Starts fuel n i up e =
      let rc = (coo_mqtt_init a.resolved (text "hsfib-tib") g.client_ctx).0 in
      elim (Bool-cases (is_zero rc)) [
        | inr bad ↦
            rw bad (record { board = refl; client = refl; threads = refl }, inr (i, refl, bad))
        | inl ok ↦ rw ok (
          record {
            board = refl;
            guard = refl;
            network = no_event_cb;
            topics = subscribed e;
            callback = refl;
            threads = refl;
          },
          i,
          (n, up),
          zero_of rc ok,
        )
      ]

  boot_refused :
      (fuel : ℕ) → a.stack.iface ≡ false → boot fp fuel a g ≡ returns (neg enetdown) board_up
  unfolding boot
  boot_refused fuel i = ground (arith, i)

  boot_waits :
      (fuel : ℕ)
      → a.stack.iface ≡ true
      → wait_forever a.online fuel 0 ≡ none
      → boot fp fuel a g ≡ waits
  unfolding boot
  boot_waits fuel i e = ground (arith, i, e)

  boot_online :
      (fuel m : ℕ)
      → a.stack.iface ≡ true
      → wait_forever a.online fuel 0 ≡ some m
      → boot fp fuel a g ≡ start_mqtt fp a net_up
  unfolding boot
  boot_online fuel m i e = ground (arith, i, e)

  -- If no topic has been added yet, the start of `main` ends in one of four ways. Without an interface it
  -- returns -ENETDOWN. With one, it waits as long as the network is not up at any test. Then it returns
  -- the error of `coo_mqtt_init`, if there is one, and else goes on to the loop: subscribed to the
  -- topics of the commands and to nothing else, with the callback for messages set and none for the
  -- network's events, and with executor and photodiode work started. Where it returns, these are not
  -- started, and the client is as before. The board is set up in either case.
  pub boot-Starts : (fuel : ℕ) → g.client.subscriptions ≡ [] → Starts fuel (boot fp fuel a g)
  boot-Starts fuel e = elim (Bool-cases a.stack.iface) [
    | inr no_iface ↦
        subst (Starts fuel) (sym (boot_refused fuel no_iface))
          (record { board = refl; client = refl; threads = refl }, inl (no_iface, refl))
    | inl i ↦ elim (wait_forever-found a.online fuel 0) [
      | inl (n, off) ↦ subst (Starts fuel) (sym (boot_waits fuel i n)) (
        i,
        λ k h. let same : 0 + k ≡ k = omega arith in subst (λ x. a.online x ≡ false) same (off k h),
      )
      | inr (m, f, up) ↦
          subst (Starts fuel) (sym (boot_online fuel m i f)) (start_mqtt-Starts fuel m i up e)
    ]
  ]

  ends-Whole :
      (fuel : ℕ) (es : List Session) (out : Option MainState × List MainCall) (b : Booted D)
      → Starts fuel b
      → (elim b as (λ x. MainEnd) [
        | waits ↦ waiting
        | returns rc g' ↦ returned rc
        | loops w g' ↦
            looping (main_loop w es (record { client = g'.client; msg_id = 1; last_wdt_feed = 0 }))
      ])
        ≡ looping out
      → Whole (commands ∷ []) apart 1 out
  ends-Whole fuel es out waits st m = cc
  ends-Whole fuel es out (returns rc g') st m = cc
  ends-Whole fuel es out (loops w g') st m =
      let s : MainState = record { client = g'.client; msg_id = 1; last_wdt_feed = 0 } in
      let same : main_loop w es s ≡ out = cc in
      subst (Whole (commands ∷ []) apart 1) same
        (main_loop-Whole (commands ∷ []) w es s st.0.topics)

  -- Whatever the broker and the library do, the calls of `main` from its loop on are well ordered, if no
  -- topic was added before. A session starts with a call of `mqtt_connect`; this may be repeated, and
  -- `main` aborts and sleeps only after it and before the subscription. Then it subscribes, once and only
  -- to the topics of the commands, and then publishes and feeds the watchdog until it disconnects, and the
  -- next session starts. So it does not subscribe before it has called `mqtt_connect` in the session, and
  -- publishes nothing before the subscription or after the end of a session. Acknowledgements and the
  -- callback for messages may come at any time. The ids of the messages count from 1 on modulo 65536,
  -- over all sessions.
  pub main-Whole :
      (fuel : ℕ) (es : List Session) (out : Option MainState × List MainCall)
      → g.client.subscriptions ≡ []
      → main fp fuel a es g ≡ looping out
      → Whole (commands ∷ []) apart 1 out
  unfolding main
  main-Whole fuel es out e m = ends-Whole fuel es out (boot fp fuel a g) (boot-Starts fuel e) m
