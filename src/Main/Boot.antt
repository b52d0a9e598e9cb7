-- ===== src/Main/Boot.antt =====
-- app/src/main.c: `main`, from its start to its endless loop, which is that of Main/Sessions.
pub mod Start
use hispec_tib.Prelude.{
  ◌&&◌, ◌==◌, is_one, ℕ, ℤ, pos, Bool, true, false, not, List, [], ◌∷◌, ◌++◌, Option, none, some,
  if◌then◌else◌, is_zero,
}
use hispec_tib.CString.{CString, text, strcmp_eq}
use hispec_tib.Board.{Doubles}
use hispec_tib.Devices.{Tib}
use hispec_tib.Commons.Network.{Stack, Network, coo_network_init, neg, enetdown, wait_forever}
use hispec_tib.Commons.Mqtt.{MqttClient, coo_mqtt_add_subscription}
use hispec_tib.Commons.Mqtt.Setup.{Resolved, ClientConfig, coo_mqtt_init}
use hispec_tib.Main.{boot_devices}
use hispec_tib.Main.Watchdog.{WatchdogAnswers, Watchdog, no_watchdog, watchdog_init}
use hispec_tib.Main.Sessions.{Session, MainCall, MainState, main_loop}

-- What the kernel answers while `main` starts. `online k` is `network_online` at the k-th test.
pub record BootAnswers : Type 0 where
  pub watchdog : WatchdogAnswers
  pub gpio_ready : Bool
  pub gpio_dev : ℕ
  pub settings_rc : ℤ
  pub stack : Stack
  pub online : ℕ → Bool
  pub resolved : Resolved

-- What `main` starts besides itself, in order.
pub data Started : Type 0 where
  settings_load executor_thread photodiode_work : Started

-- The globals that `main` sets up.
pub record Globals (D : Type 0) : Type 0 where
  pub tib : Tib D
  pub network : Network
  pub client : MqttClient
  pub client_ctx : ClientConfig
  pub started : List Started

-- How the part before the loop ends: it still waits for the network, `main` returns, or it goes on to
-- the loop with the watchdog.
pub data Booted (D : Type 0) : Type 0 where
  waits : Booted D
  returns : ℤ → Globals D → Booted D
  loops : Watchdog → Globals D → Booted D

pub data MainEnd : Type 0 where
  waiting : MainEnd
  returned : ℤ → MainEnd
  looping : Option MainState × List MainCall → MainEnd

-- MQTT_CMD_PREFIX "#"
abbrev pub cmd_topics : CString
cmd_topics = text "cmd/hsfib-tib/req/#"

-- `settings_subsys_init` and `settings_load`.
unfoldable pub load_settings : ℤ → List Started
load_settings rc = if is_zero rc then settings_load ∷ [] else []

-- The calls after `coo_mqtt_init` has succeeded; QoS 2 is MQTT_QOS_2_EXACTLY_ONCE. The result of
-- `coo_mqtt_add_subscription` is ignored.
unfoldable pub subscribe_commands : MqttClient → MqttClient
subscribe_commands c = record (coo_mqtt_add_subscription cmd_topics 2 c).1 { user_mqtt_cb = true }

-- `setting_handler`, a stub, with what it prints. `read_cb` answers how many bytes it has read, and the byte
-- in `val`.
unfoldable setting_handler : CString → ℕ → ℤ × ℕ → ℤ × List ℕ
setting_handler name len (read, val) =
    (pos 0, if strcmp_eq name (text "foo") && (len == 1) && is_one read then val ∷ [] else [])

module _ {D : Type 0} (fp : Doubles D) where
  -- From `coo_mqtt_init` to the loop.
  unfoldable pub start_mqtt : BootAnswers → Globals D → Booted D
  unfolding subscribe_commands
  start_mqtt a g =
      let (rc, ctx) = coo_mqtt_init a.resolved (text "hsfib-tib") g.client_ctx in
      if not (is_zero rc)
      then returns rc (record g { client_ctx = ctx })
      else loops (watchdog_init a.watchdog no_watchdog).1 (record g {
        client_ctx = ctx;
        client = subscribe_commands g.client;
        started = g.started ++ (executor_thread ∷ photodiode_work ∷ []);
      })

  -- `main` up to its loop. What `devices_ready`, `conn_mgr_all_if_up`, `coo_network_init` and
  -- `coo_network_wait_ready` return is not used. Without a timeout the wait tests until the network is
  -- up, here at most `fuel` times.
  unfoldable pub boot : ℕ → BootAnswers → Globals D → Booted D
  unfolding start_mqtt load_settings boot_devices
  boot fuel a g =
      let g' : Globals D = record g {
        tib = boot_devices fp a.gpio_ready a.gpio_dev g.tib;
        started = g.started ++ load_settings a.settings_rc;
      } in
      if not a.stack.iface then returns (neg enetdown) g' else elim (wait_forever a.online fuel 0) [
        | none ↦ waits
        | some k ↦
            start_mqtt a (record g' { network = (coo_network_init a.stack false g'.network).1 })
      ]

  -- `main`: it waits, or returns, or its loop does what it does over the given sessions. `msg_id` starts
  -- at 1 and `last_wdt_feed` at 0.
  unfoldable pub main : ℕ → BootAnswers → List Session → Globals D → MainEnd
  main fuel a es g = elim (boot fuel a g) [
    | waits ↦ waiting
    | returns rc g' ↦ returned rc
    | loops w g' ↦
        looping (main_loop w es (record { client = g'.client; msg_id = 1; last_wdt_feed = 0 }))
  ]
