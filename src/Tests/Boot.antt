-- ===== src/Tests/Boot.antt =====
-- The start of `main` and a session with the broker, at concrete answers of the kernel.
use hispec_tib.Prelude.{map, ℕ, ◌≡◌, refl, pos, List, [], ◌∷◌, true, false, Option, none, some, leb}
use hispec_tib.CString.{text}
use hispec_tib.Commons.Mqtt.{
  MqttClient, MqttCall, connect, subscribe, disconnect, qos2_receive, callback, MqttEvent, connack,
  suback, publish, disconnected, Round, handle_all, prepare_fds, coo_mqtt_connect, connect_loop,
  await_connack, coo_mqtt_process, coo_mqtt_run, mqtt_event_handler, on_mqtt_connect,
  on_mqtt_disconnect, coo_mqtt_add_subscription, acknowledge, on_mqtt_publish,
}
use hispec_tib.Commons.Mqtt
use hispec_tib.Commons.Mqtt.Setup.{
  Resolved, ClientConfig, configure_client, coo_mqtt_init, Configured, coo_mqtt_init-Configured,
}
use hispec_tib.Commons.Network.{wait_forever}
use hispec_tib.Command.Types.{OutMsg, resp_ok}
use hispec_tib.Devices.{zeroed}
use hispec_tib.Main.Watchdog.{watchdog_init, configure_watchdog}
use hispec_tib.Main.Watchdog.Feeding.{armed}
use hispec_tib.Main.Sessions.{
  Turn, Session, Outgoing, MainCall, MainState, main_loop, session, serve, leave, inner_loop,
  main_turn, publish_all, feed_if_due,
}
use hispec_tib.Main.Sessions.Calls.{apart}
use hispec_tib.Main.Sessions.Discipline.{Whole}
use hispec_tib.Main.Sessions.Turns.{IsRunBy}
use hispec_tib.Main.Sessions.Picked.{pick, as_client}
use hispec_tib.Main.Sessions.Run.{client_left, serve-coo_mqtt_run}
use hispec_tib.Main.Boot.{
  BootAnswers, Globals, looping, main, boot, start_mqtt, subscribe_commands, load_settings,
}
use hispec_tib.Main.Boot.Start.{commands, Starts, boot-Starts, main-Whole}
use hispec_tib.Tests.{millivolts}

-- A client that nothing has been set in.
abbrev unset : ClientConfig
unset = record {
  broker = record { s_addr = 0; sin_port = 0 };
  client_id = [];
  client_id_size = 0;
  has_broker = false;
  has_evt_cb = false;
  has_password = false;
  has_user_name = false;
  protocol_version = 0;
  rx_buf_size = 0;
  tx_buf_size = 0;
  secure = false;
}

abbrev found : Resolved
found = record { rc = pos 0; result = some (record { s_addr = 17; sin_port = 1883 }) }

-- The network is up at the third test.
abbrev answers : BootAnswers
answers = record {
  watchdog = record { device = some 7; ready = true; install_rc = pos 2; setup_rc = pos 0 };
  gpio_ready = true;
  gpio_dev = 0;
  settings_rc = pos 0;
  stack = record { iface = true; if_up_rc = pos 0 };
  online = leb 2;
  resolved = found;
}

abbrev globals : Globals ℕ
globals = record {
  tib = zeroed millivolts;
  network = record { network_online = false; user_event_cb = true; told = [] };
  client = record { mqtt_connected = false; nfds = 0; user_mqtt_cb = false; subscriptions = [] };
  client_ctx = unset;
  started = [];
}

boot-Starts_example : Starts millivolts answers globals 5 (boot millivolts 5 answers globals)
boot-Starts_example = boot-Starts millivolts answers globals 5 refl

coo_mqtt_init-Configured_example :
    Configured found (text "tib") unset (coo_mqtt_init found (text "tib") unset)
coo_mqtt_init-Configured_example =
    coo_mqtt_init-Configured found (text "tib") unset (cc, (cc, (cc, tt)))

-- The id that the next message is to have, if the loop goes on.
abbrev next_id : Option MainState × List MainCall → Option ℕ
next_id (none, out) = none
next_id (some s, out) = some s.msg_id

abbrev answer : OutMsg
answer = record {
  msg_type = resp_ok;
  topic = text "me";
  qos = 0;
  payload_len = 2;
  payload = text "{}";
  correlation_data = [];
  corr_len = 0;
}

abbrev quiet : Mqtt.Reported
quiet = record { rc = pos 0; events = [] }

-- A turn in which the events are reported.
abbrev turn : ℕ → List MqttEvent → List Outgoing → Turn
turn now events outbox = record {
  clock = record { checked = now; fed = now };
  outbox = outbox;
  process = record {
    poll_rc = pos 1;
    pollin = true;
    pollhup_or_err = false;
    input = record { rc = pos 0; events = events };
    live = quiet;
  };
}

-- The broker accepts the connection, takes an answer, sends a command, and hangs up.
abbrev meeting : Session
meeting = record {
  rounds =
      record { connect_rc = pos 0; poll_rc = pos 1; input = connack (pos 0) ∷ []; aborted = [] }
      ∷ [];
  greeting = suback (pos 0) ∷ [];
  turns =
      turn 900 [] (record { msg = answer; reported = [] } ∷ [])
      ∷ turn 1800
          (publish (record { message_id = 5; qos = 2; topic = text "cmd"; read = none }) ∷ []) []
      ∷ turn 2000 (disconnected ∷ []) (record { msg = answer; reported = [] } ∷ [])
      ∷ [];
  closing = [];
}

-- The client as the start leaves it.
abbrev begun : MainState
begun = record {
  client = record {
    mqtt_connected = false;
    nfds = 0;
    user_mqtt_cb = true;
    subscriptions = commands ∷ [];
  };
  msg_id = 1;
  last_wdt_feed = 0;
}

abbrev meetings : List Session
meetings = meeting ∷ meeting ∷ []

abbrev result : Option MainState × List MainCall
result = main_loop (armed 7 (pos 2)) meetings begun

main_meets : main millivolts 5 answers meetings globals ≡ looping result
unfolding main boot start_mqtt subscribe_commands load_settings wait_forever watchdog_init
    configure_watchdog coo_mqtt_init configure_client coo_mqtt_add_subscription
main_meets = refl

main-Whole_example : Whole (commands ∷ []) apart 1 result
main-Whole_example = main-Whole millivolts answers globals 5 meetings result refl main_meets

-- Four messages in two sessions.
four_messages : next_id result ≡ some 5
unfolding main_loop session serve leave inner_loop main_turn publish_all feed_if_due
    coo_mqtt_connect connect_loop await_connack coo_mqtt_process handle_all mqtt_event_handler
    on_mqtt_connect on_mqtt_disconnect prepare_fds acknowledge on_mqtt_publish
four_messages = refl

serve-coo_mqtt_run_example :
    (client_left (serve (armed 7 (pos 2)) meeting begun).0
      ≡ (coo_mqtt_run meeting.greeting
          (map (λ t. t.process) meeting.turns)
          meeting.closing
          begun.client).0)
    × (pick as_client (serve (armed 7 (pos 2)) meeting begun).1
        ≡ (coo_mqtt_run meeting.greeting
            (map (λ t. t.process) meeting.turns)
            meeting.closing
            begun.client).1)
    × IsRunBy (armed 7 (pos 2)) meeting.turns begun (serve (armed 7 (pos 2)) meeting begun).1
serve-coo_mqtt_run_example =
    serve-coo_mqtt_run (armed 7 (pos 2)) meeting begun ((refl, tt), (tt, ((refl, tt), tt)))
