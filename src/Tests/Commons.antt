-- ===== src/Tests/Commons.antt =====
-- The libraries of lib/coo_commons at concrete inputs.
use hispec_tib.Prelude.{
  none, ℕ, zero, suc, ◌+◌, ◌-◌, ◌*◌, ◌≡◌, refl, ℤ, pos, negsuc, Bool, true, false, List, [], ◌∷◌,
  Option, some, arith, ltb, All, leb,
}
use hispec_tib.CString.{c_string, CString, text}
use hispec_tib.Commons.Pid.{Arithmetic, Use, reset, set_gains, update, coo_pid_init, limit, run}
use hispec_tib.FloatOrder.{IsWithin}
use hispec_tib.Tests.{nat_order}
use hispec_tib.Commons.Pid.Limits.{IsLimited, run-IsWithin}
use hispec_tib.Commons.Network.{
  coo_network_wait_ready, wait_until, Sent, bytes, errno, eagain, coo_net_send_retry, SocketAnswers,
  coo_net_tcp_socket_create, coo_net_udp_socket_create,
}
use hispec_tib.Commons.Network.Waiting.{
  Waited, coo_network_wait_ready-Waited, Retried, coo_net_send_retry-Retried,
}
use hispec_tib.Commons.Network.Sockets.{OwnsSocket, socket_create-OwnsSocket}
use hispec_tib.Commons.Mqtt.{
  MqttClient, MqttEvent, connack, pubrec, publish, Round, handle_all, coo_mqtt_connect,
}
use hispec_tib.Commons.Mqtt.Due.{IsHandled}
use hispec_tib.Commons.Mqtt.Events.{handle_all-IsHandled}
use hispec_tib.Commons.Mqtt.Connect.{Connects, coo_mqtt_connect-Connects}
use hispec_tib.Prelude.{◌<◌, ◌↔◌, length}
use hispec_tib.CString.{split_at}
use hispec_tib.Commons.Json.{parsed, coo_json_parse_command}
use hispec_tib.Tests.{json}
use hispec_tib.Command.Keys.{parse_key_pair, parse_msg_type_from_payload}
use hispec_tib.Commons.Json.{coo_json_parse_msg_type, coo_json_parse_key_pair}
use hispec_tib.Commons.Json.Agree.{SameType, SamePair, parsers_agree}
use hispec_tib.Commons.Json.Parse.{HasCommand, HasValue, coo_json_parse_command_iff}

abbrev request : CString
request = text "{\"cmd\":\"go\",\"value\":5}"

parse_command_runs : coo_json_parse_command length 0 request 8 true ≡ parsed (text "go") (some 2)
unfolding coo_json_parse_command split_at
parse_command_runs = refl

-- The length of what is left stands for `strtof`.
coo_json_parse_command_iff_example :
    (coo_json_parse_command length 0 request 8 true ≡ parsed (text "go") (some 2))
    ↔ (HasCommand request (text "go") × (2 < 8) × HasValue length 0 request true (some 2))
coo_json_parse_command_iff_example =
    coo_json_parse_command_iff length 0 request 8 true (text "go") (some 2)

-- The library's parser finds the type and the pair that the application's finds.
parsers_agree_example :
    SameType none
      (parse_msg_type_from_payload json (text "set")).0
      (coo_json_parse_msg_type json (text "set") none)
    × SamePair [] []
        (parse_key_pair (text "mems/a") 15 15)
        (coo_json_parse_key_pair (text "mems/a") [] 15 [] 15)
unfolding c_string
parsers_agree_example = parsers_agree json (text "set") none (text "mems/a") [] [] 15 15 refl

-- Whole numbers from 0 on, in place of `float`.
abbrev whole : Arithmetic ℕ
whole = record {
  zero_f = 0;
  add = λ a b. a + b;
  sub = λ a b. a - b;
  mul = λ a b. a * b;
  div = λ a b. a;
  less = ltb;
}

-- A large error, twice: the outputs stop at the maximum.
abbrev uses : List (Use ℕ)
uses = update 90 10 1 ∷ reset ∷ set_gains 1 0 0 ∷ update 14 10 1 ∷ []

run_runs : (run whole uses (coo_pid_init whole 2 1 0 0 100)).0 ≡ 100 ∷ 4 ∷ []
unfolding run coo_pid_init limit
run_runs = refl

run-IsWithin_example :
    All (IsWithin nat_order 0 100) (run whole uses (coo_pid_init whole 2 1 0 0 100)).0
    × IsLimited whole nat_order 0 100 (run whole uses (coo_pid_init whole 2 1 0 0 100)).1
run-IsWithin_example = run-IsWithin whole nat_order 2 1 0 0 100 uses refl (refl, refl)

-- The network is up from the third test on.
abbrev third : ℕ → Bool
third k = leb 2 k

wait_runs : ◌≡◌ {A = Option (ℤ × ℕ)} (coo_network_wait_ready third third 12 1000) (some (pos 0, 2))
unfolding coo_network_wait_ready wait_until
wait_runs = refl

coo_network_wait_ready-Waited_example :
    Waited third third 1000 (coo_network_wait_ready third third 12 1000)
coo_network_wait_ready-Waited_example =
    coo_network_wait_ready-Waited third third 12 1000 (omega arith) (omega arith) (omega arith)

-- Busy once, then the whole buffer is sent.
abbrev second : ℕ → Sent
second zero = errno eagain
second (suc k) = bytes 20

coo_net_send_retry-Retried_example : Retried second 0 3 (coo_net_send_retry second 3)
coo_net_send_retry-Retried_example = coo_net_send_retry-Retried second 3

-- The port is in use: error 112.
abbrev in_use : SocketAnswers
in_use = record { socket_fd = some 5; bind_ok = false; listen_ok = true; errno_then = 112 }

socket_create-OwnsSocket_example :
    OwnsSocket 5 (coo_net_tcp_socket_create in_use 80 true)
    × OwnsSocket 5 (coo_net_udp_socket_create in_use 80)
socket_create-OwnsSocket_example = socket_create-OwnsSocket in_use 5 80 true refl (omega arith)

abbrev client : MqttClient
client = record { mqtt_connected = false; nfds = 0; user_mqtt_cb = true; subscriptions = [] }

abbrev events : List MqttEvent
events =
    connack (pos 0)
    ∷ publish (record { message_id = 7; qos = 2; topic = text "t"; read = some (1 ∷ []) })
    ∷ pubrec (pos 0) 3
    ∷ []

handle_all-IsHandled_example : IsHandled events client (handle_all events client)
handle_all-IsHandled_example = handle_all-IsHandled events client

-- The broker is not there at first.
abbrev rounds : List Round
rounds =
    record { connect_rc = negsuc 0; poll_rc = pos 0; input = []; aborted = [] }
    ∷ record { connect_rc = pos 0; poll_rc = pos 1; input = connack (pos 0) ∷ []; aborted = [] }
    ∷ []

coo_mqtt_connect-Connects_example : Connects rounds (coo_mqtt_connect rounds client)
coo_mqtt_connect-Connects_example = coo_mqtt_connect-Connects rounds client
