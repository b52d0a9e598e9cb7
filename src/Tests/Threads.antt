-- ===== src/Tests/Threads.antt =====
-- Messages and threads at concrete inputs.
use hispec_tib.Prelude.{ℕ, ◌≡◌, refl, List, [], ◌∷◌, ◌++◌, none, some, arith, replicate}
use hispec_tib.CString.{text, c_string, strncmp_eq, strncasecmp_eq, tolower}
use hispec_tib.MsgQueue.{list_queue, list_put, list_get}
use hispec_tib.Command.{dispatch_command}
use hispec_tib.Command.Types.{Command, OutMsg, set}
use hispec_tib.Command.Keys.{parse_msg_type_from_payload}
use hispec_tib.Command.Reply.{busy_response}
use hispec_tib.Main.{
  Publish, accept, decode, with_correlation, empty_command, mqtt_command_handler, executor_fetch,
}
use hispec_tib.Main.Decode.{Accepted, decode-Accepted}
use hispec_tib.Main.System.{System, Step, receive, fetch, Reach, here, next, newly_accepted}
use hispec_tib.Main.System.Serial.{IsSerial, Reach-IsSerial}
use hispec_tib.Main.System.Bounds.{IsOrderly, Reach-IsOrderly}
use hispec_tib.Main.System.Untouched.{IsUntouched, Reach-IsUntouched}
use hispec_tib.Tests.{env, json, board, json-RejectsEmpty, command}
use hispec_tib.Main.System.Drain.{AllAnswered, Reach-AllAnswered}
use hispec_tib.Main.Reception.{Received, mqtt_command_handler-Received}
use hispec_tib.Main.System.Order.{IsInOrder, Reach-IsInOrder}

-- A request to set the route, with correlation data.
abbrev request : Publish
request = record {
  topic = text "cmd/hsfib-tib/req/memsroute";
  payload = text "set";
  response_topic = some (text "me");
  correlation_data = 9 ∷ [];
}

abbrev taken : Command
taken = record (command set (text "memsroute") 0 (text "set" ++ (0 ∷ replicate 252 0))) {
  corr_len = 1;
}

decode_runs : decode json request ≡ accept taken
unfolding decode with_correlation empty_command replicate parse_msg_type_from_payload c_string
    strncmp_eq strncasecmp_eq tolower
decode_runs = refl

decode-Accepted_example : Accepted json request taken
decode-Accepted_example = decode-Accepted json request taken decode_runs

mqtt_command_handler-Received_example :
    Received env
      (list_queue Command 2)
      (list_queue OutMsg 8)
      request
      []
      []
      (mqtt_command_handler env (list_queue Command 2) (list_queue OutMsg 8) request [] [])
mqtt_command_handler-Received_example =
    mqtt_command_handler-Received env (list_queue Command 2) (list_queue OutMsg 8) request [] []

abbrev answer : OutMsg
answer = busy_response taken

abbrev State : Type 0
State = System ℕ (List Command) (List OutMsg) (List OutMsg)

abbrev pub start : State
start = record {
  tib = board;
  inbound = [];
  outbound = [];
  samples = [];
  holding = none;
  msg_id = 1;
  accepted = [];
  answered = [];
  published = [];
}

abbrev received : State
received = record start { inbound = taken ∷ []; accepted = taken ∷ [] }

abbrev pub fetched : State
fetched = record received {
  inbound = [];
  tib = (dispatch_command env taken board).1;
  holding = some (dispatch_command env taken board).0;
}

abbrev Steps : State → State → Type 0
Steps = Step env (list_queue Command 2) (list_queue OutMsg 8) (list_queue OutMsg 4)

arrival : Steps start received
unfolding mqtt_command_handler newly_accepted decode with_correlation empty_command replicate
    parse_msg_type_from_payload c_string strncmp_eq strncasecmp_eq tolower list_put
arrival = receive request refl

service : Steps received fetched
unfolding executor_fetch list_get
service =
    fetch (dispatch_command env taken board).0 [] (dispatch_command env taken board).1 refl refl
      refl

-- The request arrives, and the executor serves it.
pub served_request :
    Reach env (list_queue Command 2) (list_queue OutMsg 8) (list_queue OutMsg 4) start fetched
served_request = next (next here arrival) service

-- A command waits; the executor has not served it yet.
waiting_request :
    Reach env (list_queue Command 2) (list_queue OutMsg 8) (list_queue OutMsg 4) start received
waiting_request = next here arrival

Reach-AllAnswered_example :
    AllAnswered env
      (list_queue Command 2)
      (list_queue OutMsg 8)
      (list_queue OutMsg 4)
      board
      received
Reach-AllAnswered_example =
    Reach-AllAnswered env (list_queue Command 2) (list_queue OutMsg 8) (list_queue OutMsg 4) start
      received (record { free = refl; empty = refl; none_accepted = refl; none_answered = refl })
      (omega arith) waiting_request

Reach-IsInOrder_example : IsInOrder (dispatch_command env taken board).1
Reach-IsInOrder_example =
    Reach-IsInOrder env (list_queue Command 2) (list_queue OutMsg 8) (list_queue OutMsg 4) 0 start
      fetched refl served_request

Reach-IsSerial_example :
    IsSerial env (list_queue Command 2) (list_queue OutMsg 8) (list_queue OutMsg 4) board fetched
Reach-IsSerial_example =
    Reach-IsSerial env (list_queue Command 2) (list_queue OutMsg 8) (list_queue OutMsg 4) start
      fetched (record { free = refl; empty = refl; none_accepted = refl; none_answered = refl })
      served_request

Reach-IsOrderly_example :
    IsOrderly env (list_queue Command 2) (list_queue OutMsg 8) (list_queue OutMsg 4) 1 fetched
Reach-IsOrderly_example =
    Reach-IsOrderly env (list_queue Command 2) (list_queue OutMsg 8) (list_queue OutMsg 4) start
      fetched (omega arith) refl served_request

Reach-IsUntouched_example : IsUntouched board (dispatch_command env taken board).1
Reach-IsUntouched_example =
    Reach-IsUntouched env (list_queue Command 2) (list_queue OutMsg 8) (list_queue OutMsg 4)
      json-RejectsEmpty start fetched refl served_request
