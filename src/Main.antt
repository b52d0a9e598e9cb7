-- ===== src/Main.antt =====
-- app/src/main.c: the handler of received commands, the executor thread and the publisher.
pub mod Decode
pub mod Reception
pub mod Publishing
pub mod System
pub mod Watchdog
pub mod Sessions
pub mod Boot
use hispec_tib.Prelude.{
  ℕ, suc, ◌+◌, ◌%◌, ◌^◌, Bool, true, false, ◌&&◌, ◌||◌, not, List, [], ◌∷◌, Option, none, some, ltb,
  leb, ◌==◌, if◌then◌else◌, length, drop, set, replicate,
}
use hispec_tib.CString.{CString, text, c_string, memcpy, strncmp_eq}
use hispec_tib.Board.{Json, Env}
use hispec_tib.MsgQueue.{MsgQueue}
use hispec_tib.Board.{Doubles}
use hispec_tib.Devices.{Tib, setup_mems_switches_and_routes, setup_attenuators}
use hispec_tib.Command.{dispatch_command}
use hispec_tib.Command.Types.{
  Command, OutMsg, MsgType, max_key_len, max_payload_len, max_topic_len, max_correlation_data,
}
use hispec_tib.Command.Reply.{invalid_command_response, busy_response}
use hispec_tib.Command.Keys.{parse_msg_type_from_payload}

-- `MQTT_CMD_PREFIX`, and its length
abbrev pub mqtt_cmd_prefix : CString
mqtt_cmd_prefix = text "cmd/hsfib-tib/req/"

abbrev pub prefix_len : ℕ
prefix_len = 18

-- What the handler reads of `struct mqtt_publish_param`. `topic` is the memory from the topic's
-- first byte on, which the handler reads as a string; a null response topic is `none`.
pub record Publish : Type 0 where
  pub topic : List ℕ
  pub payload : List ℕ
  pub response_topic : Option (List ℕ)
  pub correlation_data : List ℕ

-- `struct Command cmd = { 0 }`
unfoldable pub empty_command : Command
empty_command = record {
  msg_type = MsgType.get;
  key = [];
  response_topic = [];
  payload_len = 0;
  payload = replicate max_payload_len 0;
  correlation_data = replicate max_correlation_data 0;
  corr_len = 0;
}

-- What the handler does with a message: drop it, answer at once, or queue the command.
pub data Verdict : Type 0 where
  ignore : Verdict
  refuse : Command → Verdict
  accept : Command → Verdict

unfoldable pub with_key : Command → CString → Command
with_key cmd suffix = record cmd { key = suffix }

unfoldable pub with_payload : Command → List ℕ → Command
with_payload cmd bytes = record cmd {
  payload = set (memcpy cmd.payload bytes (length bytes)) (length bytes) 0;
}

unfoldable pub with_correlation : Command → List ℕ → Command
with_correlation cmd bytes =
    if ltb 0 (length bytes) && ltb (length bytes) max_correlation_data
    then record cmd {
      correlation_data = memcpy cmd.correlation_data bytes (length bytes);
      corr_len = length bytes;
    }
    else cmd

-- From the response topic on.
unfoldable pub decode_reply : Publish → Command → Verdict
unfolding with_correlation
decode_reply pub' cmd = elim pub'.response_topic [
  | none ↦ refuse cmd
  | some r ↦
      if not (ltb (length r) max_topic_len)
      then refuse cmd
      else accept
          (with_correlation (record cmd { response_topic = c_string r }) pub'.correlation_data)
]

-- From the payload on.
unfoldable pub decode_payload : {D : Type 0} → Json D → Publish → Command → Verdict
unfolding with_payload decode_reply
decode_payload json pub' cmd =
    if leb max_payload_len (length pub'.payload)
    then ignore
    else (let filled = with_payload cmd pub'.payload in
        let (typ, worked) = parse_msg_type_from_payload json filled.payload in
        elim typ [
          | none ↦ refuse (record filled { payload = worked })
          | some t ↦ decode_reply pub' (record filled { msg_type = t; payload = worked })
        ])

-- The checks of `mqtt_command_handler`, in order.
unfoldable pub decode : {D : Type 0} → Json D → Publish → Verdict
unfolding with_key decode_payload
decode json pub' =
    let topic = c_string pub'.topic in
    let suffix = drop prefix_len topic in
    if not (strncmp_eq prefix_len topic mqtt_cmd_prefix)
    then ignore
    else if length suffix == 0 || leb max_key_len (length suffix)
    then refuse empty_command
    else decode_payload json pub' (with_key empty_command suffix)

-- `k_msgq_put(&outbound_queue, &r, K_NO_WAIT)` with the result ignored: a full queue drops `r`.
unfoldable pub put_or_drop : {O : Type 0} → MsgQueue O OutMsg → O → OutMsg → O
put_or_drop outq o r = elim (outq.put o r) [ none ↦ o | some o' ↦ o' ]

module _ {D I O : Type 0} (env : Env D) (inq : MsgQueue I Command) (outq : MsgQueue O OutMsg) where
  unfoldable pub mqtt_command_handler : Publish → I → O → I × O
  mqtt_command_handler pub' i o = elim (decode env.json pub') [
    | ignore ↦ (i, o)
    | refuse cmd ↦ (i, put_or_drop outq o (invalid_command_response cmd))
    | accept cmd ↦ elim (inq.put i cmd) [
      | none ↦ (i, put_or_drop outq o (busy_response cmd))
      | some i' ↦ (i', o)
    ]
  ]

module _ {D I : Type 0} (env : Env D) (inq : MsgQueue I Command) where
  -- The first half of a round of `executor_thread_fn`: `none` while the queue is empty and it waits.
  unfoldable pub executor_fetch : I → Tib D → Option (OutMsg × I × Tib D)
  executor_fetch i tib = elim (inq.get i) [
    | none ↦ none
    | some (cmd, i') ↦ some ((dispatch_command env cmd tib).0, i', (dispatch_command env cmd tib).1)
  ]

-- What `main` does to the globals before the threads start.
unfoldable pub boot_devices : {D : Type 0} → Doubles D → Bool → ℕ → Tib D → Tib D
boot_devices fp gpio_ready gpio_dev tib =
    setup_attenuators fp (setup_mems_switches_and_routes gpio_ready gpio_dev tib)

-- A message as `mqtt_publish` is given it, with the id of the main loop's counter.
pub record Published : Type 0 where
  pub message_id : ℕ
  pub msg : OutMsg

-- The inner loop of `main`, with the messages that it takes from the queue as a list: what is
-- published, and the counter `msg_id`, a `uint16_t`.
unfoldable pub drain : ℕ → List OutMsg → List Published × ℕ
drain msg_id [] = ([], msg_id)
drain msg_id (om ∷ rest) =
    let (sent, last) = drain ((msg_id + 1) % 2 ^ 16) rest in
    (record { message_id = msg_id; msg = om } ∷ sent, last)
