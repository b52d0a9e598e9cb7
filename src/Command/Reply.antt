-- ===== src/Command/Reply.antt =====
-- app/src/command.c: `_msg_builder` and the answers with a fixed text.
use hispec_tib.Prelude.{
  ℕ, Bool, ◌&&◌, List, Option, none, some, ltb, if◌then◌else◌, length, take, replicate,
}
use hispec_tib.CString.{CString, text, memcpy}
use hispec_tib.Command.Types.{
  Command, OutMsg, MsgType, resp_error, max_topic_len, max_correlation_data,
}

abbrev default_topic : CString
default_topic = text "cmd/hsfib-tib/resp"

-- The topic of the answer: the command's response topic, if it is there and fits.
unfoldable pub reply_topic : Option Command → CString
reply_topic none = take 63 default_topic
reply_topic (some cmd) =
    if ltb 0 (length cmd.response_topic) && ltb (length cmd.response_topic) max_topic_len
    then take 63 cmd.response_topic
    else take 63 default_topic

-- Whether the correlation data is echoed.
unfoldable echoes : Option Command → Bool
echoes none = Bool.false
echoes (some cmd) = ltb 0 cmd.corr_len && ltb cmd.corr_len max_correlation_data

-- The buffer and the length of the echoed correlation data.
unfoldable pub reply_correlation : Option Command → List ℕ × ℕ
unfolding echoes
reply_correlation none = (replicate max_correlation_data 0, 0)
reply_correlation (some cmd) =
    if echoes (some cmd)
    then (memcpy (replicate max_correlation_data 0) cmd.correlation_data cmd.corr_len, cmd.corr_len)
    else (replicate max_correlation_data 0, 0)

-- `_msg_builder`; a null command is `none`. QoS 1 is MQTT_QOS_1_AT_LEAST_ONCE.
unfoldable pub msg_builder : Option Command → MsgType → CString → OutMsg
unfolding reply_topic reply_correlation
msg_builder cmd typ msg = record {
  msg_type = typ;
  topic = reply_topic cmd;
  qos = 1;
  payload_len = length msg;
  payload = take 255 msg;
  correlation_data = (reply_correlation cmd).0;
  corr_len = (reply_correlation cmd).1;
}

-- `snprintf(payload, MAX_PAYLOAD_LEN, ...)`: the text that fits before the NUL.
unfoldable pub snprintf_payload : CString → CString
snprintf_payload s = take 255 s

unfoldable pub invalid_command_response : Command → OutMsg
unfolding msg_builder
invalid_command_response cmd =
    msg_builder (some cmd) resp_error (text "{\"error\":\"Invalid or unrecognized command\"}")

unfoldable pub unknown_response : Command → OutMsg
unfolding msg_builder
unknown_response cmd = msg_builder (some cmd) resp_error (text "{\"error\":\"Unknown request\"}")

unfoldable pub unsupported_response : Command → OutMsg
unfolding msg_builder
unsupported_response cmd =
    msg_builder (some cmd) resp_error (text "{\"error\":\"Unsupported operation\"}")

unfoldable pub busy_response : Command → OutMsg
unfolding msg_builder
busy_response cmd = msg_builder (some cmd) resp_error (text "{\"error\":\"busy\"}")
