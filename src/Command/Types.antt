-- ===== src/Command/Types.antt =====
-- app/src/command.h: commands, outgoing messages and the sizes of their buffers.
use hispec_tib.Prelude.{ℕ, List}
use hispec_tib.CString.{CString}

abbrev pub max_topic_len : ℕ
max_topic_len = 64

abbrev pub max_key_len : ℕ
max_key_len = 48

-- CONFIG_COO_MQTT_PAYLOAD_SIZE of app/prj.conf
abbrev pub max_payload_len : ℕ
max_payload_len = 256

abbrev pub max_correlation_data : ℕ
max_correlation_data = 16

abbrev max_pending_commands : ℕ
max_pending_commands = 2

-- `GET`, `SET`, `ACK`, `RESP_OK`, `RESP_ERROR`
pub data MsgType : Type 0 where
  get set ack resp_ok resp_error : MsgType

-- `key` and `response_topic` are strings; `payload` and `correlation_data` are whole buffers. Nothing
-- writes or reads `session_id`.
pub record Command : Type 0 where
  pub msg_type : MsgType
  pub key : CString
  pub response_topic : CString
  pub payload_len : ℕ
  pub payload : List ℕ
  pub correlation_data : List ℕ
  pub corr_len : ℕ

-- `topic` and `payload` are strings, `correlation_data` is a whole buffer.
pub record OutMsg : Type 0 where
  pub msg_type : MsgType
  pub topic : CString
  pub qos : ℕ
  pub payload_len : ℕ
  pub payload : CString
  pub correlation_data : List ℕ
  pub corr_len : ℕ
