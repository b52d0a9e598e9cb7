-- ===== src/Commons/Json.antt =====
-- include/coo_commons/json_utils.h and lib/coo_commons/json_utils.c: the parser of commands that is
-- written by hand, with `strtof` as a parameter, and the functions around Zephyr's JSON library.
pub mod Parse
pub mod Agree
use hispec_tib.Prelude.{
  ℕ, ◌+◌, ◌||◌, ℤ, pos, negsuc, is_neg, drop, ◌++◌, Bool, true, false, List, [], ◌∷◌, Option, none,
  some, length, leb, ◌==◌, if◌then◌else◌,
}
use hispec_tib.CString.{CString, text, split_at, before, strncasecmp_eq}
use hispec_tib.Board.{Json}

-- What follows the prefix.
unfoldable pub strip_prefix : CString → CString → Option CString
strip_prefix [] s = some s
strip_prefix (x ∷ p) [] = none
strip_prefix (x ∷ p) (y ∷ s) = let rest = strip_prefix p s in if x == y then rest else none

-- What follows the first occurrence: `strstr(s, p)`, and the length of `p` added to it.
unfoldable pub strstr_after : CString → CString → Option CString
unfolding strip_prefix
strstr_after p [] = strip_prefix p []
strstr_after p (x ∷ s) =
    let later = strstr_after p s in
    elim (strip_prefix p (x ∷ s)) [ some rest ↦ some rest | none ↦ later ]

-- -EINVAL and -ENOMEM, or 0 with the command, and the value if it is asked for.
pub data ParsedCommand (F : Type 0) : Type 0 where
  invalid no_memory : ParsedCommand F
  parsed : CString → Option F → ParsedCommand F

module _ {F : Type 0} (strtof : CString → F) (zero_f : F) where
  unfoldable pub value_of : CString → Bool → Option F
  unfolding strstr_after
  value_of json_str wanted =
      if wanted
      then some (elim (strstr_after (text "\"value\":") json_str) [
        | some rest ↦ strtof rest
        | none ↦ zero_f
      ])
      else none

  -- `wanted` is whether `value_out` is not null.
  unfoldable pub coo_json_parse_command : CString → ℕ → Bool → ParsedCommand F
  unfolding strstr_after value_of
  coo_json_parse_command json_str cmd_size wanted =
      elim (strstr_after (text "\"cmd\":\"") json_str) [
        | none ↦ invalid
        | some cmd_start ↦ elim (split_at b'"' cmd_start) [
          | none ↦ invalid
          | some (cmd, rest) ↦
              if leb cmd_size (length cmd) then no_memory else parsed cmd (value_of json_str wanted)
        ]
      ]

-- `enum coo_msg_type`
pub data CooMsgType : Type 0 where
  coo_msg_get coo_msg_set coo_msg_resp_ok coo_msg_resp_error : CooMsgType

-- The result, with what is written to `msg_type_out`, and the payload after the parser has worked in it.
unfoldable pub coo_json_parse_msg_type :
    {D : Type 0} → Json D → CString → Option CooMsgType → Bool × Option CooMsgType × CString
coo_json_parse_msg_type json payload msg_type_out =
    let parsed = json.msg_type payload in
    let (name, worked) = parsed.value in
    if is_neg parsed.rc
    then (false, msg_type_out, worked)
    else if strncasecmp_eq 4 name (text "get")
    then (true, some coo_msg_get, worked)
    else if strncasecmp_eq 4 name (text "set")
    then (true, some coo_msg_set, worked)
    else (false, msg_type_out, worked)

-- The result, and the strings in `out_name` and `out_setting`, which are written on the way.
unfoldable pub coo_json_parse_key_pair : CString → CString → ℕ → CString → ℕ → ℤ × CString × CString
coo_json_parse_key_pair key out_name max_name out_setting max_setting = elim (split_at b'/' key) [
  | none ↦ (negsuc 0, out_name, out_setting)
  | some (name, setting_start) ↦
      if length name == 0 || leb max_name (length name)
      then (negsuc 1, out_name, out_setting)
      else if length (before b'/' setting_start) == 0
          || leb max_setting (length (before b'/' setting_start))
      then (negsuc 2, name, out_setting)
      else (pos 0, name, before b'/' setting_start)
]

-- `struct coo_telemetry_msg`
pub record TelemetryMsg (F : Type 0) : Type 0 where
  pub timestamp : ℤ
  pub device_id : CString
  pub temperature : F
  pub status : ℤ

-- `telemetry_descr`: the fields' names, with what the encoder is to make of them.
pub data TelemetryField (F : Type 0) : Type 0 where
  number_field : CString → ℤ → TelemetryField F
  string_field : CString → CString → TelemetryField F
  float_field : CString → F → TelemetryField F

unfoldable telemetry_fields : {F : Type 0} → TelemetryMsg F → List (TelemetryField F)
telemetry_fields m =
    number_field (text "timestamp") m.timestamp
    ∷ string_field (text "device_id") m.device_id
    ∷ float_field (text "temperature") m.temperature
    ∷ number_field (text "status") m.status
    ∷ []

-- `json_obj_encode_buf` is a parameter: the fields and the buffer's size, to the result and the text.
unfoldable coo_json_encode_telemetry :
    {F : Type 0} → (List (TelemetryField F) → ℕ → ℤ × CString) → TelemetryMsg F → ℕ → ℤ × CString
unfolding telemetry_fields
coo_json_encode_telemetry json_obj_encode_buf msg buf_size =
    let (ret, buf) = json_obj_encode_buf (telemetry_fields msg) buf_size in
    if is_neg ret then (ret, buf) else (ret, buf)
