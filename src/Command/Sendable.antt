-- ===== src/Command/Sendable.antt =====
-- What every answer of `dispatch_command` looks like.
use hispec_tib.Prelude.{
  ℕ, ◌≤◌, ◌<◌, ◌≡◌, refl, ◌⊎◌, inl, inr, Bool, Option, some, none, arith, length, take, take_all,
  length-take, ◌&&◌, ltb, Bool-cases,
}
use hispec_tib.CString.{text, CString}
use hispec_tib.Board.{Env}
use hispec_tib.Devices.{Tib}
use hispec_tib.Command.Types.{Command, OutMsg, max_topic_len, MsgType, resp_ok, resp_error}
use hispec_tib.Command.Reply.{
  msg_builder, snprintf_payload, reply_topic, reply_correlation, unknown_response,
  unsupported_response,
}
use hispec_tib.Command.Power.{power_handler_get, power_handler_set, status_get, sleep_set}
use hispec_tib.Mems.{mems_router_active_routes, mems_router_max_routes}
use hispec_tib.Attenuator.{Attenuator}
use hispec_tib.Command.Mems.{
  memsroute_get, memsroute_set, mems_get, mems_set, answer, Outcome, all_set, no_switch, failed,
  set_failed_text,
}
use hispec_tib.Command.Mems.Json.{routes_text, routes_json_lem}
use hispec_tib.Command.{dispatch_command}
use hispec_tib.Command.Table.{
  by_type_both, no_row, memsroute, mems, laser, power, atten, status, sleep, Row-of,
  dispatch_no_row, dispatch_memsroute, dispatch_mems, dispatch_laser, dispatch_power,
  dispatch_atten, dispatch_status, dispatch_sleep,
}
use hispec_tib.Command.Lasers.{laser_setting_get, laser_setting_set, read_setting, write_setting}
use hispec_tib.Command.Attens.{
  atten_setting_get, atten_setting_set, answer_get, set_coeffs, set_value, update_atten,
}

-- An answer to a command: its text is whole and fits the buffer with its NUL, so do topic and
-- correlation data, and it is addressed to the one who asked.
pub record IsSendable (cmd : Command) (m : OutMsg) : Type 0 where
  pub whole : m.payload_len ≡ length m.payload
  pub fits : m.payload_len ≤ 255
  pub topic_fits : length m.topic ≤ 63
  pub corr_fits : m.corr_len < 16
  pub to : m.topic ≡ reply_topic (some cmd)
  pub echo : (m.correlation_data, m.corr_len) ≡ reply_correlation (some cmd)
  pub reply : (m.msg_type ≡ resp_ok) ⊎ (m.msg_type ≡ resp_error)

abbrev given : Command → Bool
given cmd = ltb 0 (length cmd.response_topic) && ltb (length cmd.response_topic) max_topic_len

length-reply_topic : (cmd : Command) → length (reply_topic (some cmd)) ≤ 63
unfolding reply_topic
length-reply_topic cmd = elim (Bool-cases (given cmd)) [
  | inl e ↦ rw e (omega (arith, length-take 63 cmd.response_topic))
  | inr e ↦ rw e (omega arith)
]

corr_len-lt : (cmd : Command) → (reply_correlation (some cmd)).1 < 16
unfolding reply_correlation
corr_len-lt cmd = ground arith

msg_builder-IsSendable :
    (cmd : Command) (typ : MsgType) (msg : CString)
    → (typ ≡ resp_ok) ⊎ (typ ≡ resp_error)
    → length msg ≤ 255
    → IsSendable cmd (msg_builder (some cmd) typ msg)
unfolding msg_builder
msg_builder-IsSendable cmd typ msg t h = record {
  whole = rw (take_all 255 msg h);
  fits = h;
  topic_fits = length-reply_topic cmd;
  corr_fits = corr_len-lt cmd;
  to = refl;
  echo = refl;
  reply = t;
}

error-IsSendable :
    (cmd : Command) (msg : CString)
    → length msg ≤ 255
    → IsSendable cmd (msg_builder (some cmd) resp_error msg)
error-IsSendable cmd msg h = msg_builder-IsSendable cmd resp_error msg (inr refl) h

ok-IsSendable :
    (cmd : Command) (msg : CString)
    → length msg ≤ 255
    → IsSendable cmd (msg_builder (some cmd) resp_ok msg)
ok-IsSendable cmd msg h = msg_builder-IsSendable cmd resp_ok msg (inl refl) h

snprintf-IsSendable :
    (cmd : Command) (msg : CString)
    → IsSendable cmd (msg_builder (some cmd) resp_ok (snprintf_payload msg))
unfolding snprintf_payload
snprintf-IsSendable cmd msg = ok-IsSendable cmd (take 255 msg) (omega (arith, length-take 255 msg))

failed-IsSendable :
    (cmd : Command) (msg : CString)
    → IsSendable cmd (msg_builder (some cmd) resp_error (snprintf_payload msg))
unfolding snprintf_payload
failed-IsSendable cmd msg = error-IsSendable cmd (take 255 msg) (omega (arith, length-take 255 msg))

unknown-IsSendable : (cmd : Command) → IsSendable cmd (unknown_response cmd)
unfolding unknown_response
unknown-IsSendable cmd = error-IsSendable cmd (text "{\"error\":\"Unknown request\"}") (omega arith)

unsupported-IsSendable : (cmd : Command) → IsSendable cmd (unsupported_response cmd)
unfolding unsupported_response
unsupported-IsSendable cmd =
    error-IsSendable cmd (text "{\"error\":\"Unsupported operation\"}") (omega arith)

module _ {D : Type 0} (env : Env D) (cmd : Command) (tib : Tib D) where
  abbrev Ok : OutMsg × Tib D → Type 0
  Ok out = IsSendable cmd out.0

  power-Ok : Ok (power_handler_get env cmd tib) × Ok (power_handler_set env cmd tib)
  unfolding power_handler_get power_handler_set
  power-Ok = (snprintf-IsSendable cmd _, grind (arith, error-IsSendable))

  status-Ok : Ok (status_get env cmd tib) × Ok (sleep_set env cmd tib)
  unfolding status_get sleep_set
  status-Ok = (snprintf-IsSendable cmd _, grind (arith, error-IsSendable))

  answer-Ok : (outcome : Outcome) → IsSendable cmd (answer env cmd outcome)
  unfolding answer
  answer-Ok all_set = ok-IsSendable cmd (text "{\"status\":\"OK\"}") (omega arith)
  answer-Ok no_switch =
      error-IsSendable cmd (text "{\"error\":\"Internal route error\"}") (omega arith)
  answer-Ok (failed s) = failed-IsSendable cmd (set_failed_text s)

  memsroute_set-Ok : Ok (memsroute_set env cmd tib)
  unfolding memsroute_set
  memsroute_set-Ok = grind (arith, error-IsSendable, answer-Ok)

  memsroute_get-Ok : Ok (memsroute_get env cmd tib)
  unfolding memsroute_get
  memsroute_get-Ok =
      let keys = mems_router_active_routes tib.router tib.mems_switches mems_router_max_routes in
      ground (
        arith,
        routes_json_lem keys,
        ok-IsSendable cmd (routes_text keys),
        error-IsSendable cmd (text "{\"error\":\"overflow building JSON\"}"),
      )

  mems-Ok : Ok (mems_get env cmd tib) × Ok (mems_set env cmd tib)
  unfolding mems_get mems_set
  mems-Ok = (
    grind (arith, error-IsSendable, snprintf-IsSendable),
    grind (arith, error-IsSendable, ok-IsSendable),
  )

  read_setting-Ok : (name setting : CString) → Ok (read_setting env cmd name setting tib)
  unfolding read_setting
  read_setting-Ok name setting = grind (arith, error-IsSendable, snprintf-IsSendable)

  write_setting-Ok :
      (name setting : CString) (v : ℕ) → Ok (write_setting env cmd name setting v tib)
  unfolding write_setting
  write_setting-Ok name setting v = grind (arith, error-IsSendable, ok-IsSendable)

  laser-Ok : Ok (laser_setting_get env cmd tib) × Ok (laser_setting_set env cmd tib)
  unfolding laser_setting_get laser_setting_set
  laser-Ok = (
    grind (arith, error-IsSendable, read_setting-Ok),
    grind (arith, error-IsSendable, write_setting-Ok),
  )

  answer_get-Ok :
      (setting : CString) (a : Option (Attenuator D))
      → IsSendable cmd (answer_get env cmd setting a)
  unfolding answer_get
  answer_get-Ok setting none =
      error-IsSendable cmd (text "{\"error\":\"Invalid attenuator\"}") (omega arith)
  answer_get-Ok setting (some a) = grind (arith, error-IsSendable, snprintf-IsSendable)

  set_coeffs-Ok : (i : ℕ) (a : Attenuator D) → Ok (set_coeffs env cmd i a tib)
  unfolding set_coeffs
  set_coeffs-Ok i a = grind (arith, error-IsSendable, ok-IsSendable)

  set_value-Ok : (i : ℕ) (a : Attenuator D) (raw : Bool) → Ok (set_value env cmd i a raw tib)
  unfolding set_value
  set_value-Ok i a raw = grind (arith, error-IsSendable, ok-IsSendable)

  update_atten-Ok :
      (i : ℕ) (setting : CString) (a : Option (Attenuator D))
      → Ok (update_atten env cmd i setting a tib)
  unfolding update_atten
  update_atten-Ok i setting none =
      error-IsSendable cmd (text "{\"error\":\"Invalid attenuator\"}") (omega arith)
  update_atten-Ok i setting (some a) = grind (arith, error-IsSendable, set_coeffs-Ok, set_value-Ok)

  atten-Ok : Ok (atten_setting_get env cmd tib) × Ok (atten_setting_set env cmd tib)
  unfolding atten_setting_get atten_setting_set
  atten-Ok = (
    grind (arith, error-IsSendable, answer_get-Ok),
    grind (arith, error-IsSendable, update_atten-Ok),
  )

  -- Every answer of `dispatch_command`, whatever the command and the state, says the length of its
  -- text, which is at most 255; its topic has at most 63 bytes and its correlation data less than
  -- 16, and both are those of a reply to the command; and its type is OK or error.
  pub dispatch-IsSendable : IsSendable cmd (dispatch_command env cmd tib).0
  dispatch-IsSendable = elim (Row-of env cmd.key) [
    | no_row e ↦ rw (dispatch_no_row env cmd tib e) (unknown-IsSendable cmd)
    | memsroute e ↦
        rw (dispatch_memsroute env cmd tib e)
          (by_type_both Ok cmd.msg_type _ _ memsroute_get-Ok memsroute_set-Ok)
    | mems e ↦
        rw (dispatch_mems env cmd tib e) (by_type_both Ok cmd.msg_type _ _ mems-Ok.0 mems-Ok.1)
    | laser e ↦
        rw (dispatch_laser env cmd tib e) (by_type_both Ok cmd.msg_type _ _ laser-Ok.0 laser-Ok.1)
    | power e ↦
        rw (dispatch_power env cmd tib e) (by_type_both Ok cmd.msg_type _ _ power-Ok.0 power-Ok.1)
    | atten e ↦
        rw (dispatch_atten env cmd tib e) (by_type_both Ok cmd.msg_type _ _ atten-Ok.0 atten-Ok.1)
    | status e ↦
        rw (dispatch_status env cmd tib e)
          (by_type_both Ok cmd.msg_type _ _ status-Ok.0 (unsupported-IsSendable cmd))
    | sleep e ↦
        rw (dispatch_sleep env cmd tib e)
          (by_type_both Ok cmd.msg_type _ _ (unsupported-IsSendable cmd) status-Ok.1)
  ]
