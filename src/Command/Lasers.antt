-- ===== src/Command/Lasers.antt =====
-- app/src/command.c: the handlers of the key "laser".
use hispec_tib.Prelude.{ℕ, ◌++◌, none, some, ◌==◌, if◌then◌else◌, is_neg}
use hispec_tib.CString.{CString, text, format_hd}
use hispec_tib.Board.{Env}
use hispec_tib.Devices.{Tib}
use hispec_tib.Maiman.{maiman_get_register_address, maiman_read_u16, maiman_write_u16}
use hispec_tib.Command.Types.{Command, OutMsg, resp_ok, resp_error}
use hispec_tib.Command.Reply.{msg_builder, snprintf_payload}
use hispec_tib.Command.Keys.{parse_key_pair, pair, after_prefix, get_laser_channel, laser_unknown}
use hispec_tib.Command.Power.{json_bytes, power_up}

module _ {D : Type 0} (env : Env D) where
  -- From the channel on, once the key is parsed: read the register and answer with its value.
  unfoldable pub read_setting : Command → CString → CString → Tib D → OutMsg × Tib D
  read_setting cmd laser_name setting tib =
      let node_id = get_laser_channel (after_prefix env.drivers.stack laser_name) in
      if node_id == laser_unknown
      then (msg_builder (some cmd) resp_error (text "{\"error\":\"Invalid laser\"}"), tib)
      else elim (maiman_get_register_address setting) [
        | none ↦
            (msg_builder (some cmd) resp_error (text "{\"error\":\"Invalid laser setting\"}"), tib)
        | some addr ↦
            let (value, h) =
              maiman_read_u16 env.drivers node_id addr (power_up env.drivers tib.history) in
            (
              elim value [
                | none ↦
                    msg_builder (some cmd) resp_error
                      (text "{\"error\":\"get_driver_setting failed\"}")
                | some v ↦ msg_builder (some cmd) resp_ok (
                    snprintf_payload
                      (text "{\"" ++ (setting ++ (text "\":" ++ (format_hd v ++ text "}")))))
              ],
              record tib { history = h },
            )
      ]

  unfoldable pub laser_setting_get : Command → Tib D → OutMsg × Tib D
  unfolding read_setting
  laser_setting_get cmd tib = elim (parse_key_pair cmd.key 15 15) [
    | pair laser_name setting ↦ read_setting cmd laser_name setting tib
    | _ ↦ (
      msg_builder (some cmd) resp_error (text "{\"error\":\"Failed to parse laser/setting\"}"),
      tib,
    )
  ]

  -- From the channel on, once the key and the value are parsed: write the register.
  unfoldable pub write_setting : Command → CString → CString → ℕ → Tib D → OutMsg × Tib D
  write_setting cmd laser_name setting value tib =
      let node_id = get_laser_channel (after_prefix env.drivers.stack laser_name) in
      if node_id == laser_unknown
      then (msg_builder (some cmd) resp_error (text "{\"error\":\"Invalid laser\"}"), tib)
      else elim (maiman_get_register_address setting) [
        | none ↦
            (msg_builder (some cmd) resp_error (text "{\"error\":\"Invalid laser setting\"}"), tib)
        | some addr ↦
            let (sent, h) =
              maiman_write_u16 env.drivers node_id addr value (power_up env.drivers tib.history) in
            (
              if sent
                  then msg_builder (some cmd) resp_ok (text "{\"status\":\"OK\"}")
                  else msg_builder (some cmd) resp_error
                      (text "{\"error\":\"set_driver_setting failed\"}"),
              record tib { history = h },
            )
      ]

  unfoldable pub laser_setting_set : Command → Tib D → OutMsg × Tib D
  unfolding write_setting
  laser_setting_set cmd tib = elim (parse_key_pair cmd.key 15 15) [
    | pair laser_name setting ↦
        let in_data = env.json.value_uint16 (json_bytes cmd) in
        if is_neg in_data.rc
        then (msg_builder (some cmd) resp_error (text "{\"error\":\"Missing setting value\"}"), tib)
        else write_setting cmd laser_name setting in_data.value tib
    | _ ↦ (
      msg_builder (some cmd) resp_error (text "{\"error\":\"Failed to parse laser/setting\"}"),
      tib,
    )
  ]
