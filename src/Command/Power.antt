-- ===== src/Command/Power.antt =====
-- app/src/command.c: the power switch of the lasers, and the handlers "power", "status", "sleep".
use hispec_tib.Prelude.{
  ℕ, Bool, true, false, not, List, ◌∷◌, ◌++◌, some, if◌then◌else◌, take, is_neg, is_one,
}
use hispec_tib.CString.{CString, text}
use hispec_tib.Board.{Env, Drivers, History, power_get, power_set, sleep}
use hispec_tib.Devices.{Tib}
use hispec_tib.Command.Types.{Command, OutMsg, resp_ok, resp_error}
use hispec_tib.Command.Reply.{msg_builder, snprintf_payload}

unfoldable power_enabled : Drivers → History → Bool × History
power_enabled drivers h = (is_one (drivers.power_level h), power_get ∷ h)

-- An error of the driver is logged only.
unfoldable enable_power : Drivers → History → Bool × History
unfolding power_enabled
enable_power drivers h =
    let (on, h') = power_enabled drivers h in if on then (false, h') else (true, power_set 1 ∷ h')

unfoldable disable_power : Drivers → History → Bool × History
unfolding power_enabled
disable_power drivers h =
    let (on, h') = power_enabled drivers h in
    if not on then (false, h') else (true, power_set 0 ∷ h')

unfoldable wait_laser_boot : History → History
wait_laser_boot h = sleep 1000 ∷ h

-- `if (enable_power()) wait_laser_boot();`
unfoldable pub power_up : Drivers → History → History
unfolding enable_power wait_laser_boot
power_up drivers h =
    let (switched, h') = enable_power drivers h in if switched then wait_laser_boot h' else h'

abbrev pub power_text : Bool → CString
power_text on =
    snprintf_payload
      (text "{\"power\":" ++ ((if on then text "true" else text "false") ++ text "}"))

-- What the parser is given: the first `payload_len` bytes of the payload.
abbrev pub json_bytes : Command → List ℕ
json_bytes cmd = take cmd.payload_len cmd.payload

module _ {D : Type 0} (env : Env D) where
  unfoldable pub status_get : Command → Tib D → OutMsg × Tib D
  unfolding power_enabled
  status_get cmd tib =
      let (on, h) = power_enabled env.drivers tib.history in
      (msg_builder (some cmd) resp_ok (power_text on), record tib { history = h })

  unfoldable pub power_handler_get : Command → Tib D → OutMsg × Tib D
  unfolding power_enabled
  power_handler_get cmd tib =
      let (on, h) = power_enabled env.drivers tib.history in
      (msg_builder (some cmd) resp_ok (power_text on), record tib { history = h })

  unfoldable pub power_handler_set : Command → Tib D → OutMsg × Tib D
  unfolding enable_power disable_power
  power_handler_set cmd tib =
      let args = env.json.value_bool (json_bytes cmd) in
      if is_neg args.rc
      then (msg_builder (some cmd) resp_error (text "{\"error\":\"Missing setting value\"}"), tib)
      else (let h =
            if args.value
            then (enable_power env.drivers tib.history).1
            else (disable_power env.drivers tib.history).1 in
          (
            msg_builder (some cmd) resp_error (text "{\"status\":\"OK\"}"),
            record tib { history = h },
          ))

  unfoldable pub sleep_set : Command → Tib D → OutMsg × Tib D
  unfolding disable_power
  sleep_set cmd tib =
      let args = env.json.value_bool (json_bytes cmd) in
      if is_neg args.rc
      then (msg_builder (some cmd) resp_error (text "{\"error\":\"Missing setting value\"}"), tib)
      else (let h = if args.value then (disable_power env.drivers tib.history).1 else tib.history in
          (
            msg_builder (some cmd) resp_error (text "{\"status\":\"OK\"}"),
            record tib { history = h },
          ))
