-- ===== src/Command/Texts.antt =====
-- What the handlers answer is a JSON text.
pub mod Routes
pub mod Readings
pub mod Handlers
use hispec_tib.Prelude.{
  ℕ, ◌≤◌, ◌≡◌, refl, ◌⊎◌, inl, inr, Bool, true, false, List, Option, some, none, arith, length,
  take, take_all, length-take, Bool-cases, All,
}
use hispec_tib.CString.{text, CString}
use hispec_tib.Board.{Env}
use hispec_tib.Devices.{Tib}
use hispec_tib.Grammar.{IsJson, IsPlain, all_plain, flag}
use hispec_tib.Grammar.Notes.{is_note, note-IsJson, one_member-IsJson}
use hispec_tib.Command.Types.{Command, OutMsg, MsgType, resp_ok, resp_error}
use hispec_tib.Command.Reply.{
  msg_builder, snprintf_payload, unknown_response, unsupported_response, invalid_command_response,
  busy_response,
}
use hispec_tib.Command.Power.{
  power_handler_get, power_handler_set, status_get, sleep_set, power_text,
}

abbrev pub SaysJson : OutMsg → Type 0
SaysJson m = IsJson m.payload

module _ (cmd : Command) where
  pub text-SaysJson :
      (typ : MsgType) (msg : CString)
      → IsJson msg
      → length msg ≤ 255
      → SaysJson (msg_builder (some cmd) typ msg)
  unfolding msg_builder
  text-SaysJson typ msg j h = rw (take_all 255 msg h) j

  pub note-SaysJson :
      (typ : MsgType) (msg : CString)
      → is_note msg ≡ true
      → length msg ≤ 255
      → SaysJson (msg_builder (some cmd) typ msg)
  note-SaysJson typ msg n h = text-SaysJson typ msg (note-IsJson msg n) h

  pub printed-SaysJson :
      (typ : MsgType) (msg : CString)
      → IsJson msg
      → length msg ≤ 255
      → SaysJson (msg_builder (some cmd) typ (snprintf_payload msg))
  unfolding snprintf_payload
  printed-SaysJson typ msg j h = rw (take_all 255 msg h) (text-SaysJson typ msg j h)

  pub fixed-SaysJson :
      SaysJson (unknown_response cmd)
      × SaysJson (unsupported_response cmd)
      × SaysJson (invalid_command_response cmd)
      × SaysJson (busy_response cmd)
  unfolding unknown_response unsupported_response invalid_command_response busy_response is_note
  fixed-SaysJson = (
    note-SaysJson resp_error (text "{\"error\":\"Unknown request\"}") refl (omega arith),
    note-SaysJson resp_error (text "{\"error\":\"Unsupported operation\"}") refl (omega arith),
    note-SaysJson resp_error (text "{\"error\":\"Invalid or unrecognized command\"}") refl
        (omega arith),
    note-SaysJson resp_error (text "{\"error\":\"busy\"}") refl (omega arith),
  )

  power_text-SaysJson : (on : Bool) → SaysJson (msg_builder (some cmd) resp_ok (power_text on))
  unfolding all_plain
  power_text-SaysJson true =
      printed-SaysJson resp_ok (text "{\"power\":true}")
        (one_member-IsJson _ (text "power") (text "true") refl refl (flag (inl refl))) (omega arith)
  power_text-SaysJson false =
      printed-SaysJson resp_ok (text "{\"power\":false}")
        (one_member-IsJson _ (text "power") (text "false") refl refl (flag (inr refl)))
        (omega arith)

module _ {D : Type 0} (env : Env D) (cmd : Command) (tib : Tib D) where
  pub power-SaysJson :
      SaysJson (power_handler_get env cmd tib).0 × SaysJson (power_handler_set env cmd tib).0
  unfolding power_handler_get power_handler_set is_note
  power-SaysJson = (power_text-SaysJson cmd _, grind (arith, note-SaysJson))

  pub status-SaysJson : SaysJson (status_get env cmd tib).0 × SaysJson (sleep_set env cmd tib).0
  unfolding status_get sleep_set is_note
  status-SaysJson = (power_text-SaysJson cmd _, grind (arith, note-SaysJson))
