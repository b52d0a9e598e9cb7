-- ===== src/Command.antt =====
-- app/src/command.c: the dispatch table, and the dispatch of a command to its handler.
pub mod Types
pub mod Reply
pub mod Keys
pub mod Power
pub mod Mems
pub mod Lasers
pub mod Attens
pub mod Table
pub mod Reach
pub mod Inert
pub mod Valid
pub mod Sendable
pub mod Texts
use hispec_tib.Prelude.{ℕ, List, [], ◌∷◌, Option, none, some, if◌then◌else◌}
use hispec_tib.CString.{CString, text, strcmp_eq}
use hispec_tib.Board.{Env}
use hispec_tib.Devices.{Tib}
use Types.{Command, OutMsg, MsgType, get, set, ack, resp_ok, resp_error}
use Reply.{unknown_response, unsupported_response}
use Power.{power_handler_get, power_handler_set, status_get, sleep_set}
use Mems.{memsroute_get, memsroute_set, mems_get, mems_set}
use Lasers.{laser_setting_get, laser_setting_set}
use Attens.{atten_setting_get, atten_setting_set}

module _ (D : Type 0) where
  -- `DispatchFunc`, over the globals of devices.c
  abbrev pub DispatchFunc : Type 0
  DispatchFunc = Command → Tib D → OutMsg × Tib D

  -- A null handler is `none`.
  pub record DispatchEntry : Type 0 where
    pub key : CString
    pub get_handler : Option DispatchFunc
    pub set_handler : Option DispatchFunc

module _ {D : Type 0} (env : Env D) where
  abbrev entry : CString → Option (DispatchFunc D) → Option (DispatchFunc D) → DispatchEntry D
  entry k g s = record { key = k; get_handler = g; set_handler = s }

  unfoldable pub dispatch_table : List (DispatchEntry D)
  dispatch_table =
      entry (text "memsroute") (some (memsroute_get env)) (some (memsroute_set env))
      ∷ entry (text "mems") (some (mems_get env)) (some (mems_set env))
      ∷ entry (text "laser") (some (laser_setting_get env)) (some (laser_setting_set env))
      ∷ entry (text "power") (some (power_handler_get env)) (some (power_handler_set env))
      ∷ entry (text "atten") (some (atten_setting_get env)) (some (atten_setting_set env))
      ∷ entry (text "status") (some (status_get env)) none
      ∷ entry (text "sleep") none (some (sleep_set env))
      ∷ []

  -- The loop of `find_dispatch`.
  unfoldable find_entry : List (DispatchEntry D) → CString → Option (DispatchEntry D)
  find_entry [] key = none
  find_entry (e ∷ es) key = if strcmp_eq e.key key then some e else find_entry es key

  unfoldable pub find_dispatch : CString → Option (DispatchEntry D)
  unfolding find_entry dispatch_table
  find_dispatch key = find_entry dispatch_table key

  -- `(cmd->msg_type == SET) ? entry->set_handler : entry->get_handler`
  unfoldable pub handler_for : MsgType → DispatchEntry D → Option (DispatchFunc D)
  handler_for set e = e.set_handler
  handler_for get e = e.get_handler
  handler_for _ e = e.get_handler

  unfoldable pub dispatch_command : Command → Tib D → OutMsg × Tib D
  unfolding handler_for
  dispatch_command cmd tib = elim (find_dispatch cmd.key) [
    | none ↦ (unknown_response cmd, tib)
    | some e ↦ elim (handler_for cmd.msg_type e) [
      | none ↦ (unsupported_response cmd, tib)
      | some func ↦ func cmd tib
    ]
  ]
