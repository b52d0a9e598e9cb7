-- ===== src/Command/Texts/Handlers.antt =====
-- All handlers of the dispatch table, and the dispatch.
use hispec_tib.Prelude.{
  ℕ, ◌≡◌, refl, sym, inl, inr, Option, some, none, arith, All, All-get_elem?, get_elem?,
  Option-cases, subst,
}
use hispec_tib.CString.{CString, text}
use hispec_tib.Board.{Env}
use hispec_tib.Devices.{Tib}
use hispec_tib.Devices.Setup.{IsValid}
use hispec_tib.Grammar.Notes.{is_note}
use hispec_tib.Command.Types.{Command, OutMsg, MsgType, get, set, ack, resp_ok, resp_error}
use hispec_tib.Command.Keys.{parse_key_pair, no_slash}
use hispec_tib.Command.Keys.Parse.{Without, parse_key_pair-no_slash}
use hispec_tib.Command.Attens.{answer_get, atten_setting_get}
use hispec_tib.Command.{DispatchFunc, DispatchEntry, dispatch_table, handler_for, dispatch_command}
use hispec_tib.Command.Table.{
  by_type_both, no_row, memsroute, mems, laser, power, atten, status, sleep, Row-of,
  dispatch_no_row, dispatch_memsroute, dispatch_mems, dispatch_laser, dispatch_power,
  dispatch_atten, dispatch_status, dispatch_sleep,
}
use hispec_tib.Command.Texts.{
  SaysJson, note-SaysJson, fixed-SaysJson, power-SaysJson, status-SaysJson,
}
use hispec_tib.Command.Texts.Routes.{
  IsNamed, memsroute_get-SaysJson, memsroute_set-SaysJson, mems-SaysJson,
}
use hispec_tib.Command.Texts.Readings.{
  laser-SaysJson, atten_set-SaysJson, IsPrintable, answer_get-SaysJson,
}

module _ {D : Type 0} (env : Env D) (cmd : Command) (tib : Tib D) where
  reading-SaysJson :
      (setting : CString) (i : ℕ)
      → All (IsPrintable env) tib.attenuators
      → SaysJson (answer_get env cmd setting (get_elem? tib.attenuators i))
  unfolding answer_get is_note
  reading-SaysJson setting i p = elim (Option-cases (get_elem? tib.attenuators i)) [
    | inl e ↦ rw e (
        note-SaysJson cmd resp_error (text "{\"error\":\"Invalid attenuator\"}") refl (omega arith))
    | inr (a, e) ↦ rw e (
        answer_get-SaysJson env cmd a (All-get_elem? (IsPrintable env) tib.attenuators i a p e)
          setting)
  ]

  atten_get-SaysJson :
      ((setting : CString) (i : ℕ)
        → SaysJson (answer_get env cmd setting (get_elem? tib.attenuators i)))
      → SaysJson (atten_setting_get env cmd tib).0
  unfolding atten_setting_get is_note
  atten_get-SaysJson h = grind (arith, note-SaysJson, h)

  -- With a key that has no slash, no attenuator is read.
  whole-SaysJson :
      parse_key_pair cmd.key 15 15 ≡ no_slash → SaysJson (atten_setting_get env cmd tib).0
  unfolding atten_setting_get is_note
  whole-SaysJson e =
      rw (e, atten_setting_get)
        (note-SaysJson cmd resp_error (text "{\"error\":\"Failed to parse atten/setting\"}") refl
          (omega arith))

  abbrev Says : OutMsg × Tib D → Type 0
  Says out = SaysJson out.0

  abbrev FuncSays : Option (DispatchFunc D) → Type 0
  FuncSays none = Unit
  FuncSays (some f) = Says (f cmd tib)

  abbrev EntrySays : DispatchEntry D → Type 0
  EntrySays e = FuncSays e.get_handler × FuncSays e.set_handler

  module _ (v : IsValid tib) (n : All IsNamed tib.router.routes) where
    dispatch_table-SaysJson :
        All (IsPrintable env) tib.attenuators → All EntrySays (dispatch_table env)
    unfolding dispatch_table
    dispatch_table-SaysJson p = (
      (memsroute_get-SaysJson env cmd tib v n, memsroute_set-SaysJson env cmd tib v n),
      (
        mems-SaysJson env cmd tib v n,
        (
          laser-SaysJson env cmd tib,
          (
            power-SaysJson env cmd tib,
            (
              (atten_get-SaysJson (λ s i. reading-SaysJson s i p), atten_set-SaysJson env cmd tib),
              (((status-SaysJson env cmd tib).0, tt), ((tt, (status-SaysJson env cmd tib).1), tt)),
            ),
          ),
        ),
      ),
    )

    chosen-SaysJson :
        (e : DispatchEntry D) (typ : MsgType) (func : DispatchFunc D)
        → EntrySays e
        → handler_for env typ e ≡ some func
        → Says (func cmd tib)
    unfolding handler_for
    chosen-SaysJson e get func (g, s) h = subst FuncSays h g
    chosen-SaysJson e set func (g, s) h = subst FuncSays h s
    chosen-SaysJson e ack func (g, s) h = subst FuncSays h g
    chosen-SaysJson e resp_ok func (g, s) h = subst FuncSays h g
    chosen-SaysJson e resp_error func (g, s) h = subst FuncSays h g

    -- On a board in order whose routes have names without quotation marks and the like, and whose
    -- attenuators print as numbers of at most 34 bytes, every handler of the dispatch table answers every
    -- command with a JSON object.
    pub handlers-SaysJson :
        (i : ℕ) (e : DispatchEntry D) (typ : MsgType) (func : DispatchFunc D)
        → All (IsPrintable env) tib.attenuators
        → get_elem? (dispatch_table env) i ≡ some e
        → handler_for env typ e ≡ some func
        → SaysJson (func cmd tib).0
    handlers-SaysJson i e typ func p at h =
        chosen-SaysJson e typ func
          (All-get_elem? EntrySays (dispatch_table env) i e (dispatch_table-SaysJson p) at) h

    whole_of :
        (lit : CString) → Without b'/' lit → cmd.key ≡ lit → parse_key_pair cmd.key 15 15 ≡ no_slash
    whole_of lit w e = parse_key_pair-no_slash cmd.key 15 15 (subst (Without b'/') (sym e) w)

    pub dispatch-SaysJson : SaysJson (dispatch_command env cmd tib).0
    dispatch-SaysJson =
        let fixed = fixed-SaysJson cmd in
        elim (Row-of env cmd.key) [
          | no_row e ↦ rw (dispatch_no_row env cmd tib e) fixed.0
          | memsroute e ↦ rw (dispatch_memsroute env cmd tib e) (
              by_type_both Says cmd.msg_type _ _ (memsroute_get-SaysJson env cmd tib v n)
                (memsroute_set-SaysJson env cmd tib v n))
          | mems e ↦ rw (dispatch_mems env cmd tib e) (
              by_type_both Says cmd.msg_type _ _ (mems-SaysJson env cmd tib v n).0
                (mems-SaysJson env cmd tib v n).1)
          | laser e ↦ rw (dispatch_laser env cmd tib e) (
              by_type_both Says cmd.msg_type _ _ (laser-SaysJson env cmd tib).0
                (laser-SaysJson env cmd tib).1)
          | power e ↦ rw (dispatch_power env cmd tib e) (
              by_type_both Says cmd.msg_type _ _ (power-SaysJson env cmd tib).0
                (power-SaysJson env cmd tib).1)
          | atten e ↦ rw (dispatch_atten env cmd tib e) (
              by_type_both Says cmd.msg_type _ _
                (whole-SaysJson (whole_of (text "atten") (omega arith) e))
                (atten_set-SaysJson env cmd tib))
          | status e ↦
              rw (dispatch_status env cmd tib e)
                (by_type_both Says cmd.msg_type _ _ (status-SaysJson env cmd tib).0 fixed.1)
          | sleep e ↦
              rw (dispatch_sleep env cmd tib e)
                (by_type_both Says cmd.msg_type _ _ fixed.1 (status-SaysJson env cmd tib).1)
        ]
