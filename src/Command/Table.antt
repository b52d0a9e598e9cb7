-- ===== src/Command/Table.antt =====
-- The dispatch table: what `dispatch_command` runs at each key.
use hispec_tib.Prelude.{◌≡◌, ap, sym, ◌∙◌, inl, inr, some, none, arith, Bool-cases}
use hispec_tib.CString.{CString, text, strcmp_eq}
use hispec_tib.CString.Compare.{eq_of_strcmp}
use hispec_tib.Board.{Env}
use hispec_tib.Devices.{Tib}
use hispec_tib.Command.Types.{Command, MsgType, get, set, ack, resp_ok, resp_error}
use hispec_tib.Command.Reply.{unknown_response, unsupported_response}
use hispec_tib.Command.Power.{power_handler_get, power_handler_set, status_get, sleep_set}
use hispec_tib.Command.Mems.{memsroute_get, memsroute_set, mems_get, mems_set}
use hispec_tib.Command.Lasers.{laser_setting_get, laser_setting_set}
use hispec_tib.Command.Attens.{atten_setting_get, atten_setting_set}
use hispec_tib.Command.{DispatchEntry, find_dispatch, handler_for, dispatch_command}

-- The result of the handler for the type of the message.
abbrev pub by_type {ℓ} : {A : Type ℓ} → MsgType → A → A → A
by_type set g s = s
by_type get g s = g
by_type ack g s = g
by_type resp_ok g s = g
by_type resp_error g s = g

-- What holds of both handlers' results holds of the one chosen.
pub by_type_both {ℓ κ} :
    {A : Type ℓ} (P : A → Type κ) (t : MsgType) (g s : A) → P g → P s → P (by_type t g s)
by_type_both P set g s pg ps = ps
by_type_both P get g s pg ps = pg
by_type_both P ack g s pg ps = pg
by_type_both P resp_ok g s pg ps = pg
by_type_both P resp_error g s pg ps = pg

module _ {D : Type 0} (env : Env D) where
  -- Where a key stands in the table.
  pub data Row (key : CString) : Type 0 where
    no_row : find_dispatch env key ≡ none → Row key
    memsroute : key ≡ text "memsroute" → Row key
    mems : key ≡ text "mems" → Row key
    laser : key ≡ text "laser" → Row key
    power : key ≡ text "power" → Row key
    atten : key ≡ text "atten" → Row key
    status : key ≡ text "status" → Row key
    sleep : key ≡ text "sleep" → Row key

  pub Row-of : (key : CString) → Row key
  unfolding find_dispatch
  Row-of key = elim (Bool-cases (strcmp_eq (text "memsroute") key)) [
    | inl e ↦ memsroute (sym (eq_of_strcmp _ _ e))
    | inr a ↦ elim (Bool-cases (strcmp_eq (text "mems") key)) [
      | inl e ↦ mems (sym (eq_of_strcmp _ _ e))
      | inr b ↦ elim (Bool-cases (strcmp_eq (text "laser") key)) [
        | inl e ↦ laser (sym (eq_of_strcmp _ _ e))
        | inr c ↦ elim (Bool-cases (strcmp_eq (text "power") key)) [
          | inl e ↦ power (sym (eq_of_strcmp _ _ e))
          | inr d ↦ elim (Bool-cases (strcmp_eq (text "atten") key)) [
            | inl e ↦ atten (sym (eq_of_strcmp _ _ e))
            | inr f ↦ elim (Bool-cases (strcmp_eq (text "status") key)) [
              | inl e ↦ status (sym (eq_of_strcmp _ _ e))
              | inr g ↦ elim (Bool-cases (strcmp_eq (text "sleep") key)) [
                | inl e ↦ sleep (sym (eq_of_strcmp _ _ e))
                | inr h ↦ no_row (ground (arith, a, b, c, d, f, g, h))
              ]
            ]
          ]
        ]
      ]
    ]
  ]

  module _ (cmd : Command) (tib : Tib D) where
    dispatch_found :
        (e : DispatchEntry D)
        → find_dispatch env cmd.key ≡ some e
        → dispatch_command env cmd tib ≡ elim (handler_for env cmd.msg_type e) [
          | none ↦ (unsupported_response cmd, tib)
          | some func ↦ func cmd tib
        ]
    unfolding dispatch_command
    dispatch_found e f = ground (arith, f)

    pub dispatch_no_row :
        find_dispatch env cmd.key ≡ none
        → dispatch_command env cmd tib ≡ (unknown_response cmd, tib)
    unfolding dispatch_command
    dispatch_no_row f = ground (arith, f)

    pub dispatch_memsroute :
        cmd.key ≡ text "memsroute"
        → dispatch_command env cmd tib
          ≡ by_type cmd.msg_type (memsroute_get env cmd tib) (memsroute_set env cmd tib)
    unfolding find_dispatch strcmp_eq handler_for
    dispatch_memsroute e = dispatch_found _ (ap (find_dispatch env) e) ∙ ground arith

    pub dispatch_mems :
        cmd.key ≡ text "mems"
        → dispatch_command env cmd tib
          ≡ by_type cmd.msg_type (mems_get env cmd tib) (mems_set env cmd tib)
    unfolding find_dispatch strcmp_eq handler_for
    dispatch_mems e = dispatch_found _ (ap (find_dispatch env) e) ∙ ground arith

    pub dispatch_laser :
        cmd.key ≡ text "laser"
        → dispatch_command env cmd tib
          ≡ by_type cmd.msg_type (laser_setting_get env cmd tib) (laser_setting_set env cmd tib)
    unfolding find_dispatch strcmp_eq handler_for
    dispatch_laser e = dispatch_found _ (ap (find_dispatch env) e) ∙ ground arith

    pub dispatch_power :
        cmd.key ≡ text "power"
        → dispatch_command env cmd tib
          ≡ by_type cmd.msg_type (power_handler_get env cmd tib) (power_handler_set env cmd tib)
    unfolding find_dispatch strcmp_eq handler_for
    dispatch_power e = dispatch_found _ (ap (find_dispatch env) e) ∙ ground arith

    pub dispatch_atten :
        cmd.key ≡ text "atten"
        → dispatch_command env cmd tib
          ≡ by_type cmd.msg_type (atten_setting_get env cmd tib) (atten_setting_set env cmd tib)
    unfolding find_dispatch strcmp_eq handler_for
    dispatch_atten e = dispatch_found _ (ap (find_dispatch env) e) ∙ ground arith

    pub dispatch_status :
        cmd.key ≡ text "status"
        → dispatch_command env cmd tib
          ≡ by_type cmd.msg_type (status_get env cmd tib) (unsupported_response cmd, tib)
    unfolding find_dispatch strcmp_eq handler_for
    dispatch_status e = dispatch_found _ (ap (find_dispatch env) e) ∙ ground arith

    pub dispatch_sleep :
        cmd.key ≡ text "sleep"
        → dispatch_command env cmd tib
          ≡ by_type cmd.msg_type (unsupported_response cmd, tib) (sleep_set env cmd tib)
    unfolding find_dispatch strcmp_eq handler_for
    dispatch_sleep e = dispatch_found _ (ap (find_dispatch env) e) ∙ ground arith
