-- ===== src/Command/Attens.antt =====
-- app/src/command.c: the handlers of the key "atten". `strcasecmp` returns 0 on equal strings, so
-- each `if (strcasecmp(setting, s))` is taken where the setting is not `s`.
use hispec_tib.Prelude.{
  ℕ, Bool, true, false, ◌||◌, not, List, [], ◌∷◌, ◌++◌, Option, none, some, ◌==◌, if◌then◌else◌,
  get_elem?, set, is_neg,
}
use hispec_tib.CString.{CString, text, strcasecmp_eq}
use hispec_tib.Board.{Env}
use hispec_tib.Attenuator.{Attenuator, Coeffs, attenuator_get, attenuator_set}
use hispec_tib.Devices.{Tib}
use hispec_tib.Command.Types.{Command, OutMsg, resp_ok, resp_error}
use hispec_tib.Command.Reply.{msg_builder, snprintf_payload}
use hispec_tib.Command.Keys.{parse_key_pair, pair, after_prefix, get_laser_channel, laser_unknown}
use hispec_tib.Command.Power.{json_bytes}

-- The branch that the chain of `if (strcasecmp(setting, ...))` takes.
pub data Branch : Type 0 where
  coeff value value_db invalid : Branch

unfoldable branch_get : CString → Branch
branch_get setting =
    if not (strcasecmp_eq setting (text "coeff"))
    then coeff
    else if not (strcasecmp_eq setting (text "value"))
        || not (strcasecmp_eq setting (text "valuedb"))
    then value
    else invalid

unfoldable branch_set : CString → Branch
branch_set setting =
    if not (strcasecmp_eq setting (text "coeff"))
    then coeff
    else if not (strcasecmp_eq setting (text "value"))
    then value
    else if not (strcasecmp_eq setting (text "valuedb"))
    then value_db
    else invalid

module _ {D : Type 0} (env : Env D) where
  abbrev four : D → CString
  four = env.doubles.format_4f

  abbrev three : Coeffs D → CString
  three c = four c.c0 ++ (text "," ++ (four c.c1 ++ (text "," ++ four c.c2)))

  unfoldable pub coeff_text : Attenuator D → CString
  coeff_text a =
      text "{\"db2volt\":["
      ++ (three a.coeff_db_to_volt
          ++ (text "],\"volt2db\":[" ++ (three a.coeff_volt_to_db ++ text "]}")))

  unfoldable pub value_text : Attenuator D → CString
  value_text a =
      text "{\"voltage\":"
      ++ (four (attenuator_get env.doubles a true)
          ++ (text ",\"db\":" ++ (four (attenuator_get env.doubles a false) ++ text "}")))

  -- `attenuators[laser_id]`; a read out of the array is answered as an invalid attenuator.
  unfoldable pub answer_get : Command → CString → Option (Attenuator D) → OutMsg
  unfolding branch_get coeff_text value_text
  answer_get cmd setting none =
      msg_builder (some cmd) resp_error (text "{\"error\":\"Invalid attenuator\"}")
  answer_get cmd setting (some a) = elim (branch_get setting) [
    | coeff ↦ msg_builder (some cmd) resp_ok (snprintf_payload (coeff_text a))
    | value ↦ msg_builder (some cmd) resp_ok (snprintf_payload (value_text a))
    | _ ↦ msg_builder (some cmd) resp_error (text "{\"error\":\"Invalid setting\"}")
  ]

  unfoldable pub atten_setting_get : Command → Tib D → OutMsg × Tib D
  unfolding answer_get
  atten_setting_get cmd tib = elim (parse_key_pair cmd.key 15 15) [
    | pair atten_name setting ↦
        let laser_id = get_laser_channel (after_prefix env.drivers.stack atten_name) in
        if laser_id == laser_unknown
        then (msg_builder (some cmd) resp_error (text "{\"error\":\"Invalid attenuator\"}"), tib)
        else (answer_get cmd setting (get_elem? tib.attenuators laser_id), tib)
    | _ ↦ (
      msg_builder (some cmd) resp_error (text "{\"error\":\"Failed to parse atten/setting\"}"),
      tib,
    )
  ]

  -- The three coefficients of a parsed array; `none` where its length is not 3.
  abbrev coeffs_of : List D → Option (Coeffs D)
  coeffs_of (a ∷ b ∷ c ∷ []) = some (record { c0 = a; c1 = b; c2 = c })
  coeffs_of _ = none

  -- `attenuator_set(&attenuators[laser_id], ...)`, whose result the handler ignores.
  unfoldable pub set_attenuator : ℕ → Attenuator D → D → Bool → Tib D → Tib D
  set_attenuator laser_id a v raw tib =
      let (sent, a', h) = attenuator_set env.doubles env.drivers a v raw tib.history in
      record tib { attenuators = set tib.attenuators laser_id a'; history = h }

  abbrev done : Command → OutMsg
  done cmd = msg_builder (some cmd) resp_ok (text "{\"status\":\"OK\"}")

  abbrev improper : Command → OutMsg
  improper cmd = msg_builder (some cmd) resp_error (text "{\"error\":\"Improper arguments\"}")

  -- New coefficients, at the decibels that the old ones give now.
  unfoldable pub set_coeffs : Command → ℕ → Attenuator D → Tib D → OutMsg × Tib D
  unfolding set_attenuator
  set_coeffs cmd laser_id a tib =
      let parsed = env.json.coeffs (json_bytes cmd) in
      let (db2volt, volt2db) = parsed.value in
      if is_neg parsed.rc then (improper cmd, tib) else elim (coeffs_of db2volt) [
        | none ↦ (improper cmd, tib)
        | some d ↦ elim (coeffs_of volt2db) [
          | none ↦ (improper cmd, tib)
          | some v ↦
              let db = attenuator_get env.doubles a false in
              (
                done cmd,
                set_attenuator laser_id (record a { coeff_db_to_volt = d; coeff_volt_to_db = v }) db
                    false tib,
              )
        ]
      ]

  unfoldable pub set_value : Command → ℕ → Attenuator D → Bool → Tib D → OutMsg × Tib D
  unfolding set_attenuator
  set_value cmd laser_id a raw tib =
      let in_data = env.json.value_float (json_bytes cmd) in
      if is_neg in_data.rc
      then (msg_builder (some cmd) resp_error (text "{\"error\":\"Missing setting value\"}"), tib)
      else (done cmd, set_attenuator laser_id a in_data.value raw tib)

  unfoldable pub update_atten :
      Command → ℕ → CString → Option (Attenuator D) → Tib D → OutMsg × Tib D
  unfolding branch_set set_coeffs set_value
  update_atten cmd laser_id setting none tib =
      (msg_builder (some cmd) resp_error (text "{\"error\":\"Invalid attenuator\"}"), tib)
  update_atten cmd laser_id setting (some a) tib = elim (branch_set setting) [
    | coeff ↦ set_coeffs cmd laser_id a tib
    | value ↦ set_value cmd laser_id a true tib
    | value_db ↦ set_value cmd laser_id a false tib
    | invalid ↦ (msg_builder (some cmd) resp_error (text "{\"error\":\"Invalid setting\"}"), tib)
  ]

  unfoldable pub atten_setting_set : Command → Tib D → OutMsg × Tib D
  unfolding update_atten
  atten_setting_set cmd tib = elim (parse_key_pair cmd.key 15 15) [
    | pair atten_name setting ↦
        let laser_id = get_laser_channel (after_prefix env.drivers.stack atten_name) in
        if laser_id == laser_unknown
        then (msg_builder (some cmd) resp_error (text "{\"error\":\"Invalid attenuator\"}"), tib)
        else update_atten cmd laser_id setting (get_elem? tib.attenuators laser_id) tib
    | _ ↦ (
      msg_builder (some cmd) resp_error (text "{\"error\":\"Failed to parse laser/setting\"}"),
      tib,
    )
  ]
