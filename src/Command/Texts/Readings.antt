-- ===== src/Command/Texts/Readings.antt =====
-- The texts of the handlers "laser" and "atten".
use hispec_tib.Prelude.{
  ℕ, ◌≤◌, ◌≡◌, refl, ap, ◌∙◌, true, false, [], ◌∷◌, ◌++◌, append_assoc, Option, some, none, arith,
  length, length-append, length-map, All, All-get_elem?, map,
}
use hispec_tib.CString.{text, CString, tolower, format_hd}
use hispec_tib.Board.{Env}
use hispec_tib.Devices.{Tib}
use hispec_tib.Attenuator.{Attenuator, attenuator_get}
use hispec_tib.Maiman.{MaimanRegister, register_table, maiman_get_register_address}
use hispec_tib.Maiman.Registers.{maiman_get_register_address_iff}
use hispec_tib.Grammar.{
  IsPlain, is_plain, all_plain, IsNumber, number, array, IsItems, one_item, more_items,
}
use hispec_tib.Grammar.Numbers.{format_hd-IsNumber, length-format_hd}
use hispec_tib.Grammar.Notes.{is_note, one_member-IsJson, two_members-IsJson}
use hispec_tib.Command.Types.{Command, resp_ok, resp_error}
use hispec_tib.Command.Reply.{msg_builder, snprintf_payload}
use hispec_tib.Command.Lasers.{read_setting, write_setting, laser_setting_get, laser_setting_set}
use hispec_tib.Command.Attens.{
  answer_get, coeff_text, value_text, set_coeffs, set_value, update_atten, atten_setting_set,
}
use hispec_tib.Command.Texts.{SaysJson, note-SaysJson, printed-SaysJson}

all_plain_lower : (s : CString) → all_plain s ≡ all_plain (map tolower s)
unfolding all_plain is_plain tolower
all_plain_lower [] = refl
all_plain_lower (c ∷ cs) = ground (arith, all_plain_lower cs)

abbrev NameFits : MaimanRegister → Type 0
NameFits r = (all_plain (map tolower r.name) ≡ true) × (length r.name ≤ 40)

register_table-NameFits : All NameFits register_table
unfolding register_table all_plain tolower
register_table-NameFits = ground arith

setting_fits :
    (setting : CString) (addr : ℕ)
    → maiman_get_register_address setting ≡ some addr
    → IsPlain setting × (length setting ≤ 40)
setting_fits setting addr e =
    let (i, r, at, same, f) = (maiman_get_register_address_iff setting addr).0 e in
    let (p, l) = All-get_elem? NameFits register_table i r register_table-NameFits at in
    (
      all_plain_lower setting ∙ (ap all_plain same ∙ p),
      omega (arith, ap length same, length-map setting tolower, length-map r.name tolower),
    )

module _ {D : Type 0} (env : Env D) (cmd : Command) (tib : Tib D) where
  reading-SaysJson :
      (setting : CString) (addr v : ℕ)
      → maiman_get_register_address setting ≡ some addr
      → SaysJson (
          msg_builder (some cmd) resp_ok (
            snprintf_payload
              (text "{\"" ++ (setting ++ (text "\":" ++ (format_hd v ++ text "}"))))))
  reading-SaysJson setting addr v e =
      let (p, l) = setting_fits setting addr e in
      printed-SaysJson cmd resp_ok _
        (one_member-IsJson _ setting (format_hd v) refl p (number (format_hd-IsNumber v)))
        (omega (
          arith,
          length-append setting (text "\":" ++ (format_hd v ++ text "}")),
          length-append (format_hd v) (text "}"),
          length-format_hd v,
        ))

  read_setting-SaysJson :
      (name setting : CString) → SaysJson (read_setting env cmd name setting tib).0
  unfolding read_setting is_note
  read_setting-SaysJson name setting = grind (arith, note-SaysJson, reading-SaysJson)

  write_setting-SaysJson :
      (name setting : CString) (v : ℕ) → SaysJson (write_setting env cmd name setting v tib).0
  unfolding write_setting is_note
  write_setting-SaysJson name setting v = grind (arith, note-SaysJson)

  pub laser-SaysJson :
      SaysJson (laser_setting_get env cmd tib).0 × SaysJson (laser_setting_set env cmd tib).0
  unfolding laser_setting_get laser_setting_set is_note
  laser-SaysJson = (
    grind (arith, note-SaysJson, read_setting-SaysJson),
    grind (arith, note-SaysJson, write_setting-SaysJson),
  )

  write_atten-SaysJson :
      (i : ℕ) (setting : CString) (a : Option (Attenuator D))
      → SaysJson (update_atten env cmd i setting a tib).0
  unfolding update_atten set_coeffs set_value is_note
  write_atten-SaysJson i setting none =
      note-SaysJson cmd resp_error (text "{\"error\":\"Invalid attenuator\"}") refl (omega arith)
  write_atten-SaysJson i setting (some a) = grind (arith, note-SaysJson)

  pub atten_set-SaysJson : SaysJson (atten_setting_set env cmd tib).0
  unfolding atten_setting_set is_note
  atten_set-SaysJson = grind (arith, note-SaysJson, write_atten-SaysJson)

-- A number of at most 34 bytes.
abbrev pub IsShort : CString → Type 0
IsShort s = IsNumber s × (length s ≤ 34)

three-IsItems :
    (a b c : CString)
    → IsShort a
    → IsShort b
    → IsShort c
    → IsItems (a ++ (text "," ++ (b ++ (text "," ++ c))))
three-IsItems a b c x y z =
    more_items a _ refl (number x.0) (more_items b c refl (number y.0) (one_item (number z.0)))

length-three :
    (a b c : CString)
    → IsShort a
    → IsShort b
    → IsShort c
    → length (a ++ (text "," ++ (b ++ (text "," ++ c)))) ≤ 104
length-three a b c x y z =
    omega
      (arith, length-append a (text "," ++ (b ++ (text "," ++ c))), length-append b (text "," ++ c))

module _ {D : Type 0} (env : Env D) where
  abbrev four : D → CString
  four = env.doubles.format_4f

  -- Whatever `%.4f` prints of an attenuator is a number of at most 34 bytes: it is neither infinite nor
  -- NaN, and less than 10 to the power 28 or so.
  pub record IsPrintable (a : Attenuator D) : Type 0 where
    pub db_to_volt0 : IsShort (four a.coeff_db_to_volt.c0)
    pub db_to_volt1 : IsShort (four a.coeff_db_to_volt.c1)
    pub db_to_volt2 : IsShort (four a.coeff_db_to_volt.c2)
    pub volt_to_db0 : IsShort (four a.coeff_volt_to_db.c0)
    pub volt_to_db1 : IsShort (four a.coeff_volt_to_db.c1)
    pub volt_to_db2 : IsShort (four a.coeff_volt_to_db.c2)
    pub volts : IsShort (four (attenuator_get env.doubles a true))
    pub db : IsShort (four (attenuator_get env.doubles a false))

arrays-SaysJson :
    (cmd : Command) (x y : CString)
    → IsItems x
    → IsItems y
    → length x ≤ 104
    → length y ≤ 104
    → SaysJson (
        msg_builder (some cmd) resp_ok (
          snprintf_payload
            (text "{\"db2volt\":[" ++ (x ++ (text "],\"volt2db\":[" ++ (y ++ text "]}"))))))
unfolding all_plain
arrays-SaysJson cmd x y ix iy hx hy =
    printed-SaysJson cmd resp_ok _
      (two_members-IsJson _ (text "db2volt") (b'[' ∷ (x ++ (b']' ∷ []))) (text "volt2db")
        (b'[' ∷ (y ++ (b']' ∷ []))) (simp append_assoc) refl (array x refl ix) refl
        (array y refl iy))
      (omega (
        arith,
        length-append x (text "],\"volt2db\":[" ++ (y ++ text "]}")),
        length-append y (text "]}"),
      ))

module _ {D : Type 0} (env : Env D) (cmd : Command) (a : Attenuator D) (p : IsPrintable env a) where
  coeff-SaysJson : SaysJson (msg_builder (some cmd) resp_ok (snprintf_payload (coeff_text env a)))
  unfolding coeff_text
  coeff-SaysJson =
      arrays-SaysJson cmd _ _ (three-IsItems _ _ _ p.db_to_volt0 p.db_to_volt1 p.db_to_volt2)
        (three-IsItems _ _ _ p.volt_to_db0 p.volt_to_db1 p.volt_to_db2)
        (length-three _ _ _ p.db_to_volt0 p.db_to_volt1 p.db_to_volt2)
        (length-three _ _ _ p.volt_to_db0 p.volt_to_db1 p.volt_to_db2)

  value-SaysJson : SaysJson (msg_builder (some cmd) resp_ok (snprintf_payload (value_text env a)))
  unfolding value_text all_plain
  value-SaysJson =
      let v = four env (attenuator_get env.doubles a true) in
      let w = four env (attenuator_get env.doubles a false) in
      printed-SaysJson cmd resp_ok _
        (two_members-IsJson _ (text "voltage") v (text "db") w refl refl (number p.volts.0) refl
          (number p.db.0))
        (omega (
          arith,
          length-append v (text ",\"db\":" ++ (w ++ text "}")),
          length-append w (text "}"),
          p.volts.1,
          p.db.1,
        ))

  pub answer_get-SaysJson : (setting : CString) → SaysJson (answer_get env cmd setting (some a))
  unfolding answer_get is_note
  answer_get-SaysJson setting = grind (arith, note-SaysJson, coeff-SaysJson, value-SaysJson)
