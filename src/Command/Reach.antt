-- ===== src/Command/Reach.antt =====
-- What commands can reach through `dispatch_command`: the table is searched for the whole key, and the
-- handlers of "mems", "laser" and "atten" want a slash in it.
use hispec_tib.Prelude.{
  ℕ, ◌+◌, ◌≡◌, refl, sym, ◌⊎◌, inl, inr, List, [], ◌∷◌, Option, none, arith, Option-cases,
  get_elem?, set, subst,
}
use hispec_tib.CString.{CString, text}
use hispec_tib.Board.{Env, History, modbus_read, modbus_write, dac_setup, dac_write}
use hispec_tib.Mems.{
  Route, mems_router_get_route, Switch, RouteStep, Router, mems_router_find_switch,
  mems_switch_set_state,
}
use hispec_tib.Devices.{Tib}
use hispec_tib.Command.Types.{Command, OutMsg, resp_error}
use hispec_tib.Command.Reply.{msg_builder, unknown_response}
use hispec_tib.Command.Keys.{parse_key_pair, no_slash}
use hispec_tib.Command.Keys.Parse.{Without, parse_key_pair-no_slash}
use hispec_tib.Command.Power.{
  json_bytes, power_handler_get, power_handler_set, status_get, sleep_set,
}
use hispec_tib.Command.Mems.{memsroute_get, memsroute_set, mems_get, mems_set, set_steps}
use hispec_tib.Command.Lasers.{laser_setting_get, laser_setting_set}
use hispec_tib.Command.Attens.{atten_setting_get, atten_setting_set}
use hispec_tib.Command.{find_dispatch, dispatch_command}
use hispec_tib.Command.Table.{
  by_type_both, no_row, memsroute, mems, laser, power, atten, status, sleep as sleep_row, Row-of,
  dispatch_no_row, dispatch_memsroute, dispatch_mems, dispatch_laser, dispatch_power,
  dispatch_atten, dispatch_status, dispatch_sleep,
}

-- How many calls went to the lasers and to the attenuators.
pub lab_calls : History → ℕ
lab_calls [] = 0
lab_calls (modbus_read n a ∷ h) = lab_calls h + 1
lab_calls (modbus_write n a v ∷ h) = lab_calls h + 1
lab_calls (dac_setup c ∷ h) = lab_calls h + 1
lab_calls (dac_write c v ∷ h) = lab_calls h + 1
lab_calls (_ ∷ h) = lab_calls h

-- Lasers, attenuators and routes are untouched.
pub record IsQuiet {D : Type 0} (tib tib' : Tib D) : Type 0 where
  pub attenuators : tib'.attenuators ≡ tib.attenuators
  pub router : tib'.router ≡ tib.router
  pub calls : lab_calls tib'.history ≡ lab_calls tib.history

set_state-lab_calls :
    (sw : Switch) (s : ℕ) (h : History) → lab_calls (mems_switch_set_state sw s h).2 ≡ lab_calls h
unfolding mems_switch_set_state lab_calls
set_state-lab_calls sw s h = ground arith

set_steps-lab_calls :
    (router : Router) (ss : List RouteStep) (store : List Switch) (h : History)
    → lab_calls (set_steps router ss store h).2 ≡ lab_calls h
unfolding set_steps
set_steps-lab_calls router [] store h = refl
set_steps-lab_calls router (s ∷ ss) store h =
    elim (Option-cases (mems_router_find_switch router store s.switch_name)) [
      | inl e ↦ rw (e, set_steps)
      | inr (p, e) ↦ elim (Option-cases (get_elem? store p)) [
        | inl f ↦ rw (e, set_steps) (rw (f, set_steps))
        | inr (sw, f) ↦ ground (
          arith,
          e,
          f,
          set_state-lab_calls sw s.state h,
          set_steps-lab_calls router ss (set store p (mems_switch_set_state sw s.state h).1)
              (mems_switch_set_state sw s.state h).2,
        )
      ]
    ]

module _ {D : Type 0} (env : Env D) (cmd : Command) (tib : Tib D) where
  IsQuiet-refl : IsQuiet tib tib
  IsQuiet-refl = record { attenuators = refl; router = refl; calls = refl }

  -- An error, and nothing done.
  abbrev Refused : OutMsg × Tib D → Type 0
  Refused out = (out.1 ≡ tib) × (out.0.msg_type ≡ resp_error)

  module _ (whole : parse_key_pair cmd.key 15 15 ≡ no_slash) where
    mems-Refused : Refused (mems_get env cmd tib) × Refused (mems_set env cmd tib)
    unfolding mems_get mems_set msg_builder
    mems-Refused = ground (arith, whole)

    laser-Refused :
        Refused (laser_setting_get env cmd tib) × Refused (laser_setting_set env cmd tib)
    unfolding laser_setting_get laser_setting_set msg_builder
    laser-Refused = ground (arith, whole)

    atten-Refused :
        Refused (atten_setting_get env cmd tib) × Refused (atten_setting_set env cmd tib)
    unfolding atten_setting_get atten_setting_set msg_builder
    atten-Refused = ground (arith, whole)

  whole_of :
      (lit : CString) → Without b'/' lit → cmd.key ≡ lit → parse_key_pair cmd.key 15 15 ≡ no_slash
  whole_of lit w e = parse_key_pair-no_slash cmd.key 15 15 (subst (Without b'/') (sym e) w)

  Refused-mems : cmd.key ≡ text "mems" → Refused (dispatch_command env cmd tib)
  Refused-mems e =
      let both = mems-Refused (whole_of (text "mems") (omega arith) e) in
      rw (dispatch_mems env cmd tib e) (by_type_both Refused cmd.msg_type _ _ both.0 both.1)

  Refused-laser : cmd.key ≡ text "laser" → Refused (dispatch_command env cmd tib)
  Refused-laser e =
      let both = laser-Refused (whole_of (text "laser") (omega arith) e) in
      rw (dispatch_laser env cmd tib e) (by_type_both Refused cmd.msg_type _ _ both.0 both.1)

  Refused-atten : cmd.key ≡ text "atten" → Refused (dispatch_command env cmd tib)
  Refused-atten e =
      let both = atten-Refused (whole_of (text "atten") (omega arith) e) in
      rw (dispatch_atten env cmd tib e) (by_type_both Refused cmd.msg_type _ _ both.0 both.1)

  -- A command with the key "mems", "laser" or "atten" is answered with an error and changes nothing, be
  -- it a request to read or to write.
  pub dispatch-Refused :
      (cmd.key ≡ text "mems") ⊎ ((cmd.key ≡ text "laser") ⊎ (cmd.key ≡ text "atten"))
      → Refused (dispatch_command env cmd tib)
  dispatch-Refused (inl e) = Refused-mems e
  dispatch-Refused (inr (inl e)) = Refused-laser e
  dispatch-Refused (inr (inr e)) = Refused-atten e

  no_row_of_slash : ¬ Without b'/' cmd.key → find_dispatch env cmd.key ≡ none
  no_row_of_slash slash = elim (Row-of env cmd.key) [
    | no_row e ↦ e
    | memsroute e ↦ absurd (slash (subst (Without b'/') (sym e) (omega arith)))
    | mems e ↦ absurd (slash (subst (Without b'/') (sym e) (omega arith)))
    | laser e ↦ absurd (slash (subst (Without b'/') (sym e) (omega arith)))
    | power e ↦ absurd (slash (subst (Without b'/') (sym e) (omega arith)))
    | atten e ↦ absurd (slash (subst (Without b'/') (sym e) (omega arith)))
    | status e ↦ absurd (slash (subst (Without b'/') (sym e) (omega arith)))
    | sleep_row e ↦ absurd (slash (subst (Without b'/') (sym e) (omega arith)))
  ]

  -- A command whose key has a slash in it is answered as unknown, and changes nothing.
  pub dispatch-slash :
      ¬ Without b'/' cmd.key → dispatch_command env cmd tib ≡ (unknown_response cmd, tib)
  dispatch-slash slash = dispatch_no_row env cmd tib (no_row_of_slash slash)

  abbrev Quiet : OutMsg × Tib D → Type 0
  Quiet out = IsQuiet tib out.1

  Quiet-of_Refused : (out : OutMsg × Tib D) → Refused out → Quiet out
  Quiet-of_Refused out r = subst (IsQuiet tib) (sym r.0) IsQuiet-refl

  memsroute_get-Quiet : Quiet (memsroute_get env cmd tib)
  unfolding memsroute_get
  memsroute_get-Quiet = ground arith

  abbrev asked : Option Route
  asked =
      mems_router_get_route tib.router (env.json.route_id (json_bytes cmd)).value.0
        (env.json.route_id (json_bytes cmd)).value.1

  memsroute_set-Quiet : Quiet (memsroute_set env cmd tib)
  unfolding memsroute_set
  memsroute_set-Quiet = elim (Option-cases asked) [
    | inl e ↦ ground (arith, e)
    | inr (route, e) ↦
        ground (arith, e, set_steps-lab_calls tib.router route.steps tib.mems_switches tib.history)
  ]

  power-Quiet : Quiet (power_handler_get env cmd tib) × Quiet (power_handler_set env cmd tib)
  unfolding power_handler_get power_handler_set lab_calls
  power-Quiet = ground arith

  status-Quiet : Quiet (status_get env cmd tib) × Quiet (sleep_set env cmd tib)
  unfolding status_get sleep_set lab_calls
  status-Quiet = ground arith

  -- No command, whatever its key, type and payload, makes a call to a laser or an attenuator, or changes
  -- what is stored about attenuators and routes.
  pub dispatch-IsQuiet : IsQuiet tib (dispatch_command env cmd tib).1
  dispatch-IsQuiet = elim (Row-of env cmd.key) [
    | no_row e ↦ rw (dispatch_no_row env cmd tib e) IsQuiet-refl
    | memsroute e ↦
        rw (dispatch_memsroute env cmd tib e)
          (by_type_both Quiet cmd.msg_type _ _ memsroute_get-Quiet memsroute_set-Quiet)
    | mems e ↦ Quiet-of_Refused (dispatch_command env cmd tib) (Refused-mems e)
    | laser e ↦ Quiet-of_Refused (dispatch_command env cmd tib) (Refused-laser e)
    | power e ↦
        rw (dispatch_power env cmd tib e)
          (by_type_both Quiet cmd.msg_type _ _ power-Quiet.0 power-Quiet.1)
    | atten e ↦ Quiet-of_Refused (dispatch_command env cmd tib) (Refused-atten e)
    | status e ↦
        rw (dispatch_status env cmd tib e)
          (by_type_both Quiet cmd.msg_type _ _ status-Quiet.0 IsQuiet-refl)
    | sleep_row e ↦
        rw (dispatch_sleep env cmd tib e)
          (by_type_both Quiet cmd.msg_type _ _ IsQuiet-refl status-Quiet.1)
  ]
