-- ===== src/Command/Valid.antt =====
-- Every handler keeps the globals in order.
use hispec_tib.Prelude.{
  ℕ, ◌≡◌, refl, ◌∙◌, inl, inr, Bool, Option, some, none, arith, length, set, get_elem?, length-set,
  is_neg, is_zero, Bool-cases, Option-cases,
}
use hispec_tib.CString.{CString}
use hispec_tib.Board.{Env}
use hispec_tib.Mems.{
  Switch, Route, mems_switch_set_state, mems_router_find_switch, mems_router_get_route,
}
use hispec_tib.Mems.Keep.{set_state-Keeps}
use hispec_tib.Attenuator.{Attenuator}
use hispec_tib.Devices.{Tib}
use hispec_tib.Devices.Setup.{IsValid}
use hispec_tib.Command.Types.{Command, OutMsg}
use hispec_tib.Command.Power.{
  power_handler_get, power_handler_set, status_get, sleep_set, json_bytes,
}
use hispec_tib.Command.Mems.{
  memsroute_get, memsroute_set, mems_get, mems_set, set_steps, switch_name_of, first_byte,
}
use hispec_tib.Command.Mems.Replies.{set_steps-Keeps, IsValid-keep}
use hispec_tib.Command.Lasers.{laser_setting_get, laser_setting_set}
use hispec_tib.Command.Attens.{atten_setting_get, atten_setting_set, set_attenuator, update_atten}
use hispec_tib.Command.{dispatch_command}
use hispec_tib.Command.Table.{
  by_type_both, no_row, memsroute, mems, laser, power, atten, status, sleep, Row-of,
  dispatch_no_row, dispatch_memsroute, dispatch_mems, dispatch_laser, dispatch_power,
  dispatch_atten, dispatch_status, dispatch_sleep,
}

-- Switches and routes are the same, and so is the number of attenuators.
record IsSame {D : Type 0} (tib tib' : Tib D) : Type 0 where
  switches : tib'.mems_switches ≡ tib.mems_switches
  router : tib'.router ≡ tib.router
  count : length tib'.attenuators ≡ length tib.attenuators

IsValid-IsSame : {D : Type 0} (tib tib' : Tib D) → IsSame tib tib' → IsValid tib → IsValid tib'
IsValid-IsSame tib tib' s v = record {
  wired = rw (s.switches, s.router) v.wired;
  bounded = rw s.router v.bounded;
  good = rw (s.switches, s.router) v.good;
  legal = rw s.switches v.legal;
  six = s.count ∙ v.six;
}

module _ {D : Type 0} (env : Env D) (cmd : Command) (tib : Tib D) where
  abbrev Same : OutMsg × Tib D → Type 0
  Same out = IsSame tib out.1

  IsSame-refl : IsSame tib tib
  IsSame-refl = record { switches = refl; router = refl; count = refl }

  set_attenuator-IsSame :
      (i : ℕ) (a : Attenuator D) (x : D) (raw : Bool)
      → IsSame tib (set_attenuator env i a x raw tib)
  unfolding set_attenuator
  set_attenuator-IsSame i a x raw = record {
    switches = refl;
    router = refl;
    count = length-set tib.attenuators i _;
  }

  power-Same : Same (power_handler_get env cmd tib) × Same (power_handler_set env cmd tib)
  unfolding power_handler_get power_handler_set
  power-Same = ground arith

  status-Same : Same (status_get env cmd tib) × Same (sleep_set env cmd tib)
  unfolding status_get sleep_set
  status-Same = ground arith

  memsroute_get-Same : Same (memsroute_get env cmd tib)
  unfolding memsroute_get
  memsroute_get-Same = ground arith

  mems_get-Same : Same (mems_get env cmd tib)
  unfolding mems_get
  mems_get-Same = ground arith

  laser-Same : Same (laser_setting_get env cmd tib) × Same (laser_setting_set env cmd tib)
  unfolding laser_setting_get laser_setting_set
  laser-Same = (ground arith, ground arith)

  update_atten-Same :
      (i : ℕ) (setting : CString) (a : Option (Attenuator D))
      → Same (update_atten env cmd i setting a tib)
  unfolding update_atten
  update_atten-Same i setting none = IsSame-refl
  update_atten-Same i setting (some a) = grind (arith, set_attenuator-IsSame, IsSame-refl)

  atten-Same : Same (atten_setting_get env cmd tib) × Same (atten_setting_set env cmd tib)
  unfolding atten_setting_get atten_setting_set
  atten-Same = (ground arith, grind (arith, update_atten-Same))

  module _ (v : IsValid tib) where
    abbrev Ok : OutMsg × Tib D → Type 0
    Ok out = IsValid out.1

    Ok-of_Same : (out : OutMsg × Tib D) → Same out → Ok out
    Ok-of_Same out s = IsValid-IsSame tib out.1 s v

    abbrev asked : Option Route
    asked =
        mems_router_get_route tib.router (env.json.route_id (json_bytes cmd)).value.0
          (env.json.route_id (json_bytes cmd)).value.1

    set_steps-Ok :
        (route : Route)
        → IsValid (record tib {
          mems_switches = (set_steps tib.router route.steps tib.mems_switches tib.history).1;
          history = (set_steps tib.router route.steps tib.mems_switches tib.history).2;
        })
    set_steps-Ok route =
        IsValid-keep tib _ _ (set_steps-Keeps tib.router route.steps tib.mems_switches tib.history)
          v

    memsroute_set-Ok : Ok (memsroute_set env cmd tib)
    unfolding memsroute_set
    memsroute_set-Ok = elim (Bool-cases (is_neg (env.json.route_id (json_bytes cmd)).rc)) [
      | inl e ↦ rw (e, memsroute_set) v
      | inr e ↦ elim (Option-cases asked) [
        | inl f ↦ rw (e, memsroute_set) (rw (f, memsroute_set) v)
        | inr (route, f) ↦ rw (e, memsroute_set) (rw (f, memsroute_set) (set_steps-Ok route))
      ]
    ]

    set_one-Ok :
        (p : ℕ) (sw : Switch) (s : ℕ)
        → get_elem? tib.mems_switches p ≡ some sw
        → IsValid (record tib {
          mems_switches = set tib.mems_switches p (mems_switch_set_state sw s tib.history).1;
          history = (mems_switch_set_state sw s tib.history).2;
        })
    set_one-Ok p sw s here =
        IsValid-keep tib _ _ (set_state-Keeps tib.router tib.mems_switches p sw s tib.history here)
          v

    abbrev wanted : ℕ
    wanted = first_byte (env.json.value_string (json_bytes cmd)).value

    mems_set-named :
        (name : CString) → switch_name_of env cmd ≡ some name → Ok (mems_set env cmd tib)
    unfolding mems_set
    mems_set-named name n = elim (Bool-cases (is_neg (env.json.value_string (json_bytes cmd)).rc)) [
      | inl e ↦ rw (n, mems_set) (rw e v)
      | inr e ↦ elim (Option-cases (mems_router_find_switch tib.router tib.mems_switches name)) [
        | inl f ↦ rw (n, mems_set) (rw e (rw f v))
        | inr (p, f) ↦ elim (Option-cases (get_elem? tib.mems_switches p)) [
          | inl g ↦ rw (n, mems_set) (rw e (rw f (rw g v)))
          | inr (sw, g) ↦
              elim (Bool-cases (is_zero (mems_switch_set_state sw wanted tib.history).0)) [
                | inl h ↦ rw (n, mems_set) (rw e (rw f (rw g (rw h (set_one-Ok p sw wanted g)))))
                | inr h ↦ rw (n, mems_set) (rw e (rw f (rw g (rw h (set_one-Ok p sw wanted g)))))
              ]
        ]
      ]
    ]

    mems_set-Ok : Ok (mems_set env cmd tib)
    mems_set-Ok = elim (Option-cases (switch_name_of env cmd)) [
      | inl n ↦ unfold mems_set in rw (n, mems_set) v
      | inr (name, n) ↦ mems_set-named name n
    ]

    -- Whatever the command, a board that is in order (`IsValid`) is in order after
    -- `dispatch_command`.
    pub dispatch-IsValid : IsValid (dispatch_command env cmd tib).1
    dispatch-IsValid = elim (Row-of env cmd.key) [
      | no_row e ↦ rw (dispatch_no_row env cmd tib e) v
      | memsroute e ↦ rw (dispatch_memsroute env cmd tib e) (
          by_type_both Ok cmd.msg_type _ _
            (Ok-of_Same (memsroute_get env cmd tib) memsroute_get-Same) memsroute_set-Ok)
      | mems e ↦ rw (dispatch_mems env cmd tib e) (
          by_type_both Ok cmd.msg_type _ _ (Ok-of_Same (mems_get env cmd tib) mems_get-Same)
            mems_set-Ok)
      | laser e ↦ rw (dispatch_laser env cmd tib e) (
          by_type_both Ok cmd.msg_type _ _ (Ok-of_Same (laser_setting_get env cmd tib) laser-Same.0)
            (Ok-of_Same (laser_setting_set env cmd tib) laser-Same.1))
      | power e ↦ rw (dispatch_power env cmd tib e) (
          by_type_both Ok cmd.msg_type _ _ (Ok-of_Same (power_handler_get env cmd tib) power-Same.0)
            (Ok-of_Same (power_handler_set env cmd tib) power-Same.1))
      | atten e ↦ rw (dispatch_atten env cmd tib e) (
          by_type_both Ok cmd.msg_type _ _ (Ok-of_Same (atten_setting_get env cmd tib) atten-Same.0)
            (Ok-of_Same (atten_setting_set env cmd tib) atten-Same.1))
      | status e ↦
          rw (dispatch_status env cmd tib e)
            (by_type_both Ok cmd.msg_type _ _ (Ok-of_Same (status_get env cmd tib) status-Same.0) v)
      | sleep e ↦
          rw (dispatch_sleep env cmd tib e)
            (by_type_both Ok cmd.msg_type _ _ v (Ok-of_Same (sleep_set env cmd tib) status-Same.1))
    ]
