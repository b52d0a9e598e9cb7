-- ===== src/Command/Inert.antt =====
-- What becomes of a command whose payload length is 0, as that of every command from the broker is.
use hispec_tib.Prelude.{◌≡◌, ap, ◌≢◌, ◌⊎◌, inl, inr, true, [], ◌∷◌, arith, is_neg}
use hispec_tib.Board.{Env, Json, power_get}
use hispec_tib.Devices.{Tib}
use hispec_tib.Command.Types.{Command, OutMsg, set, resp_error}
use hispec_tib.Command.Reply.{msg_builder, unknown_response, unsupported_response}
use hispec_tib.Command.Power.{power_handler_get, power_handler_set, status_get, sleep_set}
use hispec_tib.Command.Mems.{memsroute_get, memsroute_set}
use hispec_tib.Command.{dispatch_command}
use hispec_tib.Command.Table.{
  by_type, no_row, memsroute, mems, laser, power, atten, status, sleep, Row-of, dispatch_no_row,
  dispatch_memsroute, dispatch_power, dispatch_status, dispatch_sleep,
}
use hispec_tib.Command.Reach.{dispatch-Refused}

-- The JSON parser returns an error on no bytes at all.
pub record RejectsEmpty {D : Type 0} (json : Json D) : Type 0 where
  pub route_id : is_neg (json.route_id []).rc ≡ true
  pub value_bool : is_neg (json.value_bool []).rc ≡ true

-- Nothing was written: the globals are the same, and at most the level of the power pin was read. A
-- request to write was answered with an error.
pub record IsInert {D : Type 0} (cmd : Command) (tib : Tib D) (out : OutMsg × Tib D) : Type 0 where
  pub switches : out.1.mems_switches ≡ tib.mems_switches
  pub router : out.1.router ≡ tib.router
  pub attenuators : out.1.attenuators ≡ tib.attenuators
  pub history : (out.1.history ≡ tib.history) ⊎ (out.1.history ≡ power_get ∷ tib.history)
  pub refused : (cmd.msg_type ≢ set) ⊎ (out.0.msg_type ≡ resp_error)

module _ {D : Type 0} (env : Env D) (cmd : Command) (tib : Tib D) where
  IsInert-error :
      (out : OutMsg × Tib D) → out.1 ≡ tib → out.0.msg_type ≡ resp_error → IsInert cmd tib out
  IsInert-error out e f = record {
    switches = ap (λ (t : Tib D). t.mems_switches) e;
    router = ap (λ (t : Tib D). t.router) e;
    attenuators = ap (λ (t : Tib D). t.attenuators) e;
    history = inl (ap (λ (t : Tib D). t.history) e);
    refused = inr f;
  }

  module _ (rejects : RejectsEmpty env.json) (empty : cmd.payload_len ≡ 0) where
    memsroute-IsInert :
        IsInert cmd tib
          (by_type cmd.msg_type (memsroute_get env cmd tib) (memsroute_set env cmd tib))
    unfolding memsroute_get memsroute_set msg_builder
    memsroute-IsInert = ground (arith, rejects.route_id, empty)

    power-IsInert :
        IsInert cmd tib
          (by_type cmd.msg_type (power_handler_get env cmd tib) (power_handler_set env cmd tib))
    unfolding power_handler_get power_handler_set msg_builder
    power-IsInert = ground (arith, rejects.value_bool, empty)

    status-IsInert :
        IsInert cmd tib
          (by_type cmd.msg_type (status_get env cmd tib) (unsupported_response cmd, tib))
    unfolding status_get unsupported_response
    status-IsInert = ground arith

    sleep-IsInert :
        IsInert cmd tib
          (by_type cmd.msg_type (unsupported_response cmd, tib) (sleep_set env cmd tib))
    unfolding sleep_set unsupported_response
    sleep-IsInert = ground (arith, rejects.value_bool, empty)

    unknown-IsInert : IsInert cmd tib (unknown_response cmd, tib)
    unfolding unknown_response
    unknown-IsInert = ground arith

    -- If the parser rejects empty input, a command with the payload length 0 changes no switch,
    -- route or attenuator and makes at most one driver call, which reads the level of the power
    -- pin; and one that wants to write is answered with an error.
    pub dispatch-IsInert : IsInert cmd tib (dispatch_command env cmd tib)
    dispatch-IsInert = elim (Row-of env cmd.key) [
      | no_row e ↦ rw (dispatch_no_row env cmd tib e) unknown-IsInert
      | memsroute e ↦ rw (dispatch_memsroute env cmd tib e) memsroute-IsInert
      | mems e ↦
          let r = dispatch-Refused env cmd tib (inl e) in
          IsInert-error (dispatch_command env cmd tib) r.0 r.1
      | laser e ↦
          let r = dispatch-Refused env cmd tib (inr (inl e)) in
          IsInert-error (dispatch_command env cmd tib) r.0 r.1
      | power e ↦ rw (dispatch_power env cmd tib e) power-IsInert
      | atten e ↦
          let r = dispatch-Refused env cmd tib (inr (inr e)) in
          IsInert-error (dispatch_command env cmd tib) r.0 r.1
      | status e ↦ rw (dispatch_status env cmd tib e) status-IsInert
      | sleep e ↦ rw (dispatch_sleep env cmd tib e) sleep-IsInert
    ]
