-- ===== src/Command/Mems.antt =====
-- app/src/command.c: the handlers "memsroute" and "mems".
pub mod Steps
pub mod Replies
pub mod Json
use hispec_tib.Prelude.{
  ℕ, ◌-◌, ◌<◌, Bool, true, false, not, List, [], ◌∷◌, ◌++◌, Option, none, some, leb, if◌then◌else◌,
  length, get_elem?, set, take, is_neg, is_zero,
}
use hispec_tib.CString.{CString, text}
use hispec_tib.Board.{Env, History}
use hispec_tib.Mems.{
  Switch, RouteStep, RouteKey, Router, mems_switch_set_state, mems_switch_get_state,
  mems_router_find_switch, mems_router_get_route, mems_router_active_routes, mems_router_max_routes,
}
use hispec_tib.Devices.{Tib}
use hispec_tib.Command.Types.{Command, OutMsg, resp_ok, resp_error, max_payload_len}
use hispec_tib.Command.Reply.{msg_builder, snprintf_payload}
use hispec_tib.Command.Keys.{parse_key_pair, no_slash, bad_name, bad_setting, pair}
use hispec_tib.Command.Power.{json_bytes}

-- `snprintf(buf + offset, sizeof(buf) - offset, s)`, where `buf` is what is written so far;
-- `none` if the text does not fit with its NUL.
unfoldable pub put : CString → CString → Option CString
put buf s = if leb (max_payload_len - length buf) (length s) then none else some (buf ++ s)

infixl 5 ◌>>=◌
abbrev pub ◌>>=◌ {ℓ κ} : {A : Type ℓ} {B : Type κ} → Option A → (A → Option B) → Option B
none >>= f = none
some a >>= f = f a

abbrev pub key_text : RouteKey → CString
key_text k = text "\"" ++ (k.input_name ++ (text "\":\"" ++ (k.output_name ++ text "\"")))

-- The loop over the keys; `first` says that none has been written.
unfoldable pub put_keys : Bool → List RouteKey → CString → Option CString
unfolding put
put_keys first [] buf = some buf
put_keys first (k ∷ ks) buf = do
  buf1 ← if first then some buf else put buf (text ",")
  buf2 ← put buf1 (key_text k)
  put_keys false ks buf2

-- The buffer that `memsroute_get` sends, if it is large enough.
unfoldable pub routes_json : List RouteKey → Option CString
unfolding put_keys
routes_json keys = do buf ← put_keys true keys (text "{\"active_routes\":{"); put buf (text "}}")

-- How the loop over the steps of a route ends.
pub data Outcome : Type 0 where
  all_set no_switch : Outcome
  failed : RouteStep → Outcome

unfoldable pub set_steps :
    Router → List RouteStep → List Switch → History → Outcome × List Switch × History
set_steps router [] store h = (all_set, store, h)
set_steps router (s ∷ ss) store h = elim (mems_router_find_switch router store s.switch_name) [
  | none ↦ (no_switch, store, h)
  | some p ↦ elim (get_elem? store p) [
    | none ↦ (no_switch, store, h)
    | some sw ↦
        let (rc, sw', h') = mems_switch_set_state sw s.state h in
        let rest = set_steps router ss (set store p sw') h' in
        if is_zero rc then rest else (failed s, set store p sw', h')
  ]
]

abbrev pub set_failed_text : RouteStep → CString
set_failed_text s =
    text "{\"error\":\"Setting switch "
    ++ (s.switch_name ++ (text " to " ++ (s.state ∷ text " failed\"}")))

-- The first byte of a string that is in a buffer: its NUL, if it is empty.
abbrev pub first_byte : CString → ℕ
first_byte [] = 0
first_byte (c ∷ cs) = c

module _ {D : Type 0} (env : Env D) where
  unfoldable pub memsroute_get : Command → Tib D → OutMsg × Tib D
  memsroute_get cmd tib =
      let keys = mems_router_active_routes tib.router tib.mems_switches mems_router_max_routes in
      elim (routes_json keys) [
        | none ↦
            (msg_builder (some cmd) resp_error (text "{\"error\":\"overflow building JSON\"}"), tib)
        | some buf ↦ (msg_builder (some cmd) resp_ok buf, tib)
      ]

  -- The answer to the way the loop over the steps ended.
  unfoldable pub answer : Command → Outcome → OutMsg
  answer cmd all_set = msg_builder (some cmd) resp_ok (text "{\"status\":\"OK\"}")
  answer cmd no_switch =
      msg_builder (some cmd) resp_error (text "{\"error\":\"Internal route error\"}")
  answer cmd (failed s) = msg_builder (some cmd) resp_error (snprintf_payload (set_failed_text s))

  unfoldable pub memsroute_set : Command → Tib D → OutMsg × Tib D
  memsroute_set cmd tib =
      let id = env.json.route_id (json_bytes cmd) in
      let (input, output) = id.value in
      if is_neg id.rc
      then (
        msg_builder (some cmd) resp_error
            (text "{\"error\":\"Failed to parse JSON input or output\"}"),
        tib,
      )
      else elim (mems_router_get_route tib.router input output) [
        | none ↦ (msg_builder (some cmd) resp_error (text "{\"error\":\"Invalid Route\"}"), tib)
        | some route ↦
            let (outcome, store, h) =
              set_steps tib.router route.steps tib.mems_switches tib.history in
            (answer cmd outcome, record tib { mems_switches = store; history = h })
      ]

  -- `none` where the key gives no switch name that fits.
  unfoldable pub switch_name_of : Command → Option CString
  switch_name_of cmd = elim (parse_key_pair cmd.key 15 15) [
    | pair name setting ↦ some setting
    | _ ↦ none
  ]

  unfoldable pub mems_get : Command → Tib D → OutMsg × Tib D
  unfolding switch_name_of
  mems_get cmd tib = elim (switch_name_of cmd) [
    | none ↦ (
      msg_builder (some cmd) resp_error (text "{\"error\":\"Failed to parse mems switch name\"}"),
      tib,
    )
    | some name ↦
        elim (mems_router_find_switch tib.router tib.mems_switches name
          >>= get_elem? tib.mems_switches) [
            | none ↦ (
              msg_builder (some cmd) resp_error (text "{\"error\":\"Invalid switch name\"}"),
              tib,
            )
            | some sw ↦ (
              msg_builder (some cmd) resp_ok (
                  snprintf_payload
                    (text "{\"value\":\"" ++ ((mems_switch_get_state sw).1 ∷ text "\"}"))),
              tib,
            )
          ]
  ]

  unfoldable pub mems_set : Command → Tib D → OutMsg × Tib D
  unfolding switch_name_of
  mems_set cmd tib = elim (switch_name_of cmd) [
    | none ↦ (
      msg_builder (some cmd) resp_error (text "{\"error\":\"Failed to parse mems switch name\"}"),
      tib,
    )
    | some name ↦
        let in_data = env.json.value_string (json_bytes cmd) in
        if is_neg in_data.rc
        then (
          msg_builder (some cmd) resp_error (text "{\"error\":\"Failed to parse switch state\"}"),
          tib,
        )
        else elim (mems_router_find_switch tib.router tib.mems_switches name) [
          | none ↦
              (msg_builder (some cmd) resp_error (text "{\"error\":\"Invalid switch name\"}"), tib)
          | some p ↦ elim (get_elem? tib.mems_switches p) [
            | none ↦ (
              msg_builder (some cmd) resp_error (text "{\"error\":\"Invalid switch name\"}"),
              tib,
            )
            | some sw ↦
                let (rc, sw', h) =
                  mems_switch_set_state sw (first_byte in_data.value) tib.history in
                if not (is_zero rc)
                then (
                  msg_builder (some cmd) resp_error (text "{\"error\":\"Invalid switch state\"}"),
                  record tib { mems_switches = set tib.mems_switches p sw'; history = h },
                )
                else (
                  msg_builder (some cmd) resp_ok (text "{\"status\":\"OK\"}"),
                  record tib { mems_switches = set tib.mems_switches p sw'; history = h },
                )
          ]
        ]
  ]
