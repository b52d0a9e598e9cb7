-- ===== src/Command/Texts/Routes.antt =====
-- The texts of the handlers "memsroute" and "mems".
use hispec_tib.Prelude.{
  ℕ, All-get_elem?, ◌≡◌, refl, inl, inr, true, List, [], ◌∷◌, ◌++◌, append_assoc, append-nil,
  filter, some, arith, length, Bool-cases, Option-cases, All, leb, is_neg, get_elem?,
}
use hispec_tib.CString.{text}
use hispec_tib.Board.{Env}
use hispec_tib.Mems.{
  Switch, Route, RouteKey, Router, mems_switch_get_state, mems_router_get_route, steps_match,
}
use hispec_tib.Mems.Active.{active_keys}
use hispec_tib.Mems.Keep.{IsLegal}
use hispec_tib.Devices.{Tib}
use hispec_tib.Devices.Setup.{IsValid}
use hispec_tib.Grammar.{
  IsJson, IsPlain, all_plain, string, member, IsMember, IsMembers, one_member, more_members,
  empty_object, object,
}
use hispec_tib.Grammar.Notes.{is_note, one_member-IsJson, one_string-IsJson}
use hispec_tib.Command.Types.{Command, resp_ok, resp_error}
use hispec_tib.Command.Reply.{msg_builder, snprintf_payload}
use hispec_tib.Command.Power.{json_bytes}
use hispec_tib.Command.Mems.{memsroute_get, memsroute_set, mems_get, mems_set, key_text}
use hispec_tib.Command.Mems.Json.{entries, routes_text, memsroute_get_lem}
use hispec_tib.Command.Mems.Replies.{memsroute_set-Routed}
use hispec_tib.Command.Texts.{SaysJson, note-SaysJson, text-SaysJson, printed-SaysJson}

-- The names of a route's ends need no escapes.
abbrev pub IsNamed : Route → Type 0
IsNamed r = IsPlain r.key.input_name × IsPlain r.key.output_name

abbrev KeyPlain : RouteKey → Type 0
KeyPlain k = IsPlain k.input_name × IsPlain k.output_name

active_keys-KeyPlain :
    (router : Router) (store : List Switch) (rs : List Route)
    → All IsNamed rs
    → All KeyPlain (active_keys router store rs)
unfolding filter
active_keys-KeyPlain router store [] n = tt
active_keys-KeyPlain router store (r ∷ rs) (p, ps) =
    elim (Bool-cases (steps_match router store r.steps)) [
      | inl on ↦ rw on (p, active_keys-KeyPlain router store rs ps)
      | inr off ↦ rw off (active_keys-KeyPlain router store rs ps)
    ]

key_text-IsMember : (k : RouteKey) → KeyPlain k → IsMember (key_text k)
key_text-IsMember k (i, o) =
    member k.input_name (b'"' ∷ (k.output_name ++ (b'"' ∷ []))) refl i (string k.output_name refl o)

entries-IsMembers :
    (k : RouteKey) (ks : List RouteKey) → All KeyPlain (k ∷ ks) → IsMembers (entries true (k ∷ ks))
unfolding entries
entries-IsMembers k [] (p, ps) = one_member (rw append-nil (key_text-IsMember k p))
entries-IsMembers k (l ∷ ks) (p, ps) =
    more_members (key_text k) (entries true (l ∷ ks)) (inl refl) (key_text-IsMember k p)
      (entries-IsMembers l ks ps)

routes_text-IsJson : (ks : List RouteKey) → All KeyPlain ks → IsJson (routes_text ks)
unfolding entries all_plain
routes_text-IsJson [] p =
    one_member-IsJson _ (text "active_routes") (text "{}") refl refl (empty_object refl)
routes_text-IsJson (k ∷ ks) p =
    one_member-IsJson _ (text "active_routes") (b'{' ∷ (entries true (k ∷ ks) ++ (b'}' ∷ [])))
      (simp append_assoc) refl (object (entries true (k ∷ ks)) refl (entries-IsMembers k ks p))

module _ {D : Type 0} (env : Env D) (cmd : Command) (tib : Tib D) (v : IsValid tib)
    (n : All IsNamed tib.router.routes) where
  pub memsroute_get-SaysJson : SaysJson (memsroute_get env cmd tib).0
  unfolding is_note
  memsroute_get-SaysJson =
      let keys = active_keys tib.router tib.mems_switches tib.router.routes in
      elim (Bool-cases (leb (length (routes_text keys)) 255)) [
        | inl e ↦ rw (memsroute_get_lem env cmd tib v.bounded) (
            rw e (
              text-SaysJson cmd resp_ok (routes_text keys)
                (routes_text-IsJson keys
                  (active_keys-KeyPlain tib.router tib.mems_switches tib.router.routes n))
                (ground arith)))
        | inr e ↦ rw (memsroute_get_lem env cmd tib v.bounded) (
            rw e (
              note-SaysJson cmd resp_error (text "{\"error\":\"overflow building JSON\"}") refl
                (omega arith)))
      ]

  pub memsroute_set-SaysJson : SaysJson (memsroute_set env cmd tib).0
  unfolding memsroute_set is_note
  memsroute_set-SaysJson =
      let id = env.json.route_id (json_bytes cmd) in
      elim (Bool-cases (is_neg id.rc)) [
        | inl e ↦ rw e (
            note-SaysJson cmd resp_error
              (text "{\"error\":\"Failed to parse JSON input or output\"}") refl (omega arith))
        | inr e ↦ elim (Option-cases (mems_router_get_route tib.router id.value.0 id.value.1)) [
          | inl f ↦
              rw (e, f)
                (note-SaysJson cmd resp_error (text "{\"error\":\"Invalid Route\"}") refl
                  (omega arith))
          | inr (route, f) ↦
              rw (memsroute_set-Routed env cmd tib route v f e).answered
                (note-SaysJson cmd resp_ok (text "{\"status\":\"OK\"}") refl (omega arith))
        ]
      ]

  switch-SaysJson :
      (sw : Switch)
      → IsLegal sw
      → SaysJson (
          msg_builder (some cmd) resp_ok (
            snprintf_payload (text "{\"value\":\"" ++ ((mems_switch_get_state sw).1 ∷ text "\"}"))))
  unfolding mems_switch_get_state all_plain
  switch-SaysJson sw l =
      printed-SaysJson cmd resp_ok _
        (one_string-IsJson _ (text "value") (sw.state ∷ []) refl refl (ground arith)) (omega arith)

  read-SaysJson :
      (i : ℕ) (sw : Switch)
      → get_elem? tib.mems_switches i ≡ some sw
      → SaysJson (
          msg_builder (some cmd) resp_ok (
            snprintf_payload (text "{\"value\":\"" ++ ((mems_switch_get_state sw).1 ∷ text "\"}"))))
  read-SaysJson i sw e = switch-SaysJson sw (All-get_elem? IsLegal tib.mems_switches i sw v.legal e)

  mems_get-SaysJson : SaysJson (mems_get env cmd tib).0
  unfolding mems_get is_note
  mems_get-SaysJson = grind (arith, note-SaysJson, read-SaysJson)

  pub mems-SaysJson : SaysJson (mems_get env cmd tib).0 × SaysJson (mems_set env cmd tib).0
  unfolding mems_set is_note
  mems-SaysJson = (mems_get-SaysJson, grind (arith, note-SaysJson))
