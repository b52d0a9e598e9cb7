-- ===== src/Command/Mems/Replies.antt =====
-- What the handlers of "memsroute" and "mems" do on a board that is set up.
use mathlib.Core.List.{Mem, mem-cons_self, mem-cons_of_mem}
use hispec_tib.Prelude.{
  ◌≡◌, refl, inl, inr, true, false, List, [], ◌∷◌, some, arith, get_elem?, set, is_neg, is_zero,
  filter, Bool-cases, Option-cases,
}
use hispec_tib.CString.{CString, text}
use hispec_tib.Board.{Env, History}
use hispec_tib.Mems.{
  Switch, RouteStep, Route, Router, mems_router_find_switch, mems_switch_set_state,
  mems_router_get_route, mems_router_active_routes, mems_router_max_routes, steps_match, find_route,
  key_matches,
}
use hispec_tib.Mems.Keep.{Keeps, Keeps-refl, Keeps-trans, set_state-Keeps, IsGood-keep}
use hispec_tib.Mems.Routes.{IsGood, find_route_sound}
use hispec_tib.Mems.Active.{active_keys, active_routes_complete}
use hispec_tib.Devices.{Tib}
use hispec_tib.Devices.Setup.{IsValid}
use hispec_tib.Command.Types.{Command, OutMsg, resp_ok}
use hispec_tib.Command.Reply.{msg_builder}
use hispec_tib.Command.Power.{json_bytes}
use hispec_tib.Command.Mems.{set_steps, memsroute_set, answer, Outcome}
use hispec_tib.Command.Mems.Steps.{Carried, set_steps-Carried}

-- Whatever the outcome, the loop over the steps keeps names, lookups and legal states.
pub set_steps-Keeps :
    (router : Router) (ss : List RouteStep) (store : List Switch) (h : History)
    → Keeps router store (set_steps router ss store h).1
unfolding set_steps
set_steps-Keeps router [] store h = Keeps-refl router store
set_steps-Keeps router (s ∷ ss) store h =
    elim (Option-cases (mems_router_find_switch router store s.switch_name)) [
      | inl e ↦ rw (e, set_steps) (Keeps-refl router store)
      | inr (p, e) ↦ elim (Option-cases (get_elem? store p)) [
        | inl f ↦ rw (e, set_steps) (rw (f, set_steps) (Keeps-refl router store))
        | inr (sw, f) ↦
            rw (e, set_steps)
              (rw (f, set_steps)
                (elim (Bool-cases (is_zero (mems_switch_set_state sw s.state h).0)) [
                  | inl ok ↦ rw ok (
                      Keeps-trans router store (set store p (mems_switch_set_state sw s.state h).1)
                        _ (set_state-Keeps router store p sw s.state h f)
                        (set_steps-Keeps router ss
                          (set store p (mems_switch_set_state sw s.state h).1)
                          (mems_switch_set_state sw s.state h).2))
                  | inr bad ↦ rw bad (set_state-Keeps router store p sw s.state h f)
                ]))
      ]
    ]

-- A board whose switches were written stays in order.
pub IsValid-keep :
    {D : Type 0} (tib : Tib D) (store : List Switch) (h : History)
    → Keeps tib.router tib.mems_switches store
    → IsValid tib
    → IsValid (record tib { mems_switches = store; history = h })
IsValid-keep tib store h k v = record {
  wired = rw k.same_length v.wired;
  bounded = v.bounded;
  good = IsGood-keep tib.router tib.mems_switches store tib.router.routes k v.good;
  legal = k.legal v.legal;
  six = v.six;
}

active_of_find :
    (router : Router) (store : List Switch) (rs : List Route) (input output : CString) (r : Route)
    → find_route rs input output ≡ some r
    → steps_match router store r.steps ≡ true
    → Mem r.key (active_keys router store rs)
unfolding find_route filter
active_of_find router store [] input output r e m = cc
active_of_find router store (x ∷ rs) input output r e m =
    elim (Bool-cases (key_matches input output x.key)) [
      | inl hit ↦ let same : r ≡ x = ground arith in rw (same, (rw same at m)) mem-cons_self
      | inr miss ↦
          let ih : Mem r.key (active_keys router store rs) =
            active_of_find router store rs input output r (ground arith) m in
          elim (Bool-cases (steps_match router store x.steps)) [
            | inl on ↦ rw on (mem-cons_of_mem x.key ih)
            | inr off ↦ rw off ih
          ]
    ]

-- What a request for a route that is in the table achieves.
pub record Routed {D : Type 0} (cmd : Command) (route : Route) (tib : Tib D) (out : OutMsg × Tib D)
    : Type 0 where
  pub answered : out.0 ≡ msg_builder (some cmd) resp_ok (text "{\"status\":\"OK\"}")
  pub stands : steps_match out.1.router out.1.mems_switches route.steps ≡ true
  pub reported :
      Mem route.key
        (mems_router_active_routes out.1.router out.1.mems_switches mems_router_max_routes)
  pub valid : IsValid out.1
  same_router : out.1.router ≡ tib.router
  same_attenuators : out.1.attenuators ≡ tib.attenuators

module _ {D : Type 0} (env : Env D) (cmd : Command) (tib : Tib D) (route : Route) (v : IsValid tib)
    (found : mems_router_get_route tib.router
        (env.json.route_id (json_bytes cmd)).value.0
        (env.json.route_id (json_bytes cmd)).value.1
      ≡ some route) where
  abbrev loop : Outcome × List Switch × History
  loop = set_steps tib.router route.steps tib.mems_switches tib.history

  route-IsGood : IsGood tib.router tib.mems_switches route
  unfolding mems_router_get_route
  route-IsGood =
      (find_route_sound (IsGood tib.router tib.mems_switches) tib.router.routes _ _ route found
        v.good).0

  carried : Carried tib.router route.steps tib.mems_switches loop
  carried =
      set_steps-Carried tib.router route.steps tib.mems_switches tib.history route-IsGood.ready
        route-IsGood.distinct

  loop-IsValid : IsValid (record tib { mems_switches = loop.1; history = loop.2 })
  loop-IsValid =
      IsValid-keep tib loop.1 loop.2
        (set_steps-Keeps tib.router route.steps tib.mems_switches tib.history) v

  memsroute_set_result :
      is_neg (env.json.route_id (json_bytes cmd)).rc ≡ false
      → memsroute_set env cmd tib ≡ (
        msg_builder (some cmd) resp_ok (text "{\"status\":\"OK\"}"),
        record tib { mems_switches = loop.1; history = loop.2 },
      )
  unfolding memsroute_set answer
  memsroute_set_result parsed = ground (arith, parsed, found, carried.done)

  -- On a board in order, a request that parses and names a route of the table is answered with OK; then
  -- every step of the route holds, `mems_router_active_routes` reports the route, the board is still in
  -- order, and router and attenuators are as before.
  pub memsroute_set-Routed :
      is_neg (env.json.route_id (json_bytes cmd)).rc ≡ false
      → Routed cmd route tib (memsroute_set env cmd tib)
  unfolding mems_router_get_route
  memsroute_set-Routed parsed = rw (memsroute_set_result parsed) (record {
    answered = refl;
    stands = carried.holds;
    reported =
        rw (active_routes_complete tib.router loop.1 v.bounded)
          (active_of_find tib.router loop.1 tib.router.routes _ _ route found carried.holds);
    valid = loop-IsValid;
    same_router = refl;
    same_attenuators = refl;
  })
