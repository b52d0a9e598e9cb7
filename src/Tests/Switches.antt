-- ===== src/Tests/Switches.antt =====
-- Runs of the switches and routes, and their theorems at concrete inputs.
use hispec_tib.Prelude.{ℕ, ◌≡◌, refl, inr, pos, List, [], ◌∷◌, none, some, arith}
use hispec_tib.CString.{CString, text, strncmp_eq}
use hispec_tib.Mems.{
  Switch, RouteStep, Router, mems_switch_set_state, mems_router_define_route, mems_router_get_route,
  key_matches, pulse, control_pin, find_route,
}
use hispec_tib.Mems.Switching.{WasSet, set_state-WasSet}
use hispec_tib.Mems.Routes.{IsAdded, route_of, get_route-define_route}

abbrev switch_a : Switch
switch_a = record { gpio_dev = 0; pin_a = 0; pin_b = 1; state = 65; name = text "a" }

abbrev switch_b : Switch
switch_b = record { gpio_dev = 0; pin_a = 2; pin_b = 3; state = 65; name = text "b" }

abbrev both : List Switch
both = switch_a ∷ switch_b ∷ []

abbrev step : CString → ℕ → RouteStep
step n s = record { switch_name = n; state = s }

abbrev steps : List RouteStep
steps = step (text "a") b'B' ∷ step (text "b") b'A' ∷ []

abbrev router : Router
router = record { switches = 0 ∷ 1 ∷ []; routes = route_of (text "in") (text "out") steps 2 ∷ [] }

-- Setting B pulses the second pin.
set_state_runs :
    mems_switch_set_state switch_a b'B' [] ≡ (pos 0, record switch_a { state = b'B' }, pulse 0 1 [])
unfolding mems_switch_set_state control_pin
set_state_runs = refl

set_state-WasSet_example : WasSet switch_b b'B' 3 [] (mems_switch_set_state switch_b b'B' [])
set_state-WasSet_example = set_state-WasSet switch_b b'B' [] (inr refl)

abbrev with_route : Router
with_route = (mems_router_define_route router (some (text "x")) (some (text "y")) (some steps) 1).1

-- The new route is found, and no route from its input to another output.
lookup_runs :
    (mems_router_get_route with_route (text "x") (text "y")
      ≡ some (route_of (text "x") (text "y") steps 1))
    × (mems_router_get_route with_route (text "x") (text "out") ≡ none)
unfolding mems_router_get_route find_route key_matches strncmp_eq mems_router_define_route
lookup_runs = (refl, refl)

get_route-define_route_example :
    IsAdded router.routes
      (route_of (text "x") (text "y") steps 1)
      (text "x")
      (text "y")
      (mems_router_get_route router (text "x") (text "y"))
      (mems_router_get_route with_route (text "x") (text "y"))
get_route-define_route_example =
    get_route-define_route router (text "x") (text "y") steps 1 (text "x") (text "y") (omega arith)
      (omega arith) (omega arith)
