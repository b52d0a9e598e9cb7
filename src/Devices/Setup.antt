-- ===== src/Devices/Setup.antt =====
-- What `setup_mems_switches_and_routes` leaves behind.
use hispec_tib.Prelude.{ℕ, ◌<◌, ◌≡◌, refl, true, List, [], ◌∷◌, map, All, length, arith}
use hispec_tib.CString.{CString, strncmp_eq}
use hispec_tib.Board.{History}
use hispec_tib.Mems.{
  Switch, RouteStep, Route, Router, mems_router_find_switch, mems_router_define_route,
  mems_router_init, mems_switch_init,
}
use hispec_tib.Mems.Routes.{IsBounded, IsGood, route_of}
use hispec_tib.Mems.Keep.{IsLegal}
use hispec_tib.Mems.Check.{all_good, all_good-All}
use hispec_tib.Devices.{
  Tib, switch_table, route_table, init_switches, define_routes, setup_mems_switches_and_routes,
}

-- The globals are in order: every pointer of the router is one into the array of switches, the tables
-- hold what is in them, every route can be carried out, and `attenuators` has its six entries.
pub record IsValid {D : Type 0} (tib : Tib D) : Type 0 where
  pub wired : All (λ p. p < length tib.mems_switches) tib.router.switches
  pub bounded : IsBounded tib.router
  pub good : All (IsGood tib.router tib.mems_switches) tib.router.routes
  pub legal : All IsLegal tib.mems_switches
  pub six : length tib.attenuators ≡ 6

abbrev pub table_route : CString × CString × List RouteStep → Route
table_route (i, o, ss) = route_of i o ss (length ss)

-- The router after the setup.
unfoldable set_up : Router
unfolding route_table
set_up = record {
  switches = 0 ∷ 1 ∷ 2 ∷ 3 ∷ 4 ∷ 5 ∷ 6 ∷ 7 ∷ [];
  routes = map table_route route_table;
}

define_routes_lem :
    define_routes route_table (mems_router_init (0 ∷ 1 ∷ 2 ∷ 3 ∷ 4 ∷ 5 ∷ 6 ∷ 7 ∷ []) 8) ≡ set_up
unfolding define_routes route_table mems_router_init mems_router_define_route set_up
define_routes_lem = refl

module _ (dev : ℕ) (h : History) where
  abbrev store : List Switch
  store = (init_switches dev switch_table h).0

  set_up-good : all_good set_up store set_up.routes ≡ true
  unfolding set_up all_good init_switches switch_table mems_switch_init mems_router_find_switch
      strncmp_eq
  set_up-good = refl

  store-wired : All (λ p. p < length store) set_up.switches
  unfolding set_up init_switches switch_table
  store-wired = omega arith

  store-IsLegal : All IsLegal store
  unfolding init_switches switch_table mems_switch_init
  store-IsLegal = ground arith

set_up-IsBounded : IsBounded set_up
unfolding set_up
set_up-IsBounded = omega arith

module _ {D : Type 0} (tib : Tib D) where
  -- If the array of attenuators has its six entries and the expander is ready, the setup defines
  -- all sixteen routes in the order of the source, and the globals are in order afterwards
  -- (`IsValid`).
  pub setup-IsValid :
      (dev : ℕ)
      → length tib.attenuators ≡ 6
      → let tib' = setup_mems_switches_and_routes true dev tib in
        IsValid tib'
        × (tib'.router.routes ≡ map table_route route_table)
        × (length tib'.router.routes ≡ 16)
  unfolding setup_mems_switches_and_routes
  setup-IsValid dev six = (
    record {
      wired = rw define_routes_lem (store-wired dev tib.history);
      bounded = rw define_routes_lem set_up-IsBounded;
      good =
          rw define_routes_lem (
            all_good-All set_up (store dev tib.history) set_up.routes
              (set_up-good dev tib.history));
      legal = store-IsLegal dev tib.history;
      six = six;
    },
    rw define_routes_lem (unfold set_up in refl),
    rw define_routes_lem (unfold set_up in refl),
  )
