-- ===== src/Mems/Active.antt =====
-- `mems_router_active_routes`: which routes it reports.
use hispec_tib.Prelude.{
  ℕ, zero, suc, ◌≤◌, ◌≡◌, refl, ap, inl, inr, Bool, List, [], ◌∷◌, arith, length, map, filter, take,
  take_all, length-map, Bool-cases,
}
use hispec_tib.Mems.{
  Switch, Route, RouteKey, Router, active_from, mems_router_active_routes, steps_match,
  mems_router_max_routes,
}
use hispec_tib.Mems.Routes.{IsBounded}

-- The keys of the routes whose steps all hold, in the order of the table.
abbrev pub active_keys : Router → List Switch → List Route → List RouteKey
active_keys router store rs = map (λ r. r.key) (filter (λ r. steps_match router store r.steps) rs)

active_from_lem :
    (router : Router) (store : List Switch) (rs : List Route) (room : ℕ)
    → active_from router store rs room ≡ take room (active_keys router store rs)
unfolding active_from filter
active_from_lem router store [] zero = refl
active_from_lem router store [] (suc room) = refl
active_from_lem router store (r ∷ rs) zero = refl
active_from_lem router store (r ∷ rs) (suc room) =
    elim (Bool-cases (steps_match router store r.steps)) [
      | inl on ↦ rw on (ap (◌∷◌ r.key) (active_from_lem router store rs room))
      | inr off ↦ rw off (active_from_lem router store rs (suc room))
    ]

length-filter-le {ℓ} : {A : Type ℓ} (p : A → Bool) (xs : List A) → length (filter p xs) ≤ length xs
unfolding filter
length-filter-le p [] = omega arith
length-filter-le p (x ∷ xs) = ground (arith, length-filter-le p xs)

-- The routes reported are the first `max_keys` of those whose steps all hold, in table order.
pub active_routes_lem :
    (router : Router) (store : List Switch) (max_keys : ℕ)
    → mems_router_active_routes router store max_keys
      ≡ take max_keys (active_keys router store router.routes)
unfolding mems_router_active_routes
active_routes_lem router store max_keys = active_from_lem router store router.routes max_keys

-- If the router keeps to its bounds and there is room for 18 keys, the routes reported are all
-- those whose steps all hold, in table order.
pub active_routes_complete :
    (router : Router) (store : List Switch)
    → IsBounded router
    → mems_router_active_routes router store mems_router_max_routes
      ≡ active_keys router store router.routes
active_routes_complete router store b = rw (active_routes_lem router store mems_router_max_routes) (
    take_all mems_router_max_routes (active_keys router store router.routes) (
      omega (
        arith,
        b.few,
        length-map (filter (λ r. steps_match router store r.steps) router.routes) (λ r. r.key),
        length-filter-le (λ r. steps_match router store r.steps) router.routes,
      )))
