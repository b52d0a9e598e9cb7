-- ===== src/Mems/Routes.antt =====
-- The route table of a router: `mems_router_define_route` and `mems_router_get_route`.
use hispec_tib.Prelude.{
  All-append, ℕ, ◌≤◌, ◌<◌, ◌≡◌, pos, negsuc, inl, inr, true, ◌&&◌, ◌||◌, List, [], ◌∷◌, ◌++◌,
  Option, none, some, arith, All, length, length-append, length-take, take, ltb, leb, ◌==◌,
  if◌then◌else◌, Bool-cases, subst, sym, Option-cases, ◌↔◌, ◌⊎◌, false, &&-eq-true, All-of,
}
use hispec_tib.CString.{CString, strncmp_eq}
use hispec_tib.CString.Compare.{strncmp_iff}
use hispec_tib.Mems.{
  Switch, RouteStep, Route, RouteKey, Router, mems_router_define_route, mems_router_get_route,
  find_route, key_matches, mems_router_max_routes, mems_router_max_route_path,
}
use hispec_tib.Mems.Update.{IsReady, Distinct}

-- The array `steps` of a route holds its steps, and there is at least one.
abbrev IsPath : Route → Type 0
IsPath r = (0 < length r.steps) × (length r.steps ≤ mems_router_max_route_path)

-- The arrays of the router hold what is in them.
pub record IsBounded (router : Router) : Type 0 where
  pub few : length router.routes ≤ mems_router_max_routes
  pub paths : All IsPath router.routes

abbrev pub route_of : CString → CString → List RouteStep → ℕ → Route
route_of i o path n = record {
  key = record { input_name = i; output_name = o };
  steps = take n path;
}

-- A definition succeeds exactly when there is room, no pointer is null and the number of steps is
-- between 1 and 5; then the route stands at the end of the table, and otherwise nothing changes.
define_route_lem :
    (router : Router) (i o : CString) (path : List RouteStep) (n : ℕ)
    → mems_router_define_route router (some i) (some o) (some path) n ≡ (
        if ltb (length router.routes) mems_router_max_routes
        then (if ltb 0 n && leb n mems_router_max_route_path
            then (pos 0, record router { routes = router.routes ++ (route_of i o path n ∷ []) })
            else (negsuc 1, router))
        else (negsuc 0, router))
unfolding mems_router_define_route
define_route_lem router i o path n = ground arith

-- Whatever names it is called with, `mems_router_define_route` keeps the table within its 18
-- routes and each route within its 5 steps, if the steps are an array with as many entries as is
-- said.
pub define_route-IsBounded :
    (router : Router) (i o : Option CString) (path : List RouteStep) (n : ℕ)
    → n ≤ length path
    → IsBounded router
    → IsBounded (mems_router_define_route router i o (some path) n).1
unfolding mems_router_define_route
define_route-IsBounded router none o path n h b = ground arith
define_route-IsBounded router (some i) none path n h b = ground arith
define_route-IsBounded router (some i) (some o) path n h b =
    elim (Bool-cases (leb mems_router_max_routes (length router.routes))) [
      | inl full ↦ rw full b
      | inr room ↦ elim (Bool-cases (n == 0 || ltb mems_router_max_route_path n)) [
        | inl bad ↦ rw (room, bad) b
        | inr good ↦
            rw (room, good)
              (record {
                few = ground (arith, length-append router.routes (route_of i o path n ∷ []));
                paths =
                    All-append IsPath router.routes (route_of i o path n ∷ []) b.paths (
                      (ground (arith, length-take n path), ground (arith, length-take n path)),
                      tt,
                    );
              })
      ]
    ]

-- A lookup after a definition that succeeded: an older route with the same key comes first.
find_route-append :
    (rs : List Route) (r : Route) (input output : CString)
    → find_route (rs ++ (r ∷ [])) input output ≡ elim (find_route rs input output) [
      | some found ↦ some found
      | none ↦ if key_matches input output r.key then some r else none
    ]
unfolding find_route
find_route-append [] r input output = ground arith
find_route-append (x ∷ rs) r input output = ground (arith, find_route-append rs r input output)

-- A route that is found stands in the table, under a key that agrees in the first 24 bytes.
pub find_route_sound {κ} :
    (P : Route → Type κ) (rs : List Route) (input output : CString) (r : Route)
    → find_route rs input output ≡ some r
    → All P rs
    → P r × (key_matches input output r.key ≡ true)
unfolding find_route
find_route_sound P [] input output r e a = cc
find_route_sound P (x ∷ rs) input output r e a =
    elim (Bool-cases (key_matches input output x.key)) [
      | inl hit ↦
          let same : x ≡ r = ground arith in
          subst (λ y. P y × (key_matches input output y.key ≡ true)) same (a.0, hit)
      | inr miss ↦ find_route_sound P rs input output r (ground arith) a.1
    ]

-- A key has these names, in the first 24 bytes of each.
abbrev pub Agrees : CString → CString → RouteKey → Type 0
Agrees input output k =
    (take 24 k.input_name ≡ take 24 input) × (take 24 k.output_name ≡ take 24 output)

key_matches_iff :
    (input output : CString) (k : RouteKey)
    → (key_matches input output k ≡ true) ↔ Agrees input output k
unfolding key_matches
key_matches_iff input output k =
    let (f, g) = strncmp_iff 24 k.input_name input in
    let (f', g') = strncmp_iff 24 k.output_name output in
    (
      λ e. let (a, b) = &&-eq-true (strncmp_eq 24 k.input_name input) _ e in (f a, f' b),
      λ (a, b). ground (arith, g a, g' b),
    )

not_Agrees :
    (input output : CString) (k : RouteKey)
    → key_matches input output k ≡ false
    → ¬ Agrees input output k
not_Agrees input output k n a = let e = (key_matches_iff input output k).1 a in cc

find_route-none :
    (rs : List Route) (input output : CString)
    → find_route rs input output ≡ none
    → All (λ (r : Route). ¬ Agrees input output r.key) rs
unfolding find_route
find_route-none [] input output n = tt
find_route-none (x ∷ rs) input output n = elim (Bool-cases (key_matches input output x.key)) [
  | inl hit ↦ absurd (ground (arith, n, hit))
  | inr miss ↦ (
    not_Agrees input output x.key miss,
    find_route-none rs input output (ground (arith, n, miss)),
  )
]

-- What a lookup gives, `after` a route was added to the table to which it gave `before`: the older route,
-- which has these names, or else the new one if that has them, or nothing.
abbrev pub IsAdded : List Route → Route → CString → CString → Option Route → Option Route → Type 0
IsAdded rs new input output before after =
    ((found : Route) × Agrees input output found.key × (before ≡ some found) × (after ≡ some found))
    ⊎ (All (λ (r : Route). ¬ Agrees input output r.key) rs
        × ((Agrees input output new.key × (after ≡ some new))
            ⊎ ((¬ Agrees input output new.key) × (after ≡ none))))

find_route-IsAdded :
    (rs : List Route) (new : Route) (input output : CString)
    → IsAdded rs new input output
        (find_route rs input output)
        (find_route (rs ++ (new ∷ [])) input output)
find_route-IsAdded rs new input output =
    let e = find_route-append rs new input output in
    elim (Option-cases (find_route rs input output)) [
      | inr (found, f) ↦
          let hit =
            (find_route_sound {0} (λ r. Unit) rs input output found f
              (All-of {0, 0} (λ r. Unit) (λ r. tt) rs)).1 in
          inl (found, (key_matches_iff input output found.key).0 hit, f, ground (arith, e, f))
      | inl n ↦ inr (
        find_route-none rs input output n,
        elim (Bool-cases (key_matches input output new.key)) [
          | inl hit ↦ inl ((key_matches_iff input output new.key).0 hit, ground (arith, e, n, hit))
          | inr miss ↦ inr (not_Agrees input output new.key miss, ground (arith, e, n, miss))
        ],
      )
    ]

-- If there is room in the table and the steps are 1 to 5, then after a route is defined a lookup gives
-- what it gave before, if it gave a route: one whose two names are the wanted ones in their first 24
-- bytes. Otherwise no older route has such names, and the lookup gives the new route if both of its names
-- are the wanted ones in their first 24 bytes, and nothing if one is not.
pub get_route-define_route :
    (router : Router) (i o : CString) (path : List RouteStep) (n : ℕ) (input output : CString)
    → length router.routes < mems_router_max_routes
    → 0 < n
    → n ≤ mems_router_max_route_path
    → IsAdded router.routes
        (route_of i o path n)
        input
        output
        (mems_router_get_route router input output)
        (mems_router_get_route
          (mems_router_define_route router (some i) (some o) (some path) n).1
          input
          output)
unfolding mems_router_get_route
get_route-define_route router i o path n input output room h k =
    let rs' : List Route = router.routes ++ (route_of i o path n ∷ []) in
    let added : (mems_router_define_route router (some i) (some o) (some path) n).1.routes ≡ rs' =
      ground (arith, define_route_lem router i o path n) in
    subst
      (λ rs.
        IsAdded router.routes (route_of i o path n) input output
          (find_route router.routes input output) (find_route rs input output))
      (sym added) (find_route-IsAdded router.routes (route_of i o path n) input output)

-- Every step of the route can be carried out, each on a switch of its own.
pub record IsGood (router : Router) (store : List Switch) (r : Route) : Type 0 where
  pub ready : All (IsReady router store) r.steps
  pub distinct : Distinct r.steps
