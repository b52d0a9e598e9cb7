-- ===== src/Mems/Check.antt =====
-- A test of a route table against a list of switches, and what it guarantees.
use hispec_tib.Prelude.{
  ℕ, ◌≡◌, refl, Bool, true, false, ◌&&◌, ◌||◌, not, List, [], ◌∷◌, Option, some, none, All, arith,
  ◌==◌, &&-eq-true,
}
use hispec_tib.CString.{strncmp_eq}
use hispec_tib.Mems.{
  Switch, RouteStep, Route, Router, mems_router_find_switch, mems_switch_name_len,
}
use hispec_tib.Mems.Update.{IsReady, Apart, Distinct}
use hispec_tib.Mems.Routes.{IsGood}

is_found : Option ℕ → Bool
is_found none = false
is_found (some p) = true

is_found-some : (o : Option ℕ) → is_found o ≡ true → (p : ℕ) × (o ≡ some p)
unfolding is_found
is_found-some none h = cc
is_found-some (some p) h = (p, refl)

module _ (router : Router) (store : List Switch) where
  step_ready : RouteStep → Bool
  unfolding is_found
  step_ready s =
      (s.state == b'A' || s.state == b'B')
      && is_found (mems_router_find_switch router store s.switch_name)

  steps_ready : List RouteStep → Bool
  unfolding step_ready
  steps_ready [] = true
  steps_ready (s ∷ ss) = step_ready s && steps_ready ss

  steps_ready-All : (ss : List RouteStep) → steps_ready ss ≡ true → All (IsReady router store) ss
  unfolding steps_ready
  steps_ready-All [] h = tt
  steps_ready-All (s ∷ ss) h =
      (let (a, b) = &&-eq-true (step_ready s) (steps_ready ss) h in
        let (c, d) = &&-eq-true (s.state == b'A' || s.state == b'B') _ a in
        let (p, e) = is_found-some (mems_router_find_switch router store s.switch_name) d in
        (record { state_ok = ground arith; index = p; found = e }, steps_ready-All ss b))

steps_apart : RouteStep → List RouteStep → Bool
steps_apart s [] = true
steps_apart s (t ∷ ts) =
    not (strncmp_eq mems_switch_name_len s.switch_name t.switch_name) && steps_apart s ts

steps_apart-All : (s : RouteStep) (ss : List RouteStep) → steps_apart s ss ≡ true → All (Apart s) ss
unfolding steps_apart
steps_apart-All s [] h = tt
steps_apart-All s (t ∷ ts) h = ground (arith, steps_apart-All s ts)

steps_distinct : List RouteStep → Bool
unfolding steps_apart
steps_distinct [] = true
steps_distinct (s ∷ ss) = steps_apart s ss && steps_distinct ss

steps_distinct-Distinct : (ss : List RouteStep) → steps_distinct ss ≡ true → Distinct ss
unfolding steps_distinct
steps_distinct-Distinct [] h = tt
steps_distinct-Distinct (s ∷ ss) h =
    let (a, b) = &&-eq-true (steps_apart s ss) (steps_distinct ss) h in
    (steps_apart-All s ss a, steps_distinct-Distinct ss b)

module _ (router : Router) (store : List Switch) where
  unfoldable pub all_good : List Route → Bool
  unfolding steps_ready steps_distinct
  all_good [] = true
  all_good (r ∷ rs) = steps_ready router store r.steps && (steps_distinct r.steps && all_good rs)

  -- Routes that pass the test can be carried out.
  pub all_good-All : (rs : List Route) → all_good rs ≡ true → All (IsGood router store) rs
  unfolding all_good
  all_good-All [] h = tt
  all_good-All (r ∷ rs) h =
      let (a, b) = &&-eq-true (steps_ready router store r.steps) _ h in
      let (c, d) = &&-eq-true (steps_distinct r.steps) (all_good rs) b in
      (
        record {
          ready = steps_ready-All router store r.steps a;
          distinct = steps_distinct-Distinct r.steps c;
        },
        all_good-All rs d,
      )
