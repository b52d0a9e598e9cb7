-- ===== src/Mems/Update.antt =====
-- One step of a route: the switch that it names is set, and the other switches stay.
use hispec_tib.Prelude.{
  ℕ, ◌≡◌, inl, inr, true, false, List, [], ◌∷◌, some, arith, All, get_elem?, set,
  get_elem?-set_self, get_elem?-set_ne, ==_refl, Option-cases,
}
use hispec_tib.CString.{CString, strncmp_eq}
use hispec_tib.Mems.{
  Switch, RouteStep, Router, mems_router_find_switch, mems_switch_name_len, step_matches,
}
use hispec_tib.Mems.Lookup.{find_switch-Names, Names-ne, find_in-set}
use hispec_tib.Mems.Switching.{IsState}

-- A step can be carried out: its state is one of the two, and its switch is there.
pub record IsReady (router : Router) (store : List Switch) (s : RouteStep) : Type 0 where
  pub state_ok : IsState s.state
  pub index : ℕ
  pub found : mems_router_find_switch router store s.switch_name ≡ some index

-- Two steps concern different switches.
abbrev pub Apart : RouteStep → RouteStep → Type 0
Apart s t = strncmp_eq mems_switch_name_len s.switch_name t.switch_name ≡ false

-- No two steps concern one switch.
abbrev pub Distinct : List RouteStep → Type 0
Distinct [] = Unit
Distinct (s ∷ ss) = All (Apart s) ss × Distinct ss

pub find_switch-set :
    (router : Router) (store : List Switch) (name : CString) (p : ℕ) (sw sw' : Switch)
    → get_elem? store p ≡ some sw
    → sw'.name ≡ sw.name
    → mems_router_find_switch router (set store p sw') name
      ≡ mems_router_find_switch router store name
unfolding mems_router_find_switch
find_switch-set router store name p sw sw' h e = find_in-set router.switches store name p sw sw' h e

module _ (router : Router) (store : List Switch) (s : RouteStep) (p : ℕ) (sw sw' : Switch)
    (found : mems_router_find_switch router store s.switch_name ≡ some p)
    (here : get_elem? store p ≡ some sw) (same : sw'.name ≡ sw.name) where
  -- The step that was carried out holds.
  pub step_matches-set_self : sw'.state ≡ s.state → step_matches router (set store p sw') s ≡ true
  unfolding step_matches
  step_matches-set_self e = ground (
    arith,
    find_switch-set router store s.switch_name p sw sw' here same,
    get_elem?-set_self store p sw' sw here,
    ==_refl s.state,
  )

  -- A step about another switch holds as before.
  pub step_matches-set_ne :
      (t : RouteStep)
      → Apart s t
      → step_matches router (set store p sw') t ≡ step_matches router store t
  unfolding step_matches
  step_matches-set_ne t apart =
      elim (Option-cases (mems_router_find_switch router store t.switch_name)) [
        | inl e ↦ ground (arith, e, find_switch-set router store t.switch_name p sw sw' here same)
        | inr (q, e) ↦ ground (
          arith,
          e,
          find_switch-set router store t.switch_name p sw sw' here same,
          get_elem?-set_ne store p q sw' (
              Names-ne store s.switch_name t.switch_name p q apart
                (find_switch-Names router store s.switch_name p found)
                (find_switch-Names router store t.switch_name q e)),
        )
      ]
