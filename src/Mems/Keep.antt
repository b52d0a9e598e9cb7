-- ===== src/Mems/Keep.antt =====
-- What every write of a switch's state keeps: the names, the lookups and the set of legal states.
use hispec_tib.Prelude.{
  ℕ, zero, suc, ◌≡◌, refl, ◌∙◌, ◌⊎◌, List, [], ◌∷◌, some, arith, All, length, get_elem?, set,
  length-set, subst, eq_of_some,
}
use hispec_tib.CString.{CString}
use hispec_tib.Board.{History}
use hispec_tib.Mems.{
  Switch, RouteStep, Route, Router, mems_switch_set_state, mems_router_find_switch,
}
use hispec_tib.Mems.Update.{IsReady, find_switch-set}
use hispec_tib.Mems.Routes.{IsGood}

-- The state of a switch is 'A', 'B' or 'U'.
abbrev pub IsLegal : Switch → Type 0
IsLegal sw = (sw.state ≡ b'A') ⊎ ((sw.state ≡ b'B') ⊎ (sw.state ≡ b'U'))

pub record Keeps (router : Router) (store store' : List Switch) : Type 0 where
  pub same_length : length store' ≡ length store
  pub same_names :
      (n : CString)
      → mems_router_find_switch router store' n ≡ mems_router_find_switch router store n
  pub legal : All IsLegal store → All IsLegal store'

pub Keeps-refl : (router : Router) (store : List Switch) → Keeps router store store
Keeps-refl router store = record { same_length = refl; same_names = λ n. refl; legal = λ l. l }

pub Keeps-trans :
    (router : Router) (a b c : List Switch) → Keeps router a b → Keeps router b c → Keeps router a c
Keeps-trans router a b c k m = record {
  same_length = m.same_length ∙ k.same_length;
  same_names = λ n. m.same_names n ∙ k.same_names n;
  legal = λ l. m.legal (k.legal l);
}

All-set {ℓ κ} :
    {A : Type ℓ} (P : A → Type κ) (xs : List A) (i : ℕ) (v w : A)
    → get_elem? xs i ≡ some w
    → (P w → P v)
    → All P xs
    → All P (set xs i v)
All-set P [] i v w e f a = tt
All-set P (x ∷ xs) zero v w e f a = (f (subst P (eq_of_some x w e) a.0), a.1)
All-set P (x ∷ xs) (suc i) v w e f a = (a.0, All-set P xs i v w e f a.1)

set_state-name :
    (sw : Switch) (s : ℕ) (h : History) → (mems_switch_set_state sw s h).1.name ≡ sw.name
unfolding mems_switch_set_state
set_state-name sw s h = ground arith

set_state-IsLegal :
    (sw : Switch) (s : ℕ) (h : History) → IsLegal sw → IsLegal (mems_switch_set_state sw s h).1
unfolding mems_switch_set_state
set_state-IsLegal sw s h l = ground arith

-- Setting one switch, whether the state is valid or not.
pub set_state-Keeps :
    (router : Router) (store : List Switch) (p : ℕ) (sw : Switch) (s : ℕ) (h : History)
    → get_elem? store p ≡ some sw
    → Keeps router store (set store p (mems_switch_set_state sw s h).1)
set_state-Keeps router store p sw s h here = record {
  same_length = length-set store p _;
  same_names = λ n. find_switch-set router store n p sw _ here (set_state-name sw s h);
  legal = All-set IsLegal store p _ sw here (set_state-IsLegal sw s h);
}

IsReady-keep :
    (router : Router) (store store' : List Switch) (ss : List RouteStep)
    → Keeps router store store'
    → All (IsReady router store) ss
    → All (IsReady router store') ss
IsReady-keep router store store' [] k r = tt
IsReady-keep router store store' (s ∷ ss) k r = (
  record {
    state_ok = r.0.state_ok;
    index = r.0.index;
    found = k.same_names s.switch_name ∙ r.0.found;
  },
  IsReady-keep router store store' ss k r.1,
)

pub IsGood-keep :
    (router : Router) (store store' : List Switch) (rs : List Route)
    → Keeps router store store'
    → All (IsGood router store) rs
    → All (IsGood router store') rs
IsGood-keep router store store' [] k g = tt
IsGood-keep router store store' (r ∷ rs) k g = (
  record { ready = IsReady-keep router store store' r.steps k g.0.ready; distinct = g.0.distinct },
  IsGood-keep router store store' rs k g.1,
)
