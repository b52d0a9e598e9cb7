-- ===== src/Mems/Lookup.antt =====
-- `mems_router_find_switch`: what it finds, and that writing states does not change it.
use hispec_tib.Prelude.{
  ℕ, ◌≡◌, refl, ap, ◌≢◌, inl, inr, true, false, List, [], ◌∷◌, some, arith, get_elem?, set,
  get_elem?-set_self, get_elem?-set_ne, Bool-cases, Option-cases,
}
use native.Mathlib.Decide.{ℕ_discrete}
use hispec_tib.CString.{CString, strncmp_eq}
use hispec_tib.CString.Compare.{strncmp_trans}
use hispec_tib.Mems.{Switch, Router, find_in, mems_router_find_switch, mems_switch_name_len}

-- The switch at an index has a name that agrees with `name`.
pub record Names (store : List Switch) (name : CString) (p : ℕ) : Type 0 where
  pub switch : Switch
  pub here : get_elem? store p ≡ some switch
  pub agrees : strncmp_eq mems_switch_name_len switch.name name ≡ true

find_in-Names :
    (ps : List ℕ) (store : List Switch) (name : CString) (p : ℕ)
    → find_in ps store name ≡ some p
    → Names store name p
unfolding find_in
find_in-Names [] store name p e = cc
find_in-Names (q ∷ ps) store name p e = elim (Option-cases (get_elem? store q)) [
  | inl dangling ↦ find_in-Names ps store name p (rw (dangling, find_in) at e)
  | inr (sw, hit) ↦ elim (Bool-cases (strncmp_eq mems_switch_name_len sw.name name)) [
    | inl same ↦ record { switch = sw; here = ground arith; agrees = same }
    | inr other ↦ find_in-Names ps store name p (ground arith)
  ]
]

pub find_switch-Names :
    (router : Router) (store : List Switch) (name : CString) (p : ℕ)
    → mems_router_find_switch router store name ≡ some p
    → Names store name p
unfolding mems_router_find_switch
find_switch-Names router store name p e = find_in-Names router.switches store name p e

-- Names that do not agree are found at different indices.
pub Names-ne :
    (store : List Switch) (m n : CString) (p q : ℕ)
    → strncmp_eq mems_switch_name_len m n ≡ false
    → Names store m p
    → Names store n q
    → p ≢ q
Names-ne store m n p q differ u v e = absurd (
    ground (
      arith,
      strncmp_trans mems_switch_name_len u.switch.name m n u.agrees,
      ap (get_elem? store) e,
    ))

-- Writing back a switch under its old name leaves every lookup as it was.
pub find_in-set :
    (ps : List ℕ) (store : List Switch) (name : CString) (p : ℕ) (sw sw' : Switch)
    → get_elem? store p ≡ some sw
    → sw'.name ≡ sw.name
    → find_in ps (set store p sw') name ≡ find_in ps store name
unfolding find_in
find_in-set [] store name p sw sw' h e = refl
find_in-set (q ∷ ps) store name p sw sw' h e = elim (ℕ_discrete p q) [
  | yes here ↦
      ground
        (arith, here, find_in-set ps store name p sw sw' h e, get_elem?-set_self store p sw' sw h)
  | no other ↦
      ground (arith, find_in-set ps store name p sw sw' h e, get_elem?-set_ne store p q sw' other)
]
