-- ===== src/Command/Mems/Steps.antt =====
-- The loop of `memsroute_set` over the steps of a route.
use hispec_tib.Prelude.{
  ℕ, ◌≡◌, refl, ap, ◌∙◌, ℤ, pos, true, List, [], ◌∷◌, some, arith, All, length, get_elem?, set,
  length-set,
}
use hispec_tib.CString.{CString}
use hispec_tib.CString.Compare.{strncmp_eq-sym}
use hispec_tib.Board.{History}
use hispec_tib.Mems.{
  Switch, RouteStep, Router, mems_router_find_switch, mems_switch_set_state, mems_switch_get_state,
  step_matches, steps_match, mems_switch_name_len,
}
use hispec_tib.Mems.Lookup.{Names, find_switch-Names}
use hispec_tib.Mems.Switching.{WasSet, set_state-WasSet, pin_for}
use hispec_tib.Mems.Update.{
  Distinct, IsReady, Apart, find_switch-set, step_matches-set_self, step_matches-set_ne,
}
use hispec_tib.Command.Mems.{Outcome, all_set, set_steps}

-- The loop carried out every step: how it left the switches.
pub record Carried (router : Router) (ss : List RouteStep) (store : List Switch)
    (out : Outcome × List Switch × History) : Type 0 where
  pub done : out.0 ≡ all_set
  pub holds : steps_match router out.1 ss ≡ true
  pub same_length : length out.1 ≡ length store
  pub same_names :
      (n : CString)
      → mems_router_find_switch router out.1 n ≡ mems_router_find_switch router store n
  frame :
      (t : RouteStep)
      → All (λ s. Apart s t) ss
      → step_matches router out.1 t ≡ step_matches router store t

-- `set_steps` at a step that is ready.
set_steps-ready :
    (router : Router) (s : RouteStep) (ss : List RouteStep) (store : List Switch) (h : History)
    (p : ℕ) (sw : Switch)
    → mems_router_find_switch router store s.switch_name ≡ some p
    → get_elem? store p ≡ some sw
    → (mems_switch_set_state sw s.state h).0 ≡ pos 0
    → set_steps router (s ∷ ss) store h
      ≡ set_steps router ss
          (set store p (mems_switch_set_state sw s.state h).1)
          (mems_switch_set_state sw s.state h).2
unfolding set_steps
set_steps-ready router s ss store h p sw found here ok = ground arith

IsReady-keep :
    (router : Router) (store store' : List Switch) (ss : List RouteStep)
    → ((n : CString)
        → mems_router_find_switch router store' n ≡ mems_router_find_switch router store n)
    → All (IsReady router store) ss
    → All (IsReady router store') ss
IsReady-keep router store store' [] same r = tt
IsReady-keep router store store' (s ∷ ss) same r = (
  record { state_ok = r.0.state_ok; index = r.0.index; found = same s.switch_name ∙ r.0.found },
  IsReady-keep router store store' ss same r.1,
)

-- The switch's new state is the one asked for.
state_of_get : (sw : Switch) (s : ℕ) → mems_switch_get_state sw ≡ (pos 0, s) → sw.state ≡ s
unfolding mems_switch_get_state
state_of_get sw s e = ap (λ (r : ℤ × ℕ). r.1) e

-- A weaker statement for every step.
All-map :
    (P : RouteStep → Type 0) (Q : RouteStep → Type 0) (ss : List RouteStep)
    → ((t : RouteStep) → P t → Q t)
    → All P ss
    → All Q ss
All-map P Q [] f a = tt
All-map P Q (s ∷ ss) f a = (f s a.0, All-map P Q ss f a.1)

module _ (router : Router) (s : RouteStep) (store : List Switch) (h : History)
    (ready : IsReady router store s) where
  abbrev names : Names store s.switch_name ready.index
  names = find_switch-Names router store s.switch_name ready.index ready.found

  abbrev out : ℤ × Switch × History
  out = mems_switch_set_state names.switch s.state h

  abbrev was : WasSet names.switch s.state (pin_for names.switch s.state) h out
  was = set_state-WasSet names.switch s.state h ready.state_ok

  abbrev store1 : List Switch
  store1 = set store ready.index out.1

  first_step :
      (ss : List RouteStep) → set_steps router (s ∷ ss) store h ≡ set_steps router ss store1 out.2
  first_step ss =
      set_steps-ready router s ss store h ready.index names.switch ready.found names.here was.ok

  first_names :
      (n : CString)
      → mems_router_find_switch router store1 n ≡ mems_router_find_switch router store n
  first_names n =
      find_switch-set router store n ready.index names.switch out.1 names.here was.same_name

  first_holds : step_matches router store1 s ≡ true
  first_holds =
      step_matches-set_self router store s ready.index names.switch out.1 ready.found names.here
        was.same_name (state_of_get out.1 s.state was.stands)

  first_frame :
      (t : RouteStep) → Apart s t → step_matches router store1 t ≡ step_matches router store t
  first_frame =
      step_matches-set_ne router store s ready.index names.switch out.1 ready.found names.here
        was.same_name

  -- The other steps carried out after it, all of them hold.
  Carried-cons :
      (ss : List RouteStep)
      → All (Apart s) ss
      → Carried router ss store1 (set_steps router ss store1 out.2)
      → Carried router (s ∷ ss) store (set_steps router (s ∷ ss) store h)
  unfolding steps_match
  Carried-cons ss apart rest = rw (first_step ss) (record {
    done = rest.done;
    holds =
        rw (rest.frame s (All-map (Apart s) (λ t. Apart t s) ss swap apart), first_holds)
          rest.holds;
    same_length = rest.same_length ∙ length-set store ready.index out.1;
    same_names = λ n. rest.same_names n ∙ first_names n;
    frame = λ t a. rest.frame t a.1 ∙ first_frame t a.0;
  })
    where
      swap : (t : RouteStep) → Apart s t → Apart t s
      swap t a = strncmp_eq-sym mems_switch_name_len t.switch_name s.switch_name ∙ a

-- If the switch of every step is there, every state is 'A' or 'B' and no two steps share a switch,
-- the loop carries all of them out: afterwards all of them hold at once, lookups are as before,
-- and steps about other switches hold as before.
pub set_steps-Carried :
    (router : Router) (ss : List RouteStep) (store : List Switch) (h : History)
    → All (IsReady router store) ss
    → Distinct ss
    → Carried router ss store (set_steps router ss store h)
unfolding steps_match
set_steps-Carried router [] store h r d =
    unfold set_steps in
    record {
      done = refl;
      holds = refl;
      same_length = refl;
      same_names = λ n. refl;
      frame = λ t a. refl;
    }
set_steps-Carried router (s ∷ ss) store h r d = Carried-cons router s store h r.0 ss d.0 (
    set_steps-Carried router ss (store1 router s store h r.0) (out router s store h r.0).2
      (IsReady-keep router store (store1 router s store h r.0) ss (first_names router s store h r.0)
        r.1)
      d.1)
