-- ===== src/Main/System/Order.antt =====
-- The board from the boot on.
use hispec_tib.Prelude.{ℕ, suc, ◌≡◌, refl, ap, ◌∙◌, true, List, [], ◌∷◌, map, length}
use hispec_tib.Board.{Env, Doubles}
use hispec_tib.MsgQueue.{MsgQueue}
use hispec_tib.Attenuator.{Attenuator}
use hispec_tib.Devices.{
  Tib, setup_attenuators, init_attenuators, setup_mems_switches_and_routes, zeroed, route_table,
}
use hispec_tib.Devices.Setup.{IsValid, setup-IsValid, table_route}
use hispec_tib.Command.Types.{Command, OutMsg}
use hispec_tib.Command.Valid.{dispatch-IsValid}
use hispec_tib.Command.Reach.{dispatch-IsQuiet}
use hispec_tib.Main.{boot_devices}
use hispec_tib.Main.System.{
  System, Step, receive, fetch, deliver, sampled, forward, publish, Reach, here, next,
}
use hispec_tib.Main.System.Serial.{fetch_inv}

-- The board is in order, and its routes are those of the source.
pub record IsInOrder {D : Type 0} (tib : Tib D) : Type 0 where
  pub valid : IsValid tib
  pub routes : tib.router.routes ≡ map table_route route_table

length-init_attenuators :
    {D : Type 0} (fp : Doubles D) (i : ℕ) (all : List (Attenuator D))
    → length (init_attenuators fp i all) ≡ length all
unfolding init_attenuators
length-init_attenuators fp i [] = refl
length-init_attenuators fp i (a ∷ rest) = ap suc (length-init_attenuators fp (suc i) rest)

pub boot_devices-IsInOrder :
    {D : Type 0} (fp : Doubles D) (dev : ℕ) → IsInOrder (boot_devices fp true dev (zeroed fp))
unfolding boot_devices setup_attenuators zeroed
boot_devices-IsInOrder fp dev =
    let (v, routes, count) = setup-IsValid (zeroed fp) dev refl in
    record {
      valid = record {
        wired = v.wired;
        bounded = v.bounded;
        good = v.good;
        legal = v.legal;
        six =
            length-init_attenuators fp 0
              (setup_mems_switches_and_routes true dev (zeroed fp)).attenuators
            ∙ v.six;
      };
      routes = routes;
    }

module _ {D I O P : Type 0} (env : Env D) (inq : MsgQueue I Command) (outq : MsgQueue O OutMsg)
    (pdq : MsgQueue P OutMsg) where
  Step-IsInOrder :
      (s t : System D I O P) → Step env inq outq pdq s t → IsInOrder s.tib → IsInOrder t.tib
  Step-IsInOrder s t (receive p e) v = rw e v
  Step-IsInOrder s t (fetch om i tib free f e) v =
      let (c, front, same, left) = fetch_inv env inq outq s.inbound i s.tib tib om f in
      rw (e, left)
        (record {
          valid = dispatch-IsValid env c s.tib v.valid;
          routes = ap (λ r. r.routes) (dispatch-IsQuiet env c s.tib).router ∙ v.routes;
        })
  Step-IsInOrder s t (deliver om o busy f e) v = rw e v
  Step-IsInOrder s t (sampled om q yj hk seconds made f e) v = rw e v
  Step-IsInOrder s t (forward om q f e) v = rw e v
  Step-IsInOrder s t (publish om o f e) v = rw e v

  Reach-order :
      (s t : System D I O P) → IsInOrder s.tib → Reach env inq outq pdq s t → IsInOrder t.tib
  Reach-order s t v here = v
  Reach-order s t v (next {t = u} r step) = Step-IsInOrder u t step (Reach-order s u v r)

  -- If the expander is ready when `main` sets up the zeroed globals, then in every state that the threads
  -- get to from there, whatever messages arrive and in whatever order the threads' steps come, the board
  -- is in order (`IsValid`) and has the sixteen routes of the source.
  pub Reach-IsInOrder :
      (dev : ℕ) (s t : System D I O P)
      → s.tib ≡ boot_devices env.doubles true dev (zeroed env.doubles)
      → Reach env inq outq pdq s t
      → IsInOrder t.tib
  Reach-IsInOrder dev s t e r = Reach-order s t (rw e (boot_devices-IsInOrder env.doubles dev)) r
