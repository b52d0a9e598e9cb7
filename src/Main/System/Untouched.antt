-- ===== src/Main/System/Untouched.antt =====
-- What commands from the broker can do to the board: their payload length is 0.
use hispec_tib.Prelude.{
  ℕ, suc, ◌≡◌, refl, ap, sym, ◌∙◌, inl, inr, [], ◌∷◌, ◌++◌, subst, All, All-append, replicate,
}
use hispec_tib.Board.{Env, power_get}
use hispec_tib.MsgQueue.{MsgQueue}
use hispec_tib.Devices.{Tib}
use hispec_tib.Command.{dispatch_command}
use hispec_tib.Command.Types.{Command, OutMsg}
use hispec_tib.Command.Inert.{RejectsEmpty, IsInert, dispatch-IsInert}
use hispec_tib.Main.{Publish, Verdict, ignore, refuse, accept, decode}
use hispec_tib.Main.Decode.{decode-Accepted}
use hispec_tib.Main.System.{
  System, Step, receive, fetch, deliver, sampled, forward, publish, Reach, here, next,
  newly_accepted,
}
use hispec_tib.Main.System.Serial.{inbound_after, fetch_inv}

abbrev IsEmpty : Command → Type 0
IsEmpty cmd = cmd.payload_len ≡ 0

-- The board is as it was, except for reads of the power pin's level.
pub record IsUntouched {D : Type 0} (boot tib : Tib D) : Type 0 where
  pub switches : tib.mems_switches ≡ boot.mems_switches
  pub router : tib.router ≡ boot.router
  pub attenuators : tib.attenuators ≡ boot.attenuators
  pub reads : ℕ
  pub history : tib.history ≡ replicate reads power_get ++ boot.history

IsUntouched-refl : {D : Type 0} (boot : Tib D) → IsUntouched boot boot
unfolding replicate
IsUntouched-refl boot = record {
  switches = refl;
  router = refl;
  attenuators = refl;
  reads = 0;
  history = refl;
}

IsUntouched-inert :
    {D : Type 0} (boot tib : Tib D) (cmd : Command) (out : OutMsg × Tib D)
    → IsUntouched boot tib
    → IsInert cmd tib out
    → IsUntouched boot out.1
unfolding replicate
IsUntouched-inert boot tib cmd out u v = elim v.history [
  | inl e ↦ record {
    switches = v.switches ∙ u.switches;
    router = v.router ∙ u.router;
    attenuators = v.attenuators ∙ u.attenuators;
    reads = u.reads;
    history = e ∙ u.history;
  }
  | inr e ↦ record {
    switches = v.switches ∙ u.switches;
    router = v.router ∙ u.router;
    attenuators = v.attenuators ∙ u.attenuators;
    reads = suc u.reads;
    history = e ∙ ap (◌∷◌ power_get) u.history;
  }
]

module _ {D I O P : Type 0} (env : Env D) (inq : MsgQueue I Command) (outq : MsgQueue O OutMsg)
    (pdq : MsgQueue P OutMsg) where
  newly-IsEmpty :
      (p : Publish) (v : Verdict) (i : I)
      → decode env.json p ≡ v
      → All IsEmpty (newly_accepted inq v i)
  unfolding newly_accepted
  newly-IsEmpty p ignore i e = tt
  newly-IsEmpty p (refuse cmd) i e = tt
  newly-IsEmpty p (accept cmd) i e = elim (inq.put_lem i cmd) [
    | inl (full, n) ↦ rw (n, newly_accepted) tt
    | inr (j, room, f, back) ↦
        rw (f, newly_accepted) ((decode-Accepted env.json p cmd e).no_length, tt)
  ]

  record IsIdle (boot : Tib D) (s : System D I O P) : Type 0 where
    waiting : All IsEmpty (inq.contents s.inbound)
    untouched : IsUntouched boot s.tib

  module _ (rejects : RejectsEmpty env.json) where
    Step-IsIdle :
        (boot : Tib D) (s t : System D I O P)
        → Step env inq outq pdq s t
        → IsIdle boot s
        → IsIdle boot t
    Step-IsIdle boot s t (receive p e) v = rw e (record {
      waiting =
          subst (All IsEmpty)
            (sym (inbound_after env inq outq p s.inbound s.outbound (decode env.json p) refl))
            (All-append IsEmpty (inq.contents s.inbound) _ v.waiting
              (newly-IsEmpty p (decode env.json p) s.inbound refl));
      untouched = v.untouched;
    })
    Step-IsIdle boot s t (fetch om i tib free f e) v =
        let (c, front, same, left) = fetch_inv env inq outq s.inbound i s.tib tib om f in
        let (first, rest) = subst (All IsEmpty) front v.waiting in
        rw (e, left)
          (record {
            waiting = rest;
            untouched =
                IsUntouched-inert boot s.tib c (dispatch_command env c s.tib) v.untouched
                  (dispatch-IsInert env c s.tib rejects first);
          })
    Step-IsIdle boot s t (deliver om o busy f e) v =
        rw e (record { waiting = v.waiting; untouched = v.untouched })
    Step-IsIdle boot s t (sampled om q yj hk seconds made f e) v =
        rw e (record { waiting = v.waiting; untouched = v.untouched })
    Step-IsIdle boot s t (forward om q f e) v =
        rw e (record { waiting = v.waiting; untouched = v.untouched })
    Step-IsIdle boot s t (publish om o f e) v =
        rw e (record { waiting = v.waiting; untouched = v.untouched })

    Reach-IsIdle :
        (s t : System D I O P)
        → inq.contents s.inbound ≡ []
        → Reach env inq outq pdq s t
        → IsIdle s.tib t
    Reach-IsIdle s t e here = record { waiting = rw e tt; untouched = IsUntouched-refl s.tib }
    Reach-IsIdle s t e (next {t = u} r step) = Step-IsIdle s.tib u t step (Reach-IsIdle s u e r)

    -- If the JSON parser rejects empty input, then from a state in which no command waits, whatever
    -- messages arrive and whatever the order of the threads' steps, the stored states of the switches,
    -- the routes and the attenuators stay as they are, and no driver is called except to read the level of
    -- the power pin.
    pub Reach-IsUntouched :
        (s t : System D I O P)
        → inq.contents s.inbound ≡ []
        → Reach env inq outq pdq s t
        → IsUntouched s.tib t.tib
    Reach-IsUntouched s t e r = (Reach-IsIdle s t e r).untouched
