-- ===== src/Main/System/Serial.antt =====
-- Whatever the threads' interleaving, commands are answered one after the other in the order in which
-- they were accepted.
use hispec_tib.Prelude.{
  ◌≡◌, refl, ap, sym, ◌∙◌, inl, inr, List, [], ◌∷◌, ◌++◌, append-nil, append_assoc, Option, none,
  some, arith, subst, ap₂,
}
use hispec_tib.Board.{Env}
use hispec_tib.MsgQueue.{MsgQueue}
use hispec_tib.Devices.{Tib}
use hispec_tib.Command.{dispatch_command}
use hispec_tib.Command.Types.{Command, OutMsg}
use hispec_tib.Main.{
  Publish, Verdict, ignore, refuse, accept, decode, mqtt_command_handler, executor_fetch,
}
use hispec_tib.Main.System.{
  System, Step, receive, fetch, deliver, sampled, forward, publish, Reach, here, next,
  newly_accepted, answers, served,
}

module _ {D : Type 0} (env : Env D) where
  answers-append :
      (tib : Tib D) (cs : List Command) (c : Command)
      → answers env tib (cs ++ (c ∷ []))
        ≡ answers env tib cs ++ ((dispatch_command env c (served env tib cs)).0 ∷ [])
  unfolding answers served
  answers-append tib [] c = refl
  answers-append tib (x ∷ cs) c =
      ap (◌∷◌ (dispatch_command env x tib).0) (answers-append (dispatch_command env x tib).1 cs c)

  served-append :
      (tib : Tib D) (cs : List Command) (c : Command)
      → served env tib (cs ++ (c ∷ [])) ≡ (dispatch_command env c (served env tib cs)).1
  unfolding served
  served-append tib [] c = refl
  served-append tib (x ∷ cs) c = served-append (dispatch_command env x tib).1 cs c

-- The answer that is held, as a list.
abbrev pub held : Option OutMsg → List OutMsg
held none = []
held (some om) = om ∷ []

module _ {D I O : Type 0} (env : Env D) (inq : MsgQueue I Command) (outq : MsgQueue O OutMsg) where
  pub inbound_after :
      (p : Publish) (i : I) (o : O) (v : Verdict)
      → decode env.json p ≡ v
      → inq.contents (mqtt_command_handler env inq outq p i o).0
        ≡ inq.contents i ++ newly_accepted inq v i
  unfolding mqtt_command_handler newly_accepted
  inbound_after p i o ignore e = rw (e, mqtt_command_handler) (sym (append-nil (inq.contents i)))
  inbound_after p i o (refuse cmd) e =
      rw (e, mqtt_command_handler) (sym (append-nil (inq.contents i)))
  inbound_after p i o (accept cmd) e = elim (inq.put_lem i cmd) [
    | inl (full, n) ↦
        rw (e, n, mqtt_command_handler, newly_accepted) (sym (append-nil (inq.contents i)))
    | inr (j, room, f, back) ↦ rw (e, f, mqtt_command_handler, newly_accepted) back
  ]

  pub fetch_inv :
      (i i' : I) (tib tib' : Tib D) (om : OutMsg)
      → executor_fetch env inq i tib ≡ some (om, i', tib')
      → (c : Command) × (inq.contents i ≡ c ∷ inq.contents i')
        × (om ≡ (dispatch_command env c tib).0)
        × (tib' ≡ (dispatch_command env c tib).1)
  unfolding executor_fetch
  fetch_inv i i' tib tib' om e = elim (inq.get_lem i) [
    | inl (empty, n) ↦ absurd (ground (arith, n))
    | inr (c, j, g, front) ↦ (c, ground arith, ground arith, ground arith)
  ]

module _ {D I O P : Type 0} (env : Env D) (inq : MsgQueue I Command) (outq : MsgQueue O OutMsg)
    (pdq : MsgQueue P OutMsg) where
  -- The accepted commands are those already served and those that wait, in this order. The answers given
  -- are those of serving the former one by one from `boot`, and the globals are what that leaves.
  pub record IsSerial (boot : Tib D) (s : System D I O P) : Type 0 where
    pub done : List Command
    pub order : s.accepted ≡ done ++ inq.contents s.inbound
    pub replies : s.answered ++ held s.holding ≡ answers env boot done
    pub state : s.tib ≡ served env boot done

  Step-IsSerial :
      (boot : Tib D) (s t : System D I O P)
      → Step env inq outq pdq s t
      → IsSerial boot s
      → IsSerial boot t
  Step-IsSerial boot s t (receive p e) v = rw e (record {
    done = v.done;
    order =
        rw (inbound_after env inq outq p s.inbound s.outbound (decode env.json p) refl, v.order)
          (append_assoc v.done (inq.contents s.inbound) _);
    replies = v.replies;
    state = v.state;
  })
  Step-IsSerial boot s t (fetch om i tib free f e) v =
      let (c, front, same, left) = fetch_inv env inq outq s.inbound i s.tib tib om f in
      rw e (record {
        done = v.done ++ (c ∷ []);
        order = v.order ∙ rw front (sym (append_assoc v.done (c ∷ []) (inq.contents i)));
        replies =
            ap₂ (λ xs o. xs ++ (o ∷ []))
              (sym (append-nil s.answered)
                ∙ subst (λ x. s.answered ++ held x ≡ answers env boot v.done) free v.replies)
              (same ∙ ap (λ x. (dispatch_command env c x).0) v.state)
            ∙ sym (answers-append env boot v.done c);
        state =
            left
            ∙ (ap (λ x. (dispatch_command env c x).1) v.state
                ∙ sym (served-append env boot v.done c));
      })
  Step-IsSerial boot s t (deliver om o busy f e) v = rw e (record {
    done = v.done;
    order = v.order;
    replies =
        append-nil _ ∙ subst (λ x. s.answered ++ held x ≡ answers env boot v.done) busy v.replies;
    state = v.state;
  })
  Step-IsSerial boot s t (sampled om q yj hk seconds made f e) v =
      rw e (record { done = v.done; order = v.order; replies = v.replies; state = v.state })
  Step-IsSerial boot s t (forward om q f e) v =
      rw e (record { done = v.done; order = v.order; replies = v.replies; state = v.state })
  Step-IsSerial boot s t (publish om o f e) v =
      rw e (record { done = v.done; order = v.order; replies = v.replies; state = v.state })

  -- Nothing has happened yet, and nothing waits.
  pub record IsBoot (s : System D I O P) : Type 0 where
    pub free : s.holding ≡ none
    pub empty : inq.contents s.inbound ≡ []
    pub none_accepted : s.accepted ≡ []
    pub none_answered : s.answered ≡ []

  -- From a state in which nothing has happened and nothing waits, whatever the order of the threads'
  -- steps: the accepted commands are the served ones followed by those that wait in the inbound queue,
  -- and the answers, with the one that waits for room, are those of serving them one after the other in
  -- this order, which leaves the globals as they are.
  pub Reach-IsSerial :
      (s t : System D I O P) → IsBoot s → Reach env inq outq pdq s t → IsSerial s.tib t
  unfolding answers served
  Reach-IsSerial s t b here = record {
    done = [];
    order = b.none_accepted ∙ sym b.empty;
    replies = rw (b.none_answered, b.free) refl;
    state = refl;
  }
  Reach-IsSerial s t b (next {t = u} r step) = Step-IsSerial s.tib u t step (Reach-IsSerial s u b r)
