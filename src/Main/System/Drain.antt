-- ===== src/Main/System/Drain.antt =====
-- What becomes of the commands and messages that wait, when no more come in.
use hispec_tib.Prelude.{
  ℕ, zero, suc, ◌+◌, ◌*◌, ◌%◌, ◌^◌, ◌≤◌, ◌<◌, ◌≡◌, refl, ap, sym, ◌∙◌, ◌⊎◌, inl, inr, [], ◌∷◌, ◌++◌,
  append-nil, none, some, arith, length, length-append, Option-cases, subst,
}
use hispec_tib.Board.{Env}
use hispec_tib.MsgQueue.{MsgQueue}
use hispec_tib.Devices.{Tib}
use hispec_tib.Command.{dispatch_command}
use hispec_tib.Command.Types.{Command, OutMsg}
use hispec_tib.Main.{executor_fetch, put_or_drop}
use hispec_tib.Main.System.{
  System, Step, fetch, deliver, forward, publish, Reach, here, next, answers,
}
use hispec_tib.Main.System.Serial.{IsBoot, held, Reach-IsSerial}

put_or_drop-length :
    {O : Type 0} (outq : MsgQueue O OutMsg) (o : O) (r : OutMsg)
    → length (outq.contents (put_or_drop outq o r)) ≤ length (outq.contents o) + 1
unfolding put_or_drop
put_or_drop-length outq o r = elim (outq.put_lem o r) [
  | inl (full, n) ↦ rw (n, put_or_drop) (omega arith)
  | inr (j, room, f, back) ↦
      rw (f, put_or_drop) (omega (arith, ap length back, length-append (outq.contents o) (r ∷ [])))
]

module _ {D I O P : Type 0} (env : Env D) (inq : MsgQueue I Command) (outq : MsgQueue O OutMsg)
    (pdq : MsgQueue P OutMsg) where
  -- What is left to do: a command is fetched, delivered and published, a sample forwarded and published.
  work : System D I O P → ℕ
  work s =
      3 * length (inq.contents s.inbound)
      + (2 * length (held s.holding)
          + (length (outq.contents s.outbound) + 2 * length (pdq.contents s.samples)))

  -- Nothing waits anywhere.
  pub record IsDone (s : System D I O P) : Type 0 where
    pub inbound : inq.contents s.inbound ≡ []
    pub holding : s.holding ≡ none
    pub outbound : outq.contents s.outbound ≡ []
    pub samples : pdq.contents s.samples ≡ []

  -- A step that leaves less to do and takes no message in.
  record Advances (s : System D I O P) : Type 0 where
    after : System D I O P
    step : Step env inq outq pdq s after
    less : work after < work s
    same : after.accepted ≡ s.accepted

  advance_publish :
      (s : System D I O P) (om : OutMsg) (o : O)
      → outq.get s.outbound ≡ some (om, o)
      → outq.contents s.outbound ≡ om ∷ outq.contents o
      → Advances s
  unfolding work
  advance_publish s om o e front = record {
    after = record s {
      outbound = o;
      msg_id = (s.msg_id + 1) % 2 ^ 16;
      published = s.published ++ (record { message_id = s.msg_id; msg = om } ∷ []);
    };
    step = publish om o e refl;
    less = omega (arith, ap length front);
    same = refl;
  }

  advance_deliver :
      (s : System D I O P) (om : OutMsg)
      → 0 < outq.depth
      → s.holding ≡ some om
      → outq.contents s.outbound ≡ []
      → Advances s
  unfolding work
  advance_deliver s om room busy empty = elim (outq.put_lem s.outbound om) [
    | inl (full, n) ↦ absurd (omega (arith, ap length empty))
    | inr (o, fits, f, back) ↦ record {
      after = record s { outbound = o; holding = none; answered = s.answered ++ (om ∷ []) };
      step = deliver om o busy f refl;
      less = omega (
        arith,
        ap (λ x. length (held x)) busy,
        ap length back,
        length-append (outq.contents s.outbound) (om ∷ []),
      );
      same = refl;
    }
  ]

  advance_fetch :
      (s : System D I O P) (c : Command) (i : I)
      → s.holding ≡ none
      → inq.get s.inbound ≡ some (c, i)
      → inq.contents s.inbound ≡ c ∷ inq.contents i
      → Advances s
  unfolding work executor_fetch
  advance_fetch s c i free e front = record {
    after = record s {
      tib = (dispatch_command env c s.tib).1;
      inbound = i;
      holding = some (dispatch_command env c s.tib).0;
    };
    step =
        fetch (dispatch_command env c s.tib).0 i (dispatch_command env c s.tib).1 free
          (rw (e, executor_fetch) refl) refl;
    less = omega (arith, ap (λ x. length (held x)) free, ap length front);
    same = refl;
  }

  advance_forward :
      (s : System D I O P) (om : OutMsg) (q : P)
      → pdq.get s.samples ≡ some (om, q)
      → pdq.contents s.samples ≡ om ∷ pdq.contents q
      → Advances s
  unfolding work
  advance_forward s om q e front = record {
    after = record s { samples = q; outbound = put_or_drop outq s.outbound om };
    step = forward om q e refl;
    less = omega (arith, ap length front, put_or_drop-length outq s.outbound om);
    same = refl;
  }

  advance : (s : System D I O P) → 0 < outq.depth → Advances s ⊎ IsDone s
  advance s room = elim (outq.get_lem s.outbound) [
    | inr (om, o, e, front) ↦ inl (advance_publish s om o e front)
    | inl (empty, n) ↦ elim (Option-cases s.holding) [
      | inr (om, busy) ↦ inl (advance_deliver s om room busy empty)
      | inl free ↦ elim (inq.get_lem s.inbound) [
        | inr (c, i, e, front) ↦ inl (advance_fetch s c i free e front)
        | inl (none_in, m) ↦ elim (pdq.get_lem s.samples) [
          | inr (om, q, e, front) ↦ inl (advance_forward s om q e front)
          | inl (none_sampled, k) ↦ inr (record {
            inbound = none_in;
            holding = free;
            outbound = empty;
            samples = none_sampled;
          })
        ]
      ]
    ]
  ]

  Reach-trans :
      (s t u : System D I O P)
      → Reach env inq outq pdq s t
      → Reach env inq outq pdq t u
      → Reach env inq outq pdq s u
  Reach-trans s t u r here = r
  Reach-trans s t u r (next {t = v} q step) = next (Reach-trans s t v r q) step

  -- A way to a state in which nothing waits.
  record Drains (s : System D I O P) : Type 0 where
    end : System D I O P
    reached : Reach env inq outq pdq s end
    done : IsDone end
    same : end.accepted ≡ s.accepted

  Drains-step : (s : System D I O P) (a : Advances s) → Drains a.after → Drains s
  Drains-step s a d = record {
    end = d.end;
    reached = Reach-trans s a.after d.end (next here a.step) d.reached;
    done = d.done;
    same = d.same ∙ a.same;
  }

  Drains-in : (n : ℕ) (s : System D I O P) → 0 < outq.depth → work s ≤ n → Drains s
  Drains-in zero s room bound = elim (advance s room) [
    | inr d ↦ record { end = s; reached = here; done = d; same = refl }
    | inl a ↦ absurd (omega (arith, a.less))
  ]
  Drains-in (suc n) s room bound = elim (advance s room) [
    | inr d ↦ record { end = s; reached = here; done = d; same = refl }
    | inl a ↦ Drains-step s a (Drains-in n a.after room (omega (arith, a.less)))
  ]

  -- The threads get from `s` to a state in which nothing waits and every accepted command is answered.
  pub record AllAnswered (boot : Tib D) (s : System D I O P) : Type 0 where
    pub end : System D I O P
    pub reached : Reach env inq outq pdq s end
    pub done : IsDone end
    pub same : end.accepted ≡ s.accepted
    pub replies : end.answered ≡ answers env boot s.accepted

  -- In every state that the threads can get to from the boot, if the outbound queue has a place at all,
  -- they can go on to a state in which no command, answer or sample waits, without another command being
  -- accepted; there, each accepted command has been answered, and the answers are those of serving the
  -- commands one after the other in the order of their acceptance.
  pub Reach-AllAnswered :
      (boot s : System D I O P)
      → IsBoot env inq outq pdq boot
      → 0 < outq.depth
      → Reach env inq outq pdq boot s
      → AllAnswered boot.tib s
  Reach-AllAnswered boot s b room r =
      let d = Drains-in (work s) s room (omega arith) in
      let v = Reach-IsSerial env inq outq pdq boot d.end b (Reach-trans boot s d.end r d.reached) in
      let served : v.done ≡ s.accepted =
        sym (append-nil v.done)
        ∙ (ap (λ xs. v.done ++ xs) (sym d.done.inbound) ∙ (sym v.order ∙ d.same)) in
      record {
        end = d.end;
        reached = d.reached;
        done = d.done;
        same = d.same;
        replies =
            sym (append-nil d.end.answered)
            ∙ (subst (λ x. d.end.answered ++ held x ≡ answers env boot.tib v.done) d.done.holding
                  v.replies
                ∙ ap (answers env boot.tib) served);
      }
