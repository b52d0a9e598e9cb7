-- ===== src/Main/System.antt =====
-- The threads of the firmware as steps that interleave in any order: reception of a message, the
-- executor, the photodiode's sampling thread and its forwarding work, and the publishing loop of
-- `main`. The queues are the kernel's.
pub mod Serial
pub mod Bounds
pub mod Untouched
pub mod Drain
pub mod Order
pub mod Spoken
use hispec_tib.Prelude.{ℕ, ◌+◌, ◌%◌, ◌^◌, ◌<◌, ◌≡◌, List, [], ◌∷◌, ◌++◌, Option, none, some}
use hispec_tib.Board.{Env}
use hispec_tib.MsgQueue.{MsgQueue}
use hispec_tib.Devices.{Tib}
use hispec_tib.Command.{dispatch_command}
use hispec_tib.Command.Types.{Command, OutMsg}
use hispec_tib.Photodiode.{Channel, sample_msg, put_purging}
use hispec_tib.Main.{
  Publish, Published, Verdict, ignore, refuse, accept, decode, mqtt_command_handler, executor_fetch,
  put_or_drop,
}

-- `holding` is the answer that the executor waits to put into the outbound queue; `accepted`,
-- `answered` and `published` record what has happened, oldest first.
pub record System (D I O P : Type 0) : Type 0 where
  pub tib : Tib D
  pub inbound : I
  pub outbound : O
  pub samples : P
  pub holding : Option OutMsg
  pub msg_id : ℕ
  pub accepted : List Command
  pub answered : List OutMsg
  pub published : List Published

-- The command that the handler has put into the inbound queue, if it has.
unfoldable pub newly_accepted : {I : Type 0} → MsgQueue I Command → Verdict → I → List Command
newly_accepted inq (accept cmd) i = elim (inq.put i cmd) [ none ↦ [] | some i' ↦ cmd ∷ [] ]
newly_accepted inq ignore i = []
newly_accepted inq (refuse cmd) i = []

module _ {D I O P : Type 0} (env : Env D) (inq : MsgQueue I Command) (outq : MsgQueue O OutMsg)
    (pdq : MsgQueue P OutMsg) where
  pub data Step (s t : System D I O P) : Type 0 where
    -- The MQTT callback: `mqtt_command_handler`.
    receive :
        (p : Publish)
        → t ≡ record s {
          inbound = (mqtt_command_handler env inq outq p s.inbound s.outbound).0;
          outbound = (mqtt_command_handler env inq outq p s.inbound s.outbound).1;
          accepted = s.accepted ++ newly_accepted inq (decode env.json p) s.inbound;
        }
        → Step s t
    -- `executor_thread_fn`, up to its call of `k_msgq_put`.
    fetch :
        (om : OutMsg) (i : I) (tib : Tib D)
        → s.holding ≡ none
        → executor_fetch env inq s.inbound s.tib ≡ some (om, i, tib)
        → t ≡ record s { tib = tib; inbound = i; holding = some om }
        → Step s t
    -- That call with K_FOREVER, once there is room.
    deliver :
        (om : OutMsg) (o : O)
        → s.holding ≡ some om
        → outq.put s.outbound om ≡ some o
        → t ≡ record s { outbound = o; holding = none; answered = s.answered ++ (om ∷ []) }
        → Step s t
    -- A round of `photodiode_thread` stores its message; the time fits into a `time_t`.
    sampled :
        (om : OutMsg) (q : P) (yj hk : Channel) (seconds : ℕ)
        → (om ≡ sample_msg yj hk seconds) × (seconds < 2 ^ 63)
        → put_purging pdq 2 s.samples om ≡ some q
        → t ≡ record s { samples = q }
        → Step s t
    -- A round of the loop of `photodiode_publish_handler`.
    forward :
        (om : OutMsg) (q : P)
        → pdq.get s.samples ≡ some (om, q)
        → t ≡ record s { samples = q; outbound = put_or_drop outq s.outbound om }
        → Step s t
    -- A round of the loop of `main` that drains the outbound queue; `msg_id` is a `uint16_t`.
    publish :
        (om : OutMsg) (o : O)
        → outq.get s.outbound ≡ some (om, o)
        → t ≡ record s {
          outbound = o;
          msg_id = (s.msg_id + 1) % 2 ^ 16;
          published = s.published ++ (record { message_id = s.msg_id; msg = om } ∷ []);
        }
        → Step s t

  pub data Reach (s : System D I O P) : System D I O P → Type 0 where
    here : Reach s s
    next : {t u : System D I O P} → Reach s t → Step t u → Reach s u

module _ {D : Type 0} (env : Env D) where
  -- The answers to commands that are served one after the other.
  pub answers : Tib D → List Command → List OutMsg
  answers tib [] = []
  answers tib (c ∷ cs) = (dispatch_command env c tib).0 ∷ answers (dispatch_command env c tib).1 cs

  -- The globals after commands that are served one after the other.
  pub served : Tib D → List Command → Tib D
  served tib [] = tib
  served tib (c ∷ cs) = served (dispatch_command env c tib).1 cs
