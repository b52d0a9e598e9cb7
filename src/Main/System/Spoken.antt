-- ===== src/Main/System/Spoken.antt =====
-- What waits to be published, and what is published, are JSON texts.
use hispec_tib.Prelude.{
  ℕ, ◌<◌, ◌≤◌, ◌^◌, ◌≡◌, refl, ap, sym, subst, ◌∙◌, inl, inr, true, [], ◌∷◌, ◌++◌, map, some, arith,
  All, All-append, Option-cases, zero, suc, take_all, length, length-append, append_assoc,
}
use hispec_tib.CString.{CString, text, decimal, format_hd}
use hispec_tib.Board.{Env}
use hispec_tib.MsgQueue.{MsgQueue}
use hispec_tib.Devices.{Tib, zeroed, route_table}
use hispec_tib.Devices.Setup.{table_route}
use hispec_tib.Photodiode.{Channel, sample, sample_text, sample_msg, put_purging}
use hispec_tib.Grammar.{
  IsJson, all_plain, fields, member, one_member, more_members, number, plus, whole,
}
use hispec_tib.Grammar.Numbers.{
  decimal-IsNatural, format_hd-IsNumber, length-decimal, length-format_hd,
}
use hispec_tib.Command.Types.{Command, OutMsg}
use hispec_tib.Command.Reply.{invalid_command_response, busy_response}
use hispec_tib.Command.Texts.{SaysJson, fixed-SaysJson}
use hispec_tib.Command.Texts.Routes.{IsNamed}
use hispec_tib.Command.Texts.Handlers.{dispatch-SaysJson}
use hispec_tib.Main.{
  boot_devices, Publish, Published, Verdict, ignore, refuse, accept, decode, mqtt_command_handler,
  put_or_drop,
}
use hispec_tib.Main.System.{
  System, Step, receive, fetch, deliver, sampled, forward, publish, Reach, here, next,
}
use hispec_tib.Main.System.Serial.{held, fetch_inv}
use hispec_tib.Main.System.Order.{IsInOrder, Reach-IsInOrder}

-- The names of the source's routes.
pub routes-IsNamed : All IsNamed (map table_route route_table)
unfolding route_table all_plain
routes-IsNamed = ground arith

IsNamed-of : {D : Type 0} (tib : Tib D) → IsInOrder tib → All IsNamed tib.router.routes
IsNamed-of tib o = subst (All IsNamed) (sym o.routes) routes-IsNamed

-- `{"yj":1, "hk":2, "time":3}`
sample_text-IsJson : (yj hk seconds : ℕ) → IsJson (sample_text yj hk seconds)
unfolding all_plain
sample_text-IsJson yj hk seconds =
    let first : CString = text "\"yj\":" ++ format_hd yj in
    let second : CString = text "\"hk\":" ++ format_hd hk in
    let third : CString = text "\"time\":" ++ decimal seconds in
    fields (first ++ (b',' ∷ b' ' ∷ (second ++ (b',' ∷ b' ' ∷ third)))) (simp append_assoc) (
      more_members first _ (inr refl)
        (member (text "yj") (format_hd yj) refl refl (number (format_hd-IsNumber yj)))
        (more_members second third (inr refl)
          (member (text "hk") (format_hd hk) refl refl (number (format_hd-IsNumber hk)))
          (one_member (
            member (text "time") (decimal seconds) refl refl
              (number (plus (whole (decimal-IsNatural seconds))))))))

length-sample_text :
    (yj hk seconds : ℕ) → seconds < 10000000000000000000 → length (sample_text yj hk seconds) ≤ 255
length-sample_text yj hk seconds h = omega (
  arith,
  length-append (format_hd yj)
      (text ", \"hk\":" ++ (format_hd hk ++ (text ", \"time\":" ++ (decimal seconds ++ text "}")))),
  length-append (format_hd hk) (text ", \"time\":" ++ (decimal seconds ++ text "}")),
  length-append (decimal seconds) (text "}"),
  length-format_hd yj,
  length-format_hd hk,
  length-decimal seconds h,
)

sample_msg-SaysJson :
    (yj hk : Channel) (seconds : ℕ) → seconds < 2 ^ 63 → SaysJson (sample_msg yj hk seconds)
unfolding sample_msg
sample_msg-SaysJson yj hk seconds h =
    rw
      (take_all 255 (sample_text (sample yj) (sample hk) seconds)
        (length-sample_text (sample yj) (sample hk) seconds (omega arith)))
      (sample_text-IsJson (sample yj) (sample hk) seconds)

-- What holds of all messages in a queue.
module _ {Q : Type 0} (mq : MsgQueue Q OutMsg) where
  abbrev AllSay : Q → Type 0
  AllSay q = All SaysJson (mq.contents q)

  put-AllSay : (q r : Q) (m : OutMsg) → mq.put q m ≡ some r → SaysJson m → AllSay q → AllSay r
  put-AllSay q r m e j a = elim (mq.put_lem q m) [
    | inl (full, n) ↦ absurd (ground (arith, n))
    | inr (r', room, f, back) ↦
        let same : r' ≡ r = ground arith in
        subst AllSay same (rw back (All-append SaysJson (mq.contents q) (m ∷ []) a (j, tt)))
  ]

  put_or_drop-AllSay : (q : Q) (m : OutMsg) → SaysJson m → AllSay q → AllSay (put_or_drop mq q m)
  unfolding put_or_drop
  put_or_drop-AllSay q m j a = elim (mq.put_lem q m) [
    | inl (full, n) ↦ rw (n, put_or_drop) a
    | inr (r, room, f, back) ↦ rw (f, put_or_drop) (put-AllSay q r m f j a)
  ]

  get-AllSay : (q r : Q) (m : OutMsg) → mq.get q ≡ some (m, r) → AllSay q → SaysJson m × AllSay r
  get-AllSay q r m e a = elim (mq.get_lem q) [
    | inl (empty, n) ↦ absurd (ground (arith, n))
    | inr (m', r', f, front) ↦
        let first : m' ≡ m = ground arith in
        let rest : r' ≡ r = ground arith in
        let both = subst (All SaysJson) front a in
        (subst SaysJson first both.0, subst AllSay rest both.1)
  ]

  purging-AllSay :
      (fuel : ℕ) (q r : Q) (m : OutMsg)
      → put_purging mq fuel q m ≡ some r
      → SaysJson m
      → AllSay q
      → AllSay r
  unfolding put_purging
  purging-AllSay zero q r m e j a = cc
  purging-AllSay (suc fuel) q r m e j a = elim (Option-cases (mq.put q m)) [
    | inr (r', f) ↦ let same : r' ≡ r = ground (arith, f) in put-AllSay q r m (f ∙ ap some same) j a
    | inl n ↦ purging-AllSay fuel (mq.purge q) r m (ground (arith, n)) j (rw (mq.purge_lem q) tt)
  ]

module _ {D I O P : Type 0} (env : Env D) (inq : MsgQueue I Command) (outq : MsgQueue O OutMsg)
    (pdq : MsgQueue P OutMsg) where
  handler-AllSay :
      (p : Publish) (i : I) (o : O) (v : Verdict)
      → decode env.json p ≡ v
      → AllSay outq o
      → AllSay outq (mqtt_command_handler env inq outq p i o).1
  unfolding mqtt_command_handler
  handler-AllSay p i o ignore e a = rw (e, mqtt_command_handler) a
  handler-AllSay p i o (refuse cmd) e a =
      rw (e, mqtt_command_handler)
        (put_or_drop-AllSay outq o (invalid_command_response cmd) (fixed-SaysJson cmd).2 a)
  handler-AllSay p i o (accept cmd) e a = elim (Option-cases (inq.put i cmd)) [
    | inl n ↦
        rw (e, n, mqtt_command_handler)
          (put_or_drop-AllSay outq o (busy_response cmd) (fixed-SaysJson cmd).3 a)
    | inr (i', f) ↦ rw (e, f, mqtt_command_handler) a
  ]

  -- Every message that waits somewhere, and every one that was published, is a JSON object.
  pub record IsSpoken (s : System D I O P) : Type 0 where
    pub queued : All SaysJson (outq.contents s.outbound)
    pub holding : All SaysJson (held s.holding)
    pub samples : All SaysJson (pdq.contents s.samples)
    pub published : All (λ (p : Published). SaysJson p.msg) s.published

  Step-IsSpoken :
      (s t : System D I O P) → Step env inq outq pdq s t → IsInOrder s.tib → IsSpoken s → IsSpoken t
  Step-IsSpoken s t (receive p e) o v = rw e (record {
    queued = handler-AllSay p s.inbound s.outbound (decode env.json p) refl v.queued;
    holding = v.holding;
    samples = v.samples;
    published = v.published;
  })
  Step-IsSpoken s t (fetch om i tib free f e) o v =
      let (c, front, same, left) = fetch_inv env inq outq s.inbound i s.tib tib om f in
      rw (e, same)
        (record {
          queued = v.queued;
          holding = (dispatch-SaysJson env c s.tib o.valid (IsNamed-of s.tib o), tt);
          samples = v.samples;
          published = v.published;
        })
  Step-IsSpoken s t (deliver om q busy f e) o v = rw e (record {
    queued =
        put-AllSay outq s.outbound q om f (subst (λ h. All SaysJson (held h)) busy v.holding).0
          v.queued;
    holding = tt;
    samples = v.samples;
    published = v.published;
  })
  Step-IsSpoken s t (sampled om q yj hk seconds (made, small) f e) o v = rw e (record {
    queued = v.queued;
    holding = v.holding;
    samples =
        purging-AllSay pdq 2 s.samples q om f (rw made (sample_msg-SaysJson yj hk seconds small))
          v.samples;
    published = v.published;
  })
  Step-IsSpoken s t (forward om q f e) o v =
      let (j, rest) = get-AllSay pdq s.samples q om f v.samples in
      rw e (record {
        queued = put_or_drop-AllSay outq s.outbound om j v.queued;
        holding = v.holding;
        samples = rest;
        published = v.published;
      })
  Step-IsSpoken s t (publish om q f e) o v =
      let (j, rest) = get-AllSay outq s.outbound q om f v.queued in
      rw e (record {
        queued = rest;
        holding = v.holding;
        samples = v.samples;
        published =
            All-append (λ (p : Published). SaysJson p.msg) s.published _ v.published (j, tt);
      })

  -- If the expander is ready when `main` sets up the zeroed globals, and what waits then, if anything, is
  -- JSON, then in every state that the threads get to from there, whatever messages arrive and in whatever order the threads'
  -- steps come, each message that waits in a queue or was published is a JSON object: the answers to
  -- commands, the refusals and the samples.
  pub Reach-IsSpoken :
      (dev : ℕ) (s t : System D I O P)
      → s.tib ≡ boot_devices env.doubles true dev (zeroed env.doubles)
      → IsSpoken s
      → Reach env inq outq pdq s t
      → IsSpoken t
  Reach-IsSpoken dev s t e v here = v
  Reach-IsSpoken dev s t e v (next {t = u} r step) =
      Step-IsSpoken u t step (Reach-IsInOrder env inq outq pdq dev s u e r)
        (Reach-IsSpoken dev s u e v r)
