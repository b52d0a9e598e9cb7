-- ===== src/Main/Reception.antt =====
-- What becomes of each message that `mqtt_command_handler` is given.
use hispec_tib.Prelude.{
  ◌≤◌, ◌<◌, ◌≡◌, refl, ◌⊎◌, inl, inr, false, [], ◌∷◌, ◌++◌, drop, length, arith, Bool-cases, leb,
  ◌==◌, ◌||◌, Option-cases,
}
use hispec_tib.CString.{c_string, strncmp_eq}
use hispec_tib.Board.{Env, Json}
use hispec_tib.MsgQueue.{MsgQueue}
use hispec_tib.Command.Types.{Command, OutMsg, resp_error, max_key_len, max_payload_len}
use hispec_tib.Command.Reply.{msg_builder, invalid_command_response, busy_response}
use hispec_tib.Command.Keys.{parse_msg_type_from_payload}
use hispec_tib.Main.{
  Publish, Verdict, ignore, refuse, accept, decode, decode_payload, decode_reply, with_payload,
  with_key, empty_command, prefix_len, mqtt_cmd_prefix, mqtt_command_handler, put_or_drop,
}

-- The topic has another prefix; or it has a key that fits, and the payload is too long.
abbrev IsIgnorable : Publish → Type 0
IsIgnorable p =
    (strncmp_eq prefix_len (c_string p.topic) mqtt_cmd_prefix ≡ false)
    ⊎ ((0 < length (drop prefix_len (c_string p.topic)))
        × (length (drop prefix_len (c_string p.topic)) < max_key_len)
        × (max_payload_len ≤ length p.payload))

reply_answers : (p : Publish) (cmd : Command) → ¬ (decode_reply p cmd ≡ ignore)
unfolding decode_reply
reply_answers p cmd e = elim (Option-cases p.response_topic) [
  | inl n ↦ ground (arith, n)
  | inr (r, f) ↦ ground (arith, f)
]

payload_ignored :
    {D : Type 0} (json : Json D) (p : Publish) (cmd : Command)
    → decode_payload json p cmd ≡ ignore
    → max_payload_len ≤ length p.payload
unfolding decode_payload
payload_ignored json p cmd e =
    let filled = with_payload cmd p.payload in
    let parsed = parse_msg_type_from_payload json filled.payload in
    elim (Bool-cases (leb max_payload_len (length p.payload))) [
      | inl long ↦ ground (arith, long)
      | inr short ↦ elim (Option-cases parsed.0) [
        | inl n ↦ absurd (ground (arith, n, short))
        | inr (t, f) ↦ absurd (
            reply_answers p (record filled { msg_type = t; payload = parsed.1 })
              (ground (arith, f, short)))
      ]
    ]

decode_ignored : {D : Type 0} (json : Json D) (p : Publish) → decode json p ≡ ignore → IsIgnorable p
unfolding decode
decode_ignored json p e =
    let suffix = drop prefix_len (c_string p.topic) in
    elim (Bool-cases (strncmp_eq prefix_len (c_string p.topic) mqtt_cmd_prefix)) [
      | inr other ↦ inl other
      | inl ours ↦ elim (Bool-cases (length suffix == 0 || leb max_key_len (length suffix))) [
        | inl bad ↦ absurd (ground (arith, ours, bad))
        | inr good ↦ inr (
          ground (arith, good),
          ground (arith, good),
          payload_ignored json p (with_key empty_command suffix) (ground (arith, ours, good)),
        )
      ]
    ]

module _ {D I O : Type 0} (env : Env D) (inq : MsgQueue I Command) (outq : MsgQueue O OutMsg) where
  -- What the handler leaves of the two queues.
  abbrev pub Received : Publish → I → O → I × O → Type 0
  Received p i o out =
      (IsIgnorable p × (out.0 ≡ i) × (out.1 ≡ o))
      ⊎ (((cmd : Command) × (inq.contents out.0 ≡ inq.contents i ++ (cmd ∷ [])) × (out.1 ≡ o))
          ⊎ ((r : OutMsg) × (r.msg_type ≡ resp_error)
              × (out.0 ≡ i)
              × (out.1 ≡ put_or_drop outq o r)))

  Received-as :
      (p : Publish) (i : I) (o : O) (v : Verdict)
      → decode env.json p ≡ v
      → Received p i o (mqtt_command_handler env inq outq p i o)
  unfolding mqtt_command_handler invalid_command_response busy_response msg_builder
  Received-as p i o ignore e =
      rw (e, mqtt_command_handler) (inl (decode_ignored env.json p e, refl, refl))
  Received-as p i o (refuse cmd) e =
      rw (e, mqtt_command_handler) (inr (inr (invalid_command_response cmd, refl, refl, refl)))
  Received-as p i o (accept cmd) e = elim (inq.put_lem i cmd) [
    | inl (full, n) ↦
        rw (e, n, mqtt_command_handler) (inr (inr (busy_response cmd, refl, refl, refl)))
    | inr (j, room, f, back) ↦ rw (e, f, mqtt_command_handler) (inr (inl (cmd, back, refl)))
  ]

  -- Each message does one of three things: it puts one command at the end of the inbound queue; or it has
  -- an error put into the outbound queue, which is dropped if that is full; or it is ignored, and then its
  -- topic has not the prefix, or its key is of 1 to 47 bytes and its payload of 256 or more.
  pub mqtt_command_handler-Received :
      (p : Publish) (i : I) (o : O) → Received p i o (mqtt_command_handler env inq outq p i o)
  mqtt_command_handler-Received p i o = Received-as p i o (decode env.json p) refl
