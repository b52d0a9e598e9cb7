-- ===== src/Main/Decode.antt =====
-- Which messages `mqtt_command_handler` queues as commands, and what is in such a command.
use hispec_tib.Prelude.{
  ℕ, ◌<◌, ◌≡◌, ◌⊎◌, inl, inr, true, ◌&&◌, List, some, arith, length, drop, ltb, if◌then◌else◌,
  Option-cases, false, refl, ap, sym, subst, map, is_neg, [], ◌∷◌, ◌==◌, set, replicate,
  length-replicate,
}
use hispec_tib.CString.{CString, c_string, strncmp_eq, text, tolower, memcpy}
use hispec_tib.Board.{Json}
use hispec_tib.Command.Types.{
  Command, MsgType, max_key_len, max_payload_len, max_topic_len, max_correlation_data,
}
use hispec_tib.Command.Keys.Laser.{strncasecmp_iff}
use hispec_tib.Command.Keys.{parse_msg_type_from_payload}
use hispec_tib.Main.{
  Publish, accept, decode, decode_payload, decode_reply, with_key, with_payload, with_correlation,
  empty_command, prefix_len, mqtt_cmd_prefix,
}

-- The parser finds a "msg_type" in a payload, and it is "get" or "set", in any mixture of cases.
abbrev pub Says : {D : Type 0} → Json D → CString → MsgType → Type 0
Says json payload t =
    (is_neg (json.msg_type payload).rc ≡ false)
    × (((map tolower (json.msg_type payload).value.0 ≡ text "get") × (t ≡ MsgType.get))
        ⊎ ((map tolower (json.msg_type payload).value.0 ≡ text "set") × (t ≡ MsgType.set)))

-- What a command that was accepted from a message carries.
pub record Accepted {D : Type 0} (json : Json D) (p : Publish) (cmd : Command) : Type 0 where
  pub prefixed : strncmp_eq prefix_len (c_string p.topic) mqtt_cmd_prefix ≡ true
  pub key : cmd.key ≡ drop prefix_len (c_string p.topic)
  pub key_fits : (0 < length cmd.key) × (length cmd.key < max_key_len)
  pub payload_fits : length p.payload < max_payload_len
  pub typed : Says json (c_string p.payload) cmd.msg_type
  pub topic : List ℕ
  pub topic_given : p.response_topic ≡ some topic
  pub topic_fits : length topic < max_topic_len
  pub answer_to : cmd.response_topic ≡ c_string topic
  pub echo : cmd.corr_len ≡ (
      if ltb 0 (length p.correlation_data) && ltb (length p.correlation_data) max_correlation_data
      then length p.correlation_data
      else 0)
  pub no_length : cmd.payload_len ≡ 0

parse_type-Says :
    {D : Type 0} (json : Json D) (payload : List ℕ) (t : MsgType)
    → (parse_msg_type_from_payload json payload).0 ≡ some t
    → Says json (c_string payload) t
unfolding parse_msg_type_from_payload tolower
parse_type-Says json payload t e =
    let name = (json.msg_type (c_string payload)).value.0 in
    ground (
      arith,
      strncasecmp_iff 4 name (text "get") (omega arith),
      strncasecmp_iff 4 name (text "set") (omega arith),
    )

-- The string that a buffer holds after a shorter one has been copied to its start and ended by a NUL.
copied_string :
    (src buf : List ℕ)
    → length src < length buf
    → c_string (set (memcpy buf src (length src)) (length src) 0) ≡ c_string src
unfolding c_string
copied_string [] [] h = absurd (omega arith)
copied_string [] (b ∷ buf) h = refl
copied_string (x ∷ src) [] h = absurd (omega arith)
copied_string (x ∷ src) (b ∷ buf) h =
    ap (λ rest. if x == 0 then [] else x ∷ rest) (copied_string src buf (omega arith))

payload_text :
    (suffix : CString) (bytes : List ℕ)
    → length bytes < max_payload_len
    → c_string (with_payload (with_key empty_command suffix) bytes).payload ≡ c_string bytes
unfolding with_payload with_key empty_command
payload_text suffix bytes h =
    copied_string bytes (replicate max_payload_len 0)
      (subst (λ n. length bytes < n) (sym (length-replicate max_payload_len 0)) h)

abbrev suffix_of : Publish → CString
suffix_of p = drop prefix_len (c_string p.topic)

decode_inv :
    {D : Type 0} (json : Json D) (p : Publish) (cmd : Command)
    → decode json p ≡ accept cmd
    → (strncmp_eq prefix_len (c_string p.topic) mqtt_cmd_prefix ≡ true)
      × (0 < length (suffix_of p))
      × (length (suffix_of p) < max_key_len)
      × (decode_payload json p (with_key empty_command (suffix_of p)) ≡ accept cmd)
unfolding decode
decode_inv json p cmd e = ground arith

payload_inv :
    {D : Type 0} (json : Json D) (p : Publish) (c cmd : Command)
    → decode_payload json p c ≡ accept cmd
    → (t : MsgType) × (worked : List ℕ) × (length p.payload < max_payload_len)
      × ((parse_msg_type_from_payload json (with_payload c p.payload).payload).0 ≡ some t)
      × (decode_reply p (record (with_payload c p.payload) { msg_type = t; payload = worked })
          ≡ accept cmd)
unfolding decode_payload
payload_inv json p c cmd e =
    elim (Option-cases (parse_msg_type_from_payload json (with_payload c p.payload).payload).0) [
      | inl n ↦ absurd (ground (arith, n))
      | inr (t, f) ↦ (
        t,
        (parse_msg_type_from_payload json (with_payload c p.payload).payload).1,
        ground arith,
        f,
        ground (arith, f),
      )
    ]

reply_inv :
    (p : Publish) (c cmd : Command)
    → decode_reply p c ≡ accept cmd
    → (r : List ℕ) × (p.response_topic ≡ some r)
      × (length r < max_topic_len)
      × (with_correlation (record c { response_topic = c_string r }) p.correlation_data ≡ cmd)
unfolding decode_reply
reply_inv p c cmd e = elim (Option-cases p.response_topic) [
  | inl n ↦ absurd (ground (arith, n))
  | inr (r, f) ↦ (r, f, ground (arith, f), ground (arith, f))
]

-- A message is queued as a command only if its topic has the prefix and a key of 1 to 47 bytes, its
-- payload is shorter than 256 bytes, and it has a response topic of less than 64 bytes. The parser takes
-- the payload up to its first NUL, and the "msg_type" that it gives is "get" or "set", in any mixture
-- of cases. The command has that key, type and response topic, the length of the correlation data if
-- that is 1 to 15 and 0 otherwise, and the payload length 0, whatever the payload.
pub decode-Accepted :
    {D : Type 0} (json : Json D) (p : Publish) (cmd : Command)
    → decode json p ≡ accept cmd
    → Accepted json p cmd
unfolding with_key with_payload with_correlation empty_command
decode-Accepted json p cmd e =
    let (prefixed, short, long, f) = decode_inv json p cmd e in
    let (t, worked, fits, typed, g) =
      payload_inv json p (with_key empty_command (suffix_of p)) cmd f in
    let (r, given, size, same) = reply_inv p _ cmd g in
    record {
      prefixed = prefixed;
      key = ground arith;
      key_fits = ground arith;
      payload_fits = fits;
      typed =
          let same : t ≡ cmd.msg_type = ground arith in
          subst (Says json (c_string p.payload)) same (
            subst (λ x. Says json x t) (payload_text (suffix_of p) p.payload fits)
              (parse_type-Says json _ t typed));
      topic = r;
      topic_given = given;
      topic_fits = size;
      answer_to = ground arith;
      echo = ground arith;
      no_length = ground arith;
    }
