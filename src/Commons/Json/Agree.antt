-- ===== src/Commons/Json/Agree.antt =====
-- The parsers of lib/coo_commons/json_utils.c and those of app/src/command.c of which they are copies.
use hispec_tib.Prelude.{
  ℕ, ◌≡◌, refl, inl, inr, ℤ, pos, negsuc, Bool, true, false, ◌||◌, Option, none, some, length, leb,
  ◌==◌, is_neg, Bool-cases, Option-cases,
}
use hispec_tib.CString.{CString, text, c_string, split_at, before, strncasecmp_eq}
use hispec_tib.Board.{Json}
use hispec_tib.Command.Types.{MsgType}
use hispec_tib.Command.Keys.{
  KeyPair, no_slash, bad_name, bad_setting, pair, parse_key_pair, parse_msg_type_from_payload,
}
use hispec_tib.Commons.Json.{
  CooMsgType, coo_msg_get, coo_msg_set, coo_msg_resp_ok, coo_msg_resp_error,
  coo_json_parse_msg_type, coo_json_parse_key_pair,
}

-- The same message type in both enumerations.
abbrev pub app_type : CooMsgType → MsgType
app_type coo_msg_get = MsgType.get
app_type coo_msg_set = MsgType.set
app_type coo_msg_resp_ok = MsgType.resp_ok
app_type coo_msg_resp_error = MsgType.resp_error

-- What the application's parser says of a result of the library's.
abbrev pub SameType :
    Option CooMsgType → Option MsgType → Bool × Option CooMsgType × CString → Type 0
SameType old none out = (out.0 ≡ false) × (out.1 ≡ old)
SameType old (some t) out =
    (out.0 ≡ true) × ((u : CooMsgType) × (out.1 ≡ some u) × (app_type u ≡ t))

-- The same for a key: the code of the error, and what stands in the two buffers.
abbrev pub SamePair : CString → CString → KeyPair → ℤ × CString × CString → Type 0
SamePair name setting no_slash out = out ≡ (negsuc 0, name, setting)
SamePair name setting bad_name out = out ≡ (negsuc 1, name, setting)
SamePair name setting bad_setting out = (out.0 ≡ negsuc 2) × (out.2 ≡ setting)
SamePair name setting (pair n s) out = out ≡ (pos 0, n, s)

-- The string that the payload holds is all of it, and so both parsers give the same text to the library.
msg_type-agrees :
    {D : Type 0} (json : Json D) (payload : CString) (old : Option CooMsgType)
    → c_string payload ≡ payload
    → SameType old
        (parse_msg_type_from_payload json payload).0
        (coo_json_parse_msg_type json payload old)
unfolding parse_msg_type_from_payload coo_json_parse_msg_type
msg_type-agrees json payload old w = rw w (elim (Bool-cases (is_neg (json.msg_type payload).rc)) [
  | inl bad ↦ rw bad (refl, refl)
  | inr ok ↦ elim (Bool-cases (strncasecmp_eq 4 (json.msg_type payload).value.0 (text "get"))) [
    | inl g ↦ rw (ok, g) (refl, (coo_msg_get, refl, refl))
    | inr g ↦ elim (Bool-cases (strncasecmp_eq 4 (json.msg_type payload).value.0 (text "set"))) [
      | inl s ↦ rw (ok, g, s) (refl, (coo_msg_set, refl, refl))
      | inr s ↦ rw (ok, g, s) (refl, refl)
    ]
  ]
])

key_pair-agrees :
    (key name setting : CString) (max_name max_setting : ℕ)
    → SamePair name setting
        (parse_key_pair key max_name max_setting)
        (coo_json_parse_key_pair key name max_name setting max_setting)
unfolding parse_key_pair coo_json_parse_key_pair
key_pair-agrees key name setting max_name max_setting = elim (Option-cases (split_at b'/' key)) [
  | inl n ↦ rw (n, SamePair, parse_key_pair, coo_json_parse_key_pair) refl
  | inr ((a, rest), e) ↦ elim (Bool-cases (length a == 0 || leb max_name (length a))) [
    | inl bad ↦ rw (e, bad, SamePair, parse_key_pair, coo_json_parse_key_pair) refl
    | inr ok ↦
        elim (Bool-cases
          (length (before b'/' rest) == 0 || leb max_setting (length (before b'/' rest)))) [
            | inl bad ↦
                rw (e, ok, bad, SamePair, parse_key_pair, coo_json_parse_key_pair) (refl, refl)
            | inr good ↦ rw (e, ok, good, SamePair, parse_key_pair, coo_json_parse_key_pair) refl
          ]
  ]
]

-- On a payload that has no NUL in it, the parser of the message type in the library and the one in the
-- application have the same result: neither finds a type, and the library's leaves its output as it was,
-- or both find the same one. On every key the parsers of name and setting refuse for the same reason, with
-- the codes -1, -2 and -3 in the library, or give the same name and setting; the library's writes the
-- setting's buffer only for a key that is accepted.
pub parsers_agree :
    {D : Type 0} (json : Json D) (payload : CString) (old : Option CooMsgType)
    (key name setting : CString) (max_name max_setting : ℕ)
    → c_string payload ≡ payload
    → SameType old
        (parse_msg_type_from_payload json payload).0
        (coo_json_parse_msg_type json payload old)
      × SamePair name setting
          (parse_key_pair key max_name max_setting)
          (coo_json_parse_key_pair key name max_name setting max_setting)
parsers_agree json payload old key name setting max_name max_setting w =
    (msg_type-agrees json payload old w, key_pair-agrees key name setting max_name max_setting)
