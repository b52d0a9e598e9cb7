-- ===== src/Command/Keys.antt =====
-- app/src/command.c: `parse_msg_type_from_payload`, `parse_key_pair` and `get_laser_channel`.
pub mod Parse
pub mod Laser
use hispec_tib.Prelude.{
  ℕ, ◌+◌, ◌-◌, ℤ, negsuc, ◌||◌, List, ◌∷◌, ◌++◌, Option, none, some, leb, ◌==◌, if◌then◌else◌,
  length, drop, is_neg,
}
use hispec_tib.CString.{CString, text, c_string, memcpy, split_at, before, strncasecmp_eq}
use hispec_tib.Board.{Json}
use hispec_tib.Command.Types.{MsgType}

-- The result, and the payload after the parser has worked in it. The parser is given the string
-- that the payload holds.
unfoldable pub parse_msg_type_from_payload :
    {D : Type 0} → Json D → List ℕ → Option MsgType × List ℕ
parse_msg_type_from_payload json payload =
    let parsed = json.msg_type (c_string payload) in
    let (name, worked) = parsed.value in
    (
      if is_neg parsed.rc
          then none
          else if strncasecmp_eq 4 name (text "get")
          then some MsgType.get
          else if strncasecmp_eq 4 name (text "set")
          then some MsgType.set
          else none,
      memcpy payload worked (length worked),
    )

-- -1, -2 and -3, or the name and the setting.
pub data KeyPair : Type 0 where
  no_slash bad_name bad_setting : KeyPair
  pair : CString → CString → KeyPair

unfoldable pub parse_key_pair : CString → ℕ → ℕ → KeyPair
parse_key_pair key max_name max_setting = elim (split_at b'/' key) [
  | none ↦ no_slash
  | some (name, rest) ↦
      if length name == 0 || leb max_name (length name)
      then bad_name
      else if length (before b'/' rest) == 0 || leb max_setting (length (before b'/' rest))
      then bad_setting
      else pair name (before b'/' rest)
]

-- The enumerators of `laser_t`; two share the value 1, and two come before 4 and 5.
abbrev pub laser_unknown : ℕ
laser_unknown = 6

unfoldable pub get_laser_channel : CString → ℕ
get_laser_channel name =
    if strncasecmp_eq 7 name (text "1028y")
    then 1
    else if strncasecmp_eq 7 name (text "1270j")
    then 1
    else if strncasecmp_eq 7 name (text "1430yj")
    then 2
    else if strncasecmp_eq 7 name (text "1430yj")
    then 3
    else if strncasecmp_eq 7 name (text "1510h")
    then 4
    else if strncasecmp_eq 7 name (text "2330k")
    then 5
    else laser_unknown

-- The string at `laser_name + 5`, where `laser_name` is a `char[16]` that held `stack` before the
-- name was copied into it with its NUL.
unfoldable pub after_prefix : List ℕ → CString → CString
after_prefix stack name = c_string (drop 5 (name ++ (0 ∷ drop (length name + 1) stack)))
