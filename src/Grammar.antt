-- ===== src/Grammar.antt =====
-- The grammar of the JSON texts that the firmware sends (command.c and photodiode.c print them with
-- `snprintf`): values, and members with one space at most after a comma.
pub mod Numbers
pub mod Notes
use hispec_tib.Prelude.{
  ℕ, zero, suc, ◌+◌, ◌≡◌, refl, Bool, true, false, not, ◌&&◌, ◌||◌, List, [], ◌∷◌, ◌++◌, leb, ◌==◌,
  All, ◌⊎◌, inl, inr, arith,
}
use hispec_tib.CString.{CString, text, tolower}

-- A byte that may stand in a string without an escape.
unfoldable pub is_plain : ℕ → Bool
is_plain c = leb 32 c && leb c 126 && not (c == 34) && not (c == 92)

unfoldable pub all_plain : CString → Bool
unfolding is_plain
all_plain [] = true
all_plain (c ∷ cs) = is_plain c && all_plain cs

abbrev pub IsPlain : CString → Type 0
IsPlain s = all_plain s ≡ true

abbrev pub is_digit : ℕ → Bool
is_digit c = leb b'0' c && leb c b'9'

abbrev pub AllDigits : CString → Type 0
AllDigits s = All (λ c. is_digit c ≡ true) s

-- Digits, with no 0 in front of others.
pub data IsNatural : CString → Type 0 where
  zero_digit : {s : CString} → s ≡ b'0' ∷ [] → IsNatural s
  digits :
      {s : CString} (c : ℕ) (cs : CString)
      → s ≡ c ∷ cs
      → leb b'1' c ≡ true
      → leb c b'9' ≡ true
      → AllDigits cs
      → IsNatural s

-- A natural number, perhaps with digits after a point.
pub data IsUnsigned : CString → Type 0 where
  whole : {s : CString} → IsNatural s → IsUnsigned s
  decimal_part :
      {s : CString} (a : CString) (c : ℕ) (cs : CString)
      → s ≡ a ++ (b'.' ∷ c ∷ cs)
      → IsNatural a
      → AllDigits (c ∷ cs)
      → IsUnsigned s

pub data IsNumber : CString → Type 0 where
  plus : {s : CString} → IsUnsigned s → IsNumber s
  minus : {s : CString} (a : CString) → s ≡ b'-' ∷ a → IsUnsigned a → IsNumber s

mutual
  pub data IsValue : CString → Type 0 where
    number : {s : CString} → IsNumber s → IsValue s
    flag : {s : CString} → (s ≡ text "true") ⊎ (s ≡ text "false") → IsValue s
    string : {s : CString} (b : CString) → s ≡ b'"' ∷ (b ++ (b'"' ∷ [])) → IsPlain b → IsValue s
    array : {s : CString} (b : CString) → s ≡ b'[' ∷ (b ++ (b']' ∷ [])) → IsItems b → IsValue s
    empty_object : {s : CString} → s ≡ text "{}" → IsValue s
    object : {s : CString} (b : CString) → s ≡ b'{' ∷ (b ++ (b'}' ∷ [])) → IsMembers b → IsValue s

  pub data IsItems : CString → Type 0 where
    one_item : {s : CString} → IsValue s → IsItems s
    more_items :
        {s : CString} (a b : CString) → s ≡ a ++ (b',' ∷ b) → IsValue a → IsItems b → IsItems s

  pub data IsMember : CString → Type 0 where
    member :
        {s : CString} (k v : CString)
        → s ≡ b'"' ∷ (k ++ (b'"' ∷ b':' ∷ v))
        → IsPlain k
        → IsValue v
        → IsMember s

  pub data IsMembers : CString → Type 0 where
    one_member : {s : CString} → IsMember s → IsMembers s
    more_members :
        {s : CString} (a b : CString)
        → (s ≡ a ++ (b',' ∷ b)) ⊎ (s ≡ a ++ (b',' ∷ b' ' ∷ b))
        → IsMember a
        → IsMembers b
        → IsMembers s

-- A JSON text is an object here.
pub data IsJson : CString → Type 0 where
  empty : {s : CString} → s ≡ text "{}" → IsJson s
  fields : {s : CString} (b : CString) → s ≡ b'{' ∷ (b ++ (b'}' ∷ [])) → IsMembers b → IsJson s
