-- ===== src/CString.antt =====
-- C strings and the string functions of the C library that the firmware calls.
-- A string is the list of its bytes before the NUL; a buffer is the list of all of its bytes.
pub mod Compare
use Prim.Native.Char.{code}
use Prim.Native.String.{String}
use hispec_tib.Prelude.{
  ℕ, zero, suc, ◌+◌, ◌/◌, ◌%◌, ◌-◌, ◌≤◌, Bool, true, false, ◌&&◌, List, [], ◌∷◌, ◌++◌, Option, none,
  some, ltb, leb, ◌==◌, if◌then◌else◌, take, drop,
}

abbrev pub CString : Type 0
CString = List ℕ

-- The bytes of an ASCII literal.
abbrev pub text : String → CString
text String.[] = []
text (String.◌∷◌ c s) = code c ∷ text s

-- What a buffer holds as a string: its bytes before the first NUL.
unfoldable pub c_string : List ℕ → CString
c_string [] = []
c_string (c ∷ b) = let rest = c_string b in if c == 0 then [] else c ∷ rest

-- `memcpy(buffer, src, n)` at the start of a buffer.
abbrev pub memcpy : List ℕ → List ℕ → ℕ → List ℕ
memcpy buffer src n = take n src ++ drop n buffer

-- `strcmp(a, b) == 0`
unfoldable pub strcmp_eq : CString → CString → Bool
strcmp_eq [] [] = true
strcmp_eq [] (y ∷ ys) = false
strcmp_eq (x ∷ xs) [] = false
strcmp_eq (x ∷ xs) (y ∷ ys) = x == y && strcmp_eq xs ys

-- `strncmp(a, b, n) == 0`
unfoldable pub strncmp_eq : ℕ → CString → CString → Bool
strncmp_eq zero a b = true
strncmp_eq (suc n) [] [] = true
strncmp_eq (suc n) [] (y ∷ ys) = false
strncmp_eq (suc n) (x ∷ xs) [] = false
strncmp_eq (suc n) (x ∷ xs) (y ∷ ys) = x == y && strncmp_eq n xs ys

-- `tolower` in the C locale.
unfoldable pub tolower : ℕ → ℕ
tolower c = if leb b'A' c && leb c b'Z' then c + 32 else c

-- `strcasecmp(a, b) == 0`
unfoldable pub strcasecmp_eq : CString → CString → Bool
unfolding tolower
strcasecmp_eq [] [] = true
strcasecmp_eq [] (y ∷ ys) = false
strcasecmp_eq (x ∷ xs) [] = false
strcasecmp_eq (x ∷ xs) (y ∷ ys) = tolower x == tolower y && strcasecmp_eq xs ys

-- `strncasecmp(a, b, n) == 0`
unfoldable pub strncasecmp_eq : ℕ → CString → CString → Bool
unfolding tolower
strncasecmp_eq zero a b = true
strncasecmp_eq (suc n) [] [] = true
strncasecmp_eq (suc n) [] (y ∷ ys) = false
strncasecmp_eq (suc n) (x ∷ xs) [] = false
strncasecmp_eq (suc n) (x ∷ xs) (y ∷ ys) = tolower x == tolower y && strncasecmp_eq n xs ys

-- The part before the first `c`, and the rest from it on; `none` if there is no `c` (`strchr`).
unfoldable pub split_at : ℕ → CString → Option (CString × CString)
split_at c [] = none
split_at c (x ∷ xs) =
    let rest : Option (CString × CString) = elim (split_at c xs) [
      | none ↦ none
      | some (a, b) ↦ some (x ∷ a, b)
    ] in
    if x == c then some ([], xs) else rest

-- The part before the first `c`, or all of it (`strcspn` with one reject byte).
unfoldable pub before : ℕ → CString → CString
before c [] = []
before c (x ∷ xs) = let rest = before c xs in if x == c then [] else x ∷ rest

-- The decimal digits of a number, on fuel above it.
unfoldable pub digits_from : ℕ → ℕ → CString
digits_from zero n = []
digits_from (suc f) n =
    let rest = digits_from f (n / 10) in
    if ltb n 10 then (n + b'0') ∷ [] else rest ++ ((n % 10 + b'0') ∷ [])

unfoldable pub decimal : ℕ → CString
unfolding digits_from
decimal n = digits_from (n + 1) n

-- `%hd` at a 16-bit value.
unfoldable pub format_hd : ℕ → CString
unfolding decimal
format_hd v = if ltb v 32768 then decimal v else b'-' ∷ decimal (65536 - v)
