-- ===== src/Grammar/Notes.antt =====
-- Texts with one string in them, such as `{"error":"..."}`, and a test that finds them.
use hispec_tib.Prelude.{
  ℕ, zero, suc, ◌≡◌, refl, ap, ap₂, ◌∙◌, inl, inr, Bool, true, false, ◌&&◌, ◌||◌, [], ◌∷◌, ◌++◌,
  append_assoc, ◌==◌, arith, take, drop, if◌then◌else◌, &&-eq-true, Bool-cases,
}
use hispec_tib.CString.{CString, text, strcmp_eq}
use hispec_tib.CString.Compare.{eq_of_strcmp}
use hispec_tib.Grammar.{
  is_plain, all_plain, IsPlain, IsValue, string, member, one_member, more_members, IsJson, fields,
}

-- The rest of a text after the quotation mark that opens its string.
unfoldable closes : CString → Bool
unfolding is_plain
closes [] = false
closes (c ∷ cs) =
    let rest = closes cs in if c == b'"' then strcmp_eq cs (text "}") else is_plain c && rest

closes_inv : (s : CString) → closes s ≡ true → (v : CString) × (s ≡ v ++ text "\"}") × IsPlain v
unfolding closes all_plain
closes_inv [] h = cc
closes_inv (c ∷ cs) h = elim (Bool-cases (c == b'"')) [
  | inl e ↦ ([], ap₂ (◌∷◌) (ground arith) (eq_of_strcmp cs (text "}") (ground arith)), refl)
  | inr e ↦ let (v, f, p) = closes_inv cs (ground arith) in (c ∷ v, ap (◌∷◌ c) f, ground arith)
]

take-append-drop : (n : ℕ) (s : CString) → s ≡ take n s ++ drop n s
take-append-drop zero s = refl
take-append-drop (suc n) [] = refl
take-append-drop (suc n) (c ∷ cs) = ap (◌∷◌ c) (take-append-drop n cs)

unfoldable pub is_note : CString → Bool
unfolding closes strcmp_eq
is_note s =
    (strcmp_eq (take 10 s) (text "{\"error\":\"") && closes (drop 10 s))
    || (strcmp_eq (take 11 s) (text "{\"status\":\"") && closes (drop 11 s))

module _ (s : CString) where
  opened :
      (n : ℕ) (p : CString)
      → (strcmp_eq (take n s) p && closes (drop n s)) ≡ true
      → (v : CString) × (s ≡ p ++ (v ++ text "\"}")) × IsPlain v
  opened n p h =
      let (e, c) = &&-eq-true (strcmp_eq (take n s) p) (closes (drop n s)) h in
      let (v, f, q) = closes_inv (drop n s) c in
      (v, take-append-drop n s ∙ ap₂ (◌++◌) (eq_of_strcmp (take n s) p e) f, q)

-- An object with one member, as the code prints it.
pub one_member-IsJson :
    (s k v : CString)
    → s ≡ text "{\"" ++ (k ++ (text "\":" ++ (v ++ text "}")))
    → IsPlain k
    → IsValue v
    → IsJson s
one_member-IsJson s k v e pk pv =
    fields (b'"' ∷ (k ++ (b'"' ∷ b':' ∷ v))) (e ∙ simp append_assoc)
      (one_member (member k v refl pk pv))

-- An object with one string.
pub one_string-IsJson :
    (s k v : CString)
    → s ≡ text "{\"" ++ (k ++ (text "\":\"" ++ (v ++ text "\"}")))
    → IsPlain k
    → IsPlain v
    → IsJson s
one_string-IsJson s k v e pk pv =
    one_member-IsJson s k (b'"' ∷ (v ++ (b'"' ∷ []))) (e ∙ simp append_assoc) pk (string v refl pv)

pub note-IsJson : (s : CString) → is_note s ≡ true → IsJson s
unfolding is_note all_plain
note-IsJson s h =
    elim (Bool-cases (strcmp_eq (take 10 s) (text "{\"error\":\"") && closes (drop 10 s))) [
      | inl e ↦
          let (v, f, p) = opened s 10 (text "{\"error\":\"") e in
          one_string-IsJson s (text "error") v f refl p
      | inr e ↦
          let (v, f, p) = opened s 11 (text "{\"status\":\"") (ground (arith, e)) in
          one_string-IsJson s (text "status") v f refl p
    ]

-- An object with two members.
pub two_members-IsJson :
    (s k v l w : CString)
    → s
      ≡ text "{\""
        ++ (k ++ (text "\":" ++ (v ++ (text ",\"" ++ (l ++ (text "\":" ++ (w ++ text "}")))))))
    → IsPlain k
    → IsValue v
    → IsPlain l
    → IsValue w
    → IsJson s
two_members-IsJson s k v l w e pk pv pl pw =
    let first : CString = b'"' ∷ (k ++ (b'"' ∷ b':' ∷ v)) in
    let second : CString = b'"' ∷ (l ++ (b'"' ∷ b':' ∷ w)) in
    fields (first ++ (b',' ∷ second)) (e ∙ simp append_assoc) (
      more_members first second (inl refl) (member k v refl pk pv)
        (one_member (member l w refl pl pw)))
