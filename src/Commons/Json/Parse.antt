-- ===== src/Commons/Json/Parse.antt =====
-- Which texts `coo_json_parse_command` accepts.
use hispec_tib.Prelude.{
  ℕ, ◌<◌, ◌≡◌, ◌↔◌, refl, ap, subst, ◌∙◌, inl, inr, Bool, true, false, sym, ◌≢◌, ◌⊎◌, [], ◌∷◌, ◌++◌,
  Option, none, some, arith, length, Option-cases, eq_of_some,
}
use hispec_tib.CString.{CString, text, split_at}
use hispec_tib.Command.Keys.Parse.{Without, split_at-append, split_at-some}
use hispec_tib.Commons.Json.{strip_prefix, strstr_after, parsed, value_of, coo_json_parse_command}

-- The text begins with `p`.
abbrev pub Starts : CString → CString → Type 0
Starts p s = (rest : CString) × (s ≡ p ++ rest)

-- No text that begins inside `pre` and goes on with `t` begins with `p`.
abbrev Fresh : CString → CString → CString → Type 0
Fresh p [] t = Unit
Fresh p (x ∷ pre) t = (¬ Starts p (x ∷ (pre ++ t))) × Fresh p pre t

-- The first `p` in the text is followed by `rest`.
pub record Follows (p s rest : CString) : Type 0 where
  pub pre : CString
  pub whole : s ≡ pre ++ (p ++ rest)
  pub first : Fresh p pre (p ++ rest)

strip_prefix-append : (p r : CString) → strip_prefix p (p ++ r) ≡ some r
unfolding strip_prefix
strip_prefix-append [] r = refl
strip_prefix-append (x ∷ p) r = ground (arith, strip_prefix-append p r)

strip_prefix-some : (p s r : CString) → strip_prefix p s ≡ some r → s ≡ p ++ r
unfolding strip_prefix
strip_prefix-some [] s r e = eq_of_some s r e
strip_prefix-some (x ∷ p) [] r e = cc
strip_prefix-some (x ∷ p) (y ∷ s) r e = ground (arith, strip_prefix-some p s r)

strip_prefix-none : (p s : CString) → ¬ Starts p s → strip_prefix p s ≡ none
strip_prefix-none p s h = elim (Option-cases (strip_prefix p s)) [
  | inl n ↦ n
  | inr (r, e) ↦ absurd (h (r, strip_prefix-some p s r e))
]

not_Starts : (p s : CString) → strip_prefix p s ≡ none → ¬ Starts p s
not_Starts p s n (r, e) = ground (arith, n, ap (strip_prefix p) e, strip_prefix-append p r)

strstr_after-hit : (p s r : CString) → strip_prefix p s ≡ some r → strstr_after p s ≡ some r
unfolding strstr_after
strstr_after-hit p [] r e = e
strstr_after-hit p (x ∷ s) r e = rw (e, strstr_after) refl

strstr_after-Follows : (p s r : CString) → strstr_after p s ≡ some r → Follows p s r
unfolding strstr_after
strstr_after-Follows p [] r e = record { pre = []; whole = strip_prefix-some p [] r e; first = tt }
strstr_after-Follows p (x ∷ s) r e = elim (Option-cases (strip_prefix p (x ∷ s))) [
  | inr (r', f) ↦ record {
    pre = [];
    whole = strip_prefix-some p (x ∷ s) r (f ∙ ground (arith, e, f));
    first = tt;
  }
  | inl n ↦
      let v = strstr_after-Follows p s r (ground (arith, e, n)) in
      record {
        pre = x ∷ v.pre;
        whole = ap (◌∷◌ x) v.whole;
        first = (rw (← v.whole) (not_Starts p (x ∷ s) n), v.first);
      }
]

strstr_after-pre :
    (p pre r : CString) → Fresh p pre (p ++ r) → strstr_after p (pre ++ (p ++ r)) ≡ some r
unfolding strstr_after
strstr_after-pre p [] r f = strstr_after-hit p (p ++ r) r (strip_prefix-append p r)
strstr_after-pre p (x ∷ pre) r f =
    rw (strip_prefix-none p (x ∷ (pre ++ (p ++ r))) f.0, strstr_after)
      (strstr_after-pre p pre r f.1)

strstr_after_lem : (p s r : CString) → Follows p s r → strstr_after p s ≡ some r
strstr_after_lem p s r v = ap (strstr_after p) v.whole ∙ strstr_after-pre p v.pre r v.first

-- The text has the command `cmd` where the first `"cmd":"` is, up to the next quotation mark.
pub record HasCommand (json_str cmd : CString) : Type 0 where
  pub after : CString
  pub follows : Follows (text "\"cmd\":\"") json_str (cmd ++ (b'"' ∷ after))
  pub plain : Without b'"' cmd

-- `p` occurs nowhere in the text.
abbrev pub Absent : CString → CString → Type 0
Absent p s = (pre rest : CString) → s ≢ pre ++ (p ++ rest)

strstr_after-occurs : (p pre r : CString) → strstr_after p (pre ++ (p ++ r)) ≢ none
unfolding strstr_after
strstr_after-occurs p [] r n =
    ground (arith, n, strstr_after-hit p (p ++ r) r (strip_prefix-append p r))
strstr_after-occurs p (x ∷ pre) r n = elim (Option-cases (strip_prefix p (x ∷ (pre ++ (p ++ r))))) [
  | inl m ↦ strstr_after-occurs p pre r (ground (arith, n, m))
  | inr (r', f) ↦ ground (arith, n, f)
]

not_occurs-Absent : (p s : CString) → strstr_after p s ≡ none → Absent p s
not_occurs-Absent p s n pre rest e =
    strstr_after-occurs p pre rest (sym (ap (strstr_after p) e) ∙ n)

strstr_after-Absent : (p s : CString) → Absent p s → strstr_after p s ≡ none
strstr_after-Absent p s a = elim (Option-cases (strstr_after p s)) [
  | inl n ↦ n
  | inr (r, e) ↦ let v = strstr_after-Follows p s r e in absurd (a v.pre r v.whole)
]

module _ {F : Type 0} (strtof : CString → F) (zero_f : F) where
  to_HasCommand :
      (json_str : CString) (cmd_size : ℕ) (wanted : Bool) (cmd : CString) (value : Option F)
      → coo_json_parse_command strtof zero_f json_str cmd_size wanted ≡ parsed cmd value
      → HasCommand json_str cmd × (length cmd < cmd_size)
  unfolding coo_json_parse_command
  to_HasCommand json_str cmd_size wanted cmd value e =
      elim (Option-cases (strstr_after (text "\"cmd\":\"") json_str)) [
        | inl n ↦ absurd (ground (arith, n))
        | inr (start, f) ↦ elim (Option-cases (split_at b'"' start)) [
          | inl n ↦ absurd (ground (arith, n, f))
          | inr ((name, after), g) ↦
              let same : name ≡ cmd = ground (arith, f, g) in
              let (whole, plain) = split_at-some b'"' start name after g in
              (
                record {
                  after = after;
                  follows =
                      subst (Follows (text "\"cmd\":\"") json_str)
                        (whole ∙ ap (λ n. n ++ (b'"' ∷ after)) same)
                        (strstr_after-Follows (text "\"cmd\":\"") json_str start f);
                  plain = subst (Without b'"') same plain;
                },
                ground (arith, f, g),
              )
        ]
      ]

  of_HasCommand :
      (json_str : CString) (cmd_size : ℕ) (wanted : Bool) (cmd : CString)
      → HasCommand json_str cmd
      → length cmd < cmd_size
      → coo_json_parse_command strtof zero_f json_str cmd_size wanted
        ≡ parsed cmd (value_of strtof zero_f json_str wanted)
  unfolding coo_json_parse_command
  of_HasCommand json_str cmd_size wanted cmd v fits = ground (
    arith,
    strstr_after_lem (text "\"cmd\":\"") json_str (cmd ++ (b'"' ∷ v.after)) v.follows,
    split_at-append b'"' cmd v.after v.plain,
  )

  -- The value that goes with a text, if it is wanted: what `strtof` reads after the first `"value":`, or
  -- 0 if the text has none.
  abbrev pub HasValue : CString → Bool → Option F → Type 0
  HasValue json_str false value = value ≡ none
  HasValue json_str true value =
      ((rest : CString) × Follows (text "\"value\":") json_str rest × (value ≡ some (strtof rest)))
      ⊎ (Absent (text "\"value\":") json_str × (value ≡ some zero_f))

  value_of-HasValue :
      (json_str : CString) (wanted : Bool)
      → HasValue json_str wanted (value_of strtof zero_f json_str wanted)
  unfolding value_of
  value_of-HasValue json_str false = refl
  value_of-HasValue json_str true =
      elim (Option-cases (strstr_after (text "\"value\":") json_str)) [
        | inl n ↦ inr (not_occurs-Absent (text "\"value\":") json_str n, ground (arith, n))
        | inr (rest, e) ↦
            inl (rest, strstr_after-Follows (text "\"value\":") json_str rest e, ground (arith, e))
      ]

  HasValue-value_of :
      (json_str : CString) (wanted : Bool) (value : Option F)
      → HasValue json_str wanted value
      → value_of strtof zero_f json_str wanted ≡ value
  unfolding value_of
  HasValue-value_of json_str false value v = sym v
  HasValue-value_of json_str true value (inl (rest, f, e)) =
      ground (arith, strstr_after_lem (text "\"value\":") json_str rest f, e)
  HasValue-value_of json_str true value (inr (a, e)) =
      ground (arith, strstr_after-Absent (text "\"value\":") json_str a, e)

  -- `coo_json_parse_command` succeeds with a command and a value exactly when the text has the command,
  -- between the first `"cmd":"` and the next quotation mark, the command is shorter than its buffer, and
  -- the value is none if it is not asked for, and otherwise what `strtof` reads after the first `"value":`
  -- in the text, or 0 if that occurs nowhere in it.
  pub coo_json_parse_command_iff :
      (json_str : CString) (cmd_size : ℕ) (wanted : Bool) (cmd : CString) (value : Option F)
      → (coo_json_parse_command strtof zero_f json_str cmd_size wanted ≡ parsed cmd value)
        ↔ (HasCommand json_str cmd × (length cmd < cmd_size) × HasValue json_str wanted value)
  coo_json_parse_command_iff json_str cmd_size wanted cmd value = (
    λ e.
        let (v, fits) = to_HasCommand json_str cmd_size wanted cmd value e in
        let f = of_HasCommand json_str cmd_size wanted cmd v fits in
        let same : value_of strtof zero_f json_str wanted ≡ value = cc in
        (v, fits, subst (HasValue json_str wanted) same (value_of-HasValue json_str wanted)),
    λ (v, fits, w).
        of_HasCommand json_str cmd_size wanted cmd v fits
        ∙ ap (parsed cmd) (HasValue-value_of json_str wanted value w),
  )
