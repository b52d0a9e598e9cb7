-- ===== src/Command/Keys/Parse.antt =====
-- `parse_key_pair`: which keys it accepts, and what it takes out of them.
use hispec_tib.Prelude.{
  ℕ, ◌<◌, ◌≡◌, refl, ap, ap₂, ◌↔◌, ◌∙◌, ◌≢◌, inl, inr, ◌⊎◌, true, false, [], ◌∷◌, ◌++◌, Option,
  some, none, arith, All, length, ◌==◌, Bool-cases, Option-cases, subst,
}
use hispec_tib.CString.{CString, split_at, before}
use hispec_tib.Command.Keys.{no_slash, pair, parse_key_pair}

-- No byte of the string is `c`.
abbrev pub Without : ℕ → CString → Type 0
Without c s = All (λ x. x ≢ c) s

pub split_at-append :
    (c : ℕ) (a b : CString) → Without c a → split_at c (a ++ (c ∷ b)) ≡ some (a, b)
unfolding split_at
split_at-append c [] b w = ground arith
split_at-append c (x ∷ a) b w = ground (arith, split_at-append c a b w.1)

split_at-none : (c : ℕ) (a : CString) → Without c a → split_at c a ≡ none
unfolding split_at
split_at-none c [] w = refl
split_at-none c (x ∷ a) w = ground (arith, split_at-none c a w.1)

split_at_hit :
    (c x : ℕ) (s a b : CString)
    → (x == c) ≡ true
    → ◌≡◌ {A = Option (CString × CString)} (some ([], s)) (some (a, b))
    → (x ∷ s ≡ a ++ (c ∷ b)) × Without c a
split_at_hit c x s a b hit e =
    let ea : ◌≡◌ {A = CString} [] a = ground arith in
    let eb : s ≡ b = ground arith in (rw (← ea, ← eb) (ground arith), subst (Without c) ea tt)

split_at_miss :
    (c x : ℕ) (s a b a' b' : CString)
    → (x == c) ≡ false
    → ◌≡◌ {A = Option (CString × CString)} (some (x ∷ a', b')) (some (a, b))
    → (s ≡ a' ++ (c ∷ b')) × Without c a'
    → (x ∷ s ≡ a ++ (c ∷ b)) × Without c a
split_at_miss c x s a b a' b' miss e ih =
    let ea : ◌≡◌ {A = CString} (x ∷ a') a = ground arith in
    let eb : b' ≡ b = ground arith in
    (rw (← ea, ← eb) (ap (◌∷◌ x) ih.0), subst (Without c) ea (ground arith, ih.1))

pub split_at-some :
    (c : ℕ) (s a b : CString) → split_at c s ≡ some (a, b) → (s ≡ a ++ (c ∷ b)) × Without c a
unfolding split_at
split_at-some c [] a b e = cc
split_at-some c (x ∷ s) a b e = elim (Bool-cases (x == c)) [
  | inl hit ↦ split_at_hit c x s a b hit (rw (hit, split_at) at e)
  | inr miss ↦ elim (Option-cases (split_at c s)) [
    | inl n ↦ absurd (ground (arith, n, miss))
    | inr ((a', b'), f) ↦
        split_at_miss c x s a b a' b' miss (ground arith) (split_at-some c s a' b' f)
  ]
]

-- A setting ends at the next slash, or with the key.
abbrev pub Ends : ℕ → CString → Type 0
Ends c r = (r ≡ []) ⊎ ((t : CString) × (r ≡ c ∷ t))

before-append : (c : ℕ) (a r : CString) → Without c a → Ends c r → before c (a ++ r) ≡ a
unfolding before
before-append c [] r w (inl e) = rw e
before-append c [] r w (inr (t, e)) = rw e (ground arith)
before-append c (x ∷ a) r w e = ground (arith, before-append c a r w.1 e)

before-Ends :
    (c : ℕ) (s : CString)
    → (r : CString) × (s ≡ before c s ++ r) × Ends c r × Without c (before c s)
unfolding before
before-Ends c [] = ([], refl, inl refl, tt)
before-Ends c (x ∷ s) = elim (Bool-cases (x == c)) [
  | inl hit ↦ (x ∷ s, rw hit, inr (s, ground arith), rw hit tt)
  | inr miss ↦
      let (r, e, f, w) = before-Ends c s in
      (r, rw miss (ap (◌∷◌ x) e), f, rw miss (ground arith, w))
]

-- The key is a name and a setting, with what the function drops after the setting.
pub record Splits (key : CString) (max_name max_setting : ℕ) (name setting : CString) : Type 0 where
  pub rest : CString
  pub whole : key ≡ name ++ (b'/' ∷ (setting ++ rest))
  pub ends : Ends b'/' rest
  pub plain_name : Without b'/' name
  pub plain_setting : Without b'/' setting
  pub name_fits : (0 < length name) × (length name < max_name)
  pub setting_fits : (0 < length setting) × (length setting < max_setting)

module _ (key : CString) (max_name max_setting : ℕ) (name setting : CString) where
  parse_of_Splits :
      Splits key max_name max_setting name setting
      → parse_key_pair key max_name max_setting ≡ pair name setting
  unfolding parse_key_pair
  parse_of_Splits sp = ground (
    arith,
    sp.whole,
    split_at-append b'/' name (setting ++ sp.rest) sp.plain_name,
    before-append b'/' setting sp.rest sp.plain_setting sp.ends,
  )

  Splits-of_parse :
      parse_key_pair key max_name max_setting ≡ pair name setting
      → Splits key max_name max_setting name setting
  unfolding parse_key_pair
  Splits-of_parse e = elim (Option-cases (split_at b'/' key)) [
    | inl n ↦ absurd (ground (arith, n))
    | inr ((a, b), f) ↦
        let (w, pa) = split_at-some b'/' key a b f in
        let (r, whole, ends, ps) = before-Ends b'/' b in
        let en : a ≡ name = ground arith in
        let es : before b'/' b ≡ setting = ground arith in
        record {
          rest = r;
          whole = w ∙ ap₂ (λ x y. x ++ (b'/' ∷ y)) en (whole ∙ ap (λ x. x ++ r) es);
          ends = ends;
          plain_name = subst (Without b'/') en pa;
          plain_setting = subst (Without b'/') es ps;
          name_fits = ground arith;
          setting_fits = ground arith;
        }
  ]

  -- `parse_key_pair` gives a name and a setting exactly when the key is the name, a slash, the setting
  -- and then nothing or another slash, with no slash in either part and both of them non-empty and
  -- shorter than their buffers.
  pub parse_key_pair_iff :
      (parse_key_pair key max_name max_setting ≡ pair name setting)
      ↔ Splits key max_name max_setting name setting
  parse_key_pair_iff = (Splits-of_parse, parse_of_Splits)

-- A key without a slash is refused, whatever the buffers.
pub parse_key_pair-no_slash :
    (key : CString) (max_name max_setting : ℕ)
    → Without b'/' key
    → parse_key_pair key max_name max_setting ≡ no_slash
unfolding parse_key_pair
parse_key_pair-no_slash key m n w = ground (arith, split_at-none b'/' key w)
