-- ===== src/Grammar/Numbers.antt =====
-- The numbers that `%hd`, `%lld` and the like print.
use hispec_tib.Prelude.{
  ℕ, zero, suc, ◌+◌, ◌*◌, ◌-◌, ◌/◌, ◌%◌, ◌<◌, ◌≤◌, ◌≡◌, refl, ap, true, [], ◌∷◌, ◌++◌, leb, ltb,
  All-append, inl, inr, arith, Bool-cases, length, length-append,
}
use hispec_tib.CString.{CString, digits_from, decimal, format_hd}
use hispec_tib.Grammar.{
  AllDigits, is_digit, IsNatural, zero_digit, digits, whole, IsNumber, plus, minus,
}

-- The digits of a positive number, with no 0 in front.
abbrev IsPositive : CString → Type 0
IsPositive s =
    (c : ℕ) × (cs : CString) × (s ≡ c ∷ cs)
    × (leb b'1' c ≡ true)
    × (leb c b'9' ≡ true)
    × AllDigits cs

IsPositive-append :
    (s : CString) (d : ℕ) → IsPositive s → is_digit d ≡ true → IsPositive (s ++ (d ∷ []))
IsPositive-append s d (c, cs, e, lo, hi, ds) h = (
  c,
  cs ++ (d ∷ []),
  ap (λ x. x ++ (d ∷ [])) e,
  lo,
  hi,
  All-append (λ c. is_digit c ≡ true) cs (d ∷ []) ds (h, tt),
)

digits_from-IsPositive : (f n : ℕ) → n < f → 0 < n → IsPositive (digits_from f n)
unfolding digits_from
digits_from-IsPositive zero n h p = absurd (omega arith)
digits_from-IsPositive (suc f) n h p = elim (Bool-cases (ltb n 10)) [
  | inl e ↦ rw e (n + b'0', [], refl, ground arith, ground arith, tt)
  | inr e ↦ rw e (
      IsPositive-append (digits_from f (n / 10)) (n % 10 + b'0')
        (digits_from-IsPositive f (n / 10) (ground arith) (ground arith)) (ground arith))
]

pub decimal-IsNatural : (n : ℕ) → IsNatural (decimal n)
unfolding decimal digits_from
decimal-IsNatural zero = zero_digit refl
decimal-IsNatural (suc n) =
    let (c, cs, e, lo, hi, ds) =
      digits_from-IsPositive (suc n + 1) (suc n) (omega arith) (omega arith) in
    digits c cs e lo hi ds

pub format_hd-IsNumber : (v : ℕ) → IsNumber (format_hd v)
unfolding format_hd
format_hd-IsNumber v = elim (Bool-cases (ltb v 32768)) [
  | inl e ↦ rw e (plus (whole (decimal-IsNatural v)))
  | inr e ↦ rw e (minus (decimal (65536 - v)) refl (whole (decimal-IsNatural (65536 - v))))
]

-- 10 to the power `k`.
ten_to : ℕ → ℕ
ten_to zero = 1
ten_to (suc k) = 10 * ten_to k

length-digits_from : (k f n : ℕ) → n < ten_to (suc k) → length (digits_from f n) ≤ suc k
unfolding digits_from ten_to
length-digits_from k zero n h = omega arith
length-digits_from zero (suc f) n h = ground arith
length-digits_from (suc k) (suc f) n h = elim (Bool-cases (ltb n 10)) [
  | inl e ↦ rw e (omega arith)
  | inr e ↦ rw e (
      omega (
        arith,
        length-append (digits_from f (n / 10)) ((n % 10 + b'0') ∷ []),
        length-digits_from k f (n / 10) (omega arith),
      ))
]

-- As long as a 64-bit time may be.
pub length-decimal : (n : ℕ) → n < 10000000000000000000 → length (decimal n) ≤ 19
unfolding decimal ten_to
length-decimal n h = length-digits_from 18 (n + 1) n h

pub length-format_hd : (v : ℕ) → length (format_hd v) ≤ 6
unfolding format_hd decimal ten_to
length-format_hd v = elim (Bool-cases (ltb v 32768)) [
  | inl e ↦ rw e (omega (arith, length-digits_from 4 (v + 1) v (ground arith)))
  | inr e ↦ rw e (omega (arith, length-digits_from 4 (65536 - v + 1) (65536 - v) (omega arith)))
]
