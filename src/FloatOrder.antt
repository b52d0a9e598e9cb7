-- ===== src/FloatOrder.antt =====
-- The order of `double` and of `float`, as far as the program relies on it, with NaN. It is a
-- parameter: the arithmetic is that of the C implementation.
use hispec_tib.Prelude.{◌≡◌, refl, ◌⊎◌, inl, inr, Bool, true, false, if◌then◌else◌, Bool-cases}

-- `less` is `<`, and `le` is `<=`. Neither holds of a NaN; of two numbers, one is at most the other if
-- that is not less than it.
pub record FloatOrder (F : Type 0) (less : F → F → Bool) : Type 0 where
  pub is_nan : F → Bool
  pub le : F → F → Bool
  pub le_refl : (x : F) → is_nan x ≡ false → le x x ≡ true
  pub le_numbers : (x y : F) → le x y ≡ true → (is_nan x ≡ false) × (is_nan y ≡ false)
  pub less_numbers : (x y : F) → less x y ≡ true → (is_nan x ≡ false) × (is_nan y ≡ false)
  pub le_of_not_less :
      (x y : F) → is_nan x ≡ false → is_nan y ≡ false → less y x ≡ false → le x y ≡ true

module _ {F : Type 0} {less : F → F → Bool} (o : FloatOrder F less) where
  -- From `low` to `high`, which no NaN is.
  abbrev pub InRange : F → F → F → Type 0
  InRange low high v = (o.le low v ≡ true) × (o.le v high ≡ true)

  -- `v` is what is left of `wanted`: a NaN stays as it is, and a number comes into the range.
  abbrev pub IsClamped : F → F → F → F → Type 0
  IsClamped low high wanted v =
      ((o.is_nan wanted ≡ true) × (v ≡ wanted)) ⊎ ((o.is_nan wanted ≡ false) × InRange low high v)

  -- NaN, or from `low` to `high`.
  abbrev pub IsWithin : F → F → F → Type 0
  IsWithin low high v = (o.is_nan v ≡ true) ⊎ InRange low high v

  pub IsClamped-IsWithin :
      (low high wanted v : F) → IsClamped low high wanted v → IsWithin low high v
  IsClamped-IsWithin low high wanted v (inl (n, e)) = inl (rw e n)
  IsClamped-IsWithin low high wanted v (inr (n, r)) = inr r

  module _ (low high v : F) (ordered : o.le low high ≡ true) where
    low_in : InRange low high low
    low_in = (o.le_refl low (o.le_numbers low high ordered).0, ordered)

    high_in : InRange low high high
    high_in = (ordered, o.le_refl high (o.le_numbers low high ordered).1)

    inside : o.is_nan v ≡ false → less v low ≡ false → less high v ≡ false → InRange low high v
    inside n a b = (
      o.le_of_not_less low v (o.le_numbers low high ordered).0 n a,
      o.le_of_not_less v high n (o.le_numbers low high ordered).1 b,
    )

    -- The two orders in which the code tests against the limits.
    pub low_first :
        IsClamped low high v (if less v low then low else if less high v then high else v)
    low_first = elim (Bool-cases (less v low)) [
      | inl below ↦ rw below (inr ((o.less_numbers v low below).0, low_in))
      | inr a ↦ elim (Bool-cases (less high v)) [
        | inl above ↦ rw (a, above) (inr ((o.less_numbers high v above).1, high_in))
        | inr b ↦
            rw (a, b)
              (elim (Bool-cases (o.is_nan v)) [
                | inl nan ↦ inl (nan, refl)
                | inr n ↦ inr (n, inside n a b)
              ])
      ]
    ]

    pub high_first :
        IsClamped low high v (if less high v then high else if less v low then low else v)
    high_first = elim (Bool-cases (less high v)) [
      | inl above ↦ rw above (inr ((o.less_numbers high v above).1, high_in))
      | inr b ↦ elim (Bool-cases (less v low)) [
        | inl below ↦ rw (b, below) (inr ((o.less_numbers v low below).0, low_in))
        | inr a ↦
            rw (b, a)
              (elim (Bool-cases (o.is_nan v)) [
                | inl nan ↦ inl (nan, refl)
                | inr n ↦ inr (n, inside n a b)
              ])
      ]
    ]
