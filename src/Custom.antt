-- ===== src/Custom.antt =====
-- lib/custom/custom.c, over the value that the configuration gives for 0.
use hispec_tib.Prelude.{◌≡◌, ℤ, false, not, is_zero, if◌then◌else◌, Bool-cases, inl, inr}

-- `get_value_default` is CONFIG_CUSTOM_GET_VALUE_DEFAULT.
unfoldable custom_get_value : ℤ → ℤ → ℤ
custom_get_value get_value_default val = if not (is_zero val) then val else get_value_default

-- The value is 0 only if the configured one is.
is_zero-custom_get_value :
    (get_value_default val : ℤ)
    → is_zero get_value_default ≡ false
    → is_zero (custom_get_value get_value_default val) ≡ false
unfolding custom_get_value
is_zero-custom_get_value get_value_default val h = elim (Bool-cases (is_zero val)) [
  | inl z ↦ rw z h
  | inr n ↦ rw n n
]
