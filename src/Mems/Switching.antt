-- ===== src/Mems/Switching.antt =====
-- `mems_switch_set_state` and `mems_switch_get_state`, told by what the pins of the expander see.
use hispec_tib.Prelude.{
  ℕ, ◌+◌, ◌≡◌, refl, ◌≢◌, ◌⊎◌, inl, inr, ℤ, pos, ◌&&◌, [], ◌∷◌, Option, none, some, arith, ◌==◌,
  if◌then◌else◌,
}
use hispec_tib.Board.{History, pin_set}
use hispec_tib.Mems.{Switch, mems_switch_set_state, mems_switch_get_state, pulse}

-- The level that a pin was last set to.
pub last_level : ℕ → ℕ → History → Option ℕ
last_level dev pin [] = none
last_level dev pin (pin_set d p v ∷ h) =
    if d == dev && p == pin then some v else last_level dev pin h
last_level dev pin (_ ∷ h) = last_level dev pin h

-- How often a pin was set high.
pub pulses : ℕ → ℕ → History → ℕ
pulses dev pin [] = 0
pulses dev pin (pin_set d p v ∷ h) =
    pulses dev pin h + (if d == dev && p == pin && v == 1 then 1 else 0)
pulses dev pin (_ ∷ h) = pulses dev pin h

-- The states that a switch can be set to.
abbrev pub IsState : ℕ → Type 0
IsState s = (s ≡ b'A') ⊎ (s ≡ b'B')

-- What setting a switch to `s` by the pin `pin` leaves behind.
pub record WasSet (sw : Switch) (s pin : ℕ) (h : History) (out : ℤ × Switch × History)
    : Type 0 where
  pub ok : out.0 ≡ pos 0
  pub stands : mems_switch_get_state out.1 ≡ (pos 0, s)
  pub same_name : out.1.name ≡ sw.name
  same_pins : (out.1.pin_a ≡ sw.pin_a) × (out.1.pin_b ≡ sw.pin_b) × (out.1.gpio_dev ≡ sw.gpio_dev)
  pub low : last_level sw.gpio_dev pin out.2 ≡ some 0
  pub once : pulses sw.gpio_dev pin out.2 ≡ pulses sw.gpio_dev pin h + 1
  pub others :
      (q : ℕ)
      → q ≢ pin
      → (last_level sw.gpio_dev q out.2 ≡ last_level sw.gpio_dev q h)
        × (pulses sw.gpio_dev q out.2 ≡ pulses sw.gpio_dev q h)

-- The pin that a valid state is set by.
abbrev pub pin_for : Switch → ℕ → ℕ
pin_for sw s = if s == b'A' then sw.pin_a else sw.pin_b

module _ (sw : Switch) (pin : ℕ) (h : History) where
  pulse_low : last_level sw.gpio_dev pin (pulse sw.gpio_dev pin h) ≡ some 0
  unfolding last_level pulse
  pulse_low = ground arith

  pulse_once : pulses sw.gpio_dev pin (pulse sw.gpio_dev pin h) ≡ pulses sw.gpio_dev pin h + 1
  unfolding pulses pulse
  pulse_once = ground arith

  pulse_others :
      (q : ℕ)
      → q ≢ pin
      → (last_level sw.gpio_dev q (pulse sw.gpio_dev pin h) ≡ last_level sw.gpio_dev q h)
        × (pulses sw.gpio_dev q (pulse sw.gpio_dev pin h) ≡ pulses sw.gpio_dev q h)
  unfolding last_level pulses pulse
  pulse_others q ne = ground arith

-- Setting a switch to 'A' or 'B' succeeds, and reading it gives that state back. The pin of that state
-- is pulsed once and left low, and no other pin of the expander is touched; name and pins stay.
pub set_state-WasSet :
    (sw : Switch) (s : ℕ) (h : History)
    → IsState s
    → WasSet sw s (pin_for sw s) h (mems_switch_set_state sw s h)
unfolding mems_switch_set_state mems_switch_get_state
set_state-WasSet sw s h (inl e) = rw e (record {
  ok = refl;
  stands = refl;
  same_name = refl;
  same_pins = (refl, refl, refl);
  low = pulse_low sw sw.pin_a h;
  once = pulse_once sw sw.pin_a h;
  others = pulse_others sw sw.pin_a h;
})
set_state-WasSet sw s h (inr e) = rw e (record {
  ok = refl;
  stands = refl;
  same_name = refl;
  same_pins = (refl, refl, refl);
  low = pulse_low sw sw.pin_b h;
  once = pulse_once sw sw.pin_b h;
  others = pulse_others sw sw.pin_b h;
})
