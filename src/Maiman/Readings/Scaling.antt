-- ===== src/Maiman/Readings/Scaling.antt =====
-- A setting written to a laser controller and read back.
use hispec_tib.Prelude.{ℕ, ◌≡◌, refl, ℤ, pos, true, false, ◌∷◌, some, is_neg}
use hispec_tib.Board.{Drivers, History, modbus_write}
use hispec_tib.Maiman.{maiman_read_u16, maiman_write_u16}
use hispec_tib.Maiman.Readings.{
  Floats, maiman_set_current, maiman_get_current, maiman_set_frequency, maiman_get_frequency,
  maiman_set_duration, maiman_get_duration, reading, divider_current, divider_frequency,
  divider_duration,
}

-- The controller at a node answers a read of a register with the value that the history wrote last.
pub record Remembers (drivers : Drivers) (node_id : ℕ) : Type 0 where
  pub accepts :
      (h : History) (address value : ℕ)
      → is_neg (drivers.modbus_write_rc h node_id address value) ≡ false
  pub answers :
      (h : History) (address value : ℕ)
      → ◌≡◌ {A = ℤ × ℕ}
          (drivers.modbus_read_rc (modbus_write node_id address value ∷ h) node_id address)
          (pos 0, value)

-- The register's value of a setting, as a reading gives it.
abbrev quantised : {F : Type 0} → Floats F → F → F → F
quantised fl divider value = fl.div (fl.of_int (pos (fl.to_u16 (fl.mul value divider)))) divider

-- The three settings after they were written, one at a time, to a node.
pub record ReadsBack {F : Type 0} (fl : Floats F) (drivers : Drivers) (node_id : ℕ) (value : F)
    (h : History) : Type 0 where
  current_ok : (maiman_set_current fl drivers node_id value h).0 ≡ true
  pub current :
      (maiman_get_current fl drivers node_id (maiman_set_current fl drivers node_id value h).1).0
      ≡ some (quantised fl (divider_current fl) value)
  frequency_ok : (maiman_set_frequency fl drivers node_id value h).0 ≡ true
  pub frequency :
      (maiman_get_frequency fl drivers node_id
        (maiman_set_frequency fl drivers node_id value h).1).0
      ≡ quantised fl (divider_frequency fl) value
  duration_ok : (maiman_set_duration fl drivers node_id value h).0 ≡ true
  pub duration :
      (maiman_get_duration fl drivers node_id (maiman_set_duration fl drivers node_id value h).1).0
      ≡ quantised fl (divider_duration fl) value

module _ {F : Type 0} (fl : Floats F) (drivers : Drivers) (node_id : ℕ)
    (remembers : Remembers drivers node_id) where
  -- On a controller that accepts every write and answers with what was written last, setting the
  -- current, the frequency or the duration succeeds, and reading it back gives the setting as the
  -- 16-bit register has it.
  pub settings_read_back : (value : F) (h : History) → ReadsBack fl drivers node_id value h
  unfolding maiman_set_current maiman_get_current maiman_set_frequency maiman_get_frequency
      maiman_set_duration maiman_get_duration reading maiman_read_u16 maiman_write_u16
  settings_read_back value h = record {
    current_ok =
        rw (remembers.accepts h 0x1004 (fl.to_u16 (fl.mul value (divider_current fl)))) refl;
    current =
        rw
          (
            remembers.answers h 0x1004 (fl.to_u16 (fl.mul value (divider_current fl))),
            maiman_get_current,
          )
          refl;
    frequency_ok =
        rw (remembers.accepts h 0x100D (fl.to_u16 (fl.mul value (divider_frequency fl)))) refl;
    frequency =
        rw
          (
            remembers.answers h 0x100D (fl.to_u16 (fl.mul value (divider_frequency fl))),
            maiman_get_frequency,
            reading,
          )
          refl;
    duration_ok =
        rw (remembers.accepts h 0x100E (fl.to_u16 (fl.mul value (divider_duration fl)))) refl;
    duration =
        rw
          (
            remembers.answers h 0x100E (fl.to_u16 (fl.mul value (divider_duration fl))),
            maiman_get_duration,
            reading,
          )
          refl;
  }
