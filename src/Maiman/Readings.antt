-- ===== src/Maiman/Readings.antt =====
-- app/src/maiman.c: the getters and setters that convert between registers and `float`.
pub mod Scaling
use hispec_tib.Prelude.{ℕ, ℤ, pos, negsuc, Bool, true, false, Option, none, some}
use hispec_tib.Board.{Drivers, History}
use hispec_tib.Maiman.{maiman_read_u16, maiman_write_u16, maiman_to_signed}

-- `float`: a literal as an integer and a count of decimals, the conversions, and the operations used.
pub record Floats (F : Type 0) : Type 0 where
  pub literal : ℤ → ℕ → F
  pub of_int : ℤ → F
  pub div : F → F → F
  pub mul : F → F → F
  -- `(uint16_t)f`
  pub to_u16 : F → ℕ

module _ {F : Type 0} (fl : Floats F) where
  abbrev divider_temperature : F
  divider_temperature = fl.literal (pos 100) 1

  abbrev pub divider_current : F
  divider_current = fl.literal (pos 1000) 1

  abbrev divider_voltage : F
  divider_voltage = fl.literal (pos 1000) 1

  abbrev pub divider_duration : F
  divider_duration = fl.literal (pos 10000) 1

  abbrev pub divider_frequency : F
  divider_frequency = fl.literal (pos 10000) 1

  abbrev divider_ntc_coefficient : F
  divider_ntc_coefficient = fl.literal (pos 10000) 1

  -- What a failed read gives: -273.15f, or -1.0f.
  abbrev absolute_zero : F
  absolute_zero = fl.literal (negsuc 27314) 2

  abbrev minus_one : F
  minus_one = fl.literal (negsuc 9) 1

  -- The body that the getters share, at their conversion, divider and fallback.
  unfoldable pub reading : Drivers → ℕ → ℕ → (ℕ → ℤ) → F → F → History → F × History
  unfolding maiman_read_u16
  reading drivers node_id address convert divider fallback h =
      let (raw, h') = maiman_read_u16 drivers node_id address h in
      (elim raw [ none ↦ fallback | some r ↦ fl.div (fl.of_int (convert r)) divider ], h')

  unfoldable maiman_get_tec_temperature_measured : Drivers → ℕ → History → F × History
  unfolding reading maiman_to_signed
  maiman_get_tec_temperature_measured drivers node_id h =
      reading drivers node_id 0x1000 maiman_to_signed divider_temperature absolute_zero h

  unfoldable maiman_get_pcb_temperature_measured : Drivers → ℕ → History → F × History
  unfolding reading maiman_to_signed
  maiman_get_pcb_temperature_measured drivers node_id h =
      reading drivers node_id 0x1001 maiman_to_signed divider_temperature absolute_zero h

  unfoldable maiman_get_tec_temperature_value : Drivers → ℕ → History → F × History
  unfolding reading maiman_to_signed
  maiman_get_tec_temperature_value drivers node_id h =
      reading drivers node_id 0x1002 maiman_to_signed divider_temperature absolute_zero h

  unfoldable maiman_get_current_measured : Drivers → ℕ → History → F × History
  unfolding reading
  maiman_get_current_measured drivers node_id h =
      reading drivers node_id 0x1003 pos divider_current minus_one h

  unfoldable pub maiman_get_frequency : Drivers → ℕ → History → F × History
  unfolding reading
  maiman_get_frequency drivers node_id h =
      reading drivers node_id 0x100D pos divider_frequency minus_one h

  unfoldable pub maiman_get_duration : Drivers → ℕ → History → F × History
  unfolding reading
  maiman_get_duration drivers node_id h =
      reading drivers node_id 0x100E pos divider_duration minus_one h

  unfoldable maiman_get_voltage_measured : Drivers → ℕ → History → F × History
  unfolding reading
  maiman_get_voltage_measured drivers node_id h =
      reading drivers node_id 0x1005 pos divider_voltage minus_one h

  unfoldable maiman_get_current_max_limit : Drivers → ℕ → History → F × History
  unfolding reading
  maiman_get_current_max_limit drivers node_id h =
      reading drivers node_id 0x1006 pos divider_current minus_one h

  unfoldable maiman_get_current_protection_threshold : Drivers → ℕ → History → F × History
  unfolding reading
  maiman_get_current_protection_threshold drivers node_id h =
      reading drivers node_id 0x1007 pos divider_current minus_one h

  unfoldable maiman_get_current_set_calibration : Drivers → ℕ → History → F × History
  unfolding reading
  maiman_get_current_set_calibration drivers node_id h =
      reading drivers node_id 0x1008 pos divider_current minus_one h

  unfoldable maiman_get_ntc_b25_100_coefficient : Drivers → ℕ → History → F × History
  unfolding reading
  maiman_get_ntc_b25_100_coefficient drivers node_id h =
      reading drivers node_id 0x1009 pos divider_ntc_coefficient minus_one h

  unfoldable maiman_get_tec_current_measured : Drivers → ℕ → History → F × History
  unfolding reading
  maiman_get_tec_current_measured drivers node_id h =
      reading drivers node_id 0x100A pos divider_current minus_one h

  unfoldable maiman_get_tec_voltage : Drivers → ℕ → History → F × History
  unfolding reading
  maiman_get_tec_voltage drivers node_id h =
      reading drivers node_id 0x100B pos divider_voltage minus_one h

  -- The value goes out only if the read succeeds.
  unfoldable pub maiman_get_current : Drivers → ℕ → History → Option F × History
  unfolding maiman_read_u16
  maiman_get_current drivers node_id h =
      let (raw, h') = maiman_read_u16 drivers node_id 0x1004 h in
      (elim raw [ none ↦ none | some r ↦ some (fl.div (fl.of_int (pos r)) divider_current) ], h')

  unfoldable pub maiman_set_current : Drivers → ℕ → F → History → Bool × History
  unfolding maiman_write_u16
  maiman_set_current drivers node_id current h =
      maiman_write_u16 drivers node_id 0x1004 (fl.to_u16 (fl.mul current divider_current)) h

  unfoldable pub maiman_set_frequency : Drivers → ℕ → F → History → Bool × History
  unfolding maiman_write_u16
  maiman_set_frequency drivers node_id frequency h =
      maiman_write_u16 drivers node_id 0x100D (fl.to_u16 (fl.mul frequency divider_frequency)) h

  unfoldable pub maiman_set_duration : Drivers → ℕ → F → History → Bool × History
  unfolding maiman_write_u16
  maiman_set_duration drivers node_id duration h =
      maiman_write_u16 drivers node_id 0x100E (fl.to_u16 (fl.mul duration divider_duration)) h
