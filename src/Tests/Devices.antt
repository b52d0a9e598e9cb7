-- ===== src/Tests/Devices.antt =====
-- The setup, the attenuators, the laser controllers and the photodiodes at concrete inputs.
use hispec_tib.Prelude.{
  ℕ, ◌≡◌, refl, ◌↔◌, ◌⊎◌, ℤ, pos, negsuc, Bool, true, false, ◌&&◌, [], ◌∷◌, none, some, map, length,
  ◌==◌, ==_refl, if◌then◌else◌,
}
use hispec_tib.CString.{text, tolower}
use hispec_tib.Board.{
  Drivers, History, modbus_write, modbus_read, pin_configure, pin_set, power_get, power_set, sleep,
  dac_setup, dac_write,
}
use hispec_tib.Devices.{
  Readiness, zeroed, devices_ready, setup_mems_switches_and_routes, route_table,
}
use hispec_tib.Devices.Setup.{IsValid, setup-IsValid, table_route}
use hispec_tib.Devices.Ready.{IsReadyOrNull, devices_ready_iff}
use hispec_tib.Attenuator.{Attenuator, attenuator_set, clamp_voltage, wanted_voltage}
use hispec_tib.Attenuator.Range.{WasDriven, attenuator_set-WasDriven}
use hispec_tib.Maiman.{maiman_get_register_address, register_table, strcaseeq}
use hispec_tib.Maiman.Registers.{Listed, maiman_get_register_address_iff}
use hispec_tib.Maiman.Readings.{Floats}
use hispec_tib.Maiman.Readings.Scaling.{Remembers, ReadsBack, settings_read_back}
use hispec_tib.Photodiode.{Channel}
use hispec_tib.Tests.{millivolts, nat_order, drivers}
use hispec_tib.Devices.{Tib}

abbrev set_up_board : Tib ℕ
set_up_board = setup_mems_switches_and_routes true 0 (zeroed millivolts)

setup-IsValid_example :
    IsValid set_up_board
    × (set_up_board.router.routes ≡ map table_route route_table)
    × (length set_up_board.router.routes ≡ 16)
unfolding zeroed
setup-IsValid_example = setup-IsValid (zeroed millivolts) 0 refl

abbrev healthy : Readiness
healthy = record {
  power_gpio_ready = true;
  power_configure_rc = pos 0;
  modbus_init_rc = pos 0;
  dac_dev = some true;
  adc_dev = some true;
  gpio_dev = some true;
}

-- A board on which everything works is reported as not ready.
devices_ready-healthy : devices_ready healthy ≡ false
unfolding devices_ready
devices_ready-healthy = refl

devices_ready_iff_example : (devices_ready healthy ≡ true) ↔ (
    IsReadyOrNull (some true)
    × IsReadyOrNull (some true)
    × IsReadyOrNull (some true)
    × (true ≡ false)
    × ((true ≡ false) ⊎ (true ≡ false)))
devices_ready_iff_example = devices_ready_iff healthy

abbrev attenuator : Attenuator ℕ
attenuator = record {
  coeff_db_to_volt = record { c0 = 1; c1 = 2; c2 = 3 };
  coeff_volt_to_db = record { c0 = 4; c1 = 5; c2 = 6 };
  voltage = 0;
  cfg = record { channel_id = 2; resolution = 12; buffered = true };
}

-- 1 + 3 * 10 * 10 + 2 * 10
attenuator_set_runs :
    ◌≡◌ {A = Bool × Attenuator ℕ × History}
      (attenuator_set millivolts drivers attenuator 10 false [])
      (true, record attenuator { voltage = 321 }, dac_write 2 0 ∷ dac_setup 2 ∷ [])
unfolding attenuator_set clamp_voltage wanted_voltage
attenuator_set_runs = refl

attenuator_set-WasDriven_example :
    WasDriven millivolts nat_order drivers attenuator 5000 true []
      (attenuator_set millivolts drivers attenuator 5000 true [])
attenuator_set-WasDriven_example =
    attenuator_set-WasDriven millivolts nat_order refl drivers attenuator 5000 true []

address_runs : maiman_get_register_address (text "Current") ≡ some 0x1004
unfolding maiman_get_register_address strcaseeq tolower
address_runs = refl

maiman_get_register_address_iff_example :
    (maiman_get_register_address (text "Current") ≡ some 0x1004)
    ↔ Listed register_table (text "Current") 0x1004
maiman_get_register_address_iff_example = maiman_get_register_address_iff (text "Current") 0x1004

-- What a register of a node was last written with.
last_written : ℕ → ℕ → History → ℕ
last_written node address [] = 0
last_written node address (modbus_write n a v ∷ h) =
    let rest = last_written node address h in if (n == node) && (a == address) then v else rest
last_written node address (pin_configure a b ∷ h) = last_written node address h
last_written node address (pin_set a b c ∷ h) = last_written node address h
last_written node address (power_get ∷ h) = last_written node address h
last_written node address (power_set a ∷ h) = last_written node address h
last_written node address (sleep a ∷ h) = last_written node address h
last_written node address (modbus_read a b ∷ h) = last_written node address h
last_written node address (dac_setup a ∷ h) = last_written node address h
last_written node address (dac_write a b ∷ h) = last_written node address h

abbrev controller : Drivers
controller = record drivers {
  modbus_read_rc = λ h node address. (pos 0, last_written node address h);
}

controller-Remembers : Remembers controller 4
unfolding last_written
controller-Remembers = record {
  accepts = λ h address value. refl;
  answers = λ h address value. rw (==_refl address) refl;
}

-- Thousandths.
abbrev thousandths : Floats ℤ
thousandths = record {
  literal = λ m k. m;
  of_int = λ n. n;
  div = λ a b. a;
  mul = λ a b. a;
  to_u16 = λ f. elim f [ pos n ↦ n | negsuc n ↦ 0 ];
}

settings_read_back_example : ReadsBack thousandths controller 4 (pos 70) []
settings_read_back_example =
    settings_read_back thousandths controller 4 controller-Remembers (pos 70) []

abbrev dark : Channel
dark = record { setup_rc = pos 0; read = λ mask. (negsuc 0, none) }
