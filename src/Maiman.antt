-- ===== src/Maiman.antt =====
-- app/src/maiman.h and maiman.c: a laser controller's registers over Modbus.
pub mod Registers
pub mod Readings
use hispec_tib.Prelude.{
  ℕ, ◌-◌, ◌*◌, ◌%◌, ℤ, pos, negsuc, Bool, true, false, ◌&&◌, not, List, [], ◌∷◌, Option, none, some,
  ltb, ◌==◌, if◌then◌else◌, is_neg,
}
use Prim.Native.Nat.{bit_and}
use hispec_tib.CString.{CString, text, tolower}
use hispec_tib.Board.{Drivers, History, modbus_read, modbus_write}

pub record MaimanRegister : Type 0 where
  pub name : CString
  pub address : ℕ

abbrev reg : CString → ℕ → MaimanRegister
reg n a = record { name = n; address = a }

unfoldable pub register_table : List MaimanRegister
register_table =
    reg (text "TEC_TEMPERATURE_MEASURED") 0x1000
    ∷ reg (text "PCB_TEMPERATURE_MEASURED") 0x1001
    ∷ reg (text "TEC_TEMPERATURE_VALUE") 0x1002
    ∷ reg (text "CURRENT_MEASURED") 0x1003
    ∷ reg (text "CURRENT") 0x1004
    ∷ reg (text "VOLTAGE_MEASURED") 0x1005
    ∷ reg (text "CURRENT_MAX_LIMIT") 0x1006
    ∷ reg (text "CURRENT_PROTECTION_THRESHOLD") 0x1007
    ∷ reg (text "CURRENT_SET_CALIBRATION") 0x1008
    ∷ reg (text "NTC_COEFFICIENT") 0x1009
    ∷ reg (text "TEC_CURRENT_MEASURED") 0x100A
    ∷ reg (text "TEC_VOLTAGE") 0x100B
    ∷ reg (text "SERIAL_NUMBER") 0x100C
    ∷ reg (text "FREQUENCY") 0x100D
    ∷ reg (text "DURATION") 0x100E
    ∷ reg (text "STATE_OF_DEVICE_COMMAND") 0x1010
    ∷ []

unfoldable pub strcaseeq : CString → CString → Bool
unfolding tolower
strcaseeq [] [] = true
strcaseeq [] (y ∷ ys) = false
strcaseeq (x ∷ xs) [] = false
strcaseeq (x ∷ xs) (y ∷ ys) = if tolower x == tolower y then strcaseeq xs ys else false

-- The loop over the table.
unfoldable pub find_register : List MaimanRegister → CString → Option ℕ
find_register [] name = none
find_register (r ∷ rs) name =
    if strcaseeq name r.name then some r.address else find_register rs name

unfoldable pub maiman_get_register_address : CString → Option ℕ
unfolding find_register register_table
maiman_get_register_address name = find_register register_table name

-- A `maiman_driver_t` is its node id.
unfoldable maiman_init : ℕ → ℕ → ℕ
maiman_init drv node_id = node_id

-- The value goes out only if the call succeeds.
unfoldable pub maiman_read_u16 : Drivers → ℕ → ℕ → History → Option ℕ × History
maiman_read_u16 drivers node_id address h =
    let (rc, value) = drivers.modbus_read_rc h node_id address in
    (if is_neg rc then none else some value, modbus_read node_id address ∷ h)

unfoldable pub maiman_write_u16 : Drivers → ℕ → ℕ → ℕ → History → Bool × History
maiman_write_u16 drivers node_id address value h = (
  not (is_neg (drivers.modbus_write_rc h node_id address value)),
  modbus_write node_id address value ∷ h,
)

-- `(int16_t)value`
unfoldable pub maiman_to_signed : ℕ → ℤ
maiman_to_signed value = if ltb value 32768 then pos value else negsuc (65535 - value)

unfoldable maiman_get_serial_number : Drivers → ℕ → History → ℕ × History
unfolding maiman_read_u16
maiman_get_serial_number drivers node_id h =
    let (value, h') = maiman_read_u16 drivers node_id 0x100C h in
    (elim value [ none ↦ 0 | some raw ↦ raw ], h')

unfoldable maiman_get_raw_status : Drivers → ℕ → History → ℕ × History
unfolding maiman_read_u16
maiman_get_raw_status drivers node_id h =
    let (value, h') = maiman_read_u16 drivers node_id 0x1010 h in
    (elim value [ none ↦ 0 | some raw ↦ raw ], h')

unfoldable maiman_is_bit_set : Drivers → ℕ → ℕ → History → Bool × History
unfolding maiman_get_raw_status
maiman_is_bit_set drivers node_id bitmask h =
    let (status, h') = maiman_get_raw_status drivers node_id h in
    (not (bit_and status bitmask == 0), h')

unfoldable maiman_is_operation_started : Drivers → ℕ → History → Bool × History
unfolding maiman_is_bit_set
maiman_is_operation_started drivers node_id h = maiman_is_bit_set drivers node_id 0x0001 h

unfoldable maiman_is_current_set_internal : Drivers → ℕ → History → Bool × History
unfolding maiman_is_bit_set
maiman_is_current_set_internal drivers node_id h = maiman_is_bit_set drivers node_id 0x0002 h

unfoldable maiman_is_enable_internal : Drivers → ℕ → History → Bool × History
unfolding maiman_is_bit_set
maiman_is_enable_internal drivers node_id h = maiman_is_bit_set drivers node_id 0x0004 h

unfoldable maiman_is_external_ntc_denied : Drivers → ℕ → History → Bool × History
unfolding maiman_is_bit_set
maiman_is_external_ntc_denied drivers node_id h = maiman_is_bit_set drivers node_id 0x0008 h

unfoldable maiman_is_interlock_denied : Drivers → ℕ → History → Bool × History
unfolding maiman_is_bit_set
maiman_is_interlock_denied drivers node_id h = maiman_is_bit_set drivers node_id 0x0010 h

unfoldable maiman_start_device : Drivers → ℕ → History → Bool × History
unfolding maiman_write_u16
maiman_start_device drivers node_id h = maiman_write_u16 drivers node_id 0x1010 0x0001 h

unfoldable maiman_stop_device : Drivers → ℕ → History → Bool × History
unfolding maiman_write_u16
maiman_stop_device drivers node_id h = maiman_write_u16 drivers node_id 0x1010 0x0000 h
