-- ===== src/Board.antt =====
-- What the firmware calls and this repository does not hold: the GPIO, Modbus and DAC drivers of
-- Zephyr, its JSON parser, and the arithmetic of `double`. Each is a field of `Env`, which the
-- definitions take as a parameter. A driver's answer may depend on the whole history of calls.
use hispec_tib.Prelude.{ℕ, ℤ, Bool, List}
use hispec_tib.CString.{CString}

-- The calls of drivers, newest first in a history.
pub data Call : Type 0 where
  -- `gpio_pin_configure(dev, pin, GPIO_OUTPUT_INACTIVE)`, `gpio_pin_set(dev, pin, level)`
  pin_configure : ℕ → ℕ → Call
  pin_set : ℕ → ℕ → ℕ → Call
  -- `gpio_pin_get_dt(&power_gpio)`, `gpio_pin_set_dt(&power_gpio, level)`
  power_get : Call
  power_set : ℕ → Call
  -- `k_msleep`, `k_sleep`
  sleep : ℕ → Call
  -- node and register, and the value of a write
  modbus_read : ℕ → ℕ → Call
  modbus_write : ℕ → ℕ → ℕ → Call
  -- the channel, and the code written
  dac_setup : ℕ → Call
  dac_write : ℕ → ℕ → Call

abbrev pub History : Type 0
History = List Call

-- `double` and `float`, as one type with the operations that the code uses.
pub record Doubles (D : Type 0) : Type 0 where
  pub zero_d : D
  pub add : D → D → D
  pub mul : D → D → D
  pub less : D → D → Bool
  -- `MAX_VOLTAGE`, 4.096
  pub max_voltage : D
  pub div : D → D → D
  -- the conversions from `int` and to `uint32_t`
  pub of_nat : ℕ → D
  pub to_uint32 : D → ℕ
  -- `%.4f`
  pub format_4f : D → CString

-- The result of `json_obj_parse`: its return value, and what then stands in the struct.
pub record Parsed (A : Type 0) : Type 0 where
  pub rc : ℤ
  pub value : A

-- `json_obj_parse` at the descriptors of the handlers, on the bytes that it is given.
pub record Json (D : Type 0) : Type 0 where
  -- "msg_type", with the bytes of the payload after the call, which parses in place
  pub msg_type : List ℕ → Parsed (CString × List ℕ)
  -- "input" and "output"
  pub route_id : List ℕ → Parsed (CString × CString)
  -- "value", at each of its types
  pub value_string : List ℕ → Parsed CString
  pub value_uint16 : List ℕ → Parsed ℕ
  pub value_bool : List ℕ → Parsed Bool
  pub value_float : List ℕ → Parsed D
  -- "db2volt" and "volt2db"
  pub coeffs : List ℕ → Parsed (List D × List D)

-- The drivers' answers, after a history.
pub record Drivers : Type 0 where
  -- `gpio_pin_get_dt(&power_gpio)`
  pub power_level : History → ℤ
  -- `gpio_pin_set_dt(&power_gpio, level)`
  pub power_set_rc : History → ℕ → ℤ
  -- `modbus_read_holding_regs`, with the register's value, and `modbus_write_holding_regs`
  pub modbus_read_rc : History → ℕ → ℕ → ℤ × ℕ
  pub modbus_write_rc : History → ℕ → ℕ → ℕ → ℤ
  -- `device_is_ready(dac_dev)`, `dac_channel_setup`, `dac_write_value`
  pub dac_ready : History → Bool
  pub dac_setup_rc : History → ℕ → ℤ
  pub dac_write_rc : History → ℕ → ℕ → ℤ
  -- what an uninitialised `char[16]` on the stack holds
  pub stack : List ℕ

pub record Env (D : Type 0) : Type 0 where
  pub doubles : Doubles D
  pub json : Json D
  pub drivers : Drivers
