-- ===== src/Tests.antt =====
-- A board of numbers in place of `double`, on which the theorems are applied and the code is run.
pub mod Switches
pub mod Commands
pub mod Devices
pub mod Threads
pub mod Texts
pub mod Watchdog
pub mod Boot
pub mod Timing
pub mod Commons
use hispec_tib.Prelude.{
  ℕ, ◌+◌, ◌*◌, ◌≡◌, refl, ℤ, pos, negsuc, Bool, true, false, List, [], ◌∷◌, Option, none, some, ltb,
  leb, arith, ◌/◌, ◌==◌, ◌&&◌, if◌then◌else◌, length, replicate, is_neg,
}
use hispec_tib.CString.{CString, text, decimal}
use hispec_tib.Board.{Doubles, Json, Drivers, Env, Parsed, History, modbus_write}
use hispec_tib.FloatOrder.{FloatOrder}
use hispec_tib.Command.Inert.{RejectsEmpty}
use hispec_tib.Command.Types.{Command, OutMsg, MsgType}
use hispec_tib.Devices.{Tib, zeroed, setup_mems_switches_and_routes, setup_attenuators}
use hispec_tib.Devices.Setup.{IsValid, setup-IsValid}
use hispec_tib.Main.{boot_devices}
use hispec_tib.Main.System.Order.{boot_devices-IsInOrder}

-- Millivolts.
abbrev pub millivolts : Doubles ℕ
millivolts = record {
  zero_d = 0;
  add = λ a b. a + b;
  mul = λ a b. a * b;
  less = ltb;
  max_voltage = 4096;
  div = λ a b. a / b;
  of_nat = λ n. n;
  to_uint32 = λ v. v;
  format_4f = decimal;
}

pub leb_refl : (x : ℕ) → leb x x ≡ true
leb_refl x = ground arith

pub leb_of_not_ltb : (x y : ℕ) → ltb y x ≡ false → leb x y ≡ true
leb_of_not_ltb x y h = ground arith

-- The native numbers, none of which is a NaN.
abbrev pub nat_order : FloatOrder ℕ ltb
nat_order = record {
  is_nan = λ x. false;
  le = leb;
  le_refl = λ x n. leb_refl x;
  le_numbers = λ x y h. (refl, refl);
  less_numbers = λ x y h. (refl, refl);
  le_of_not_less = λ x y n m h. leb_of_not_ltb x y h;
}

-- -22 for no bytes, and otherwise `value`.
abbrev parsed : {A : Type 0} → A → List ℕ → Parsed A
parsed value [] = record { rc = negsuc 21; value = value }
parsed value (b ∷ bs) = record { rc = pos 1; value = value }

-- A payload says what is wanted by its first byte.
abbrev kind_of : List ℕ → CString
kind_of [] = []
kind_of (b ∷ bs) = if b == b's' then text "SET" else text "get"

abbrev pub json : Json ℕ
json = record {
  msg_type = λ bytes. parsed (kind_of bytes, bytes) bytes;
  route_id = parsed (text "yj_cal", text "yj_fei");
  value_string = parsed (text "A");
  value_uint16 = parsed 7;
  value_bool = parsed true;
  value_float = parsed 5000;
  coeffs = parsed (1 ∷ 2 ∷ 3 ∷ [], 4 ∷ 5 ∷ 6 ∷ []);
}

json-RejectsEmpty : RejectsEmpty json
json-RejectsEmpty = record { route_id = refl; value_bool = refl }

abbrev pub drivers : Drivers
drivers = record {
  power_level = λ h. pos 1;
  power_set_rc = λ h level. pos 0;
  modbus_read_rc = λ h node address. (pos 0, 700);
  modbus_write_rc = λ h node address value. pos 0;
  dac_ready = λ h. true;
  dac_setup_rc = λ h channel. pos 0;
  dac_write_rc = λ h channel code. pos 0;
  stack = [];
}

abbrev pub env : Env ℕ
env = record { doubles = millivolts; json = json; drivers = drivers }

-- The globals after `main` has set the board up.
abbrev pub board : Tib ℕ
board = boot_devices millivolts true 0 (zeroed millivolts)

pub board-IsValid : IsValid board
board-IsValid = (boot_devices-IsInOrder millivolts 0).valid

-- A command with the key `key` and the payload `payload`, of which the length is given.
abbrev pub command : MsgType → CString → ℕ → List ℕ → Command
command t key n payload = record {
  msg_type = t;
  key = key;
  response_topic = text "me";
  payload_len = n;
  payload = payload;
  correlation_data = 9 ∷ replicate 15 0;
  corr_len = 1;
}
