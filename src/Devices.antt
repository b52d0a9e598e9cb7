-- ===== src/Devices.antt =====
-- app/src/devices.h and devices.c: the device tables of the board, and what `main` does to set
-- them up.
pub mod Setup
pub mod Ready
use hispec_tib.Prelude.{
  ℕ, zero, suc, ℤ, Bool, true, false, not, List, [], ◌∷◌, ◌++◌, Option, none, some, if◌then◌else◌,
  is_zero, map, length,
}
use hispec_tib.CString.{CString, text}
use hispec_tib.Board.{Doubles, History}
use hispec_tib.Mems.{
  Switch, RouteStep, RouteKey, Router, mems_switch_init, mems_router_init, mems_router_define_route,
}
use hispec_tib.Attenuator.{Coeffs, Attenuator, attenuator_init}

-- The globals of devices.c, with the history of driver calls.
pub record Tib (D : Type 0) : Type 0 where
  pub mems_switches : List Switch
  pub router : Router
  pub attenuators : List (Attenuator D)
  pub history : History

-- `switch_names` with `mems_switch_pin_pairs`.
unfoldable pub switch_table : List (CString × ℕ × ℕ)
switch_table =
    (text "yj_cal_laser", 0, 1)
    ∷ (text "hk_cal_laser", 2, 3)
    ∷ (text "yj_ao_fei", 4, 5)
    ∷ (text "hk_ao_fei", 6, 7)
    ∷ (text "yj_forward_retro", 8, 9)
    ∷ (text "hk_forward_retro", 10, 11)
    ∷ (text "yj_mm_sm", 12, 13)
    ∷ (text "hk_mm_sm", 14, 15)
    ∷ []

-- The loop that initialises the switches, on the expander `gpio_dev`.
unfoldable pub init_switches : ℕ → List (CString × ℕ × ℕ) → History → List Switch × History
init_switches gpio_dev [] h = ([], h)
init_switches gpio_dev ((name, a, b) ∷ rest) h =
    let (sw, h') = mems_switch_init gpio_dev a b name h in
    let (sws, h'') = init_switches gpio_dev rest h' in (sw ∷ sws, h'')

abbrev at : CString → ℕ → RouteStep
at n s = record { switch_name = n; state = s }

-- The arguments of the calls of `mems_router_define_route`, in order.
unfoldable pub route_table : List (CString × CString × List RouteStep)
route_table =
    (
      text "yj_1430",
      text "yj_ao",
      at (text "yj_cal_laser") b'B'
          ∷ at (text "yj_forward_retro") b'A'
          ∷ at (text "yj_ao_fei") b'A'
          ∷ [],
    )
    ∷ (
      text "yj_1430",
      text "yj_fei",
      at (text "yj_cal_laser") b'B'
          ∷ at (text "yj_forward_retro") b'A'
          ∷ at (text "yj_ao_fei") b'B'
          ∷ [],
    )
    ∷ (text "yj_cal", text "yj_ao", at (text "yj_cal_laser") b'A' ∷ at (text "yj_ao_fei") b'A' ∷ [])
    ∷ (
      text "yj_cal",
      text "yj_fei",
      at (text "yj_cal_laser") b'A' ∷ at (text "yj_ao_fei") b'B' ∷ [],
    )
    ∷ (
      text "yj_laser",
      text "yj_ao",
      at (text "yj_cal_laser") b'B' ∷ at (text "yj_ao_fei") b'A' ∷ [],
    )
    ∷ (
      text "yj_laser",
      text "yj_fei",
      at (text "yj_cal_laser") b'B' ∷ at (text "yj_ao_fei") b'B' ∷ [],
    )
    ∷ (text "yj_mm", text "yj_pd", at (text "yj_mm_sm") b'A' ∷ [])
    ∷ (text "yj_sm", text "yj_pd", at (text "yj_mm_sm") b'B' ∷ [])
    ∷ (
      text "hk_1430",
      text "hk_ao",
      at (text "hk_cal_laser") b'B'
          ∷ at (text "hk_forward_retro") b'A'
          ∷ at (text "hk_ao_fei") b'A'
          ∷ [],
    )
    ∷ (
      text "hk_1430",
      text "hk_fei",
      at (text "hk_cal_laser") b'B'
          ∷ at (text "hk_forward_retro") b'A'
          ∷ at (text "hk_ao_fei") b'B'
          ∷ [],
    )
    ∷ (text "hk_cal", text "hk_ao", at (text "hk_cal_laser") b'A' ∷ at (text "hk_ao_fei") b'A' ∷ [])
    ∷ (
      text "hk_cal",
      text "hk_fei",
      at (text "hk_cal_laser") b'A' ∷ at (text "hk_ao_fei") b'B' ∷ [],
    )
    ∷ (
      text "hk_laser",
      text "hk_ao",
      at (text "hk_cal_laser") b'B' ∷ at (text "hk_ao_fei") b'A' ∷ [],
    )
    ∷ (
      text "hk_laser",
      text "hk_fei",
      at (text "hk_cal_laser") b'B' ∷ at (text "hk_ao_fei") b'B' ∷ [],
    )
    ∷ (text "hk_mm", text "hk_pd", at (text "hk_mm_sm") b'A' ∷ [])
    ∷ (text "hk_sm", text "hk_pd", at (text "hk_mm_sm") b'B' ∷ [])
    ∷ []

-- The calls, whose results the code ignores.
unfoldable pub define_routes : List (CString × CString × List RouteStep) → Router → Router
define_routes [] router = router
define_routes ((input, output, steps) ∷ rest) router =
    define_routes rest
      (mems_router_define_route router (some input) (some output) (some steps) (length steps)).1

-- The state of the globals before `main`: `mems_switches` is zeroed, and nothing reads it then.
module _ {D : Type 0} where
  unfoldable pub setup_mems_switches_and_routes : Bool → ℕ → Tib D → Tib D
  unfolding switch_table init_switches route_table define_routes
  setup_mems_switches_and_routes gpio_ready gpio_dev tib =
      if not gpio_ready
      then tib
      else (let (sws, h) = init_switches gpio_dev switch_table tib.history in
          record tib {
            mems_switches = sws;
            router =
                define_routes route_table (mems_router_init (0 ∷ 1 ∷ 2 ∷ 3 ∷ 4 ∷ 5 ∷ 6 ∷ 7 ∷ []) 8);
            history = h;
          })

  -- `attenuators[i]` is given channel `i`.
  unfoldable pub init_attenuators : Doubles D → ℕ → List (Attenuator D) → List (Attenuator D)
  init_attenuators fp i [] = []
  init_attenuators fp i (a ∷ rest) = attenuator_init fp a i ∷ init_attenuators fp (suc i) rest

  unfoldable pub setup_attenuators : Doubles D → Tib D → Tib D
  unfolding init_attenuators
  setup_attenuators fp tib = record tib { attenuators = init_attenuators fp 0 tib.attenuators }

  -- Static storage: all zero.
  unfoldable zeroed_attenuator : Doubles D → Attenuator D
  zeroed_attenuator fp = record {
    coeff_db_to_volt = record { c0 = fp.zero_d; c1 = fp.zero_d; c2 = fp.zero_d };
    coeff_volt_to_db = record { c0 = fp.zero_d; c1 = fp.zero_d; c2 = fp.zero_d };
    voltage = fp.zero_d;
    cfg = record { channel_id = 0; resolution = 0; buffered = false };
  }

  unfoldable pub zeroed : Doubles D → Tib D
  unfolding zeroed_attenuator
  zeroed fp = record {
    mems_switches = [];
    router = record { switches = []; routes = [] };
    attenuators =
        zeroed_attenuator fp
        ∷ zeroed_attenuator fp
        ∷ zeroed_attenuator fp
        ∷ zeroed_attenuator fp
        ∷ zeroed_attenuator fp
        ∷ zeroed_attenuator fp
        ∷ [];
    history = [];
  }

-- What the drivers answer to `devices_ready`. A null device pointer is `none`.
pub record Readiness : Type 0 where
  pub power_gpio_ready : Bool
  pub power_configure_rc : ℤ
  pub modbus_init_rc : ℤ
  pub dac_dev : Option Bool
  pub adc_dev : Option Bool
  pub gpio_dev : Option Bool

-- True on success.
unfoldable setup_modbus_client : Readiness → Bool
setup_modbus_client r = is_zero r.modbus_init_rc

-- One `if (dev != NULL)` block of `devices_ready`.
unfoldable pub check_device : Option Bool → Bool → Bool
check_device none rc = rc
check_device (some ready) rc = if not ready then false else rc

-- `rc` is a `bool`: the return value of the configuration call is converted to one, and the
-- result of `setup_modbus_client` is compared with 0.
unfoldable pub devices_ready : Readiness → Bool
unfolding setup_modbus_client check_device
devices_ready r =
    let rc1 = if not r.power_gpio_ready then true else not (is_zero r.power_configure_rc) in
    let rc2 = if setup_modbus_client r then false else rc1 in
    check_device r.gpio_dev (check_device r.adc_dev (check_device r.dac_dev rc2))
