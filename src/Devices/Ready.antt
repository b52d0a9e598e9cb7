-- ===== src/Devices/Ready.antt =====
-- What `devices_ready` reports.
use hispec_tib.Prelude.{◌≡◌, refl, ◌↔◌, ◌⊎◌, Bool, true, false, Option, none, some, arith, is_zero}
use hispec_tib.Devices.{Readiness, devices_ready, check_device}

-- A device that is there is ready.
abbrev pub IsReadyOrNull : Option Bool → Type 0
IsReadyOrNull none = Unit
IsReadyOrNull (some ready) = ready ≡ true

check_device_iff :
    (d : Option Bool) (rc : Bool) → (check_device d rc ≡ true) ↔ (IsReadyOrNull d × (rc ≡ true))
unfolding check_device
check_device_iff none rc = (λ h. (tt, h), λ h. h.1)
check_device_iff (some true) rc = (λ h. (refl, h), λ h. h.1)
check_device_iff (some false) rc = (λ h. cc, λ h. cc)

-- `devices_ready` returns true exactly when three things hold: Modbus failed to start; the power
-- pin was not ready or its configuration failed; and each of the other devices that is there is
-- ready.
pub devices_ready_iff :
    (r : Readiness)
    → (devices_ready r ≡ true) ↔ (
        IsReadyOrNull r.gpio_dev
        × IsReadyOrNull r.adc_dev
        × IsReadyOrNull r.dac_dev
        × (is_zero r.modbus_init_rc ≡ false)
        × ((r.power_gpio_ready ≡ false) ⊎ (is_zero r.power_configure_rc ≡ false)))
unfolding devices_ready
devices_ready_iff r = (λ h. ground (arith, h, check_device_iff r.gpio_dev), λ h. ground arith)
