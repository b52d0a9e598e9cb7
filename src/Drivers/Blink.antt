-- ===== src/Drivers/Blink.antt =====
-- drivers/blink/gpio_led.c and include/app/drivers/blink.h: an LED that a timer toggles.
pub mod Blinking
use hispec_tib.Prelude.{
  ℕ, ◌≡◌, ◌≢◌, ℤ, pos, negsuc, Bool, true, false, not, Option, none, some, is_neg, ltb, ◌==◌,
  if◌then◌else◌,
}
use hispec_tib.Drivers.{Gpio, Timers}

-- The pin of the LED, the timer, and whether the timer's user data points to the device.
pub record Blink (G T : Type 0) : Type 0 where
  pub led : G
  pub timer : T
  pub user_data : Bool

module _ {G T : Type 0} (gpio : Gpio G) (timers : Timers T) where
  -- The handler takes the device from the timer's user data: `none` if that is a null pointer. An error of
  -- the pin is logged only.
  unfoldable pub blink_gpio_led_on_timer_expire : Blink G T → Option (Blink G T)
  blink_gpio_led_on_timer_expire s =
      if s.user_data then some (record s { led = (gpio.toggle s.led).1 }) else none

  unfoldable pub blink_gpio_led_set_period_ms : ℕ → Blink G T → ℤ × Blink G T
  blink_gpio_led_set_period_ms period_ms s =
      let (rc, led) = gpio.set_pin false s.led in
      if period_ms == 0
      then (rc, record s { led = led; timer = timers.stop s.timer })
      else (pos 0, record s { timer = timers.start period_ms period_ms s.timer })

  -- -ENODEV is -19; `period_ms` is the configuration's.
  unfoldable pub blink_gpio_led_init : ℕ → Blink G T → ℤ × Blink G T
  blink_gpio_led_init period_ms s =
      let (ret, led) = gpio.configure_inactive s.led in
      let ready = timers.init s.timer in
      if not (gpio.is_ready s.led)
      then (negsuc 18, s)
      else if is_neg ret
      then (ret, record s { led = led })
      else (
        pos 0,
        record {
          led = led;
          timer = if ltb 0 period_ms then timers.start period_ms period_ms ready else ready;
          user_data = true;
        },
      )

  unfoldable pub blink_off : Blink G T → ℤ × Blink G T
  unfolding blink_gpio_led_set_period_ms
  blink_off s = blink_gpio_led_set_period_ms 0 s

  -- What happens to a device: somebody sets its period, or its timer expires, which it does only while it
  -- runs.
  pub data BlinkStep : Blink G T → Blink G T → Type 0 where
    period_set :
        {s : Blink G T} (period_ms : ℕ) → BlinkStep s (blink_gpio_led_set_period_ms period_ms s).1
    expired :
        {s s' : Blink G T}
        → timers.running s.timer ≢ none
        → blink_gpio_led_on_timer_expire s ≡ some s'
        → BlinkStep s s'

  pub data BlinkReach : Blink G T → Blink G T → Type 0 where
    here : {s : Blink G T} → BlinkReach s s
    and_then : {s s' s'' : Blink G T} → BlinkReach s s' → BlinkStep s' s'' → BlinkReach s s''
