-- ===== src/Drivers/Sensor.antt =====
-- drivers/sensor/example_sensor/example_sensor.c: a sensor that is an input pin.
use hispec_tib.Prelude.{◌≡◌, refl, ℤ, pos, negsuc, Bool, not, List, [], ◌∷◌, is_neg, if◌then◌else◌}

-- `struct example_sensor_data`
pub record ExampleSensor : Type 0 where
  pub state : ℤ

-- The channels of a sensor that the driver tells apart.
pub data SensorChannel : Type 0 where
  prox other_channel : SensorChannel

-- `gpio_pin_get` is what `gpio_pin_get_dt` answers, a level or an error.
unfoldable example_sensor_sample_fetch : ℤ → ExampleSensor → ℤ × ExampleSensor
example_sensor_sample_fetch gpio_pin_get s = (pos 0, record s { state = gpio_pin_get })

-- The result, and `val->val1`; -ENOTSUP is -134.
unfoldable example_sensor_channel_get : SensorChannel → ExampleSensor → ℤ → ℤ × ℤ
example_sensor_channel_get prox s val1 = (pos 0, s.state)
example_sensor_channel_get other_channel s val1 = (negsuc 133, val1)

-- -ENODEV is -19; `configure_rc` is what `gpio_pin_configure_dt` answers.
unfoldable example_sensor_init : Bool → ℤ → ℤ
example_sensor_init ready configure_rc =
    if not ready then negsuc 18 else if is_neg configure_rc then configure_rc else pos 0

-- Fetches one after the other, with what the pin answers.
fetch_all : List ℤ → ExampleSensor → ExampleSensor
fetch_all [] s = s
fetch_all (z ∷ zs) s = fetch_all zs (example_sensor_sample_fetch z s).1

-- The last of some numbers, or the one that comes before them.
abbrev last_of : ℤ → List ℤ → ℤ
last_of z [] = z
last_of z (y ∷ ys) = last_of y ys

-- A reading of the proximity is the answer of the pin at the last fetch, an error included.
channel_get-fetch_all :
    (zs : List ℤ) (s : ExampleSensor) (val1 : ℤ)
    → example_sensor_channel_get prox (fetch_all zs s) val1 ≡ (pos 0, last_of s.state zs)
unfolding fetch_all example_sensor_channel_get example_sensor_sample_fetch
channel_get-fetch_all [] s val1 = refl
channel_get-fetch_all (z ∷ zs) s val1 = channel_get-fetch_all zs (record s { state = z }) val1
