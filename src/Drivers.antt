-- ===== src/Drivers.antt =====
-- The drivers of the application template: the pins and timers of the kernel that they stand on, which are
-- not part of this repository, as records of operations with what they promise.
pub mod Blink
pub mod Sensor
use hispec_tib.Prelude.{ℕ, ◌≡◌, refl, ℤ, pos, Bool, true, false, not, Option, none, some, is_neg}

-- An output pin: `gpio_is_ready_dt`, `gpio_pin_configure_dt(.., GPIO_OUTPUT_INACTIVE)`, `gpio_pin_set_dt` and
-- `gpio_pin_toggle_dt`. `level` is what the pin shows, of which nothing is said after an error.
pub record Gpio (G : Type 0) : Type 0 where
  pub is_ready : G → Bool
  pub configure_inactive : G → ℤ × G
  pub set_pin : Bool → G → ℤ × G
  pub toggle : G → ℤ × G
  pub level : G → Bool
  pub configure_lem :
      (g : G) → is_neg (configure_inactive g).0 ≡ false → level (configure_inactive g).1 ≡ false
  pub set_lem : (v : Bool) (g : G) → is_neg (set_pin v g).0 ≡ false → level (set_pin v g).1 ≡ v
  pub toggle_lem : (g : G) → is_neg (toggle g).0 ≡ false → level (toggle g).1 ≡ not (level g)

-- `k_timer_init`, `k_timer_start` with the first wait and the period, and `k_timer_stop`; `running` is what
-- the timer was started with, while it runs.
pub record Timers (T : Type 0) : Type 0 where
  pub init : T → T
  pub start : ℕ → ℕ → T → T
  pub stop : T → T
  pub running : T → Option (ℕ × ℕ)
  pub init_lem : (t : T) → running (init t) ≡ none
  pub start_lem : (wait period : ℕ) (t : T) → running (start wait period t) ≡ some (wait, period)
  pub stop_lem : (t : T) → running (stop t) ≡ none

-- A pin that never fails, and a timer that remembers how it was started.
abbrev pub plain_pin : Gpio Bool
plain_pin = record {
  is_ready = λ g. true;
  configure_inactive = λ g. (pos 0, false);
  set_pin = λ v g. (pos 0, v);
  toggle = λ g. (pos 0, not g);
  level = λ g. g;
  configure_lem = λ g h. refl;
  set_lem = λ v g h. refl;
  toggle_lem = λ g h. refl;
}

abbrev pub plain_timers : Timers (Option (ℕ × ℕ))
plain_timers = record {
  init = λ t. none;
  start = λ wait period t. some (wait, period);
  stop = λ t. none;
  running = λ t. t;
  init_lem = λ t. refl;
  start_lem = λ wait period t. refl;
  stop_lem = λ t. refl;
}
