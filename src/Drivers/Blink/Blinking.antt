-- ===== src/Drivers/Blink/Blinking.antt =====
-- What a device does after it has been initialised.
use hispec_tib.Prelude.{
  not, ℕ, zero, suc, ◌≡◌, ◌≢◌, refl, subst, ◌∙◌, ◌⊎◌, inl, inr, pos, true, false, none, some,
  is_neg, ltb, if◌then◌else◌, arith, Bool-cases,
}
use hispec_tib.Drivers.{Gpio, Timers}
use hispec_tib.Drivers.Blink.{
  Blink, blink_gpio_led_on_timer_expire, blink_gpio_led_set_period_ms, blink_gpio_led_init,
  blink_off, BlinkStep, period_set, expired, BlinkReach, here, and_then,
}

module _ {G T : Type 0} (gpio : Gpio G) (timers : Timers T) where
  -- The timer is stopped and the LED is dark, or it runs with a period that is not 0, from the start on.
  abbrev pub IsTimed : Blink G T → Type 0
  IsTimed s =
      ((timers.running s.timer ≡ none) × (gpio.level s.led ≡ false))
      ⊎ ((p : ℕ) × (p ≢ 0) × (timers.running s.timer ≡ some (p, p)))

  pub record IsBlinking (s : Blink G T) : Type 0 where
    pub timed : IsTimed s
    pub connected : s.user_data ≡ true
    pub handled :
        (s' : Blink G T) × (blink_gpio_led_on_timer_expire gpio timers s ≡ some s')
        × ((is_neg (gpio.toggle s.led).0 ≡ true) ⊎ (gpio.level s'.led ≡ not (gpio.level s.led)))
    pub off :
        (gpio.level (blink_off gpio timers s).1.led ≡ false)
        × (timers.running (blink_off gpio timers s).1.timer ≡ none)

  toggled :
      (g : G)
      → (is_neg (gpio.toggle g).0 ≡ true) ⊎ (gpio.level (gpio.toggle g).1 ≡ not (gpio.level g))
  toggled g = elim (Bool-cases (is_neg (gpio.toggle g).0)) [
    | inl bad ↦ inl bad
    | inr good ↦ inr (gpio.toggle_lem g good)
  ]

  module _ (sets : (g : G) → is_neg (gpio.set_pin false g).0 ≡ false) where
    blinking : (s : Blink G T) → IsTimed s → s.user_data ≡ true → IsBlinking s
    unfolding blink_gpio_led_on_timer_expire blink_off blink_gpio_led_set_period_ms
    blinking s t c = record {
      timed = t;
      connected = c;
      handled = (record s { led = (gpio.toggle s.led).1 }, rw c refl, toggled s.led);
      off = (gpio.set_lem false s.led (sets s.led), timers.stop_lem s.timer);
    }

    set_period-IsTimed :
        (p : ℕ) (s : Blink G T) → IsTimed (blink_gpio_led_set_period_ms gpio timers p s).1
    unfolding blink_gpio_led_set_period_ms
    set_period-IsTimed zero s = inl (timers.stop_lem s.timer, gpio.set_lem false s.led (sets s.led))
    set_period-IsTimed (suc p) s =
        inr (
          suc p,
          λ h. absurd (omega arith),
          ground (arith, timers.start_lem (suc p) (suc p) s.timer),
        )

    set_period-connected :
        (p : ℕ) (s : Blink G T)
        → (blink_gpio_led_set_period_ms gpio timers p s).1.user_data ≡ s.user_data
    unfolding blink_gpio_led_set_period_ms
    set_period-connected p s = ground arith

    expired-IsTimed :
        (s s' : Blink G T)
        → timers.running s.timer ≢ none
        → blink_gpio_led_on_timer_expire gpio timers s ≡ some s'
        → IsTimed s
        → IsTimed s' × (s'.user_data ≡ true)
    unfolding blink_gpio_led_on_timer_expire
    expired-IsTimed s s' r e (inl (n, d)) = absurd (r n)
    expired-IsTimed s s' r e (inr (p, q, f)) = elim (Bool-cases s.user_data) [
      | inr c ↦ ground (arith, c)
      | inl c ↦
          let same : record s { led = (gpio.toggle s.led).1 } ≡ s' = ground (arith, c) in
          subst (λ x. IsTimed x × (x.user_data ≡ true)) same (inr (p, q, f), c)
    ]

    step-IsTimed :
        {s s' : Blink G T}
        → BlinkStep gpio timers s s'
        → IsTimed s × (s.user_data ≡ true)
        → IsTimed s' × (s'.user_data ≡ true)
    step-IsTimed {s} (period_set p) (t, c) = (set_period-IsTimed p s, set_period-connected p s ∙ c)
    step-IsTimed {s} {s'} (expired r e) (t, c) = expired-IsTimed s s' r e t

    reach-IsTimed :
        {s s' : Blink G T}
        → BlinkReach gpio timers s s'
        → IsTimed s × (s.user_data ≡ true)
        → IsTimed s' × (s'.user_data ≡ true)
    reach-IsTimed here t = t
    reach-IsTimed (and_then r st) t = step-IsTimed st (reach-IsTimed r t)

    started :
        (p : ℕ) (s : Blink G T)
        → is_neg (gpio.configure_inactive s.led).0 ≡ false
        → IsTimed (record {
          led = (gpio.configure_inactive s.led).1;
          timer = if ltb 0 p then timers.start p p (timers.init s.timer) else timers.init s.timer;
          user_data = true;
        })
    started zero s good = inl (timers.init_lem s.timer, gpio.configure_lem s.led good)
    started (suc p) s good = inr (
      suc p,
      λ h. absurd (omega arith),
      ground (arith, timers.start_lem (suc p) (suc p) (timers.init s.timer)),
    )

    init-IsTimed :
        (p : ℕ) (s : Blink G T)
        → (blink_gpio_led_init gpio timers p s).0 ≡ pos 0
        → IsTimed (blink_gpio_led_init gpio timers p s).1
          × ((blink_gpio_led_init gpio timers p s).1.user_data ≡ true)
    unfolding blink_gpio_led_init
    init-IsTimed p s e = elim (Bool-cases (gpio.is_ready s.led)) [
      | inr down ↦ ground (arith, down)
      | inl up ↦ elim (Bool-cases (is_neg (gpio.configure_inactive s.led).0)) [
        | inl bad ↦
            let fails : (gpio.configure_inactive s.led).0 ≡ pos 0 = ground (arith, up, bad) in
            let no : is_neg (pos 0) ≡ true = rw fails at bad in cc
        | inr good ↦ rw (up, good, blink_gpio_led_init) (started p s good, refl)
      ]
    ]

    -- In every state that a device reaches after it has been initialised without an error, if setting
    -- the pin to inactive never fails: the timer is stopped and the LED is dark, or the timer runs with a
    -- first wait and a period that are the same and not 0. The handler of the timer finds its device
    -- and turns the LED over unless the pin gives an error, and `blink_off` stops the timer and leaves the LED dark.
    pub Reach-IsBlinking :
        (period_ms : ℕ) (s s' : Blink G T)
        → (blink_gpio_led_init gpio timers period_ms s).0 ≡ pos 0
        → BlinkReach gpio timers (blink_gpio_led_init gpio timers period_ms s).1 s'
        → IsBlinking s'
    Reach-IsBlinking period_ms s s' e r =
        let (t, c) = reach-IsTimed r (init-IsTimed period_ms s e) in blinking s' t c
