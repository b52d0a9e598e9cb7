-- ===== src/Tests/Timing.antt =====
-- The sampling thread and the drivers of the template, at concrete times.
use hispec_tib.Prelude.{
  ℕ, ◌≤◌, ◌≡◌, refl, arith, Bool, true, false, List, [], ◌∷◌, Option, none, some, pos, length, leb,
}
use hispec_tib.Photodiode.{SamplingRound, SamplerCall, Channel, photodiode_thread, sleep_rest}
use hispec_tib.Photodiode.Pacing.{
  messages, waited, IsPunctual, end, next, photodiode_thread-IsPaced,
}
use hispec_tib.Drivers.{plain_pin, plain_timers}
use hispec_tib.Drivers.Blink.{
  Blink, blink_gpio_led_init, blink_gpio_led_on_timer_expire, blink_gpio_led_set_period_ms,
  BlinkReach, here, and_then, period_set, expired,
}
use hispec_tib.Drivers.Blink.Blinking.{IsBlinking, Reach-IsBlinking}

abbrev channel : Channel
channel = record { setup_rc = pos 0; read = λ mask. (pos 0, some 1200) }

abbrev round : ℕ → ℕ → SamplingRound
round start stored = record {
  start = start;
  yj = channel;
  hk = channel;
  seconds = 7;
  stored = stored;
}

-- The second round starts 1 ms late.
rounds-IsPunctual : IsPunctual 1 (round 100 104) (round 121 125 ∷ round 141 141 ∷ [])
unfolding sleep_rest waited
rounds-IsPunctual =
    next (omega arith) (omega arith) (omega arith) (omega arith)
      (next (omega arith) (omega arith) (omega arith) (omega arith) end)

-- The ADC is ready at the third test.
photodiode_thread-IsPaced_example :
    (cs : List SamplerCall) × (photodiode_thread
        (leb 2)
        5
        (round 100 104 ∷ round 121 125 ∷ round 141 141 ∷ [])
      ≡ some cs)
    × (length (messages cs) ≡ 3)
    × (140 ≤ 141)
    × (141 ≤ 142)
photodiode_thread-IsPaced_example =
    photodiode_thread-IsPaced (leb 2) 5 2 1 (round 100 104) (round 121 125 ∷ round 141 141 ∷ [])
      (omega arith) refl rounds-IsPunctual

abbrev dark : Blink Bool (Option (ℕ × ℕ))
dark = record { led = true; timer = none; user_data = false }

abbrev lit : Blink Bool (Option (ℕ × ℕ))
lit = record { led = true; timer = some (500, 500); user_data = true }

-- Initialised with a period of 1000 ms, the LED gets one of 500 ms and is lit at the first expiry.
blinked :
    BlinkReach plain_pin plain_timers (blink_gpio_led_init plain_pin plain_timers 1000 dark).1 lit
unfolding blink_gpio_led_init blink_gpio_led_on_timer_expire blink_gpio_led_set_period_ms
blinked = and_then (and_then here (period_set 500)) (expired (λ h. cc) refl)

Reach-IsBlinking_example : IsBlinking plain_pin plain_timers lit
unfolding blink_gpio_led_init
Reach-IsBlinking_example =
    Reach-IsBlinking plain_pin plain_timers (λ g. refl) 1000 dark lit refl blinked
