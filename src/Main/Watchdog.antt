-- ===== src/Main/Watchdog.antt =====
-- app/src/main.c: `watchdog_init`, and the feeding of the watchdog in the loop of `main`.
pub mod Feeding
use hispec_tib.Prelude.{
  ℕ, ◌+◌, Bool, not, ◌&&◌, List, [], ◌∷◌, Option, none, some, leb, if◌then◌else◌, ℤ, pos, negsuc,
  is_neg,
}

-- `WDT_FEED_INTERVAL_MS`, `WDT_TIMEOUT_MS`
abbrev pub wdt_feed_interval_ms : ℕ
wdt_feed_interval_ms = 1000

abbrev pub wdt_timeout_ms : ℕ
wdt_timeout_ms = 5000

-- What the kernel says of the watchdog: the device, if there is one, whether it is ready, and what
-- `wdt_install_timeout` and `wdt_setup` return.
pub record WatchdogAnswers : Type 0 where
  pub device : Option ℕ
  pub ready : Bool
  pub install_rc : ℤ
  pub setup_rc : ℤ

-- `wdt_install_timeout(wdt, &wdt_config)` with the window's ends, and `wdt_setup`.
pub data WatchdogCall : Type 0 where
  install_timeout : ℕ → ℕ → ℕ → WatchdogCall
  setup_watchdog : ℕ → WatchdogCall

-- `wdt` and `wdt_channel` of `main`; a null pointer is `none`.
pub record Watchdog : Type 0 where
  pub wdt : Option ℕ
  pub wdt_channel : ℤ

-- What `main` initialises them with.
abbrev pub no_watchdog : Watchdog
no_watchdog = record { wdt = none; wdt_channel = negsuc 0 }

-- The part of `watchdog_init` after the device is known. -EIO is -5.
unfoldable pub configure_watchdog :
    WatchdogAnswers → ℕ → Watchdog → ℤ × Watchdog × List WatchdogCall
configure_watchdog a dev out =
    if is_neg a.install_rc
    then (a.install_rc, out, install_timeout dev 0 wdt_timeout_ms ∷ [])
    else if is_neg a.setup_rc
    then (negsuc 4, out, install_timeout dev 0 wdt_timeout_ms ∷ setup_watchdog dev ∷ [])
    else (
      pos 0,
      record { wdt = some dev; wdt_channel = a.install_rc },
      install_timeout dev 0 wdt_timeout_ms ∷ setup_watchdog dev ∷ [],
    )

-- `watchdog_init`: its result, the two variables that it is given pointers to, and what it calls.
-- -ENODEV is -19.
unfoldable pub watchdog_init : WatchdogAnswers → Watchdog → ℤ × Watchdog × List WatchdogCall
unfolding configure_watchdog
watchdog_init a out = elim a.device [
  | none ↦ (negsuc 18, record out { wdt = none }, [])
  | some dev ↦
      if not a.ready
      then (negsuc 18, record out { wdt = none }, [])
      else configure_watchdog a dev out
]

-- The clock in a turn of the inner loop of `main`: `k_uptime_get()` in the test, and after `wdt_feed`,
-- where it is read only if there was a feeding.
pub record Turn : Type 0 where
  pub checked : ℕ
  pub fed : ℕ

-- A call of `wdt_feed`, which is made in a turn.
pub record Feed : Type 0 where
  pub device : ℕ
  pub channel : ℤ
  pub turn : Turn

-- The feeding in the inner loop of `main`, with `last_wdt_feed`: the test in each turn, and the calls
-- of `wdt_feed`. The uptime is not negative, and the test is false when it is before `last_wdt_feed`.
unfoldable pub feed_periodically : Watchdog → List Turn → ℕ → List Feed
feed_periodically w [] last = []
feed_periodically w (t ∷ ts) last =
    let due = feed_periodically w ts t.fed in
    let idle = feed_periodically w ts last in
    elim w.wdt [
      | none ↦ idle
      | some dev ↦
          if leb (last + wdt_feed_interval_ms) t.checked
          then record { device = dev; channel = w.wdt_channel; turn = t } ∷ due
          else idle
    ]
