-- ===== src/Main/Watchdog/Feeding.antt =====
-- When the watchdog is fed.
use hispec_tib.Prelude.{
  ℕ, ◌+◌, ◌*◌, ◌<◌, ◌≤◌, ◌≡◌, ◌⊎◌, inl, inr, refl, true, false, List, [], ◌∷◌, none, some, Option,
  Bool, leb, arith, ℤ, pos, negsuc, is_neg,
}
use hispec_tib.Main.Watchdog.{
  wdt_feed_interval_ms, wdt_timeout_ms, WatchdogAnswers, Watchdog, no_watchdog, configure_watchdog,
  watchdog_init, Turn, Feed, feed_periodically,
}

-- The turns come after each other, and neither a turn's feeding nor the next test comes later than `d`
-- after the test before.
pub data IsSpaced (d : ℕ) : ℕ → ℕ → List Turn → Type 0 where
  over : {test done : ℕ} → IsSpaced d test done []
  turn :
      {test done : ℕ} {t : Turn} {ts : List Turn}
      → done ≤ t.checked
      → t.checked ≤ test + d
      → t.checked ≤ t.fed
      → t.fed ≤ test + d
      → IsSpaced d t.checked t.fed ts
      → IsSpaced d test done (t ∷ ts)

-- The time of the last test.
abbrev pub last_test : ℕ → List Turn → ℕ
last_test test [] = test
last_test test (t ∷ ts) = last_test t.checked ts

-- No feeding ends `limit` or more after the one before began, the first after `since`, and the last of
-- them is not so long ago at `end`.
pub data IsFed (w : Watchdog) (limit : ℕ) : ℕ → List Feed → ℕ → Type 0 where
  calm : {since end : ℕ} → end < since + limit → IsFed w limit since [] end
  fed :
      {since end : ℕ} {f : Feed} {fs : List Feed}
      → some f.device ≡ w.wdt
      → f.channel ≡ w.wdt_channel
      → f.turn.fed < since + limit
      → IsFed w limit f.turn.checked fs end
      → IsFed w limit since (f ∷ fs) end

pub leb_cases : (a b : ℕ) → ((a ≤ b) × (leb a b ≡ true)) ⊎ ((b < a) × (leb a b ≡ false))
leb_cases a b = ground arith

-- The variables of `main` when there is a watchdog.
abbrev pub armed : ℕ → ℤ → Watchdog
armed dev channel = record { wdt = some dev; wdt_channel = channel }

armed-IsFed :
    (dev d limit : ℕ) (channel : ℤ) (since test done last : ℕ) (ts : List Turn)
    → wdt_feed_interval_ms + 2 * d ≤ limit
    → IsSpaced d test done ts
    → test ≤ done
    → last ≤ since + d
    → test < since + (wdt_feed_interval_ms + d)
    → IsFed
        (armed dev channel)
        limit
        since
        (feed_periodically (armed dev channel) ts last)
        (last_test test ts)
unfolding feed_periodically
armed-IsFed dev d limit channel since test done last [] l over h1 h2 h3 = calm (omega arith)
armed-IsFed dev d limit channel since test done last (t ∷ ts) l (turn a b c f rest) h1 h2 h3 =
    elim (leb_cases (last + wdt_feed_interval_ms) t.checked) [
      | inl (le, e) ↦ rw e (
          fed refl refl (omega arith) (
            armed-IsFed dev d limit channel t.checked t.checked t.fed t.fed ts l rest c
              (omega arith) (omega arith)))
      | inr (lt, e) ↦
          rw e (
            armed-IsFed dev d limit channel since t.checked t.fed last ts l rest c h2 (omega arith))
    ]

unfed :
    (channel : ℤ) (ts : List Turn) (last : ℕ)
    → feed_periodically (record { wdt = none; wdt_channel = channel }) ts last ≡ []
unfolding feed_periodically
unfed channel [] last = refl
unfed channel (t ∷ ts) last = unfed channel ts last

-- What the loop of `main` does for the watchdog after `watchdog_init`: either that has failed, and it
-- feeds nothing, or it has set the watchdog up, and that is fed in time.
abbrev pub Guarded : WatchdogAnswers → ℕ → ℕ → List Turn → ℕ → Type 0
Guarded a since test ts last =
    let (rc, w, calls) = watchdog_init a no_watchdog in
    ((is_neg rc ≡ true) × (feed_periodically w ts last ≡ []))
    ⊎ ((rc ≡ pos 0)
        × (w.wdt ≡ a.device)
        × (w.wdt_channel ≡ a.install_rc)
        × IsFed w wdt_timeout_ms since (feed_periodically w ts last) (last_test test ts))

init-Guarded :
    (device : Option ℕ) (ready : Bool) (install_rc setup_rc : ℤ) (since test last : ℕ)
    (ts : List Turn)
    → ((dev : ℕ)
        → IsFed
            (armed dev install_rc)
            wdt_timeout_ms
            since
            (feed_periodically (armed dev install_rc) ts last)
            (last_test test ts))
    → Guarded
        (record { device = device; ready = ready; install_rc = install_rc; setup_rc = setup_rc })
        since
        test
        ts
        last
unfolding watchdog_init configure_watchdog
init-Guarded none ready i s since test last ts h = inl (refl, unfed (negsuc 0) ts last)
init-Guarded (some dev) false i s since test last ts h = inl (refl, unfed (negsuc 0) ts last)
init-Guarded (some dev) true (negsuc n) s since test last ts h =
    inl (refl, unfed (negsuc 0) ts last)
init-Guarded (some dev) true (pos n) (negsuc m) since test last ts h =
    inl (refl, unfed (negsuc 0) ts last)
init-Guarded (some dev) true (pos n) (pos m) since test last ts h = inr (refl, refl, refl, h dev)

-- If `watchdog_init` fails, the loop of `main` calls no `wdt_feed`. If not, and each turn, from a test
-- to the next and to the end of a feeding, takes at most 2000 ms, then the loop feeds the device on the
-- channel that was installed, and the time from the start of one feeding to the end of the next stays
-- below the 5000 ms of the watchdog, at the last test too. The condition on the start is that the first
-- test comes within a turn of `test`, itself less than the interval and a turn after the watchdog was
-- set up or fed, and `last_wdt_feed` is not later than a turn after that.
pub watchdog_init-Guarded :
    (a : WatchdogAnswers) (d since test done last : ℕ) (ts : List Turn)
    → d ≤ 2000
    → IsSpaced d test done ts
    → test ≤ done
    → last ≤ since + d
    → test < since + (wdt_feed_interval_ms + d)
    → Guarded a since test ts last
watchdog_init-Guarded a d since test done last ts l h h1 h2 h3 =
    init-Guarded a.device a.ready a.install_rc a.setup_rc since test last ts (λ dev.
      armed-IsFed dev d wdt_timeout_ms a.install_rc since test done last ts (omega arith) h h1 h2
        h3)
