-- ===== src/Tests/Watchdog.antt =====
-- The watchdog at concrete times.
use hispec_tib.Prelude.{ℕ, ◌≡◌, refl, List, [], ◌∷◌, true, some, pos, arith}
use hispec_tib.Main.Watchdog.{WatchdogAnswers, Turn, feed_periodically}
use hispec_tib.Main.Watchdog.Feeding.{IsSpaced, over, turn, Guarded, watchdog_init-Guarded, armed}

-- A watchdog that works, as device 7 with channel 2.
abbrev answers : WatchdogAnswers
answers = record { device = some 7; ready = true; install_rc = pos 2; setup_rc = pos 0 }

abbrev at : ℕ → ℕ → Turn
at c f = record { checked = c; fed = f }

-- A feeding, a test that is too early for one, and a feeding.
abbrev turns : List Turn
turns = at 3200 3201 ∷ at 4000 4000 ∷ at 4900 4902 ∷ []

feeds_twice :
    feed_periodically (armed 7 (pos 2)) turns 0
    ≡ record { device = 7; channel = pos 2; turn = at 3200 3201 }
      ∷ record { device = 7; channel = pos 2; turn = at 4900 4902 }
      ∷ []
unfolding feed_periodically
feeds_twice = refl

turns-IsSpaced : IsSpaced 2000 3000 3000 turns
turns-IsSpaced = turn (omega arith) (omega arith) (omega arith) (omega arith) (
    turn (omega arith) (omega arith) (omega arith) (omega arith)
      (turn (omega arith) (omega arith) (omega arith) (omega arith) over))

watchdog_init-Guarded_example : Guarded answers 100 3000 turns 0
watchdog_init-Guarded_example =
    watchdog_init-Guarded answers 2000 100 3000 3000 0 turns (omega arith) turns-IsSpaced
      (omega arith) (omega arith) (omega arith)
