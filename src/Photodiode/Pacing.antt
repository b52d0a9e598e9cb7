-- ===== src/Photodiode/Pacing.antt =====
-- How often the sampling thread stores a message.
use hispec_tib.Prelude.{
  ℕ, zero, suc, ◌+◌, ◌*◌, ◌≤◌, ◌<◌, ◌≡◌, refl, ap, subst, ◌∙◌, inl, inr, Bool, true, false, List,
  [], ◌∷◌, ◌++◌, some, arith, length, Option-cases, Bool-cases,
}
use hispec_tib.Command.Types.{OutMsg}
use hispec_tib.Photodiode.{
  SamplingRound, SamplerCall, sleep_ms, store_sample, publish_interval_ms, sleep_rest,
  sampling_loop, await_adc, photodiode_thread,
}

-- The messages that are stored.
pub messages : List SamplerCall → List OutMsg
messages [] = []
messages (sleep_ms n ∷ cs) = messages cs
messages (store_sample m ∷ cs) = m ∷ messages cs

-- How long the calls wait.
unfoldable pub waited : List SamplerCall → ℕ
waited [] = 0
waited (sleep_ms n ∷ cs) = n + waited cs
waited (store_sample m ∷ cs) = waited cs

-- The uptime in successive rounds: it does not go back, a wait is not shorter than asked for, and the next
-- round starts at most `slack` after its end. No round but the last takes longer than the interval.
pub data IsPunctual (slack : ℕ) : SamplingRound → List SamplingRound → Type 0 where
  end : {r : SamplingRound} → IsPunctual slack r []
  next :
      {r r' : SamplingRound} {rs : List SamplingRound}
      → r.start ≤ r.stored
      → r.stored ≤ r.start + publish_interval_ms
      → r.stored + waited (sleep_rest r) ≤ r'.start
      → r'.start ≤ r.stored + waited (sleep_rest r) + slack
      → IsPunctual slack r' rs
      → IsPunctual slack r (r' ∷ rs)

-- When the last round starts.
abbrev last_start : SamplingRound → List SamplingRound → ℕ
last_start r [] = r.start
last_start r (r' ∷ rs) = last_start r' rs

sleep_rest_lem :
    (r : SamplingRound)
    → r.stored ≤ r.start + publish_interval_ms
    → r.stored + waited (sleep_rest r) ≡ r.start + publish_interval_ms
unfolding sleep_rest waited
sleep_rest_lem r h = ground arith

messages-sleep_rest :
    (r : SamplingRound) (cs : List SamplerCall) → messages (sleep_rest r ++ cs) ≡ messages cs
unfolding sleep_rest messages
messages-sleep_rest r cs = ground arith

messages-sampling_loop :
    (rs : List SamplingRound) → length (messages (sampling_loop rs)) ≡ length rs
unfolding sampling_loop messages
messages-sampling_loop [] = refl
messages-sampling_loop (r ∷ rs) =
    ap suc (ap length (messages-sleep_rest r (sampling_loop rs)) ∙ messages-sampling_loop rs)

messages-await_adc :
    (adc_ready : ℕ → Bool) (fuel k : ℕ) (waits cs : List SamplerCall)
    → await_adc adc_ready fuel k ≡ some waits
    → messages (waits ++ cs) ≡ messages cs
unfolding await_adc messages
messages-await_adc adc_ready zero k waits cs e = cc
messages-await_adc adc_ready (suc fuel) k waits cs e =
    elim (Option-cases (await_adc adc_ready fuel (suc k))) [
      | inl n ↦ ground (arith, n)
      | inr (ws, f) ↦ ground (arith, f, messages-await_adc adc_ready fuel (suc k) ws cs f)
    ]

starts-IsPaced :
    (slack : ℕ) (r : SamplingRound) (rs : List SamplingRound)
    → IsPunctual slack r rs
    → (r.start + length rs * publish_interval_ms ≤ last_start r rs)
      × (last_start r rs ≤ r.start + length rs * (publish_interval_ms + slack))
starts-IsPaced slack r [] end = (omega arith, omega arith)
starts-IsPaced slack r (r' ∷ rs) (next a b c d p) =
    let (low, high) = starts-IsPaced slack r' rs p in
    let e = sleep_rest_lem r b in (omega (arith, low, e), omega (arith, high, e))

not_yet :
    (adc_ready : ℕ → Bool) (fuel k n : ℕ)
    → n < suc fuel
    → adc_ready (k + n) ≡ true
    → adc_ready k ≡ false
    → (m : ℕ) × (m < fuel) × (adc_ready (suc k + m) ≡ true)
not_yet adc_ready fuel k zero h up down =
    let same : k + 0 ≡ k = omega arith in
    let up' : adc_ready k ≡ true = subst (λ x. adc_ready x ≡ true) same up in cc
not_yet adc_ready fuel k (suc n) h up down =
    let same : k + suc n ≡ suc k + n = omega arith in
    (n, omega arith, subst (λ x. adc_ready x ≡ true) same up)

-- Enough fuel for the ADC to become ready.
await_adc_ends :
    (adc_ready : ℕ → Bool) (fuel k n : ℕ)
    → n < fuel
    → adc_ready (k + n) ≡ true
    → (waits : List SamplerCall) × (await_adc adc_ready fuel k ≡ some waits)
unfolding await_adc
await_adc_ends adc_ready zero k n h up = absurd (omega arith)
await_adc_ends adc_ready (suc fuel) k n h up = elim (Bool-cases (adc_ready k)) [
  | inl now ↦ ([], rw (now, await_adc) refl)
  | inr down ↦
      let (m, h', up') = not_yet adc_ready fuel k n h up down in
      let (ws, f) = await_adc_ends adc_ready fuel (suc k) m h' up' in
      (sleep_ms 10 ∷ ws, rw (down, f, await_adc) refl)
]

-- If the ADC is ready at some test, the thread goes on after it and stores one message in each of its
-- rounds. Over any stretch of rounds in which the uptime does not go back, no wait is shorter than asked for, and
-- no round but the last takes longer than the interval of 20 ms or starts more than `slack` after its
-- due time, `n` rounds later it is at least `n` intervals later, and at most that and `n` times the slack.
pub photodiode_thread-IsPaced :
    (adc_ready : ℕ → Bool) (fuel n slack : ℕ) (r : SamplingRound) (rs : List SamplingRound)
    → n < fuel
    → adc_ready n ≡ true
    → IsPunctual slack r rs
    → (cs : List SamplerCall) × (photodiode_thread adc_ready fuel (r ∷ rs) ≡ some cs)
      × (length (messages cs) ≡ suc (length rs))
      × (r.start + length rs * publish_interval_ms ≤ last_start r rs)
      × (last_start r rs ≤ r.start + length rs * (publish_interval_ms + slack))
unfolding photodiode_thread messages
photodiode_thread-IsPaced adc_ready fuel n slack r rs h up p =
    let same : n ≡ 0 + n = omega arith in
    let (ws, f) = await_adc_ends adc_ready fuel 0 n h (subst (λ x. adc_ready x ≡ true) same up) in
    let (low, high) = starts-IsPaced slack r rs p in
    (
      sleep_ms 10 ∷ (ws ++ sampling_loop (r ∷ rs)),
      rw (f, photodiode_thread) refl,
      ap length (messages-await_adc adc_ready fuel 0 ws _ f) ∙ messages-sampling_loop (r ∷ rs),
      low,
      high,
    )
