-- ===== src/Photodiode.antt =====
-- app/src/photodiode.h and photodiode.c: the sampling thread. The ADC driver and the clock are not part of
-- this repository; what they answer in a round is a parameter.
pub mod Sampling
pub mod Pacing
use hispec_tib.Prelude.{
  ℕ, zero, suc, ◌+◌, ◌-◌, ℤ, Bool, not, List, [], ◌∷◌, ◌++◌, ltb, Option, none, some, if◌then◌else◌,
  is_zero, length, take, replicate,
}
use hispec_tib.CString.{CString, text, decimal, format_hd}
use hispec_tib.MsgQueue.{MsgQueue}
use hispec_tib.Command.Types.{OutMsg, MsgType, max_correlation_data}

-- `INT16_MIN`, as a bit pattern.
abbrev int16_min : ℕ
int16_min = 32768

-- One channel's answers: to `adc_channel_setup`, and to `adc_read` of a sequence with the given
-- `channels` mask, with the sample if one is written to the buffer.
pub record Channel : Type 0 where
  pub setup_rc : ℤ
  pub read : ℕ → ℤ × Option ℕ

-- The sample of a channel. `seq.channels` is 0, and an error of the read is logged only.
unfoldable pub sample : Channel → ℕ
sample ch =
    if not (is_zero ch.setup_rc)
    then int16_min
    else elim (ch.read 0).1 [ none ↦ int16_min | some v ↦ v ]

abbrev pub sample_text : ℕ → ℕ → ℕ → CString
sample_text yj hk seconds =
    text "{\"yj\":"
    ++ (format_hd yj
        ++ (text ", \"hk\":"
            ++ (format_hd hk ++ (text ", \"time\":" ++ (decimal seconds ++ text "}")))))

-- `payload_len` is what `snprintk` returns, the length of the whole text.
unfoldable pub sample_msg : Channel → Channel → ℕ → OutMsg
unfolding sample
sample_msg yj hk seconds =
    let body = sample_text (sample yj) (sample hk) seconds in
    record {
      msg_type = MsgType.get;
      topic = take 63 (text "dt/hsfib-tib/photodiode");
      qos = 0;
      payload_len = length body;
      payload = take 255 body;
      correlation_data = replicate max_correlation_data 0;
      corr_len = 0;
    }

module _ {P : Type 0} (pdq : MsgQueue P OutMsg) where
  -- `while (k_msgq_put(...) != 0) k_msgq_purge(...)`, with at most `fuel` attempts.
  unfoldable pub put_purging : ℕ → P → OutMsg → Option P
  put_purging zero q m = none
  put_purging (suc fuel) q m =
      let again = put_purging fuel (pdq.purge q) m in
      elim (pdq.put q m) [ some q' ↦ some q' | none ↦ again ]

-- `PUBLISH_INTERVAL_MS`
abbrev pub publish_interval_ms : ℕ
publish_interval_ms = 20

-- What a round of the thread meets: the uptime when it starts, the two channels, the wall clock, and the
-- uptime when the message has been stored.
pub record SamplingRound : Type 0 where
  pub start : ℕ
  pub yj : Channel
  pub hk : Channel
  pub seconds : ℕ
  pub stored : ℕ

-- What the thread does: it waits for a number of milliseconds, and it stores a message in its queue.
pub data SamplerCall : Type 0 where
  sleep_ms : ℕ → SamplerCall
  store_sample : OutMsg → SamplerCall

-- The wait for the rest of the interval. `remaining` is positive when the message was stored before the
-- interval was over.
unfoldable pub sleep_rest : SamplingRound → List SamplerCall
sleep_rest r =
    if ltb r.stored (publish_interval_ms + r.start)
    then sleep_ms ((publish_interval_ms + r.start) - r.stored) ∷ []
    else []

-- The endless loop, over the rounds that are given.
unfoldable pub sampling_loop : List SamplingRound → List SamplerCall
unfolding sample_msg sleep_rest
sampling_loop [] = []
sampling_loop (r ∷ rs) =
    store_sample (sample_msg r.yj r.hk r.seconds) ∷ (sleep_rest r ++ sampling_loop rs)

-- The tests of the ADC device; `adc_ready k` is the answer to the k-th. `none` when the fuel is used up.
unfoldable pub await_adc : (ℕ → Bool) → ℕ → ℕ → Option (List SamplerCall)
await_adc adc_ready zero k = none
await_adc adc_ready (suc fuel) k =
    let rest = await_adc adc_ready fuel (suc k) in
    if not (adc_ready k)
    then elim rest [ none ↦ none | some cs ↦ some (sleep_ms 10 ∷ cs) ]
    else some []

-- What the thread does in the rounds that are given; nothing but the first wait is sure before the ADC is
-- ready.
unfoldable pub photodiode_thread : (ℕ → Bool) → ℕ → List SamplingRound → Option (List SamplerCall)
unfolding sampling_loop await_adc
photodiode_thread adc_ready fuel rounds = elim (await_adc adc_ready fuel 0) [
  | none ↦ none
  | some waits ↦ some (sleep_ms 10 ∷ (waits ++ sampling_loop rounds))
]
