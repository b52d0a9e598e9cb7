-- ===== src/Attenuator/Range.antt =====
-- What `attenuator_set` stores, sends and answers.
use hispec_tib.Prelude.{
  ℕ, ◌≡◌, refl, ◌↔◌, ◌⊎◌, inl, inr, Bool, true, false, ◌∷◌, arith, is_zero, Bool-cases,
}
use hispec_tib.FloatOrder.{FloatOrder, IsClamped, IsWithin, IsClamped-IsWithin, low_first}
use hispec_tib.Board.{Doubles, Drivers, History, dac_setup, dac_write}
use hispec_tib.Attenuator.{
  Attenuator, attenuator_set, attenuator_get, wanted_voltage, clamp_voltage, write_dac,
}

-- The code of a voltage.
abbrev share_code : {D : Type 0} → Doubles D → D → ℕ
share_code fp v = fp.to_uint32 (fp.mul (fp.div v fp.max_voltage) (fp.of_nat 4095))

-- `out` is what `attenuator_set` answers, with the attenuator and the history.
pub record WasDriven {D : Type 0} (fp : Doubles D) (o : FloatOrder D fp.less) (drivers : Drivers)
    (drv : Attenuator D) (value : D) (raw : Bool) (h : History)
    (out : Bool × Attenuator D × History) : Type 0 where
  pub stored : IsWithin o fp.zero_d fp.max_voltage out.1.voltage
  pub stored_raw : (raw ≡ false) ⊎ IsClamped o fp.zero_d fp.max_voltage value out.1.voltage
  same_channel : out.1.cfg ≡ drv.cfg
  read_back : attenuator_get fp out.1 true ≡ out.1.voltage
  pub success : (out.0 ≡ true) ↔ (
      (drivers.dac_ready h ≡ true)
      × (is_zero (drivers.dac_setup_rc h drv.cfg.channel_id) ≡ true)
      × (is_zero (
            drivers.dac_write_rc
              (dac_setup drv.cfg.channel_id ∷ h)
              drv.cfg.channel_id
              (share_code fp out.1.voltage))
          ≡ true))
  pub sent :
      (out.0 ≡ false)
      ⊎ (out.2
          ≡ dac_write drv.cfg.channel_id (share_code fp out.1.voltage)
            ∷ dac_setup drv.cfg.channel_id
            ∷ h)

module _ {D : Type 0} (fp : Doubles D) (o : FloatOrder D fp.less)
    (scale : o.le fp.zero_d fp.max_voltage ≡ true) where
  clamp-IsClamped : (v : D) → IsClamped o fp.zero_d fp.max_voltage v (clamp_voltage fp v)
  unfolding clamp_voltage
  clamp-IsClamped v = low_first o fp.zero_d fp.max_voltage v scale

  -- If 0 is at most the maximum, then whatever the value and whether it is a voltage or decibels,
  -- `attenuator_set` stores a voltage that is NaN or from 0 to the maximum, which a raw read then gives,
  -- and keeps the channel. If the value is a voltage, a NaN is stored as it is, and any number leaves a
  -- voltage from 0 to the maximum. It answers true exactly when the DAC is ready and accepts the
  -- channel's setup and the code of that voltage, which is its share of the maximum times 4095, and
  -- these two calls are then the last of the history.
  pub attenuator_set-WasDriven :
      (drivers : Drivers) (drv : Attenuator D) (value : D) (raw : Bool) (h : History)
      → WasDriven fp o drivers drv value raw h (attenuator_set fp drivers drv value raw h)
  unfolding attenuator_set write_dac attenuator_get wanted_voltage
  attenuator_set-WasDriven drivers drv value raw h = record {
    stored =
        IsClamped-IsWithin o fp.zero_d fp.max_voltage _ _
          (clamp-IsClamped (wanted_voltage fp drv value raw));
    stored_raw = elim (Bool-cases raw) [
      | inl r ↦ inr (rw r (clamp-IsClamped value))
      | inr r ↦ inl r
    ];
    same_channel = refl;
    read_back = refl;
    success = ground arith;
    sent = ground arith;
  }
