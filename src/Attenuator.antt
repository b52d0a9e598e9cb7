-- ===== src/Attenuator.antt =====
-- app/src/attenuator.h and attenuator.c: an optical attenuator on one channel of the DAC.
pub mod Range
use hispec_tib.Prelude.{ℕ, Bool, true, false, List, ◌∷◌, if◌then◌else◌, is_zero, not}
use hispec_tib.Board.{Doubles, Drivers, History, dac_setup, dac_write}

abbrev dac_resolution_bits : ℕ
dac_resolution_bits = 12

-- (1 << 12) - 1
abbrev pub dac_max_code : ℕ
dac_max_code = 4095

-- Three coefficients of a quadratic.
pub record Coeffs (D : Type 0) : Type 0 where
  pub c0 : D
  pub c1 : D
  pub c2 : D

-- `struct dac_channel_cfg`
pub record DacChannelCfg : Type 0 where
  pub channel_id : ℕ
  pub resolution : ℕ
  pub buffered : Bool

pub record Attenuator (D : Type 0) : Type 0 where
  pub coeff_db_to_volt : Coeffs D
  pub coeff_volt_to_db : Coeffs D
  pub voltage : D
  pub cfg : DacChannelCfg

module _ {D : Type 0} (fp : Doubles D) where
  -- `buffered` is false only under CONFIG_DAC_BUFFER_NOT_SUPPORT, which the build does not set.
  unfoldable pub attenuator_init : Attenuator D → ℕ → Attenuator D
  attenuator_init drv channel = record drv {
    voltage = fp.zero_d;
    cfg = record { channel_id = channel; resolution = dac_resolution_bits; buffered = true };
  }

  -- The voltage before it is clamped.
  unfoldable pub wanted_voltage : Attenuator D → D → Bool → D
  wanted_voltage drv value raw =
      if raw
      then value
      else fp.add
          (fp.add drv.coeff_db_to_volt.c0 (fp.mul (fp.mul drv.coeff_db_to_volt.c2 value) value))
          (fp.mul drv.coeff_db_to_volt.c1 value)

  unfoldable pub clamp_voltage : D → D
  clamp_voltage v =
      if fp.less v fp.zero_d
      then fp.zero_d
      else if fp.less fp.max_voltage v
      then fp.max_voltage
      else v

  -- The calls of the DAC driver, once the voltage is stored.
  unfoldable pub write_dac : Drivers → Attenuator D → History → Bool × History
  write_dac drivers drv h =
      let ch = drv.cfg.channel_id in
      let code =
        fp.to_uint32 (fp.mul (fp.div drv.voltage fp.max_voltage) (fp.of_nat dac_max_code)) in
      if not (drivers.dac_ready h)
      then (false, h)
      else if not (is_zero (drivers.dac_setup_rc h ch))
      then (false, dac_setup ch ∷ h)
      else (
        is_zero (drivers.dac_write_rc (dac_setup ch ∷ h) ch code),
        dac_write ch code ∷ dac_setup ch ∷ h,
      )

  unfoldable pub attenuator_set :
      Drivers → Attenuator D → D → Bool → History → Bool × Attenuator D × History
  unfolding write_dac
  attenuator_set drivers drv value raw h =
      let drv' : Attenuator D = record drv {
        voltage = clamp_voltage (wanted_voltage drv value raw);
      } in
      let (sent, h') = write_dac drivers drv' h in (sent, drv', h')

  -- The function always returns true; this is what goes out.
  unfoldable pub attenuator_get : Attenuator D → Bool → D
  attenuator_get drv raw =
      if raw
      then drv.voltage
      else fp.add
          (fp.add drv.coeff_volt_to_db.c0
            (fp.mul (fp.mul drv.voltage drv.voltage) drv.coeff_volt_to_db.c2))
          (fp.mul drv.voltage drv.coeff_volt_to_db.c1)
