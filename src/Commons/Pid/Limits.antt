-- ===== src/Commons/Pid/Limits.antt =====
-- What the limits of a PID controller guarantee.
use hispec_tib.Prelude.{◌≡◌, refl, true, inr, List, [], ◌∷◌, All}
use hispec_tib.FloatOrder.{FloatOrder, InRange, IsWithin, IsClamped-IsWithin, high_first}
use hispec_tib.Commons.Pid.{
  Arithmetic, CooPid, Use, reset, set_gains, update, coo_pid_init, coo_pid_update, limit, run,
}

module _ {F : Type 0} (fl : Arithmetic F) (o : FloatOrder F fl.less) where
  limit-IsWithin :
      (low high v : F) → o.le low high ≡ true → IsWithin o low high (limit fl low high v)
  unfolding limit
  limit-IsWithin low high v r = IsClamped-IsWithin o low high v _ (high_first o low high v r)

  -- The limits are those of the initialisation, and the integral keeps to them.
  pub record IsLimited (low high : F) (pid : CooPid F) : Type 0 where
    pub output_min : pid.output_min ≡ low
    pub output_max : pid.output_max ≡ high
    pub integral_min : pid.integral_min ≡ low
    pub integral_max : pid.integral_max ≡ high
    pub integral : IsWithin o low high pid.integral

  update-IsLimited :
      (low high : F) (pid : CooPid F) (setpoint measured dt : F)
      → o.le low high ≡ true
      → IsLimited low high pid
      → IsWithin o low high (coo_pid_update fl pid setpoint measured dt).0
        × IsLimited low high (coo_pid_update fl pid setpoint measured dt).1
  unfolding coo_pid_update
  update-IsLimited low high pid setpoint measured dt r v = (
    rw (v.output_min, v.output_max) (limit-IsWithin low high _ r),
    record {
      output_min = v.output_min;
      output_max = v.output_max;
      integral_min = v.integral_min;
      integral_max = v.integral_max;
      integral = rw (v.integral_min, v.integral_max) (limit-IsWithin low high _ r);
    },
  )

  run-IsLimited :
      (low high : F) (us : List (Use F)) (pid : CooPid F)
      → o.le low high ≡ true
      → InRange o low high fl.zero_f
      → IsLimited low high pid
      → All (IsWithin o low high) (run fl us pid).0 × IsLimited low high (run fl us pid).1
  unfolding run
  run-IsLimited low high [] pid r z v = (tt, v)
  run-IsLimited low high (reset ∷ us) pid r z v = run-IsLimited low high us _ r z (record {
    output_min = v.output_min;
    output_max = v.output_max;
    integral_min = v.integral_min;
    integral_max = v.integral_max;
    integral = inr z;
  })
  run-IsLimited low high (set_gains kp ki kd ∷ us) pid r z v =
      run-IsLimited low high us _ r z (record {
        output_min = v.output_min;
        output_max = v.output_max;
        integral_min = v.integral_min;
        integral_max = v.integral_max;
        integral = v.integral;
      })
  run-IsLimited low high (update setpoint measured dt ∷ us) pid r z v =
      let (w, v') = update-IsLimited low high pid setpoint measured dt r v in
      let (ws, last) =
        run-IsLimited low high us (coo_pid_update fl pid setpoint measured dt).1 r z v' in
      ((w, ws), last)

  -- If a controller is initialised with output limits that are in order, and with 0 between them,
  -- then whatever sequence of updates, resets and changes of gains follows, each output is NaN or
  -- within the limits, and so is the integral that is left, under the limits of the initialisation.
  pub run-IsWithin :
      (kp ki kd low high : F) (us : List (Use F))
      → o.le low high ≡ true
      → InRange o low high fl.zero_f
      → All (IsWithin o low high) (run fl us (coo_pid_init fl kp ki kd low high)).0
        × IsLimited low high (run fl us (coo_pid_init fl kp ki kd low high)).1
  unfolding coo_pid_init
  run-IsWithin kp ki kd low high us r z =
      run-IsLimited low high us (coo_pid_init fl kp ki kd low high) r z (record {
        output_min = refl;
        output_max = refl;
        integral_min = refl;
        integral_max = refl;
        integral = inr z;
      })
