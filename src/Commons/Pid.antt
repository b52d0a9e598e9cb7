-- ===== src/Commons/Pid.antt =====
-- include/coo_commons/pid.h and lib/coo_commons/pid.c: a PID controller. `float` is a parameter.
pub mod Limits
use hispec_tib.Prelude.{Bool, List, [], ◌∷◌, if◌then◌else◌}

-- The operations of `float` that the code uses. `less` is false if an operand is not a number.
pub record Arithmetic (F : Type 0) : Type 0 where
  pub zero_f : F
  pub add : F → F → F
  pub sub : F → F → F
  pub mul : F → F → F
  pub div : F → F → F
  pub less : F → F → Bool

pub record CooPid (F : Type 0) : Type 0 where
  pub kp : F
  pub ki : F
  pub kd : F
  pub integral : F
  pub prev_error : F
  pub output_min : F
  pub output_max : F
  pub integral_min : F
  pub integral_max : F

module _ {F : Type 0} (fl : Arithmetic F) where
  unfoldable pub coo_pid_init : F → F → F → F → F → CooPid F
  coo_pid_init kp ki kd output_min output_max = record {
    kp = kp;
    ki = ki;
    kd = kd;
    integral = fl.zero_f;
    prev_error = fl.zero_f;
    output_min = output_min;
    output_max = output_max;
    integral_min = output_min;
    integral_max = output_max;
  }

  unfoldable coo_pid_reset : CooPid F → CooPid F
  coo_pid_reset pid = record pid { integral = fl.zero_f; prev_error = fl.zero_f }

  unfoldable coo_pid_set_gains : CooPid F → F → F → F → CooPid F
  coo_pid_set_gains pid kp ki kd = record pid { kp = kp; ki = ki; kd = kd }

  -- The limits of the integral and of the output.
  unfoldable pub limit : F → F → F → F
  limit low high v = if fl.less high v then high else if fl.less v low then low else v

  -- The output, and the controller afterwards.
  unfoldable pub coo_pid_update : CooPid F → F → F → F → F × CooPid F
  unfolding limit
  coo_pid_update pid setpoint measured dt =
      let error = fl.sub setpoint measured in
      let p_term = fl.mul pid.kp error in
      let integral =
        limit pid.integral_min pid.integral_max (fl.add pid.integral (fl.mul error dt)) in
      let i_term = fl.mul pid.ki integral in
      let derivative =
        if fl.less fl.zero_f dt then fl.div (fl.sub error pid.prev_error) dt else fl.zero_f in
      let d_term = fl.mul pid.kd derivative in
      let output = fl.add (fl.add p_term i_term) d_term in
      (
        limit pid.output_min pid.output_max output,
        record pid { integral = integral; prev_error = error },
      )

-- What a caller does with a controller.
pub data Use (F : Type 0) : Type 0 where
  reset : Use F
  set_gains : F → F → F → Use F
  update : F → F → F → Use F

module _ {F : Type 0} (fl : Arithmetic F) where
  -- A sequence of calls: the outputs, and the controller afterwards.
  unfoldable pub run : List (Use F) → CooPid F → List F × CooPid F
  unfolding coo_pid_reset coo_pid_set_gains coo_pid_update
  run [] pid = ([], pid)
  run (reset ∷ us) pid = run us (coo_pid_reset fl pid)
  run (set_gains kp ki kd ∷ us) pid = run us (coo_pid_set_gains fl pid kp ki kd)
  run (update setpoint measured dt ∷ us) pid =
      let (output, pid') = coo_pid_update fl pid setpoint measured dt in
      let (outputs, last) = run us pid' in (output ∷ outputs, last)
