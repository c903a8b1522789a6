-- ===== src/Joystick/Driver.antt =====
-- modules/drivers/joystick/src/joystick.c. The ADC, the input subsystem and the work queue are outside
-- code: their calls are recorded with their answers.
use zephyr_development.Prelude.{
  ℕ, ◌≡◌, ◌↔◌, Bool, true, false, not, ◌||◌, List, [], ◌∷◌, ℤ, pos, neg, is_zero, is_neg, Io, Env,
  Trace, enodev, arith, if◌then◌else◌,
}

pub data Axis : Type 0 where
  axis_x axis_y axis_other : Axis

pub data Call : Type 0 where
  adc_is_ready_dt : Axis → Call
  adc_channel_setup_dt : Axis → Call
  adc_sequence_init_dt : Axis → Call
  adc_read_dt : Axis → Call
  input_report_abs : Axis → ℤ → Bool → Call
  k_work_schedule : ℕ → Call
  k_work_reschedule : ℕ → Call

-- An answer: the return value (for `adc_is_ready_dt`, 0 stands for false), and after a read what the
-- sample buffer holds.
pub record Answer : Type 0 where
  pub ret : ℤ
  pub sample : ℕ

-- The driver's data: the two sample buffers, and the trace.
pub record JoystickData : Type 0 where
  pub raw_x : ℕ
  pub raw_y : ℕ
  pub trace : Trace Call Answer

module _ (polling_interval_ms : ℕ) (env : Env Call Answer) where
  abbrev pub zephyr : Call → Io JoystickData Answer
  zephyr c d = (env d.trace c, record d { trace = (c, env d.trace c) ∷ d.trace })

  -- Both failures go to `reschedule`, and so does the end of a good round.
  unfoldable pub joystick_poll : JoystickData → JoystickData
  joystick_poll d =
      let x = zephyr (adc_read_dt axis_x) d in
      let d_x = record x.1 { raw_x = x.0.sample } in
      let y = zephyr (adc_read_dt axis_y) d_x in
      let d_y = record y.1 { raw_y = y.0.sample } in
      let told_x = (zephyr (input_report_abs axis_x (pos d_y.raw_x) false) d_y).1 in
      let told_y = (zephyr (input_report_abs axis_y (pos told_x.raw_y) true) told_x).1 in
      let done = if is_neg x.0.ret then d_x else if is_neg y.0.ret then d_y else told_y in
      (zephyr (k_work_reschedule polling_interval_ms) done).1

  unfoldable pub joystick_init : Io JoystickData ℤ
  joystick_init d =
      let ready_x = zephyr (adc_is_ready_dt axis_x) d in
      let ready_y = zephyr (adc_is_ready_dt axis_y) ready_x.1 in
      let setup_x = zephyr (adc_channel_setup_dt axis_x) ready_y.1 in
      let setup_y = zephyr (adc_channel_setup_dt axis_y) setup_x.1 in
      let init_x = zephyr (adc_sequence_init_dt axis_x) setup_y.1 in
      let init_y = zephyr (adc_sequence_init_dt axis_y) init_x.1 in
      let scheduled = zephyr (k_work_schedule polling_interval_ms) init_y.1 in
      if is_zero ready_x.0.ret
      then (neg enodev, ready_x.1)
      else if is_zero ready_y.0.ret
      then (neg enodev, ready_y.1)
      else if not (is_zero setup_x.0.ret)
      then (setup_x.0.ret, setup_x.1)
      else if not (is_zero setup_y.0.ret)
      then (setup_y.0.ret, setup_y.1)
      else if is_neg init_x.0.ret
      then (init_x.0.ret, init_x.1)
      else if is_neg init_y.0.ret
      then (init_y.0.ret, init_y.1)
      else (pos 0, scheduled.1)

-- An axis event as the input subsystem hands it on.
pub record InputEvent : Type 0 where
  pub code : Axis
  pub value : ℤ
  pub sync : Bool

abbrev pub report : Call → List InputEvent → List InputEvent
report (input_report_abs axis v s) es = record { code = axis; value = v; sync = s } ∷ es
report _ es = es

-- The events reported so far, newest first.
abbrev pub reported : Trace Call Answer → List InputEvent
reported [] = []
reported ((c, a) ∷ past) = report c (reported past)

-- The polling work was put on the queue by the last call.
abbrev pub IsArmed : Trace Call Answer → Type 0
IsArmed ((k_work_schedule ms, a) ∷ past) = Unit
IsArmed ((k_work_reschedule ms, a) ∷ past) = Unit
IsArmed _ = ⊥

-- The two reads of a round.
abbrev pub read_x : Env Call Answer → JoystickData → Answer
read_x env d = env d.trace (adc_read_dt axis_x)

abbrev pub read_y : Env Call Answer → JoystickData → Answer
read_y env d = env ((adc_read_dt axis_x, read_x env d) ∷ d.trace) (adc_read_dt axis_y)

module _ (ms : ℕ) (env : Env Call Answer) where
  -- A round of the joystick driver reports the pair it has read, X first and Y with the sync mark,
  -- exactly if both reads succeed, and nothing otherwise; in every case it puts itself on the work
  -- queue again.
  pub joystick_poll_lem :
      (d : JoystickData)
      → (reported (joystick_poll ms env d).trace ≡ (
          if is_neg (read_x env d).ret || is_neg (read_y env d).ret
          then reported d.trace
          else record { code = axis_y; value = pos (read_y env d).sample; sync = true }
            ∷ record { code = axis_x; value = pos (read_x env d).sample; sync = false }
            ∷ reported d.trace))
        × IsArmed (joystick_poll ms env d).trace
  unfolding joystick_poll
  joystick_poll_lem d = ground arith

  -- The joystick driver starts to poll exactly if its initialisation returns 0.
  joystick_init-IsArmed :
      (d : JoystickData)
      → (is_zero (joystick_init ms env d).0 ≡ true) ↔ IsArmed (joystick_init ms env d).1.trace
  unfolding joystick_init
  joystick_init-IsArmed d = ground arith
