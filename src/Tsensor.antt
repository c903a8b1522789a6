-- ===== src/Tsensor.antt =====
-- app/src/tsensor.c: the die temperature, polled and published on a zbus channel with a validator. The sensor
-- driver, the work queue and zbus are outside code.
mod Tests
use zephyr_development.Prelude.{
  ℕ, ◌≡◌, refl, ap, ◌∙◌, Bool, true, false, ◌&&◌, not, Option, none, some, List, [], ◌∷◌, ℤ, pos,
  neg, is_zero, is_pos, Env, Trace, Io, arith, if◌then◌else◌, enodev, enomem,
}

pub data Call : Type 0 where
  device_is_ready : Call
  sensor_sample_fetch : Call
  sensor_channel_get : Call
  k_uptime_seconds : Call
  k_malloc : Call
  k_work_schedule : Call
  k_work_reschedule : Call

-- The return value (0 also stands for false and NULL), and the number read. Temperatures are in millionths of
-- a degree, as `struct sensor_value` holds them.
pub record Answer : Type 0 where
  pub ret : ℤ
  pub value : ℤ

-- `struct sensor_data`
pub record SensorData : Type 0 where
  pub time_stamp_seconds : ℤ
  pub temperature : ℤ

unfoldable pub temp_verify : SensorData → Bool
temp_verify sdata = is_pos sdata.temperature

-- A zbus channel, as documented: a message that the validator refuses does not change it.
pub record Zbus : Type 1 where
  pub Channel : Type 0
  pub content : Channel → SensorData
  pub zbus_chan_pub : (SensorData → Bool) → SensorData → Channel → Channel
  pub content-zbus_chan_pub :
      (validator : SensorData → Bool) (msg : SensorData) (c : Channel)
      → content (zbus_chan_pub validator msg c) ≡ (if validator msg then msg else content c)

temperature_if :
    (b : Bool) (m m' : SensorData)
    → (if b then m else m').temperature ≡ (if b then m.temperature else m'.temperature)
temperature_if true m m' = refl
temperature_if false m m' = refl

module _ (Z : Zbus) where
  pub record Sensor : Type 0 where
    pub temp_sensor_chan : Z.Channel
    pub trace : Trace Call Answer

module _ (Z : Zbus) (env : Env Call Answer) where
  abbrev pub zephyr : Call → Io (Sensor Z) Answer
  zephyr c s = (env s.trace c, record s { trace = (c, env s.trace c) ∷ s.trace })

  unfoldable pub cpu_get_temperature : Io (Sensor Z) ℤ
  cpu_get_temperature s =
      let ready = zephyr device_is_ready s in
      let fetched = zephyr sensor_sample_fetch ready.1 in
      let got = zephyr sensor_channel_get fetched.1 in
      if is_zero ready.0.ret
      then (pos 0, ready.1)
      else if not (is_zero fetched.0.ret)
      then (pos 0, fetched.1)
      else if not (is_zero got.0.ret)
      then (pos 0, got.1)
      else (got.0.value, got.1)

  unfoldable pub workqueue_handler : Sensor Z → Sensor Z
  workqueue_handler s =
      let measured = cpu_get_temperature s in
      let uptime = zephyr k_uptime_seconds measured.1 in
      let msg : SensorData = record {
        temperature = measured.0;
        time_stamp_seconds = uptime.0.value;
      } in
      let sent = record uptime.1 {
        temp_sensor_chan = Z.zbus_chan_pub temp_verify msg uptime.1.temp_sensor_chan;
      } in
      (zephyr k_work_reschedule sent).1

  unfoldable pub tsensor_polling_start : Io (Sensor Z) ℤ
  tsensor_polling_start s =
      let ready = zephyr device_is_ready s in
      let block = zephyr k_malloc ready.1 in
      let scheduled = zephyr k_work_schedule block.1 in
      if is_zero ready.0.ret
      then (neg enodev, ready.1)
      else if is_zero block.0.ret
      then (neg enomem, block.1)
      else (pos 0, scheduled.1)

  -- What the three calls of a measurement answer, made at `s`.
  abbrev pub fetch_at : Sensor Z → Trace Call Answer
  fetch_at s = (device_is_ready, env s.trace device_is_ready) ∷ s.trace

  abbrev pub get_at : Sensor Z → Trace Call Answer
  get_at s = (sensor_sample_fetch, env (fetch_at s) sensor_sample_fetch) ∷ fetch_at s

  -- The reading, none if one of the calls fails.
  abbrev pub reading : Sensor Z → Option ℤ
  reading s =
      if not (is_zero (env s.trace device_is_ready).ret)
        && is_zero (env (fetch_at s) sensor_sample_fetch).ret
        && is_zero (env (get_at s) sensor_channel_get).ret
      then some (env (get_at s) sensor_channel_get).value
      else none

  abbrev pub shown : Option ℤ → ℤ → ℤ
  shown none before = before
  shown (some t) before = if is_pos t then t else before

  temperature-cpu :
      (s : Sensor Z) (before : ℤ)
      → (let t = (cpu_get_temperature s).0 in if is_pos t then t else before)
        ≡ shown (reading s) before
  unfolding cpu_get_temperature
  temperature-cpu s before = ground arith

  chan-cpu : (s : Sensor Z) → (cpu_get_temperature s).1.temp_sensor_chan ≡ s.temp_sensor_chan
  unfolding cpu_get_temperature
  chan-cpu s = ground arith

  -- After a round of the temperature sensor the channel shows the temperature of the round if
  -- every call of the measurement succeeded and it is above zero, and otherwise the one that it
  -- showed before.
  pub temperature-workqueue_handler :
      (s : Sensor Z)
      → (Z.content (workqueue_handler s).temp_sensor_chan).temperature
        ≡ shown (reading s) (Z.content s.temp_sensor_chan).temperature
  unfolding workqueue_handler temp_verify
  temperature-workqueue_handler s =
      let measured = cpu_get_temperature s in
      let uptime = zephyr k_uptime_seconds measured.1 in
      let msg : SensorData = record {
        temperature = measured.0;
        time_stamp_seconds = uptime.0.value;
      } in
      let before = λ (c : Z.Channel). (Z.content c).temperature in
      ap (λ (m : SensorData). m.temperature)
        (Z.content-zbus_chan_pub temp_verify msg measured.1.temp_sensor_chan)
      ∙ temperature_if (is_pos measured.0) msg (Z.content measured.1.temp_sensor_chan)
      ∙ ap (λ (c : Z.Channel). if is_pos measured.0 then measured.0 else before c) (chan-cpu s)
      ∙ temperature-cpu s (before s.temp_sensor_chan)
