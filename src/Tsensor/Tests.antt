-- ===== src/Tsensor/Tests.antt =====
-- A round of app/src/tsensor.c on a channel that is one message, with a reading and with a failed one.
use zephyr_development.Prelude.{◌≡◌, refl, if◌then◌else◌, [], pos, neg, Env}
use zephyr_development.Tsensor.{
  Call, Answer, SensorData, Zbus, Sensor, device_is_ready, sensor_sample_fetch, workqueue_handler,
  cpu_get_temperature, temp_verify, temperature-workqueue_handler,
}

-- A channel that is its message.
abbrev cell : Zbus
cell = record {
  Channel = SensorData;
  content = λ c. c;
  zbus_chan_pub = λ validator msg c. if validator msg then msg else c;
  content-zbus_chan_pub = λ validator msg c. refl;
}

abbrev warm : Env Call Answer
warm past device_is_ready = record { ret = pos 1; value = pos 0 }
warm past c = record { ret = pos 0; value = pos 36500000 }

abbrev faulty : Env Call Answer
faulty past device_is_ready = record { ret = pos 1; value = pos 0 }
faulty past sensor_sample_fetch = record { ret = neg 5; value = pos 0 }
faulty past c = record { ret = pos 0; value = pos 36500000 }

abbrev cold_start : Sensor cell
cold_start = record {
  temp_sensor_chan = record { time_stamp_seconds = pos 0; temperature = pos 0 };
  trace = [];
}

faulty_shows_nothing :
    (workqueue_handler cell faulty cold_start).temp_sensor_chan.temperature ≡ pos 0
unfolding workqueue_handler cpu_get_temperature temp_verify
faulty_shows_nothing = refl

temperature-workqueue_handler_example :
    (workqueue_handler cell warm cold_start).temp_sensor_chan.temperature ≡ pos 36500000
temperature-workqueue_handler_example = temperature-workqueue_handler cell warm cold_start
