-- ===== src/HttpServer/Tests.antt =====
-- Runs of app/src/http_server.c, and its theorems at concrete inputs.
use zephyr_development.Prelude.{
  ◌≡◌, ◌<◌, ◌^◌, arith, some, refl, true, false, none, [], ◌∷◌, pos, neg, length,
}
use zephyr_development.Joystick.Hal.{JoystickData}
use zephyr_development.HttpServer.{
  data_final, Response, sensor_cb, json_text, signed, decimal, codes, json_buf_size, initial,
}
use zephyr_development.HttpServer.Json.{sensor_cb_body}
use zephyr_development.HttpServer.Reader.{read_json, read_json-sensor_cb}
use zephyr_development.HttpServer.Headers.{Request, after_calls, sensor_cb_status}

abbrev pressed : JoystickData
pressed = record { x = pos 300; y = neg 4 }

abbrev blank : Response
blank = record { body = []; body_len = 0; final_chunk = false; status = none }

text_runs :
    json_text pressed 12345
    ≡ codes "{\"device\":\"dinhnamuet\",\"X-axis\":300,\"Y-axis\":-4,\"uptime secs\":12}"
unfolding json_text signed decimal
text_runs = refl

sensor_cb_body_example :
    let (ret, s', r') = sensor_cb pressed 12345 data_final initial blank in
    (r'.body ≡ json_text pressed 12345)
    × (r'.body_len ≡ length (json_text pressed 12345))
    × (r'.body_len < json_buf_size)
    × (r'.final_chunk ≡ true)
    × (s'.json_buf ≡ r'.body)
sensor_cb_body_example = sensor_cb_body pressed 12345 initial blank

abbrev asked : Request
asked = record { status = data_final; data_now = pressed; uptime = 0; response = blank }

-- A second client asks before the first transaction ends: its answer has no status.
sensor_cb_status_example :
    (sensor_cb pressed 7 data_final (after_calls (asked ∷ [])) blank).2.status ≡ none
sensor_cb_status_example = sensor_cb_status (asked ∷ []) pressed 7 blank

-- -2147483648, the least value of an int32_t.
abbrev far_left : JoystickData
far_left = record { x = neg (2 ^ 31); y = pos 7 }

read_json-sensor_cb_example :
    read_json (sensor_cb far_left 12345 data_final initial blank).2.body
    ≡ some (record { pair = far_left; seconds = 12 })
read_json-sensor_cb_example =
    read_json-sensor_cb far_left 12345 initial blank (omega arith) (omega arith) (omega arith)
