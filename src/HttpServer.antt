-- ===== src/HttpServer.antt =====
-- app/src/http_server.c: the listener that copies the joystick's pairs, and the dynamic resource that
-- answers with them.
pub mod Json
pub mod Reader
pub mod Headers
mod Resources
mod Tests
use mathlib.Core.List.{map}
use Prim.Native.String.{String}
use Prim.Native.Char.{Char, code}
use zephyr_development.Prelude.{
  ℕ, zero, suc, ◌+◌, ◌-◌, ◌/◌, ◌%◌, Bool, true, false, not, Option, none, some, List, [], ◌∷◌, ◌++◌,
  ℤ, pos, negsuc, if◌then◌else◌, length, take, ltb, ◌==◌,
}
use zephyr_development.Joystick.Hal.{JoystickData}

-- `listener_cb`: both fields of the message.
abbrev pub listener_cb : JoystickData → JoystickData → JoystickData
listener_cb msg sensor_data = record { x = msg.x; y = msg.y }

-- `enum http_transaction_status`
pub data Status : Type 0 where
  aborted complete data_more data_final : Status

-- The part of `struct http_response_ctx` that the callback sets.
pub record Response : Type 0 where
  pub body : List ℕ
  pub body_len : ℕ
  pub final_chunk : Bool
  pub status : Option ℕ

-- `%d` and `%lld` of the C library: decimal digits, most significant first. Twenty digits hold every
-- 64-bit number.
unfoldable pub decimal_from : ℕ → ℕ → List ℕ → List ℕ
decimal_from zero n acc = acc
decimal_from (suc fuel) n acc =
    let acc' = (48 + n % 10) ∷ acc in
    let rest = decimal_from fuel (n / 10) acc' in if ltb n 10 then acc' else rest

unfoldable pub decimal : ℕ → List ℕ
unfolding decimal_from
decimal n = decimal_from 20 n []

unfoldable pub signed : ℤ → List ℕ
unfolding decimal
signed (pos n) = decimal n
signed (negsuc n) = b'-' ∷ decimal (n + 1)

abbrev pub codes : String → List ℕ
codes String.[] = []
codes (String.◌∷◌ c s) = code c ∷ codes s

abbrev pub json_buf_size : ℕ
json_buf_size = 256

-- The text that the format string describes, given the pair and `k_uptime_get()`.
unfoldable pub json_text : JoystickData → ℕ → List ℕ
json_text d uptime =
    codes "{\"device\":\"dinhnamuet\",\"X-axis\":"
    ++ (signed d.x
        ++ (codes ",\"Y-axis\":"
            ++ (signed d.y
                ++ (codes ",\"uptime secs\":" ++ (decimal (uptime / 1000) ++ codes "}")))))

-- The statics of `sensor_cb`; the buffer without its terminating zero.
pub record Resource : Type 0 where
  pub json_buf : List ℕ
  pub headers_sent : Bool

-- One call of the callback. `snprintf` writes at most `sizeof(json_buf) - 1` bytes and a zero.
unfoldable pub sensor_cb : JoystickData → ℕ → Status → Resource → Response → ℤ × Resource × Response
unfolding json_text
sensor_cb sensor_data uptime complete s r = (pos 0, record s { headers_sent = false }, r)
sensor_cb sensor_data uptime aborted s r = (pos 0, record s { headers_sent = false }, r)
sensor_cb sensor_data uptime data_more s r = (pos 0, s, r)
sensor_cb sensor_data uptime data_final s r =
    let text = take (json_buf_size - 1) (json_text sensor_data uptime) in
    let answered = record r { body = text; body_len = length text; final_chunk = true } in
    if not s.headers_sent
    then (
      pos 0,
      record { json_buf = text; headers_sent = true },
      record answered { status = some 200 },
    )
    else (pos 0, record s { json_buf = text }, answered)

abbrev pub initial : Resource
initial = record { json_buf = []; headers_sent = false }
