-- ===== src/HttpServer/Json.antt =====
-- The answer of `/api/sensor`: it always fits its buffer.
use zephyr_development.Prelude.{
  ℕ, zero, suc, ◌+◌, ◌*◌, ◌-◌, ◌/◌, ◌%◌, ◌^◌, ◌≤◌, ◌<◌, ◌≡◌, true, List, [], ◌∷◌, ℤ, pos, negsuc,
  arith, length, length-append, take_all,
}
use zephyr_development.Joystick.Hal.{JoystickData}
use zephyr_development.HttpServer.{
  decimal_from, decimal, signed, json_text, json_buf_size, data_final, Resource, Response,
  sensor_cb,
}

-- The number that a list of digits stands for, after the number `v`.
pub read_digits : ℕ → List ℕ → ℕ
read_digits v [] = v
read_digits v (c ∷ cs) = read_digits (v * 10 + (c - 48)) cs

read_digits-decimal_from :
    (fuel n : ℕ) (acc : List ℕ)
    → n < 10 ^ suc fuel
    → read_digits 0 (decimal_from (suc fuel) n acc) ≡ read_digits n acc
unfolding decimal_from read_digits
read_digits-decimal_from zero n acc h = ground (arith)
read_digits-decimal_from (suc fuel) n acc h =
    ground (arith, read_digits-decimal_from fuel (n / 10) ((48 + n % 10) ∷ acc))

length-decimal_from :
    (fuel n : ℕ) (acc : List ℕ) → length (decimal_from fuel n acc) ≤ fuel + length acc
unfolding decimal_from
length-decimal_from zero n acc = omega arith
length-decimal_from (suc fuel) n acc =
    ground (arith, length-decimal_from fuel (n / 10) ((48 + n % 10) ∷ acc))

length-decimal : (n : ℕ) → length (decimal n) ≤ 20
unfolding decimal
length-decimal n = omega (arith, length-decimal_from 20 n [])

length-signed : (z : ℤ) → length (signed z) ≤ 21
unfolding signed
length-signed (pos n) = omega (arith, length-decimal n)
length-signed (negsuc n) = omega (arith, length-decimal (n + 1))

length-json_text : (d : JoystickData) (uptime : ℕ) → length (json_text d uptime) ≤ 200
unfolding json_text
length-json_text d uptime =
    simp length-append
      (omega (arith, length-signed d.x, length-signed d.y, length-decimal (uptime / 1000)))

-- Every answer of the sensor resource is the whole text, shorter than its buffer whatever the pair
-- and the uptime are, with its length announced, as the final chunk, and the buffer holds it too.
pub sensor_cb_body :
    (d : JoystickData) (uptime : ℕ) (s : Resource) (r : Response)
    → let (ret, s', r') = sensor_cb d uptime data_final s r in
      (r'.body ≡ json_text d uptime)
      × (r'.body_len ≡ length (json_text d uptime))
      × (r'.body_len < json_buf_size)
      × (r'.final_chunk ≡ true)
      × (s'.json_buf ≡ r'.body)
unfolding sensor_cb
sensor_cb_body d uptime s r =
    let short = length-json_text d uptime in
    let whole = take_all 255 (json_text d uptime) (omega (arith, short)) in
    ground (arith, short, whole)

-- The digits printed for a number of at most twenty digits read back as that number.
pub read_digits-decimal : (n : ℕ) → n < 10 ^ 20 → read_digits 0 (decimal n) ≡ n
unfolding decimal read_digits
read_digits-decimal n h = read_digits-decimal_from 19 n [] h
