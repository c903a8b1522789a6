-- ===== src/HttpServer/Reader.antt =====
-- A reader for the text of `/api/sensor`, as a client of app/src/http_server.c would write it, and that
-- it gets back what the callback printed.
use zephyr_development.Prelude.{
  ℕ, zero, suc, ◌+◌, ◌*◌, ◌-◌, ◌/◌, ◌%◌, ◌^◌, ◌≤◌, ◌<◌, ◌≡◌, refl, ap, ◌∙◌, Bool, true, false, ◌&&◌,
  Option, none, some, List, [], ◌∷◌, ◌++◌, ℤ, pos, negsuc, neg, arith, leb, ◌==◌, if◌then◌else◌,
  length, ==-refl,
}
use zephyr_development.Joystick.Hal.{JoystickData}
use zephyr_development.HttpServer.{
  decimal_from, decimal, signed, json_text, codes, data_final, Resource, Response, sensor_cb,
}
use zephyr_development.HttpServer.Json.{sensor_cb_body}

abbrev pub is_digit : ℕ → Bool
is_digit c = leb 48 c && leb c 57

-- The digits at the front, after the number `v`, and the text behind them.
pub scan : ℕ → List ℕ → ℕ × List ℕ
scan v [] = (v, [])
scan v (c ∷ cs) = let rest = scan (v * 10 + (c - 48)) cs in if is_digit c then rest else (v, c ∷ cs)

-- A number with at least one digit.
pub read_number : List ℕ → Option (ℕ × List ℕ)
read_number [] = none
read_number (c ∷ cs) = if is_digit c then some (scan 0 (c ∷ cs)) else none

pub read_signed : List ℕ → Option (ℤ × List ℕ)
read_signed [] = none
read_signed (c ∷ cs) =
    if c == b'-'
    then elim (read_number cs) [ none ↦ none | some (n, rest) ↦ some (neg n, rest) ]
    else elim (read_number (c ∷ cs)) [ none ↦ none | some (n, rest) ↦ some (pos n, rest) ]

-- The text behind a fixed beginning.
pub expect : List ℕ → List ℕ → Option (List ℕ)
expect [] s = some s
expect (p ∷ ps) [] = none
expect (p ∷ ps) (c ∷ s) = let rest = expect ps s in if p == c then rest else none

abbrev starts_digit : List ℕ → Bool
starts_digit [] = false
starts_digit (c ∷ cs) = is_digit c

scan-decimal_from :
    (fuel n : ℕ) (acc rest : List ℕ)
    → n < 10 ^ suc fuel
    → scan 0 (decimal_from (suc fuel) n acc ++ rest) ≡ scan n (acc ++ rest)
unfolding decimal_from scan
scan-decimal_from zero n acc rest h = ground arith
scan-decimal_from (suc fuel) n acc rest h =
    ground (arith, scan-decimal_from fuel (n / 10) ((48 + n % 10) ∷ acc) rest)

starts_digit-keep :
    (fuel n : ℕ) (acc rest : List ℕ)
    → starts_digit (acc ++ rest) ≡ true
    → starts_digit (decimal_from fuel n acc ++ rest) ≡ true
unfolding decimal_from
starts_digit-keep zero n acc rest h = h
starts_digit-keep (suc fuel) n acc rest h =
    ground (arith, starts_digit-keep fuel (n / 10) ((48 + n % 10) ∷ acc) rest)

starts_digit-decimal : (n : ℕ) (rest : List ℕ) → starts_digit (decimal n ++ rest) ≡ true
unfolding decimal decimal_from
starts_digit-decimal n rest =
    ground (arith, starts_digit-keep 19 (n / 10) ((48 + n % 10) ∷ []) rest)

read_number-scan : (s : List ℕ) → starts_digit s ≡ true → read_number s ≡ some (scan 0 s)
unfolding read_number
read_number-scan [] h = cc
read_number-scan (c ∷ cs) h = ground arith

-- A printed number reads back, with what follows it, if that does not go on with a digit.
read_number-decimal :
    (n c : ℕ) (rest : List ℕ)
    → n < 10 ^ 20
    → is_digit c ≡ false
    → read_number (decimal n ++ c ∷ rest) ≡ some (n, c ∷ rest)
unfolding decimal scan
read_number-decimal n c rest h e =
    read_number-scan (decimal n ++ c ∷ rest) (starts_digit-decimal n (c ∷ rest))
    ∙ ap some (scan-decimal_from 19 n [] (c ∷ rest) h ∙ ground (arith, e))

read_signed_number :
    (s : List ℕ) (n : ℕ) (rest : List ℕ)
    → starts_digit s ≡ true
    → read_number s ≡ some (n, rest)
    → read_signed s ≡ some (pos n, rest)
unfolding read_signed
read_signed_number [] n rest h e = cc
read_signed_number (c ∷ cs) n rest h e = ground (arith, e)

read_signed_minus :
    (s : List ℕ) (n : ℕ) (rest : List ℕ)
    → read_number s ≡ some (n, rest)
    → read_signed (b'-' ∷ s) ≡ some (neg n, rest)
unfolding read_signed
read_signed_minus s n rest e = rw e refl

abbrev pub magnitude : ℤ → ℕ
magnitude (pos n) = n
magnitude (negsuc n) = n + 1

read_signed-signed :
    (z : ℤ) (c : ℕ) (rest : List ℕ)
    → magnitude z < 10 ^ 20
    → is_digit c ≡ false
    → read_signed (signed z ++ c ∷ rest) ≡ some (z, c ∷ rest)
unfolding signed
read_signed-signed (pos n) c rest h e =
    read_signed_number (decimal n ++ c ∷ rest) n (c ∷ rest) (starts_digit-decimal n (c ∷ rest))
      (read_number-decimal n c rest h e)
read_signed-signed (negsuc n) c rest h e =
    read_signed_minus (decimal (n + 1) ++ c ∷ rest) (n + 1) (c ∷ rest)
      (read_number-decimal (n + 1) c rest h e)
    ∙ ap (λ k. some (neg k, c ∷ rest)) (let same : n + 1 ≡ suc n = omega arith in same)

expect-append : (p s : List ℕ) → expect p (p ++ s) ≡ some s
unfolding expect
expect-append [] s = refl
expect-append (c ∷ p) s = rw (==-refl c) (expect-append p s)

abbrev and_then : {A B : Type 0} → Option A → (A → Option B) → Option B
and_then none f = none
and_then (some a) f = f a

-- What a client gets out of the text: the pair and the seconds.
pub record Reading : Type 0 where
  pub pair : JoystickData
  pub seconds : ℕ

-- The reader of the whole text: the fixed parts with the three numbers between them, and nothing behind.
pub read_json : List ℕ → Option Reading
read_json s = and_then (expect (codes "{\"device\":\"dinhnamuet\",\"X-axis\":") s) (λ s1.
    and_then (read_signed s1) (λ x. and_then (expect (codes ",\"Y-axis\":") x.1) (λ s2.
      and_then (read_signed s2) (λ y. and_then (expect (codes ",\"uptime secs\":") y.1) (λ s3.
        and_then (read_number s3) (λ t.
          if length t.1 == 1
          then some (record { pair = record { x = x.0; y = y.0 }; seconds = t.0 })
          else none))))))

read_json-json_text :
    (d : JoystickData) (uptime : ℕ)
    → magnitude d.x ≤ 2 ^ 31
    → magnitude d.y ≤ 2 ^ 31
    → uptime < 2 ^ 63
    → read_json (json_text d uptime) ≡ some (record { pair = d; seconds = uptime / 1000 })
unfolding read_json json_text
read_json-json_text d uptime hx hy ht =
    let t = decimal (uptime / 1000) ++ codes "}" in
    let y = signed d.y ++ (codes ",\"uptime secs\":" ++ t) in
    let x = signed d.x ++ (codes ",\"Y-axis\":" ++ y) in
    rw
      (
        expect-append (codes "{\"device\":\"dinhnamuet\",\"X-axis\":") x,
        read_json,
        read_signed-signed d.x 44 (codes "\"Y-axis\":" ++ y) (omega arith) refl,
        expect-append (codes ",\"Y-axis\":") y,
        read_signed-signed d.y 44 (codes "\"uptime secs\":" ++ t) (omega arith) refl,
        expect-append (codes ",\"uptime secs\":") t,
        read_number-decimal (uptime / 1000) 125 [] (omega arith) refl,
      )
      refl

-- For a pair of 32-bit numbers and an uptime below 2^63, a reader of the JSON text gets back from
-- every answer of the sensor resource the pair itself and the uptime in whole seconds, and finds
-- nothing behind.
pub read_json-sensor_cb :
    (d : JoystickData) (uptime : ℕ) (s : Resource) (r : Response)
    → magnitude d.x ≤ 2 ^ 31
    → magnitude d.y ≤ 2 ^ 31
    → uptime < 2 ^ 63
    → read_json (sensor_cb d uptime data_final s r).2.body
      ≡ some (record { pair = d; seconds = uptime / 1000 })
read_json-sensor_cb d uptime s r hx hy ht =
    ap read_json (sensor_cb_body d uptime s r).0 ∙ read_json-json_text d uptime hx hy ht
