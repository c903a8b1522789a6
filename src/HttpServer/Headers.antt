-- ===== src/HttpServer/Headers.antt =====
-- The static `headers_sent` of `sensor_cb`: which answers carry the status line.
use zephyr_development.Prelude.{
  ℕ, ◌≡◌, refl, Bool, true, false, some, List, [], ◌∷◌, arith, if◌then◌else◌,
}
use zephyr_development.Joystick.Hal.{JoystickData}
use zephyr_development.HttpServer.{
  Status, aborted, complete, data_more, data_final, Resource, Response, sensor_cb, initial,
}

-- One call, by any client: its transaction status, the pair and the uptime of the moment, and the
-- response that it may fill in.
pub record Request : Type 0 where
  pub status : Status
  pub data_now : JoystickData
  pub uptime : ℕ
  pub response : Response

-- The statics after a history of calls, newest first.
unfoldable pub after_calls : List Request → Resource
after_calls [] = initial
after_calls (q ∷ past) = (sensor_cb q.data_now q.uptime q.status (after_calls past) q.response).1

-- A final chunk was answered since a transaction last ended.
abbrev pub answer_open : List Request → Bool
answer_open [] = false
answer_open (q ∷ past) = elim q.status [
  | aborted ↦ false
  | complete ↦ false
  | data_more ↦ answer_open past
  | data_final ↦ true
]

after_calls-headers_sent :
    (past : List Request) → (after_calls past).headers_sent ≡ answer_open past
unfolding after_calls sensor_cb
after_calls-headers_sent [] = refl
after_calls-headers_sent (q ∷ past) = ground (arith, after_calls-headers_sent past)

-- After any history of calls, a final request is given the status 200 exactly if no other final
-- request was answered since a transaction last ended; otherwise its status is left as it came.
pub sensor_cb_status :
    (past : List Request) (d : JoystickData) (uptime : ℕ) (r : Response)
    → (sensor_cb d uptime data_final (after_calls past) r).2.status
      ≡ (if answer_open past then r.status else some 200)
unfolding sensor_cb
sensor_cb_status past d uptime r = ground (arith, after_calls-headers_sent past)
