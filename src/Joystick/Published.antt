-- ===== src/Joystick/Published.antt =====
-- From the ADC to the web page: modules/drivers/joystick/src/joystick.c, app/src/joystick_hal.c and the
-- listener of app/src/http_server.c together.
use zephyr_development.Prelude.{
  ◌≡◌, Bool, ◌&&◌, ◌||◌, not, [], ◌∷◌, ℤ, pos, is_neg, is_zero, Env, Trace, ℕ, arith, if◌then◌else◌,
}
use zephyr_development.Joystick.Driver
use zephyr_development.Joystick.Driver.{joystick_poll, joystick_poll_lem, reported, read_x, read_y}
use zephyr_development.Joystick.Hal.{JoystickData, Call, zbus_chan_pub, Hal, after_events}
use zephyr_development.HttpServer.{listener_cb}

-- The pair that the HTTP server holds: zbus runs the listener while it publishes, once for
-- each message that was published.
unfoldable pub shown : Trace Call ℤ → JoystickData
shown [] = record { x = pos 0; y = pos 0 }
shown ((zbus_chan_pub msg, ret) ∷ past) =
    if is_zero ret then listener_cb msg (shown past) else shown past

module _ (ms : ℕ) (adc : Env Driver.Call Driver.Answer) (zbus : Env Call ℤ) where
  abbrev pub hal_of : Driver.JoystickData → Hal
  hal_of d = after_events zbus (reported d.trace)

  abbrev pub page_of : Driver.JoystickData → JoystickData
  page_of d = shown (hal_of d).trace

  -- The pair of one round.
  abbrev pub pair : Driver.JoystickData → JoystickData
  pair d = record { x = pos (read_x adc d).sample; y = pos (read_y adc d).sample }

  -- Both reads of the round succeed, and its pair is published.
  abbrev pub published : Driver.JoystickData → Bool
  published d =
      not (is_neg (read_x adc d).ret || is_neg (read_y adc d).ret)
      && is_zero (zbus (hal_of d).trace (zbus_chan_pub (pair d)))

  -- After every round of the joystick driver the web page's pair is that of the round if both
  -- reads succeeded and the pair was published, and otherwise what it was before.
  pub joystick_poll-page_of :
      (d : Driver.JoystickData)
      → page_of (joystick_poll ms adc d) ≡ (if published d then pair d else page_of d)
  unfolding shown after_events
  joystick_poll-page_of d = rw (joystick_poll_lem ms adc d).0 (ground arith)
