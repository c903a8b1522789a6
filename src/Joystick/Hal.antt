-- ===== src/Joystick/Hal.antt =====
-- app/src/joystick_hal.c: axis events in, pairs out on the zbus channel `joystick_chan`.
use zephyr_development.Prelude.{List, [], ◌∷◌, ℤ, pos, Env, Trace, if◌then◌else◌}
use zephyr_development.Joystick.Driver.{Axis, axis_x, axis_y, axis_other, InputEvent}

-- `struct joystick_data` of app/inc/joystick_hal.h
pub record JoystickData : Type 0 where
  pub x : ℤ
  pub y : ℤ

-- `zbus_chan_pub` with the message.
pub data Call : Type 0 where
  zbus_chan_pub : JoystickData → Call

pub record Hal : Type 0 where
  pub current : JoystickData
  pub trace : Trace Call ℤ

-- `data.x = evt->value` or `data.y = evt->value`.
abbrev pub store : Axis → ℤ → JoystickData → JoystickData
store axis_x v d = record d { x = v }
store axis_y v d = record d { y = v }
store axis_other v d = d

-- An event with another code is published too if it has the sync mark.
unfoldable pub joystick_callback : Env Call ℤ → InputEvent → Hal → Hal
joystick_callback env evt h =
    let now = store evt.code evt.value h.current in
    let ret = env h.trace (zbus_chan_pub now) in
    if evt.sync
    then record { current = now; trace = (zbus_chan_pub now, ret) ∷ h.trace }
    else record h { current = now }

-- The static data starts at zero.
abbrev pub initial : Hal
initial = record { current = record { x = pos 0; y = pos 0 }; trace = [] }

-- The state after a history of events, newest first.
unfoldable pub after_events : Env Call ℤ → List InputEvent → Hal
unfolding joystick_callback
after_events env [] = initial
after_events env (e ∷ past) = joystick_callback env e (after_events env past)
