-- ===== src/Joystick/Tests.antt =====
-- Runs of the joystick's driver and of its way to the web page, and the theorems at concrete inputs.
use zephyr_development.Prelude.{◌≡◌, refl, true, false, [], ◌∷◌, ℤ, pos, neg, Env}
use zephyr_development.Joystick.Driver.{
  JoystickData, Call, Answer, adc_read_dt, axis_x, axis_y, joystick_poll, reported,
}
use zephyr_development.Joystick.Hal
use zephyr_development.Joystick.Published.{shown, page_of, joystick_poll-page_of}

-- X reads 300, Y reads 400; all else answers 1, which `adc_is_ready_dt` means as true.
abbrev steady : Env Call Answer
steady past (adc_read_dt axis_x) = record { ret = pos 0; sample = 300 }
steady past (adc_read_dt axis_y) = record { ret = pos 0; sample = 400 }
steady past c = record { ret = pos 1; sample = 0 }

-- The Y channel fails.
abbrev broken_y : Env Call Answer
broken_y past (adc_read_dt axis_y) = record { ret = neg 5; sample = 0 }
broken_y past c = record { ret = pos 0; sample = 300 }

abbrev powered : JoystickData
powered = record { raw_x = 0; raw_y = 0; trace = [] }

abbrev publishing : Env Hal.Call ℤ
publishing past c = pos 0

poll_runs :
    reported (joystick_poll 50 steady powered).trace
    ≡ record { code = axis_y; value = pos 400; sync = true }
      ∷ record { code = axis_x; value = pos 300; sync = false }
      ∷ []
unfolding joystick_poll
poll_runs = refl

page_runs :
    page_of 50 steady publishing (joystick_poll 50 steady powered)
    ≡ record { x = pos 300; y = pos 400 }
unfolding joystick_poll shown Hal.after_events
page_runs = refl

joystick_poll-page_of_example :
    page_of 50 steady publishing (joystick_poll 50 steady powered)
    ≡ record { x = pos 300; y = pos 400 }
unfolding Hal.after_events
joystick_poll-page_of_example = joystick_poll-page_of 50 steady publishing powered
