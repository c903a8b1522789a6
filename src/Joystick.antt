-- ===== src/Joystick.antt =====
-- The joystick: modules/drivers/joystick/src/joystick.c polls two ADC channels and reports axis events,
-- app/src/joystick_hal.c collects them and publishes pairs on a zbus channel.
pub mod Driver
pub mod Hal
pub mod Published
mod Tests
