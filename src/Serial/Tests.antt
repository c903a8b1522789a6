-- ===== src/Serial/Tests.antt =====
-- Runs of app/src/serial.c, and the theorems at concrete inputs.
use zephyr_development.Prelude.{
  ◌≡◌, ◌++◌, refl, none, some, [], ◌∷◌, pos, Env, is_zero, if◌then◌else◌, arith, false,
}
use zephyr_development.Fifo.{Fifo, list_fifo}
use zephyr_development.Usb.Receive.{Frame}
use zephyr_development.Serial.{
  Call, Answer, Port, device_is_ready, initial, uart_cb, serial_write, rx_buf_request,
  rx_buf_released, rx_rdy, uart_entry_round, queue_frame,
}
use zephyr_development.Serial.Write.{line, bytes_of, line-serial_write}
use zephyr_development.Serial.Driver.{
  Line, Reach, start, then_step, asks, byte_in, reports, switches, served, at_start, response,
}
use zephyr_development.Serial.Ownership.{IsOwned, Reach-IsOwned}
use zephyr_development.Serial.Stream.{IsStreamed, Reach-IsStreamed}

abbrev attached : Env Call Answer
attached past device_is_ready = record { ret = pos 1; block = none }
attached past c = record { ret = pos 0; block = some 100 }

abbrev frames : Fifo Frame
frames = list_fifo Frame

abbrev port : Port frames
port = initial frames []

line-serial_write_example :
    line (serial_write frames attached (some (72 ∷ 105 ∷ [])) port).1.trace
    ≡ []
      ++ (if is_zero (serial_write frames attached (some (72 ∷ 105 ∷ [])) port).0
          then bytes_of (some (72 ∷ 105 ∷ []))
          else [])
line-serial_write_example = line-serial_write frames attached (some (72 ∷ 105 ∷ [])) port

hi_written : line (serial_write frames attached (some (72 ∷ 105 ∷ [])) port).1.trace ≡ 72 ∷ 105 ∷ []
unfolding serial_write
hi_written = refl

-- The driver is given buffer 1, puts 7 into buffer 0, reports it and goes on with buffer 1; the thread hands the
-- 7 over; 8 comes in.
abbrev reported : Port frames
reported =
    uart_cb frames attached (rx_rdy (7 ∷ 0 ∷ []) 0 1) (uart_cb frames attached rx_buf_request port)

abbrev released : Port frames
released = uart_cb frames attached (rx_buf_released 0) reported

abbrev after_switch : Line frames
after_switch = record {
  port = record released { frames = uart_entry_round frames released.frames };
  driver = record { current = 1; next = none; filled = 8 ∷ []; reported = 0 };
  arrived = 7 ∷ 8 ∷ [];
  accepted = (7 ∷ []) ∷ [];
  dropped = false;
}

switched : Reach frames attached [] after_switch
unfolding uart_cb
switched =
    let asked = then_step _ _ start (asks (at_start frames attached []) refl) in
    let filled = then_step _ _ asked (byte_in _ 7 (omega arith)) in
    let told = then_step _ _ filled (reports _ (0 ∷ [])) in
    let gone_on = then_step _ _ told (switches _ 1 refl refl) in
    let handed_over = then_step _ _ gone_on (served _) in
    then_step _ _ handed_over (byte_in _ 8 (omega arith))

Reach-IsOwned_example :
    IsOwned frames after_switch
    × (response after_switch.port.trace
          (uart_cb frames attached rx_buf_request after_switch.port).trace
        ≡ some after_switch.port.free_buf)
Reach-IsOwned_example = Reach-IsOwned frames attached [] after_switch switched

Reach-IsStreamed_example : IsStreamed frames attached [] after_switch
Reach-IsStreamed_example = Reach-IsStreamed frames attached [] after_switch refl switched

seven_handed_over : after_switch.port.frames.handed ≡ (7 ∷ []) ∷ []
unfolding uart_cb uart_entry_round queue_frame
seven_handed_over = refl
