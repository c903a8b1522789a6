-- ===== src/Usb/Tests.antt =====
-- Runs of app/src/usb.c, and the theorems at concrete inputs.
use zephyr_development.Prelude.{
  ◌≡◌, ◌⊎◌, refl, true, false, none, some, List, [], ◌∷◌, ℤ, pos, neg, Env,
}
use zephyr_development.Fifo.{list_fifo}
use zephyr_development.Usb.{
  Msg, Call, UsbApp, configuration, suspend, vbus_ready, other, usbd_register_class, usb_app_send,
  usb_app_init, usb_msg_cb, build_device,
}
use zephyr_development.Usb.Ready.{after_messages, sent, sent-usb_app_send}
use zephyr_development.Usb.Start.{
  at_boot, all_good, calls, whole_start, detects, IsStopped, usb_app_init_outcome,
}
use zephyr_development.Usb.Receive.{Frame, Receiver, usb_rx_cb, usb_rx_round}
use zephyr_development.Usb.Receive.Order.{
  Reach, start, received, served, IsInOrder, rounds, rounds_drain,
}

-- Every call answers 0 but the ones that answer true.
abbrev good : Env Call ℤ
good past Call.device_is_ready = pos 1
good past c = pos 0

-- The class cannot be registered.
abbrev no_class : Env Call ℤ
no_class past Call.device_is_ready = pos 1
no_class past usbd_register_class = neg 22
no_class past c = pos 0

abbrev unplugged : UsbApp
unplugged = record { usb_ready = false; user_rx_handler = none; trace = [] }

-- Newest first: other, configured, the supply seen.
abbrev plugged_in : List Msg
plugged_in = other ∷ configuration 1 ∷ vbus_ready ∷ []

sent-usb_app_send_example :
    sent
      (usb_app_send good (some (5 ∷ 1 ∷ [])) 2 (after_messages good plugged_in unplugged)).1.trace
    ≡ (5 ∷ 1 ∷ []) ∷ []
unfolding usb_msg_cb
sent-usb_app_send_example = sent-usb_app_send good plugged_in (5 ∷ 1 ∷ []) 2 unplugged

suspended_refuses :
    (usb_app_send good (some (5 ∷ [])) 1 (after_messages good (suspend ∷ plugged_in) unplugged)).0
    ≡ neg 128
unfolding usb_app_send usb_msg_cb
suspended_refuses = refl

usb_app_init_outcome_example :
    let r = usb_app_init good (some 3) at_boot in
    (r.0 ≡ pos 0)
      × (all_good r.1.trace ≡ true)
      × (calls r.1.trace ≡ whole_start (detects r.1.trace))
      × (r.1.user_rx_handler ≡ some 3)
    ⊎ IsStopped r.0 r.1.trace
usb_app_init_outcome_example = usb_app_init_outcome good (some 3)

init_refused : (usb_app_init no_class (some 3) unplugged).0 ≡ neg 22
unfolding usb_app_init build_device
init_refused = refl

-- Two packets come, one is handled, a third finds no block.
abbrev at_start : Receiver (list_fifo Frame)
at_start = record { rx_fifo = []; usb_heap = []; bad_free = false; handed = [] }

abbrev one_waits : Receiver (list_fifo Frame)
one_waits = record {
  rx_fifo = record { pointer = 200; bytes = 4 ∷ 9 ∷ [] } ∷ [];
  usb_heap = 200 ∷ [];
  bad_free = false;
  handed = (3 ∷ []) ∷ [];
}

busy : Reach (list_fifo Frame) [] (some 1) ((3 ∷ []) ∷ (4 ∷ 9 ∷ []) ∷ []) one_waits
unfolding usb_rx_cb usb_rx_round
busy =
    received _ _ none (5 ∷ [])
      (served _ _ (received _ _ (some 200) (4 ∷ 9 ∷ []) (received _ _ (some 100) (3 ∷ []) start)))

rounds_drain_example :
    let s' = rounds (list_fifo Frame) [] (some 1) 1 one_waits in
    (s'.usb_heap ≡ []) × IsInOrder (some 1) s'.handed [] ((3 ∷ []) ∷ (4 ∷ 9 ∷ []) ∷ [])
rounds_drain_example = rounds_drain (list_fifo Frame) [] (some 1) _ one_waits refl busy
