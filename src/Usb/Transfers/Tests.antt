-- ===== src/Usb/Transfers/Tests.antt =====
-- A packet through modules/usb_class/src/custom_class.c and app/src/usb.c, and a failed transfer.
use zephyr_development.Prelude.{◌+◌, ◌≡◌, refl, some, List, [], ◌∷◌, pos, neg, Env}
use zephyr_development.Fifo.{Fifo, list_fifo}
use zephyr_development.Usb.Receive.{Frame, usb_rx_cb, usb_rx_round}
use zephyr_development.Usb.Receive.Order.{IsConserved}
use zephyr_development.UsbClass.{
  Call, Answer, ep1out, ep1in, custom_class_request, custom_class_start_receiving,
  custom_class_set_rx, custom_class_enable, received, enqueue_rx,
}
use zephyr_development.UsbClass.Transfer.{armings}
use zephyr_development.Usb.Transfers.{
  Turn, completed, served, turns, turn, configured, turns_deliver,
}

-- Every call succeeds.
abbrev stack : Env Call Answer
stack past c = record { ret = pos 0; buf = some 1 }

abbrev frames : Fifo Frame
frames = list_fifo Frame

-- A packet of two bytes, a transfer to the host, a round of the thread, and a transfer that failed.
abbrev evening : List Turn
evening =
    completed (record { name = 1; ep = ep1out; bytes = 4 ∷ 9 ∷ [] }) (pos 0) (some 100)
    ∷ completed (record { name = 2; ep = ep1in; bytes = 4 ∷ 1 ∷ [] }) (pos 0) (some 200)
    ∷ served
    ∷ completed (record { name = 1; ep = ep1out; bytes = [] }) (neg 5) (some 200)
    ∷ []

turns_deliver_example :
    let s' = turns frames (some 7) stack evening (configured frames (some 7) stack 3 []) in
    (armings s'.class.trace ≡ 1 + 2)
    × IsConserved frames [] (some 7) ((4 ∷ 9 ∷ []) ∷ []) s'.receiver
turns_deliver_example = turns_deliver frames [] (some 7) stack 3 evening refl

handed_over :
    (turns frames (some 7) stack evening (configured frames (some 7) stack 3 [])).receiver.handed
    ≡ (4 ∷ 9 ∷ []) ∷ []
unfolding turn custom_class_request custom_class_start_receiving custom_class_set_rx
    custom_class_enable received enqueue_rx usb_rx_cb usb_rx_round
handed_over = refl
