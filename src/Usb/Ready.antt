-- ===== src/Usb/Ready.antt =====
-- When app/src/usb.c takes the device for ready to send.
use zephyr_development.Prelude.{
  ℕ, ◌≡◌, ◌∙◌, refl, Bool, true, false, Option, none, some, List, [], ◌∷◌, ℤ, Env, Trace,
  if◌then◌else◌, arith,
}
use zephyr_development.Usb.{
  Msg, configuration, suspend, resume, vbus_ready, vbus_removed, other, Call, UsbApp,
  custom_class_send, usb_msg_cb, usb_app_send, usb_app_is_ready,
}

-- The device stack's messages one after the other, the newest first.
abbrev pub after_messages : Env Call ℤ → List Msg → UsbApp → UsbApp
after_messages env [] w = w
after_messages env (m ∷ ms) w = usb_msg_cb env m (after_messages env ms w)

-- What the newest message that is about the bus says: none if there is no such message.
abbrev pub bus_state : List Msg → Option Bool
bus_state [] = none
bus_state (configuration value ∷ ms) = some true
bus_state (resume ∷ ms) = some true
bus_state (suspend ∷ ms) = some false
bus_state (vbus_removed ∷ ms) = some false
bus_state (vbus_ready ∷ ms) = bus_state ms
bus_state (other ∷ ms) = bus_state ms

abbrev pub or_else : Bool → Option Bool → Bool
or_else b none = b
or_else b (some a) = a

abbrev pub sent : Trace Call ℤ → List (List ℕ)
sent [] = []
sent ((custom_class_send bytes, ret) ∷ past) = bytes ∷ sent past
sent ((c, ret) ∷ past) = sent past

module _ (env : Env Call ℤ) where
  is_ready-after_messages :
      (ms : List Msg) (w : UsbApp)
      → (usb_app_is_ready (after_messages env ms w) ≡ or_else w.usb_ready (bus_state ms))
  unfolding usb_msg_cb
  is_ready-after_messages [] w = refl
  is_ready-after_messages (configuration value ∷ ms) w = refl
  is_ready-after_messages (resume ∷ ms) w = refl
  is_ready-after_messages (suspend ∷ ms) w = refl
  is_ready-after_messages (vbus_removed ∷ ms) w = refl
  is_ready-after_messages (vbus_ready ∷ ms) w = is_ready-after_messages ms w
  is_ready-after_messages (other ∷ ms) w = is_ready-after_messages ms w

  sent-after_messages :
      (ms : List Msg) (w : UsbApp) → sent (after_messages env ms w).trace ≡ sent w.trace
  unfolding usb_msg_cb
  sent-after_messages [] w = refl
  sent-after_messages (configuration value ∷ ms) w = sent-after_messages ms w
  sent-after_messages (resume ∷ ms) w = sent-after_messages ms w
  sent-after_messages (suspend ∷ ms) w = sent-after_messages ms w
  sent-after_messages (vbus_removed ∷ ms) w = sent-after_messages ms w
  sent-after_messages (vbus_ready ∷ ms) w = sent-after_messages ms w
  sent-after_messages (other ∷ ms) w = sent-after_messages ms w

  usb_app_send_lem :
      (bytes : List ℕ) (size : ℕ) (w : UsbApp)
      → (sent (usb_app_send env (some bytes) size w).1.trace
          ≡ (if w.usb_ready then bytes ∷ sent w.trace else sent w.trace))
  unfolding usb_app_send
  usb_app_send_lem bytes size w = ground arith

  -- After any messages of the device stack, a buffer that the application sends goes to the class,
  -- whole and once, exactly if the newest message about the bus was a configuration or a resume;
  -- without such a message the device is as ready as it was.
  pub sent-usb_app_send :
      (ms : List Msg) (bytes : List ℕ) (size : ℕ) (w : UsbApp)
      → let w' = after_messages env ms w in
        sent (usb_app_send env (some bytes) size w').1.trace
        ≡ (if or_else w.usb_ready (bus_state ms) then bytes ∷ sent w.trace else sent w.trace)
  sent-usb_app_send ms bytes size w =
      usb_app_send_lem bytes size (after_messages env ms w)
      ∙ (rw (sent-after_messages ms w, is_ready-after_messages ms w) refl)
