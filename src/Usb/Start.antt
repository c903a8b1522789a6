-- ===== src/Usb/Start.antt =====
-- How app/src/usb.c starts.
use zephyr_development.Prelude.{
  ℕ, ◌≡◌, ◌⊎◌, enodev, Bool, true, false, not, ◌&&◌, Option, none, List, [], ◌∷◌, ◌++◌, ℤ, pos, neg,
  is_zero, Env, Trace, arith, if◌then◌else◌,
}
use zephyr_development.Usb.{
  Call, UsbApp, device_is_ready, custom_class_set_rx_callback, usbd_msg_register_cb,
  usbd_add_descriptor_lang, usbd_add_descriptor_mfr, usbd_add_descriptor_product,
  usbd_add_configuration, usbd_register_class, usbd_device_set_code_triple, usbd_init,
  usbd_can_detect_vbus, usbd_enable, k_thread_create, build_device, enable_unless_vbus,
  usb_app_init,
}

-- Before `usb_app_init`.
abbrev pub at_boot : UsbApp
at_boot = record { usb_ready = false; user_rx_handler = none; trace = [] }

-- Whether a call did what it is for.
abbrev pub is_good : Call → ℤ → Bool
is_good device_is_ready r = not (is_zero r)
is_good custom_class_set_rx_callback r = true
is_good usbd_can_detect_vbus r = true
is_good k_thread_create r = true
is_good c r = is_zero r

abbrev pub all_good : Trace Call ℤ → Bool
all_good [] = true
all_good ((c, r) ∷ past) = is_good c r && all_good past

abbrev pub calls : Trace Call ℤ → List Call
calls [] = []
calls ((c, r) ∷ past) = c ∷ calls past

-- Whether the controller can tell that the supply is there; it then enables the device itself.
abbrev pub detects : Trace Call ℤ → Bool
detects [] = false
detects ((usbd_can_detect_vbus, r) ∷ past) = not (is_zero r)
detects ((c, r) ∷ past) = detects past

-- The calls of a whole start, newest first.
abbrev pub whole_start : Bool → List Call
whole_start vbus =
    k_thread_create
    ∷ ((if vbus then [] else usbd_enable ∷ [])
        ++ usbd_can_detect_vbus ∷ usbd_init ∷ usbd_device_set_code_triple ∷ usbd_register_class
          ∷ usbd_add_configuration ∷ usbd_add_descriptor_product ∷ usbd_add_descriptor_mfr
          ∷ usbd_add_descriptor_lang ∷ usbd_msg_register_cb ∷ custom_class_set_rx_callback
          ∷ device_is_ready ∷ [])

-- The last call is the first that was not good, and `ret` tells how: the answer itself, or -ENODEV for a class
-- device that is not ready.
abbrev pub IsStopped : ℤ → Trace Call ℤ → Type 0
IsStopped ret [] = ⊥
IsStopped ret ((device_is_ready, r) ∷ past) =
    (is_zero r ≡ true) × (ret ≡ neg enodev) × (all_good past ≡ true)
IsStopped ret ((c, r) ∷ past) = (is_good c r ≡ false) × (ret ≡ r) × (all_good past ≡ true)

module _ (env : Env Call ℤ) where
  -- The USB initialisation either returns 0, and then the class device was ready, every call was
  -- made in the order of the source, those whose result the code tests answered 0, the device was
  -- enabled unless the controller detects the supply, the receive thread was made last, and the
  -- application's handler is kept; or its last call is the first that failed, and it returns the
  -- answer of that call, -ENODEV where that call says that the class device is not ready.
  pub usb_app_init_outcome :
      (rx_handler : Option ℕ)
      → let r = usb_app_init env rx_handler at_boot in
        (r.0 ≡ pos 0)
          × (all_good r.1.trace ≡ true)
          × (calls r.1.trace ≡ whole_start (detects r.1.trace))
          × (r.1.user_rx_handler ≡ rx_handler)
        ⊎ IsStopped r.0 r.1.trace
  unfolding usb_app_init build_device enable_unless_vbus
  usb_app_init_outcome rx_handler = ground arith
