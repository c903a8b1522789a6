-- ===== src/Usb.antt =====
-- app/src/usb.c: the application's side of the USB device: when it may send, how it starts, and the
-- frames that its receive thread handles. The device stack, the heap and the kernel are outside code.
pub mod Ready
pub mod Start
pub mod Receive
pub mod Transfers
mod Tests
use zephyr_development.Prelude.{
  ℕ, zero, suc, Bool, true, false, not, ◌&&◌, Option, none, some, List, [], ◌∷◌, ℤ, pos, neg,
  is_zero, Io, Env, Trace, enodev, enotconn, einval, if◌then◌else◌, length,
}

-- The messages of the device stack; `other` is each type without a case.
pub data Msg : Type 0 where
  configuration : ℕ → Msg
  suspend : Msg
  resume : Msg
  vbus_ready : Msg
  vbus_removed : Msg
  other : Msg

pub data Call : Type 0 where
  device_is_ready : Call
  custom_class_set_rx_callback : Call
  usbd_msg_register_cb : Call
  usbd_add_descriptor_lang : Call
  usbd_add_descriptor_mfr : Call
  usbd_add_descriptor_product : Call
  usbd_add_configuration : Call
  usbd_register_class : Call
  usbd_device_set_code_triple : Call
  usbd_init : Call
  usbd_can_detect_vbus : Call
  usbd_enable : Call
  usbd_disable : Call
  usbd_shutdown : Call
  k_thread_create : Call
  custom_class_send : List ℕ → Call

-- The file's variables, and the trace. Handlers are named by numbers.
pub record UsbApp : Type 0 where
  pub usb_ready : Bool
  pub user_rx_handler : Option ℕ
  pub trace : Trace Call ℤ

module _ (env : Env Call ℤ) where
  abbrev pub usbd : Call → Io UsbApp ℤ
  usbd c w = (env w.trace c, record w { trace = (c, env w.trace c) ∷ w.trace })

  unfoldable pub usb_msg_cb : Msg → UsbApp → UsbApp
  usb_msg_cb (configuration value) w = record w { usb_ready = true }
  usb_msg_cb suspend w = record w { usb_ready = false }
  usb_msg_cb resume w = record w { usb_ready = true }
  usb_msg_cb vbus_ready w = (usbd usbd_enable w).1
  usb_msg_cb vbus_removed w = (usbd usbd_disable (record w { usb_ready = false })).1
  usb_msg_cb other w = w

  -- `buf` is none for a null pointer; `size` counts its bytes else.
  unfoldable pub usb_app_send : Option (List ℕ) → ℕ → Io UsbApp ℤ
  usb_app_send buf size w = if not w.usb_ready then (neg enotconn, w) else elim buf [
    | none ↦ elim size [ zero ↦ usbd (custom_class_send []) w | suc n ↦ (neg einval, w) ]
    | some bytes ↦ usbd (custom_class_send bytes) w
  ]

  -- `ret = ...; if (ret) return ret;` before the rest.
  abbrev pub checked : Call → Io UsbApp ℤ → Io UsbApp ℤ
  checked c rest w = let r = usbd c w in if is_zero r.0 then rest r.1 else r

  -- The end of `usb_app_init`: the thread.
  abbrev pub start_thread : Io UsbApp ℤ
  start_thread w = (pos 0, (usbd k_thread_create w).1)

  unfoldable pub enable_unless_vbus : Io UsbApp ℤ
  enable_unless_vbus w =
      let detects = usbd usbd_can_detect_vbus w in
      if is_zero detects.0
      then checked usbd_enable start_thread detects.1
      else start_thread detects.1

  -- The chain of calls that build the device.
  unfoldable pub build_device : Io UsbApp ℤ
  unfolding enable_unless_vbus
  build_device = checked usbd_msg_register_cb (
      checked usbd_add_descriptor_lang (
        checked usbd_add_descriptor_mfr (
          checked usbd_add_descriptor_product (
            checked usbd_add_configuration (
              checked usbd_register_class
                (checked usbd_device_set_code_triple (checked usbd_init enable_unless_vbus)))))))

  unfoldable pub usb_app_init : Option ℕ → Io UsbApp ℤ
  unfolding build_device
  usb_app_init rx_handler w =
      let ready = usbd device_is_ready w in
      let kept = record ready.1 { user_rx_handler = rx_handler } in
      if is_zero ready.0
      then (neg enodev, ready.1)
      else build_device (usbd custom_class_set_rx_callback kept).1

  unfoldable pub usb_app_disable : UsbApp → UsbApp
  usb_app_disable w = (usbd usbd_shutdown (usbd usbd_disable w).1).1

abbrev pub usb_app_is_ready : UsbApp → Bool
usb_app_is_ready w = w.usb_ready
