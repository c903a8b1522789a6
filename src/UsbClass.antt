-- ===== src/UsbClass.antt =====
-- modules/usb_class/src/custom_class.c: the vendor class with one bulk endpoint each way.
-- The USB device stack, the buffer pool and the mutex are outside code: each call is recorded in a trace,
-- newest first, with its answer.
pub mod Buffers
pub mod Transfer
mod Descriptor
mod Tests
use zephyr_development.Prelude.{
  ℕ, zero, suc, ◌%◌, ◌&&◌, not, Bool, true, false, Option, none, some, List, [], ◌∷◌, ℤ, pos, neg,
  is_zero, Io, Env, Trace, enomem, ◌==◌, ltb, if◌then◌else◌, length, take,
}

-- FS_MPS of modules/usb_class/inc/custom_class.h
abbrev pub fs_mps : ℕ
fs_mps = 64

-- The endpoint addresses of the descriptor: USB_EP_DIR_OUT | 1 and USB_EP_DIR_IN | 1.
abbrev pub ep1out : ℕ
ep1out = 0x01

abbrev pub ep1in : ℕ
ep1in = 0x81

-- Buffers are named by numbers, callbacks too.
pub data Call : Type 0 where
  usbd_ep_buf_alloc : ℕ → ℕ → Call
  net_buf_add_mem : ℕ → List ℕ → Call
  udc_ep_buf_set_zlp : ℕ → Call
  k_mutex_init : Call
  k_mutex_lock : Call
  k_mutex_unlock : Call
  usbd_ep_enqueue : ℕ → Call
  usbd_ep_buf_free : ℕ → Call
  rx_callback : ℕ → List ℕ → Call

-- The return value, and for the allocation the buffer (none for NULL).
pub record Answer : Type 0 where
  pub ret : ℤ
  pub buf : Option ℕ

-- The part of `struct custom_class_data` that changes, and the trace. `class_node` tells whether the pointer
-- to the class is set.
pub record ClassData : Type 0 where
  pub class_node : Bool
  pub callback : Option ℕ
  pub trace : Trace Call Answer

-- A buffer that the stack hands back: its name, its endpoint and its bytes.
pub record NetBuf : Type 0 where
  pub name : ℕ
  pub ep : ℕ
  pub bytes : List ℕ

module _ (env : Env Call Answer) where
  abbrev pub zephyr : Call → Io ClassData Answer
  zephyr c d = (env d.trace c, record d { trace = (c, env d.trace c) ∷ d.trace })

  -- The tail of `custom_class_do_send`, with the buffer allocated.
  unfoldable pub enqueue_tx : ℕ → List ℕ → Io ClassData ℤ
  enqueue_tx nbuf bytes d =
      let filled = (zephyr (net_buf_add_mem nbuf bytes) d).1 in
      let marked =
        if ltb 0 (length bytes) && (length bytes % fs_mps == 0)
        then (zephyr (udc_ep_buf_set_zlp nbuf) filled).1
        else filled in
      let locked = (zephyr k_mutex_lock marked).1 in
      let queued = zephyr (usbd_ep_enqueue nbuf) locked in
      let unlocked = (zephyr k_mutex_unlock queued.1).1 in
      let freed = (zephyr (usbd_ep_buf_free nbuf) unlocked).1 in
      (queued.0.ret, if is_zero queued.0.ret then unlocked else freed)

  unfoldable pub custom_class_do_send : List ℕ → Io ClassData ℤ
  custom_class_do_send bytes d =
      let got = zephyr (usbd_ep_buf_alloc ep1in (length bytes)) d in
      elim got.0.buf [ none ↦ (neg enomem, got.1) | some nbuf ↦ enqueue_tx nbuf bytes got.1 ]

  unfoldable pub custom_class_set_rx : Option ℕ → ClassData → ClassData
  custom_class_set_rx cb d =
      let locked = (zephyr k_mutex_lock d).1 in
      (zephyr k_mutex_unlock (record locked { callback = cb })).1

  -- The tail of `custom_class_start_receiving`, with the buffer allocated.
  unfoldable pub enqueue_rx : ℕ → Io ClassData ℤ
  enqueue_rx buf d =
      let queued = zephyr (usbd_ep_enqueue buf) d in
      let freed = (zephyr (usbd_ep_buf_free buf) queued.1).1 in
      (queued.0.ret, if is_zero queued.0.ret then queued.1 else freed)

  unfoldable pub custom_class_start_receiving : Io ClassData ℤ
  custom_class_start_receiving d =
      let got = zephyr (usbd_ep_buf_alloc ep1out fs_mps) d in
      elim got.0.buf [ none ↦ (neg enomem, got.1) | some buf ↦ enqueue_rx buf got.1 ]

  -- A good OUT transfer: arm the endpoint again, read the callback under the lock, call it.
  unfoldable pub received : NetBuf → ClassData → ClassData
  received buf d =
      let armed = (custom_class_start_receiving d).1 in
      let locked = (zephyr k_mutex_lock armed).1 in
      let unlocked = (zephyr k_mutex_unlock locked).1 in
      elim locked.callback [
        | none ↦ unlocked
        | some cb ↦ (zephyr (rx_callback cb (take fs_mps buf.bytes)) unlocked).1
      ]

  unfoldable pub custom_class_request : NetBuf → ℤ → Io ClassData ℤ
  custom_class_request buf err d =
      let dropped = (zephyr (usbd_ep_buf_free buf.name) d).1 in
      let rearmed = (custom_class_start_receiving dropped).1 in
      let handled = if buf.ep == ep1out then received buf d else d in
      let freed = zephyr (usbd_ep_buf_free buf.name) handled in
      if not (is_zero err)
      then (err, if buf.ep == ep1out then rearmed else dropped)
      else (freed.0.ret, freed.1)

  unfoldable pub custom_class_enable : ClassData → ClassData
  custom_class_enable d = (custom_class_start_receiving d).1

  -- Nothing is done when the class is set up, and nothing when it is disabled.
  unfoldable pub custom_class_init : Io ClassData ℤ
  custom_class_init d = (pos 0, d)

  unfoldable pub custom_class_disable : ClassData → ClassData
  custom_class_disable d = d

  unfoldable pub custom_class_abstract_init : Io ClassData ℤ
  custom_class_abstract_init d =
      let ready = zephyr k_mutex_init (record d { class_node = true }) in (ready.0.ret, ready.1)

-- `struct custom_class_api`, the table that the inline functions of the header call through.
pub record CustomClassApi : Type 0 where
  pub send : List ℕ → Io ClassData ℤ
  pub set_rx_callback : Option ℕ → ClassData → ClassData

abbrev pub custom_class_send : CustomClassApi → List ℕ → Io ClassData ℤ
custom_class_send api buf = api.send buf

abbrev pub custom_class_set_rx_callback : CustomClassApi → Option ℕ → ClassData → ClassData
custom_class_set_rx_callback api cb = api.set_rx_callback cb

abbrev pub my_api : Env Call Answer → CustomClassApi
my_api env = record { send = custom_class_do_send env; set_rx_callback = custom_class_set_rx env }

abbrev pub custom_class_data_inst : ClassData
custom_class_data_inst = record { class_node = false; callback = none; trace = [] }
