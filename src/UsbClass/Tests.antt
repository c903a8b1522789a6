-- ===== src/UsbClass/Tests.antt =====
-- Runs of modules/usb_class/src/custom_class.c with a pool of one buffer.
use zephyr_development.Prelude.{
  ℕ, ◌≡◌, refl, true, Option, none, some, [], ◌∷◌, pos, is_zero, Env, if◌then◌else◌, replicate,
}
use zephyr_development.UsbClass.{
  Call, Answer, ClassData, NetBuf, usbd_ep_buf_alloc, enqueue_tx, custom_class_do_send, ep1out,
}
use zephyr_development.UsbClass.Buffers.{holds}
use zephyr_development.UsbClass.Transfer.{queued, ends_full, queued-custom_class_do_send}

abbrev host_buffer : Option ℕ
host_buffer = some 7

abbrev ok : Answer
ok = record { ret = pos 0; buf = none }

-- A stack that takes every buffer, and a pool with the one buffer 1. Buffer 7 is the host's.
abbrev pool : Env Call Answer
pool past (usbd_ep_buf_alloc ep n) = record {
  ret = pos 0;
  buf = if holds host_buffer past 1 then none else some 1;
}
pool past _ = ok

abbrev idle : ClassData
idle = record { class_node = true; callback = some 3; trace = [] }

abbrev packet : NetBuf
packet = record { name = 7; ep = ep1out; bytes = 10 ∷ 20 ∷ [] }

queued-custom_class_do_send_example :
    queued (custom_class_do_send pool (replicate 64 5) idle).1.trace ≡ (
      if is_zero (custom_class_do_send pool (replicate 64 5) idle).0
      then (replicate 64 5, ends_full (replicate 64 5)) ∷ queued idle.trace
      else queued idle.trace)
queued-custom_class_do_send_example = queued-custom_class_do_send pool (replicate 64 5) idle

marked_send :
    queued (custom_class_do_send pool (replicate 64 5) idle).1.trace ≡ (replicate 64 5, true) ∷ []
unfolding custom_class_do_send enqueue_tx
marked_send = refl
