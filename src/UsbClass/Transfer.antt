-- ===== src/UsbClass/Transfer.antt =====
-- What modules/usb_class/src/custom_class.c sends and delivers.
use zephyr_development.Prelude.{
  ℕ, ◌+◌, ◌%◌, ◌≡◌, refl, Bool, true, false, ◌&&◌, none, some, List, [], ◌∷◌, ◌++◌, ℤ, is_zero, Env,
  Trace, arith, ◌==◌, ltb, if◌then◌else◌, ==-refl, inl, inr, Option-cases, length, take,
}
use zephyr_development.UsbClass.{
  Call, Answer, ClassData, NetBuf, usbd_ep_buf_alloc, net_buf_add_mem, udc_ep_buf_set_zlp,
  k_mutex_init, k_mutex_lock, k_mutex_unlock, usbd_ep_enqueue, usbd_ep_buf_free, rx_callback,
  custom_class_do_send, zephyr, custom_class_start_receiving, custom_class_request, enqueue_tx,
  enqueue_rx, received, ep1in, ep1out,
}

-- What a buffer holds since its allocation: its bytes, and the mark for a zero-length packet.
abbrev pub contents : Trace Call Answer → ℕ → List ℕ × Bool
contents [] b = ([], false)
contents ((usbd_ep_buf_alloc ep n, a) ∷ past) b = elim a.buf [
  | none ↦ contents past b
  | some c ↦ if c == b then ([], false) else contents past b
]
contents ((net_buf_add_mem c bytes, a) ∷ past) b =
    if c == b then ((contents past b).0 ++ bytes, (contents past b).1) else contents past b
contents ((udc_ep_buf_set_zlp c, a) ∷ past) b =
    if c == b then ((contents past b).0, true) else contents past b
contents ((usbd_ep_enqueue c, a) ∷ past) b = contents past b
contents ((usbd_ep_buf_free c, a) ∷ past) b = contents past b
contents ((k_mutex_init, a) ∷ past) b = contents past b
contents ((k_mutex_lock, a) ∷ past) b = contents past b
contents ((k_mutex_unlock, a) ∷ past) b = contents past b
contents ((rx_callback cb bytes, a) ∷ past) b = contents past b

-- The transfers that the stack took, newest first.
abbrev pub queued : Trace Call Answer → List (List ℕ × Bool)
queued [] = []
queued ((usbd_ep_enqueue c, a) ∷ past) =
    if is_zero a.ret then contents past c ∷ queued past else queued past
queued ((usbd_ep_buf_alloc ep n, a) ∷ past) = queued past
queued ((net_buf_add_mem c bytes, a) ∷ past) = queued past
queued ((udc_ep_buf_set_zlp c, a) ∷ past) = queued past
queued ((usbd_ep_buf_free c, a) ∷ past) = queued past
queued ((k_mutex_init, a) ∷ past) = queued past
queued ((k_mutex_lock, a) ∷ past) = queued past
queued ((k_mutex_unlock, a) ∷ past) = queued past
queued ((rx_callback cb bytes, a) ∷ past) = queued past

-- The callbacks made, newest first, and the number of times that the OUT endpoint was armed.
abbrev pub delivered : Trace Call Answer → List (ℕ × List ℕ)
delivered [] = []
delivered ((rx_callback cb bytes, a) ∷ past) = (cb, bytes) ∷ delivered past
delivered ((usbd_ep_enqueue c, a) ∷ past) = delivered past
delivered ((usbd_ep_buf_alloc ep n, a) ∷ past) = delivered past
delivered ((net_buf_add_mem c bytes, a) ∷ past) = delivered past
delivered ((udc_ep_buf_set_zlp c, a) ∷ past) = delivered past
delivered ((usbd_ep_buf_free c, a) ∷ past) = delivered past
delivered ((k_mutex_init, a) ∷ past) = delivered past
delivered ((k_mutex_lock, a) ∷ past) = delivered past
delivered ((k_mutex_unlock, a) ∷ past) = delivered past

abbrev pub armings : Trace Call Answer → ℕ
armings [] = 0
armings ((usbd_ep_buf_alloc ep n, a) ∷ past) =
    if ep == ep1out then armings past + 1 else armings past
armings ((rx_callback cb bytes, a) ∷ past) = armings past
armings ((usbd_ep_enqueue c, a) ∷ past) = armings past
armings ((net_buf_add_mem c bytes, a) ∷ past) = armings past
armings ((udc_ep_buf_set_zlp c, a) ∷ past) = armings past
armings ((usbd_ep_buf_free c, a) ∷ past) = armings past
armings ((k_mutex_init, a) ∷ past) = armings past
armings ((k_mutex_lock, a) ∷ past) = armings past
armings ((k_mutex_unlock, a) ∷ past) = armings past

-- A transfer that fills its last packet needs a zero-length packet to end it.
abbrev pub ends_full : List ℕ → Bool
ends_full bytes = ltb 0 (length bytes) && (length bytes % 64 == 0)

module _ (env : Env Call Answer) where
  queued-enqueue_tx :
      (b : ℕ) (bytes : List ℕ) (d : ClassData)
      → contents d.trace b ≡ ([], false)
      → let r = enqueue_tx env b bytes d in
        queued r.1.trace
        ≡ (if is_zero r.0 then (bytes, ends_full bytes) ∷ queued d.trace else queued d.trace)
  unfolding enqueue_tx
  queued-enqueue_tx b bytes d e = ground (arith, ==-refl b)

  -- A send gives the stack exactly its bytes when it returns 0, marked for a zero-length packet
  -- exactly if they fill their last packet, and nothing otherwise.
  pub queued-custom_class_do_send :
      (bytes : List ℕ) (d : ClassData)
      → let r = custom_class_do_send env bytes d in
        queued r.1.trace
        ≡ (if is_zero r.0 then (bytes, ends_full bytes) ∷ queued d.trace else queued d.trace)
  unfolding custom_class_do_send
  queued-custom_class_do_send bytes d =
      let n = length bytes in
      elim (Option-cases (env d.trace (usbd_ep_buf_alloc ep1in n)).buf) [
        | inl e ↦ rw (e, custom_class_do_send) refl
        | inr (b, e) ↦
            rw (e, custom_class_do_send)
              (queued-enqueue_tx b bytes (zephyr env (usbd_ep_buf_alloc ep1in n) d).1
                (ground (arith, e, ==-refl b)))
      ]

  start_receiving_effect :
      (d : ClassData)
      → let d' = (custom_class_start_receiving env d).1 in
        (delivered d'.trace ≡ delivered d.trace)
        × (armings d'.trace ≡ armings d.trace + 1)
        × (d'.callback ≡ d.callback)
  unfolding custom_class_start_receiving enqueue_rx
  start_receiving_effect d = ground arith

  -- A completed transfer delivers to the callback, if there is one, the bytes of a good OUT
  -- transfer, at most one packet, and after every OUT transfer a buffer to receive into is asked
  -- for once.
  pub custom_class_request_effect :
      (buf : NetBuf) (err : ℤ) (d : ClassData)
      → let r = custom_class_request env buf err d in
        let out = buf.ep == ep1out in
        (delivered r.1.trace ≡ (
          if is_zero err && out
          then elim d.callback [
            | none ↦ delivered d.trace
            | some cb ↦ (cb, take 64 buf.bytes) ∷ delivered d.trace
          ]
          else delivered d.trace))
        × (armings r.1.trace ≡ (if out then armings d.trace + 1 else armings d.trace))
  unfolding custom_class_request received
  custom_class_request_effect buf err d = ground (
    arith,
    start_receiving_effect d,
    start_receiving_effect (zephyr env (usbd_ep_buf_free buf.name) d).1,
  )
