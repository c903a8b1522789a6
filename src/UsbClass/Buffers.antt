-- ===== src/UsbClass/Buffers.antt =====
-- The transfer buffers of modules/usb_class/src/custom_class.c: each is passed on or freed once.
use zephyr_development.Prelude.{
  ℕ, length, ◌≡◌, refl, Bool, true, false, Option, none, some, List, [], ◌∷◌, is_zero, Env, Trace,
  arith, ◌==◌, if◌then◌else◌, ==-refl, inl, inr, Option-cases,
}
use zephyr_development.UsbClass.{
  Call, Answer, ClassData, usbd_ep_buf_alloc, net_buf_add_mem, udc_ep_buf_set_zlp, k_mutex_init,
  k_mutex_lock, k_mutex_unlock, usbd_ep_enqueue, usbd_ep_buf_free, rx_callback,
  custom_class_do_send, custom_class_start_receiving, zephyr, ep1in, ep1out, fs_mps, enqueue_tx,
  enqueue_rx,
}

-- Whether the class has the buffer: it was allocated, and since then neither given to the stack nor
-- freed. `handed` is the buffer that the stack handed over before the trace began, if any.
abbrev pub holds : Option ℕ → Trace Call Answer → ℕ → Bool
holds none [] b = false
holds (some h) [] b = h == b
holds h ((usbd_ep_buf_alloc ep n, a) ∷ past) b = elim a.buf [
  | none ↦ holds h past b
  | some c ↦ if c == b then true else holds h past b
]
holds h ((usbd_ep_enqueue c, a) ∷ past) b =
    if is_zero a.ret then (if c == b then false else holds h past b) else holds h past b
holds h ((usbd_ep_buf_free c, a) ∷ past) b = if c == b then false else holds h past b
holds h ((net_buf_add_mem c bytes, a) ∷ past) b = holds h past b
holds h ((udc_ep_buf_set_zlp c, a) ∷ past) b = holds h past b
holds h ((k_mutex_init, a) ∷ past) b = holds h past b
holds h ((k_mutex_lock, a) ∷ past) b = holds h past b
holds h ((k_mutex_unlock, a) ∷ past) b = holds h past b
holds h ((rx_callback cb bytes, a) ∷ past) b = holds h past b

-- Every buffer that is filled, given away or freed is held at that moment, and the pool gives out no
-- buffer that is held.
abbrev pub IsClean : Option ℕ → Trace Call Answer → Type 0
IsClean h [] = Unit
IsClean h ((usbd_ep_enqueue c, a) ∷ past) = (holds h past c ≡ true) × IsClean h past
IsClean h ((usbd_ep_buf_free c, a) ∷ past) = (holds h past c ≡ true) × IsClean h past
IsClean h ((net_buf_add_mem c bytes, a) ∷ past) = (holds h past c ≡ true) × IsClean h past
IsClean h ((udc_ep_buf_set_zlp c, a) ∷ past) = (holds h past c ≡ true) × IsClean h past
IsClean h ((usbd_ep_buf_alloc ep n, a) ∷ past) = IsClean h past
IsClean h ((k_mutex_init, a) ∷ past) = IsClean h past
IsClean h ((k_mutex_lock, a) ∷ past) = IsClean h past
IsClean h ((k_mutex_unlock, a) ∷ past) = IsClean h past
IsClean h ((rx_callback cb bytes, a) ∷ past) = IsClean h past

-- The pool gives out no buffer that the class has.
abbrev pub IsFresh : Env Call Answer → Option ℕ → Type 0
IsFresh env h =
    (past : Trace Call Answer) (ep n b : ℕ)
    → (env past (usbd_ep_buf_alloc ep n)).buf ≡ some b
    → holds h past b ≡ false

-- From `d` to `d'` nothing was misused, and what is held is as before but for buffers let go.
pub record Lets (h : Option ℕ) (gone : ℕ → Bool) (d d' : ClassData) : Type 0 where
  pub clean : IsClean h d'.trace
  pub left : (b : ℕ) → holds h d'.trace b ≡ (if gone b then false else holds h d.trace b)

abbrev no_buffer : ℕ → Bool
no_buffer b = false

module _ (env : Env Call Answer) (h : Option ℕ) where
  enqueue_tx-Lets :
      (nbuf : ℕ) (bytes : List ℕ) (d : ClassData)
      → IsClean h d.trace
      → holds h d.trace nbuf ≡ true
      → Lets h (λ b. nbuf == b) d (enqueue_tx env nbuf bytes d).1
  unfolding enqueue_tx
  enqueue_tx-Lets nbuf bytes d c e = record {
    clean = ground (arith, ==-refl nbuf);
    left = λ b. ground (arith, ==-refl nbuf);
  }

  enqueue_rx-Lets :
      (buf : ℕ) (d : ClassData)
      → IsClean h d.trace
      → holds h d.trace buf ≡ true
      → Lets h (λ b. buf == b) d (enqueue_rx env buf d).1
  unfolding enqueue_rx
  enqueue_rx-Lets buf d c e = record {
    clean = ground (arith, ==-refl buf);
    left = λ b. ground (arith, ==-refl buf);
  }

  module _ (fresh : IsFresh env h) where
    -- What lets go of the buffer just allocated lets go of none that was there.
    alloc-Lets :
        (ep n c : ℕ) (d d' : ClassData)
        → (env d.trace (usbd_ep_buf_alloc ep n)).buf ≡ some c
        → Lets h (λ b. c == b) (zephyr env (usbd_ep_buf_alloc ep n) d).1 d'
        → Lets h no_buffer d d'
    alloc-Lets ep n c d d' e l =
        let new = fresh d.trace ep n c e in
        record { clean = l.clean; left = λ b. ground (arith, l.left b, e, new) }

    alloc-holds :
        (ep n c : ℕ) (d : ClassData)
        → (env d.trace (usbd_ep_buf_alloc ep n)).buf ≡ some c
        → holds h (zephyr env (usbd_ep_buf_alloc ep n) d).1.trace c ≡ true
    alloc-holds ep n c d e = ground (arith, e, ==-refl c)

    -- If the pool gives out no buffer that is held, a send keeps no buffer that it allocates, on
    -- every path, and uses none that it does not hold.
    custom_class_do_send-Lets :
        (bytes : List ℕ) (d : ClassData)
        → IsClean h d.trace
        → Lets h no_buffer d (custom_class_do_send env bytes d).1
    unfolding custom_class_do_send
    custom_class_do_send-Lets bytes d c =
        let n = length bytes in
        elim (Option-cases (env d.trace (usbd_ep_buf_alloc ep1in n)).buf) [
          | inl e ↦ rw (e, custom_class_do_send) (record { clean = c; left = λ b. rw e refl })
          | inr (b, e) ↦
              rw (e, custom_class_do_send)
                (alloc-Lets ep1in n b d _ e (
                  enqueue_tx-Lets b bytes (zephyr env (usbd_ep_buf_alloc ep1in n) d).1 c
                    (alloc-holds ep1in n b d e)))
        ]

    pub custom_class_start_receiving-Lets :
        (d : ClassData)
        → IsClean h d.trace
        → Lets h no_buffer d (custom_class_start_receiving env d).1
    unfolding custom_class_start_receiving
    custom_class_start_receiving-Lets d c =
        elim (Option-cases (env d.trace (usbd_ep_buf_alloc ep1out fs_mps)).buf) [
          | inl e ↦
              rw (e, custom_class_start_receiving) (record { clean = c; left = λ b. rw e refl })
          | inr (b, e) ↦
              rw (e, custom_class_start_receiving)
                (alloc-Lets ep1out fs_mps b d _ e (
                  enqueue_rx-Lets b (zephyr env (usbd_ep_buf_alloc ep1out fs_mps) d).1 c
                    (alloc-holds ep1out fs_mps b d e)))
        ]
