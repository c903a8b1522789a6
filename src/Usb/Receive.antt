-- ===== src/Usb/Receive.antt =====
-- The receive path of app/src/usb.c: the class's callback copies each packet into a frame of the heap and
-- queues it; the receive thread hands the frames to the application and frees them.
pub mod Order
mod Serve
use zephyr_development.Prelude.{
  ℕ, Bool, true, false, Option, none, some, List, [], ◌∷◌, ◌++◌, ◌==◌, if◌then◌else◌,
}
use zephyr_development.Fifo.{Fifo}

-- `struct usb_rx_frame`: the block that holds it and its bytes, `size` of them.
pub record Frame : Type 0 where
  pub pointer : ℕ
  pub bytes : List ℕ

-- `k_heap_free`: the block taken off the list of those in use; none for one that is not in use.
abbrev pub release : ℕ → List ℕ → Option (List ℕ)
release p [] = none
release p (b ∷ heap) =
    let rest = release p heap in
    if b == p then some heap else elim rest [ none ↦ none | some heap' ↦ some (b ∷ heap') ]

module _ (F : Fifo Frame) where
  -- The queue, the blocks of `usb_heap` in use, whether a block was freed that was not in use, and the
  -- packets handed to the application, the oldest first.
  pub record Receiver : Type 0 where
    pub rx_fifo : F.Queue
    pub usb_heap : List ℕ
    pub bad_free : Bool
    pub handed : List (List ℕ)

module _ (F : Fifo Frame) (user_rx_handler : Option ℕ) where
  -- `frame` is what `k_heap_alloc` answers: none for NULL.
  unfoldable pub usb_rx_cb : Option ℕ → List ℕ → Receiver F → Receiver F
  usb_rx_cb none bytes s = s
  usb_rx_cb (some frame) bytes s = record s {
    rx_fifo = F.k_fifo_put (record { pointer = frame; bytes = bytes }) s.rx_fifo;
    usb_heap = s.usb_heap ++ frame ∷ [];
  }

  abbrev pub k_heap_free : ℕ → Receiver F → Receiver F
  k_heap_free p s = elim (release p s.usb_heap) [
    | none ↦ record s { bad_free = true }
    | some heap ↦ record s { usb_heap = heap }
  ]

  abbrev pub hand_over : List ℕ → Receiver F → Receiver F
  hand_over bytes s = elim user_rx_handler [
    | none ↦ s
    | some handler ↦ record s { handed = s.handed ++ bytes ∷ [] }
  ]

  -- One round of the thread's loop. On an empty queue the thread waits.
  unfoldable pub usb_rx_round : Receiver F → Receiver F
  usb_rx_round s = elim (F.k_fifo_get s.rx_fifo) [
    | none ↦ s
    | some (frame, rest) ↦
        k_heap_free frame.pointer (hand_over frame.bytes (record s { rx_fifo = rest }))
  ]
