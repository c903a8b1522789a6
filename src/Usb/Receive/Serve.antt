-- ===== src/Usb/Receive/Serve.antt =====
-- One round of the receive thread of app/src/usb.c.
use mathlib.Core.List.{map}
use zephyr_development.Prelude.{
  ℕ, Option, none, some, List, [], ◌∷◌, ◌++◌, ◌≡◌, refl, ==-refl, arith,
}
use zephyr_development.Fifo.{Fifo}
use zephyr_development.Usb.Receive.{Frame, Receiver, release, usb_rx_round, k_heap_free, hand_over}

abbrev pub pointers : List Frame → List ℕ
pointers = map (λ (f : Frame). f.pointer)

abbrev pub contents : List Frame → List (List ℕ)
contents = map (λ (f : Frame). f.bytes)

-- What was handed over after one more packet.
abbrev pub handed_on : Option ℕ → List ℕ → List (List ℕ) → List (List ℕ)
handed_on none bytes handed = handed
handed_on (some handler) bytes handed = handed ++ bytes ∷ []

release_first : (p : ℕ) (heap : List ℕ) → release p (p ∷ heap) ≡ some heap
release_first p heap = rw (==-refl p) refl

k_heap_free_first :
    (F : Fifo Frame) (h : Option ℕ) (p : ℕ) (heap : List ℕ) (s : Receiver F)
    → s.usb_heap ≡ p ∷ heap
    → k_heap_free F h p s ≡ record s { usb_heap = heap }
k_heap_free_first F h p heap s e = ground (arith, e, release_first p heap)

hand_over_lem :
    (F : Fifo Frame) (h : Option ℕ) (bytes : List ℕ) (s : Receiver F)
    → hand_over F h bytes s ≡ record s { handed = handed_on h bytes s.handed }
hand_over_lem F none bytes s = refl
hand_over_lem F (some handler) bytes s = refl

module _ (F : Fifo Frame) (h : Option ℕ) where
  -- A round on a waiting frame.
  pub round_first :
      (f : Frame) (rest : List Frame) (s : Receiver F)
      → F.items s.rx_fifo ≡ f ∷ rest
      → s.usb_heap ≡ pointers (f ∷ rest)
      → (q : F.Queue) × (F.items q ≡ rest)
        × (usb_rx_round F h s ≡ record {
          rx_fifo = q;
          usb_heap = pointers rest;
          bad_free = s.bad_free;
          handed = handed_on h f.bytes s.handed;
        })
  unfolding usb_rx_round
  round_first f rest s e blocks =
      let (q, got, left) = F.get_first s.rx_fifo f rest e in
      (
        q,
        left,
        rw (got, usb_rx_round, hand_over_lem F h f.bytes (record s { rx_fifo = q }))
            (k_heap_free_first F h f.pointer (pointers rest)
              (record s { rx_fifo = q; handed = handed_on h f.bytes s.handed }) blocks),
      )

  pub round_empty : (s : Receiver F) → F.items s.rx_fifo ≡ [] → usb_rx_round F h s ≡ s
  unfolding usb_rx_round
  round_empty s e = rw (F.get_empty s.rx_fifo e, usb_rx_round) refl
