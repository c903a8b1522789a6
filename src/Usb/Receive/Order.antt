-- ===== src/Usb/Receive/Order.antt =====
-- The order and the memory of the receive path of app/src/usb.c, however callback and thread interleave.
use mathlib.Core.List.{map-append}
use zephyr_development.Prelude.{
  ℕ, zero, suc, false, Option, none, some, List, [], ◌∷◌, ◌++◌, ◌≡◌, ◌⊎◌, refl, sym, subst, ap, ◌∙◌,
  append_assoc, length, inl, inr,
}
use zephyr_development.Fifo.{Fifo}
use zephyr_development.Usb.Receive.{Frame, Receiver, usb_rx_cb, usb_rx_round}
use zephyr_development.Usb.Receive.Serve.{pointers, contents, handed_on, round_first, round_empty}

-- The packets for which there was a block.
abbrev pub accept : Option ℕ → List ℕ → List (List ℕ) → List (List ℕ)
accept none bytes accepted = accepted
accept (some frame) bytes accepted = accepted ++ bytes ∷ []

-- What was handed over, if there is a handler, then what waits.
abbrev pub IsInOrder : Option ℕ → List (List ℕ) → List (List ℕ) → List (List ℕ) → Type 0
IsInOrder none handed waiting accepted = handed ≡ []
IsInOrder (some handler) handed waiting accepted = handed ++ waiting ≡ accepted

module _ (F : Fifo Frame) (initial : F.Queue) (user_rx_handler : Option ℕ) where
  -- The reachable states, with the packets accepted so far.
  pub data Reach : List (List ℕ) → Receiver F → Type 0 where
    start : Reach [] (record { rx_fifo = initial; usb_heap = []; bad_free = false; handed = [] })
    received :
        (accepted : List (List ℕ)) (s : Receiver F) (frame : Option ℕ) (bytes : List ℕ)
        → Reach accepted s
        → Reach (accept frame bytes accepted) (usb_rx_cb F user_rx_handler frame bytes s)
    served :
        (accepted : List (List ℕ)) (s : Receiver F)
        → Reach accepted s
        → Reach accepted (usb_rx_round F user_rx_handler s)

  -- The blocks in use are those of the waiting frames, none was freed twice, and no packet is lost, twice
  -- there or out of order.
  pub record IsConserved (accepted : List (List ℕ)) (s : Receiver F) : Type 0 where
    pub heap : s.usb_heap ≡ pointers (F.items s.rx_fifo)
    pub good : s.bad_free ≡ false
    pub order : IsInOrder user_rx_handler s.handed (contents (F.items s.rx_fifo)) accepted

order_served :
    (h : Option ℕ) (f : Frame) (rest : List Frame) (handed accepted : List (List ℕ))
    → IsInOrder h handed (contents (f ∷ rest)) accepted
    → IsInOrder h (handed_on h f.bytes handed) (contents rest) accepted
order_served none f rest handed accepted e = e
order_served (some handler) f rest handed accepted e =
    append_assoc handed (f.bytes ∷ []) (contents rest) ∙ e

order_received :
    (h : Option ℕ) (f : Frame) (waiting : List Frame) (handed accepted : List (List ℕ))
    → IsInOrder h handed (contents waiting) accepted
    → IsInOrder h handed (contents (waiting ++ f ∷ [])) (accepted ++ f.bytes ∷ [])
order_received none f waiting handed accepted e = e
order_received (some handler) f waiting handed accepted e =
    ap (λ l. handed ++ l) (map-append (λ (g : Frame). g.bytes) waiting (f ∷ []))
    ∙ sym (append_assoc handed (contents waiting) (f.bytes ∷ []))
    ∙ ap (λ l. l ++ f.bytes ∷ []) e

IsInOrder-nil : (h : Option ℕ) {l : List Frame} → l ≡ [] → IsInOrder h [] (contents l) []
IsInOrder-nil none e = refl
IsInOrder-nil (some handler) e = ap contents e

List-cases : (l : List Frame) → (l ≡ []) ⊎ ((f : Frame) × (rest : List Frame) × (l ≡ f ∷ rest))
List-cases [] = inl refl
List-cases (f ∷ rest) = inr (f, rest, refl)

module _ (F : Fifo Frame) (initial : F.Queue) (h : Option ℕ) where
  pub received-IsConserved :
      (accepted : List (List ℕ)) (s : Receiver F) (frame : Option ℕ) (bytes : List ℕ)
      → IsConserved F initial h accepted s
      → IsConserved F initial h (accept frame bytes accepted) (usb_rx_cb F h frame bytes s)
  unfolding usb_rx_cb
  received-IsConserved accepted s none bytes c = c
  received-IsConserved accepted s (some frame) bytes c =
      let f : Frame = record { pointer = frame; bytes = bytes } in
      let put = F.items-put f s.rx_fifo in
      let waiting = F.items s.rx_fifo in
      record {
        heap =
            ap (λ l. l ++ frame ∷ []) c.heap
            ∙ sym (map-append (λ (g : Frame). g.pointer) waiting (f ∷ []))
            ∙ sym (ap pointers put);
        good = c.good;
        order =
            subst (λ l. IsInOrder h s.handed (contents l) (accepted ++ bytes ∷ [])) (sym put)
              (order_received h f waiting s.handed accepted c.order);
      }

  pub served-IsConserved :
      (accepted : List (List ℕ)) (s : Receiver F)
      → IsConserved F initial h accepted s
      → IsConserved F initial h accepted (usb_rx_round F h s)
  served-IsConserved accepted s c = elim (List-cases (F.items s.rx_fifo)) [
    | inl e ↦ subst (IsConserved F initial h accepted) (sym (round_empty F h s e)) c
    | inr (f, rest, e) ↦
        let (q, left, step) = round_first F h f rest s e (c.heap ∙ ap pointers e) in
        subst (IsConserved F initial h accepted) (sym step) (record {
          heap = sym (ap pointers left);
          good = c.good;
          order =
              subst (λ l. IsInOrder h (handed_on h f.bytes s.handed) (contents l) accepted)
                (sym left)
                (order_served h f rest s.handed accepted
                  (subst (λ l. IsInOrder h s.handed (contents l) accepted) e c.order));
        })
  ]

  pub empty-IsConserved :
      F.items initial ≡ []
      → IsConserved F initial h []
          (record { rx_fifo = initial; usb_heap = []; bad_free = false; handed = [] })
  empty-IsConserved e = record {
    heap = sym (ap pointers e);
    good = refl;
    order = IsInOrder-nil h e;
  }

  -- However the receive callback and the receive thread interleave, from an empty queue on, no
  -- packet that found a block is lost, doubled or reordered on its way to the application, the
  -- blocks in use are exactly those of the waiting frames, and no block is freed that is not in
  -- use.
  Reach-IsConserved :
      (accepted : List (List ℕ)) (s : Receiver F)
      → F.items initial ≡ []
      → Reach F initial h accepted s
      → IsConserved F initial h accepted s
  Reach-IsConserved accepted s e start = empty-IsConserved e
  Reach-IsConserved accepted s e (received accepted' s' frame bytes r) =
      received-IsConserved accepted' s' frame bytes (Reach-IsConserved accepted' s' e r)
  Reach-IsConserved accepted s e (served accepted' s' r) =
      served-IsConserved accepted' s' (Reach-IsConserved accepted' s' e r)

  -- Rounds of the thread with no packet in between.
  abbrev pub rounds : ℕ → Receiver F → Receiver F
  rounds zero s = s
  rounds (suc n) s = rounds n (usb_rx_round F h s)

  rounds-IsConserved :
      (waiting : List Frame) (accepted : List (List ℕ)) (s : Receiver F)
      → F.items s.rx_fifo ≡ waiting
      → IsConserved F initial h accepted s
      → (F.items (rounds (length waiting) s).rx_fifo ≡ [])
        × IsConserved F initial h accepted (rounds (length waiting) s)
  rounds-IsConserved [] accepted s e c = (e, c)
  rounds-IsConserved (f ∷ rest) accepted s e c =
      let (q, left, step) = round_first F h f rest s e (c.heap ∙ ap pointers e) in
      rounds-IsConserved rest accepted (usb_rx_round F h s)
        (ap (λ (r : Receiver F). F.items r.rx_fifo) step ∙ left) (served-IsConserved accepted s c)

  -- From every state of the receive path that is reachable from an empty queue the thread empties
  -- the queue in as many rounds as frames wait; then no block is in use, and if there is a handler
  -- it has got every packet that found a block, in order.
  pub rounds_drain :
      (accepted : List (List ℕ)) (s : Receiver F)
      → F.items initial ≡ []
      → Reach F initial h accepted s
      → let s' = rounds (length (F.items s.rx_fifo)) s in
        (s'.usb_heap ≡ []) × IsInOrder h s'.handed [] accepted
  rounds_drain accepted s e r =
      let (none_left, c) =
        rounds-IsConserved (F.items s.rx_fifo) accepted s refl (Reach-IsConserved accepted s e r) in
      let s' = rounds (length (F.items s.rx_fifo)) s in
      (
        c.heap ∙ ap pointers none_left,
        subst (λ l. IsInOrder h s'.handed (contents l) accepted) none_left c.order,
      )
