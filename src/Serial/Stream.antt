-- ===== src/Serial/Stream.antt =====
-- The bytes that come over the wire, and what the thread of app/src/serial.c hands to its callback.
use mathlib.Core.List.{flatten}
use zephyr_development.Prelude.{
  ℕ, zero, suc, ◌-◌, ◌≤◌, ◌≡◌, ◌⊎◌, inl, inr, refl, sym, subst, ap, ◌∙◌, Bool, true, false, Option,
  none, some, List, [], ◌∷◌, ◌++◌, Env, arith, length, take, drop, append-nil, append_assoc,
  drop_all, length-append,
}
use zephyr_development.Fifo.{Fifo}
use zephyr_development.Usb.Receive.{Frame, Receiver, usb_rx_cb, usb_rx_round}
use zephyr_development.Usb.Receive.Order.{
  accept, IsConserved, received-IsConserved, served-IsConserved, empty-IsConserved,
}
use zephyr_development.Serial.{Call, Answer, queue_frame, uart_entry_round, uart_cb}
use zephyr_development.Serial.Driver.{
  Line, Step, Reach, start, then_step, asks, byte_in, reports, switches, ignored, served, or,
  is_none, block_for, unreported, report,
}

flatten-snoc : (xss : List (List ℕ)) (xs : List ℕ) → flatten (xss ++ xs ∷ []) ≡ flatten xss ++ xs
unfolding flatten
flatten-snoc [] xs = append-nil xs
flatten-snoc (ys ∷ xss) xs =
    ap (◌++◌ ys) (flatten-snoc xss xs) ∙ sym (append_assoc ys (flatten xss) xs)

take-drop-append :
    {A : Type 0} (n : ℕ) (xs junk : List A) → take (length xs - n) (drop n (xs ++ junk)) ≡ drop n xs
take-drop-append zero [] junk = refl
take-drop-append zero (x ∷ xs) junk =
    ap (λ k. take k (x ∷ xs ++ junk))
      (let e : length (x ∷ xs) - 0 ≡ suc (length xs) = omega arith in e)
    ∙ ap (◌∷◌ x) (
        ap (λ k. take k (xs ++ junk)) (let e : length xs ≡ length xs - 0 = omega arith in e)
        ∙ take-drop-append zero xs junk)
take-drop-append (suc n) [] junk =
    ap (λ k. take k (drop (suc n) junk)) (let e : 0 - suc n ≡ 0 = omega arith in e)
take-drop-append (suc n) (x ∷ xs) junk =
    ap (λ k. take k (drop n (xs ++ junk)))
      (let e : length (x ∷ xs) - suc n ≡ length xs - n = omega arith in e)
    ∙ take-drop-append n xs junk

drop-append_one :
    {A : Type 0} (n : ℕ) (xs ys : List A) → n ≤ length xs → drop n (xs ++ ys) ≡ drop n xs ++ ys
drop-append_one zero xs ys h = refl
drop-append_one (suc n) [] ys h = absurd (omega arith)
drop-append_one (suc n) (x ∷ xs) ys h = drop-append_one n xs ys (omega arith)

module _ (F : Fifo Frame) where
  -- The frames of the serial line are kept as those of the USB receive path.
  queue_frame-usb_rx_cb :
      (block : Option ℕ) (bytes : List ℕ) (s : Receiver F)
      → usb_rx_cb F (some 0) block bytes s ≡ queue_frame F block bytes s
  unfolding queue_frame usb_rx_cb
  queue_frame-usb_rx_cb none bytes s = refl
  queue_frame-usb_rx_cb (some b) bytes s = refl

  uart_entry_round-usb_rx_round :
      (s : Receiver F) → usb_rx_round F (some 0) s ≡ uart_entry_round F s
  unfolding uart_entry_round usb_rx_round
  uart_entry_round-usb_rx_round s = refl

-- Unless a report found no block, the bytes of the reports that did, then those not yet reported, are the bytes
-- that arrived.
abbrev pub IsComplete : Bool → List (List ℕ) → List ℕ → List ℕ → Type 0
IsComplete dropped accepted rest arrived = (dropped ≡ true) ⊎ (flatten accepted ++ rest ≡ arrived)

IsComplete-accept :
    (dropped : Bool) (block : Option ℕ) (accepted : List (List ℕ)) (rest arrived : List ℕ)
    → IsComplete dropped accepted rest arrived
    → IsComplete (or dropped (is_none block)) (accept block rest accepted) [] arrived
IsComplete-accept true block accepted rest arrived c = inl refl
IsComplete-accept false none accepted rest arrived c = inl refl
IsComplete-accept false (some b) accepted rest arrived (inl e) = inl e
IsComplete-accept false (some b) accepted rest arrived (inr e) =
    inr (append-nil (flatten (accepted ++ rest ∷ [])) ∙ flatten-snoc accepted rest ∙ e)

IsComplete-byte :
    (dropped : Bool) (accepted : List (List ℕ)) (rest arrived : List ℕ) (b : ℕ)
    → IsComplete dropped accepted rest arrived
    → IsComplete dropped accepted (rest ++ b ∷ []) (arrived ++ b ∷ [])
IsComplete-byte dropped accepted rest arrived b (inl e) = inl e
IsComplete-byte dropped accepted rest arrived b (inr e) =
    inr (sym (append_assoc (flatten accepted) rest (b ∷ [])) ∙ ap (λ l. l ++ b ∷ []) e)

module _ (F : Fifo Frame) (env : Env Call Answer) (q : F.Queue) where
  pub record IsStreamed (l : Line F) : Type 0 where
    pub conserved : IsConserved F q (some 0) l.accepted l.port.frames
    pub within : l.driver.reported ≤ length l.driver.filled
    pub complete :
        IsComplete l.dropped l.accepted (drop l.driver.reported l.driver.filled) l.arrived

  frames-report :
      (l : Line F) (junk : List ℕ)
      → (uart_cb F env (report l.driver junk) l.port).frames
        ≡ usb_rx_cb F
            (some 0)
            (block_for F env l.port (unreported l.driver))
            (drop l.driver.reported l.driver.filled)
            l.port.frames
  unfolding uart_cb
  frames-report l junk =
      let block = block_for F env l.port (unreported l.driver) in
      ap (λ bytes. queue_frame F block bytes l.port.frames)
        (take-drop-append l.driver.reported l.driver.filled junk)
      ∙ sym (queue_frame-usb_rx_cb F block (drop l.driver.reported l.driver.filled) l.port.frames)

  Step-IsStreamed : {l l' : Line F} → Step F env l l' → IsStreamed l → IsStreamed l'
  unfolding uart_cb
  Step-IsStreamed (asks l e) o = record {
    conserved = o.conserved;
    within = o.within;
    complete = o.complete;
  }
  Step-IsStreamed (byte_in l b room) o =
      let d = l.driver in
      record {
        conserved = o.conserved;
        within = omega (arith, o.within, length-append d.filled (b ∷ []));
        complete =
            subst (λ rest. IsComplete l.dropped l.accepted rest (l.arrived ++ b ∷ []))
              (sym (drop-append_one d.reported d.filled (b ∷ []) o.within))
              (IsComplete-byte l.dropped l.accepted (drop d.reported d.filled) l.arrived b
                o.complete);
      }
  Step-IsStreamed (reports l junk) o =
      let d = l.driver in
      let rest = drop d.reported d.filled in
      let block = block_for F env l.port (unreported d) in
      record {
        conserved =
            subst (IsConserved F q (some 0) (accept block rest l.accepted))
              (sym (frames-report l junk))
              (received-IsConserved F q (some 0) l.accepted l.port.frames block rest o.conserved);
        within = omega arith;
        complete =
            subst
              (λ left.
                IsComplete (or l.dropped (is_none block)) (accept block rest l.accepted) left
                  l.arrived)
              (sym (drop_all (length d.filled) d.filled (omega arith)))
              (IsComplete-accept l.dropped block l.accepted rest l.arrived o.complete);
      }
  Step-IsStreamed (switches l new e all) o = record {
    conserved = o.conserved;
    within = omega arith;
    complete =
        subst (λ rest. IsComplete l.dropped l.accepted rest l.arrived)
          (drop_all l.driver.reported l.driver.filled (omega (arith, all))) o.complete;
  }
  Step-IsStreamed (ignored l) o = record {
    conserved = o.conserved;
    within = o.within;
    complete = o.complete;
  }
  Step-IsStreamed (served l) o = record {
    conserved =
        subst (IsConserved F q (some 0) l.accepted) (uart_entry_round-usb_rx_round F l.port.frames)
          (served-IsConserved F q (some 0) l.accepted l.port.frames o.conserved);
    within = o.within;
    complete = o.complete;
  }

  -- If the UART driver reports every byte of a buffer once and in order before it goes on with the
  -- next buffer, then from an empty queue on, however its events and the rounds of the thread
  -- interleave, the frames of serial.c that found a block reach the callback in order and none
  -- twice, their blocks are freed exactly then, and unless a report found no block their bytes,
  -- followed by those not yet reported, are the bytes that came over the wire.
  pub Reach-IsStreamed : (l : Line F) → F.items q ≡ [] → Reach F env q l → IsStreamed l
  unfolding flatten
  Reach-IsStreamed l e start = record {
    conserved = empty-IsConserved F q (some 0) e;
    within = omega arith;
    complete = inr refl;
  }
  Reach-IsStreamed l e (then_step l' l'' r st) = Step-IsStreamed st (Reach-IsStreamed l' e r)
