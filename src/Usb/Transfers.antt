-- ===== src/Usb/Transfers.antt =====
-- modules/usb_class/src/custom_class.c under app/src/usb.c: the class calls `usb_rx_cb` for what the device stack
-- hands it, and the thread of usb.c serves what that queued.
mod Tests
use zephyr_development.Prelude.{take-suc_length, take-same_length}
use zephyr_development.Prelude.{
  ℕ, zero, suc, ◌+◌, ◌-◌, ◌≡◌, refl, sym, ap, subst, ◌∙◌, Bool, true, false, ◌&&◌, Option, none,
  some, List, [], ◌∷◌, ◌++◌, ℤ, is_zero, Env, arith, ◌==◌, if◌then◌else◌, length, take,
  append_assoc, append-nil,
}
use zephyr_development.Fifo.{Fifo}
use zephyr_development.Usb.Receive.{Frame, Receiver, usb_rx_cb, usb_rx_round}
use zephyr_development.Usb.Receive.Order.{
  accept, IsConserved, received-IsConserved, served-IsConserved, empty-IsConserved,
}
use zephyr_development.UsbClass.{
  Call, Answer, ClassData, NetBuf, custom_class_request, custom_class_start_receiving,
  custom_class_set_rx, custom_class_enable, custom_class_data_inst, received, enqueue_rx, ep1out,
}
use zephyr_development.UsbClass.Transfer.{delivered, armings, custom_class_request_effect}

-- A transfer that is completed, with its error and with the block that the heap has for its packet; or a round of
-- the thread.
pub data Turn : Type 0 where
  completed : NetBuf → ℤ → Option ℕ → Turn
  served : Turn

-- The callbacks of the second list, newest first, that were made after those of the first.
abbrev pub calls_since : List (ℕ × List ℕ) → List (ℕ × List ℕ) → List (ℕ × List ℕ)
calls_since old new = take (length new - length old) new

module _ (F : Fifo Frame) where
  pub record System : Type 0 where
    pub class : ClassData
    pub receiver : Receiver F

module _ (F : Fifo Frame) (h : Option ℕ) where
  -- Every callback is `usb_rx_cb`.
  abbrev pub hear_calls : Option ℕ → List (ℕ × List ℕ) → Receiver F → Receiver F
  hear_calls block [] s = s
  hear_calls block ((cb, bytes) ∷ calls) s = usb_rx_cb F h block bytes (hear_calls block calls s)

  module _ (env : Env Call Answer) where
    abbrev pub after_request : NetBuf → ℤ → ClassData → ClassData
    after_request buf err c = (custom_class_request env buf err c).1

    unfoldable pub turn : Turn → System F → System F
    turn (completed buf err block) s = record {
      class = after_request buf err s.class;
      receiver =
          hear_calls block
            (calls_since (delivered s.class.trace)
              (delivered (after_request buf err s.class).trace))
            s.receiver;
    }
    turn served s = record s { receiver = usb_rx_round F h s.receiver }

    abbrev pub turns : List Turn → System F → System F
    turns [] s = s
    turns (t ∷ ts) s = turns ts (turn t s)

    -- The callback is set, and then the host configures the device.
    abbrev pub configured : ℕ → F.Queue → System F
    configured cb q = record {
      class = custom_class_enable env (custom_class_set_rx env (some cb) custom_class_data_inst);
      receiver = record { rx_fifo = q; usb_heap = []; bad_free = false; handed = [] };
    }

-- A transfer to the device that brought a packet.
abbrev pub is_good : NetBuf → ℤ → Bool
is_good buf err = is_zero err && (buf.ep == ep1out)

abbrev pub kept : Bool → List ℕ → Option ℕ → List (List ℕ)
kept true bytes (some block) = bytes ∷ []
kept true bytes none = []
kept false bytes block = []

-- The packets of the good transfers for which there was a block, each of 64 bytes at most.
abbrev pub good_packets : List Turn → List (List ℕ)
good_packets [] = []
good_packets (completed buf err block ∷ ts) =
    kept (is_good buf err) (take 64 buf.bytes) block ++ good_packets ts
good_packets (served ∷ ts) = good_packets ts

-- The OUT transfers, good or bad.
abbrev pub out_transfers : List Turn → ℕ
out_transfers [] = 0
out_transfers (completed buf err block ∷ ts) =
    if buf.ep == ep1out then out_transfers ts + 1 else out_transfers ts
out_transfers (served ∷ ts) = out_transfers ts

callback-request :
    (env : Env Call Answer) (buf : NetBuf) (err : ℤ) (c : ClassData)
    → (custom_class_request env buf err c).1.callback ≡ c.callback
unfolding custom_class_request received custom_class_start_receiving enqueue_rx
callback-request env buf err c = ground arith

module _ (F : Fifo Frame) (q : F.Queue) (h : Option ℕ) where
  -- The calls that a request makes, with a callback set.
  hear_request :
      (good : Bool) (cb : ℕ) (bytes : List ℕ) (block : Option ℕ) (old new : List (ℕ × List ℕ))
      (s : Receiver F)
      → new ≡ (if good then (cb, bytes) ∷ old else old)
      → hear_calls F h block (calls_since old new) s
        ≡ (if good then usb_rx_cb F h block bytes s else s)
  hear_request true cb bytes block old new s e =
      ap (λ l. hear_calls F h block (calls_since old l) s) e
      ∙ ap (λ l. hear_calls F h block l s) (take-suc_length (cb, bytes) old)
  hear_request false cb bytes block old new s e =
      ap (λ l. hear_calls F h block (calls_since old l) s) e
      ∙ ap (λ l. hear_calls F h block l s) (take-same_length old)

  heard-IsConserved :
      (good : Bool) (bytes : List ℕ) (block : Option ℕ) (accepted : List (List ℕ)) (s : Receiver F)
      → IsConserved F q h accepted s
      → IsConserved F q h
          (accepted ++ kept good bytes block)
          (if good then usb_rx_cb F h block bytes s else s)
  unfolding usb_rx_cb
  heard-IsConserved true bytes (some b) accepted s c =
      received-IsConserved F q h accepted s (some b) bytes c
  heard-IsConserved true bytes none accepted s c =
      subst (λ a. IsConserved F q h a s) (sym (append-nil accepted)) c
  heard-IsConserved false bytes block accepted s c =
      subst (λ a. IsConserved F q h a s) (sym (append-nil accepted)) c

  module _ (env : Env Call Answer) (cb : ℕ) where
    -- After the turns: the callback is still set, the endpoint was armed once for each OUT transfer, and the
    -- receive path has got the good packets.
    pub record IsDelivered (ts : List Turn) (accepted : List (List ℕ)) (s s' : System F)
        : Type 0 where
      pub set : s'.class.callback ≡ some cb
      pub armed : armings s'.class.trace ≡ armings s.class.trace + out_transfers ts
      pub conserved : IsConserved F q h (accepted ++ good_packets ts) s'.receiver

    request-IsConserved :
        (buf : NetBuf) (err : ℤ) (block : Option ℕ) (accepted : List (List ℕ)) (s : System F)
        → s.class.callback ≡ some cb
        → IsConserved F q h accepted s.receiver
        → IsConserved F q h
            (accepted ++ kept (is_good buf err) (take 64 buf.bytes) block)
            (turn F h env (completed buf err block) s).receiver
    unfolding turn
    request-IsConserved buf err block accepted s e c =
        let bytes = take 64 buf.bytes in
        let old = delivered s.class.trace in
        let new = delivered (after_request F h env buf err s.class).trace in
        let made : new ≡ (if is_good buf err then (cb, bytes) ∷ old else old) =
          (custom_class_request_effect env buf err s.class).0
          ∙ ap
              (λ (k : Option ℕ).
                if is_good buf err
                then elim k [ none ↦ old | some cb' ↦ (cb', bytes) ∷ old ]
                else old)
              e in
        subst (IsConserved F q h (accepted ++ kept (is_good buf err) bytes block))
          (sym (hear_request (is_good buf err) cb bytes block old new s.receiver made))
          (heard-IsConserved (is_good buf err) bytes block accepted s.receiver c)

    turns-IsDelivered :
        (ts : List Turn) (accepted : List (List ℕ)) (s : System F)
        → s.class.callback ≡ some cb
        → IsConserved F q h accepted s.receiver
        → IsDelivered ts accepted s (turns F h env ts s)
    unfolding turn
    turns-IsDelivered [] accepted s e c = record {
      set = e;
      armed = omega arith;
      conserved = subst (λ a. IsConserved F q h a s.receiver) (sym (append-nil accepted)) c;
    }
    turns-IsDelivered (completed buf err block ∷ ts) accepted s e c =
        let packets = kept (is_good buf err) (take 64 buf.bytes) block in
        let after = turn F h env (completed buf err block) s in
        let rest =
          turns-IsDelivered ts (accepted ++ packets) after
            (callback-request env buf err s.class ∙ e)
            (request-IsConserved buf err block accepted s e c) in
        let once = (custom_class_request_effect env buf err s.class).1 in
        record {
          set = rest.set;
          armed = ground (arith, rest.armed, once);
          conserved =
              subst (λ a. IsConserved F q h a (turns F h env ts after).receiver)
                (append_assoc accepted packets (good_packets ts)) rest.conserved;
        }
    turns-IsDelivered (served ∷ ts) accepted s e c =
        let rest =
          turns-IsDelivered ts accepted (turn F h env served s) e
            (served-IsConserved F q h accepted s.receiver c) in
        record { set = rest.set; armed = rest.armed; conserved = rest.conserved }

    configured_lem :
        ((configured F h env cb q).class.callback ≡ some cb)
        × (armings (configured F h env cb q).class.trace ≡ 1)
    unfolding custom_class_enable custom_class_set_rx custom_class_start_receiving enqueue_rx
    configured_lem = ground arith

    -- Once the callback is set and the class enabled, with an empty queue, however completed
    -- transfers and rounds of the receive thread follow each other, the packets of the good OUT
    -- transfers for which there was a block, each cut to 64 bytes, are handed to the application's
    -- handler, if there is one, in order and none twice, or still wait, the blocks in use are
    -- those of the packets that wait, and a buffer to receive into was asked for once at the start
    -- and once after each OUT transfer, good or bad.
    pub turns_deliver :
        (ts : List Turn)
        → F.items q ≡ []
        → let s' = turns F h env ts (configured F h env cb q) in
          (armings s'.class.trace ≡ 1 + out_transfers ts)
          × IsConserved F q h (good_packets ts) s'.receiver
    turns_deliver ts e =
        let all =
          turns-IsDelivered ts [] (configured F h env cb q) configured_lem.0
            (empty-IsConserved F q h e) in
        (omega (arith, all.armed, configured_lem.1), all.conserved)
