-- ===== src/DfuHost/Wire.antt =====
-- What host-dfu-app/dfu_host.c puts on the bulk OUT endpoint.
use zephyr_development.Prelude.{
  ℕ, if◌then◌else◌, Bool-cases, inl, inr, ap, ◌≡◌, refl, ◌⊎◌, ◌∙◌, some, List, [], ◌∷◌, ◌++◌, ℤ,
  is_zero, Trace, arith, ◌≢◌, Option, none, Bool, false, ◌&&◌, ◌==◌, length, append-nil,
}
use zephyr_development.Host.{dfu_sequence}
use zephyr_development.Host.Download.{requests}
use zephyr_development.Host.Sent.{packets, Sending, dfu_sequence-Sending}
use zephyr_development.DfuHost.{
  Call, Answer, LibusbEnv, Globals, chunk_size, bulk_out, bulk_in, check_ack, send_and_ack,
  usb_open, usb_close, run_update,
}

abbrev pub put : Call → List (List ℕ) → List (List ℕ)
put (bulk_out b) sent = sent ++ b ∷ []
put _ sent = sent

-- The packets handed to the OUT endpoint, oldest first.
abbrev pub wire : Trace Call Answer → List (List ℕ)
wire [] = []
wire ((c, a) ∷ past) = put c (wire past)

-- An answer: the command byte, then success.
abbrev pub is_ack : ℕ → List ℕ → Bool
is_ack cmd (c ∷ status ∷ rest) = (c == cmd) && (status == 1)
is_ack cmd _ = false

abbrev pub answers : List ℕ → List ℕ → Bool
answers (cmd ∷ body) got = is_ack cmd got
answers _ got = false

-- The packet that the device took whole and that waits for its answer, and the packets that were acknowledged
-- with their command byte and success, oldest first.
abbrev pub follow :
    Call → Answer → Option (List ℕ) × List (List ℕ) → Option (List ℕ) × List (List ℕ)
follow (bulk_out b) a (waiting, l) =
    (if is_zero a.ret && (a.transferred == length b) then some b else none, l)
follow (bulk_in n) a (none, l) = (none, l)
follow (bulk_in n) a (some b, l) =
    (none, if is_zero a.ret && answers b a.bytes then l ++ b ∷ [] else l)
follow _ a s = s

abbrev pub exchange : Trace Call Answer → Option (List ℕ) × List (List ℕ)
exchange [] = (none, [])
exchange ((c, a) ∷ past) = follow c a (exchange past)

abbrev pub acked : Trace Call Answer → List (List ℕ)
acked past = (exchange past).1

check_ack_lem :
    (env : LibusbEnv) (cmd : ℕ) (a : Answer) (got : List ℕ)
    → a.bytes ≡ got
    → is_ack cmd got ≡ is_zero (check_ack env cmd a)
unfolding check_ack
check_ack_lem env cmd a [] e = rw e refl
check_ack_lem env cmd a (c ∷ []) e = rw e refl
check_ack_lem env cmd a (c ∷ status ∷ rest) e = rw e (ground arith)

module _ (env : LibusbEnv) where
  wire-send_and_ack :
      (cmd : ℕ) (pkt : List ℕ) (w : Globals)
      → wire (send_and_ack env cmd pkt w).1.trace ≡ wire w.trace ++ pkt ∷ []
  unfolding send_and_ack
  wire-send_and_ack cmd pkt w = ground arith

  acked-send_and_ack :
      (cmd : ℕ) (body : List ℕ) (w : Globals)
      → let r = send_and_ack env cmd (cmd ∷ body) w in
        acked r.1.trace ≡ acked w.trace ++ (if is_zero r.0 then (cmd ∷ body) ∷ [] else [])
  unfolding send_and_ack
  acked-send_and_ack cmd body w =
      let out = bulk_out (cmd ∷ body) in
      let a = env ((out, env w.trace out) ∷ w.trace) (bulk_in 2) in
      ground (arith, check_ack_lem env cmd a a.bytes refl, append-nil (acked w.trace))

  -- From an open device the sequence always ends, with 0 exactly if every packet of the script was acknowledged.
  pub usb_sequence_wire :
      (fw : List ℕ) (w : Globals)
      → (r : ℤ) × ((dfu_sequence (send_and_ack env) chunk_size fw w).0 ≡ some r)
        × Sending
            (λ (g : Globals). wire g.trace)
            (λ (g : Globals). acked g.trace)
            w
            (packets (requests chunk_size fw))
            (r, (dfu_sequence (send_and_ack env) chunk_size fw w).1)
  usb_sequence_wire fw w =
      dfu_sequence-Sending (send_and_ack env) (λ (g : Globals). wire g.trace)
        (λ (g : Globals). acked g.trace) (λ cmd body g. wire-send_and_ack cmd (cmd ∷ body) g)
        acked-send_and_ack chunk_size (omega arith) fw w

  wire-usb_open : (vid pid : ℕ) (w : Globals) → wire (usb_open env vid pid w).1.trace ≡ wire w.trace
  unfolding usb_open
  wire-usb_open vid pid w = ground arith

  wire-usb_close : (w : Globals) → wire (usb_close env w).1.trace ≡ wire w.trace
  unfolding usb_close
  wire-usb_close w = ground arith

  acked-usb_open :
      (vid pid : ℕ) (w : Globals) → acked (usb_open env vid pid w).1.trace ≡ acked w.trace
  unfolding usb_open
  acked-usb_open vid pid w = ground arith

  acked-usb_close : (w : Globals) → acked (usb_close env w).1.trace ≡ acked w.trace
  unfolding usb_close
  acked-usb_close w = ground arith

  -- If every libusb call returns, the USB tool from the read image on ends with status 0 or 1:
  -- with status 0 exactly if the whole script (START, the chunks, END) was taken whole by the
  -- device and acknowledged, packet by packet, and then nothing else was handed to the OUT
  -- endpoint; with status 1 a first part of it was handed over and a first part, not all,
  -- acknowledged.
  pub wire-run_update :
      (vid pid : ℕ) (fw : List ℕ) (w : Globals)
      → let r = run_update env vid pid fw w in
        let script = packets (requests chunk_size fw) in
        (status : ℕ) × (unsent : List (List ℕ)) × (unacked : List (List ℕ)) × (r.0 ≡ some status)
        × (wire r.1.trace ++ unsent ≡ wire w.trace ++ script)
        × (acked r.1.trace ++ unacked ≡ acked w.trace ++ script)
        × ((status ≡ 0) × (unsent ≡ []) × (unacked ≡ []) ⊎ (status ≡ 1) × (unacked ≢ []))
  unfolding run_update
  wire-run_update vid pid fw w =
      let opened = usb_open env vid pid w in
      let (r, e, s) = usb_sequence_wire fw opened.1 in
      let ended = (dfu_sequence (send_and_ack env) chunk_size fw opened.1).1 in
      let pkts = packets (requests chunk_size fw) in
      let grow = λ (l : List (List ℕ)). l ++ pkts in
      let sent = ap grow (wire-usb_open vid pid w) in
      let heard = ap grow (acked-usb_open vid pid w) in
      elim (Bool-cases (is_zero opened.0)) [
        | inr f ↦ (1, pkts, pkts, rw f, rw f sent, rw f heard, inr (refl, λ none_left. cc))
        | inl o ↦ (
          if is_zero r then 0 else 1,
          s.unsent,
          s.unacked,
          rw (o, e) (ground arith),
          rw o (ap (λ l. l ++ s.unsent) (wire-usb_close ended) ∙ s.in_order ∙ sent),
          rw o (ap (λ l. l ++ s.unacked) (acked-usb_close ended) ∙ s.ack_order ∙ heard),
          elim s.verdict [
            | inl (z, all, every) ↦ inl (rw z refl, all, every)
            | inr (z, left) ↦ inr (rw z refl, left)
          ],
        )
      ]
