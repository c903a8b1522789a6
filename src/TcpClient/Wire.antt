-- ===== src/TcpClient/Wire.antt =====
-- What host-dfu-app/tcp_client.c puts on its socket.
use zephyr_development.Prelude.{
  ℕ, ◌≡◌, some, Option, List, [], ◌∷◌, ◌++◌, ℤ, Trace, Env, arith, All, length, ◌≤◌, ◌<◌, none,
  Bool, false, ◌&&◌, ◌==◌, is_count, is_zero, if◌then◌else◌, refl, append-nil,
}
use zephyr_development.Host.{dfu_sequence}
use zephyr_development.Host.Download.{requests}
use zephyr_development.Host.Sent.{packets, packets-sizes, Sending, dfu_sequence-Sending}
use zephyr_development.TcpServer.{mtu_size}
use zephyr_development.TcpClient.{Socket, chunk_size, send_and_ack, check_ack}

pub data Call : Type 0 where
  send : List ℕ → Call
  recv : ℕ → Call

-- `send` returns `code`; `recv` returns the length of `bytes`, or an error.
pub record Answer : Type 0 where
  pub code : ℤ
  pub bytes : Option (List ℕ)

-- A socket whose other end answers anything, and that records every call.
abbrev pub recorded : Env Call Answer → Socket (Trace Call Answer)
recorded env = record {
  send = λ b past. ((env past (send b)).code, (send b, env past (send b)) ∷ past);
  recv = λ n past. ((env past (recv n)).bytes, (recv n, env past (recv n)) ∷ past);
}

abbrev pub put : Call → List (List ℕ) → List (List ℕ)
put (send b) sent = sent ++ b ∷ []
put (recv n) sent = sent

-- The packets handed to the socket, oldest first.
abbrev pub wire : Trace Call Answer → List (List ℕ)
wire [] = []
wire ((c, a) ∷ past) = put c (wire past)

-- An answer: the command byte, then success.
abbrev pub is_ack : ℕ → List ℕ → Bool
is_ack cmd (c ∷ status ∷ []) = (c == cmd) && (status == 1)
is_ack cmd _ = false

abbrev pub answers : List ℕ → Option (List ℕ) → Bool
answers (cmd ∷ body) (some got) = is_ack cmd got
answers _ _ = false

-- The packet that was taken whole and waits for its answer, and the packets acknowledged, oldest first.
abbrev pub follow :
    Call → Answer → Option (List ℕ) × List (List ℕ) → Option (List ℕ) × List (List ℕ)
follow (send b) a (waiting, l) = (if is_count a.code (length b) then some b else none, l)
follow (recv n) a (none, l) = (none, l)
follow (recv n) a (some b, l) = (none, if answers b a.bytes then l ++ b ∷ [] else l)

abbrev pub exchange : Trace Call Answer → Option (List ℕ) × List (List ℕ)
exchange [] = (none, [])
exchange ((c, a) ∷ past) = follow c a (exchange past)

abbrev pub acked : Trace Call Answer → List (List ℕ)
acked past = (exchange past).1

check_ack_lem :
    (cmd : ℕ) (body : List ℕ) (got : Option (List ℕ))
    → answers (cmd ∷ body) got ≡ is_zero (check_ack cmd got)
unfolding check_ack
check_ack_lem cmd body none = refl
check_ack_lem cmd body (some []) = refl
check_ack_lem cmd body (some (c ∷ [])) = refl
check_ack_lem cmd body (some (c ∷ status ∷ [])) = ground arith
check_ack_lem cmd body (some (c ∷ status ∷ more ∷ rest)) = refl

module _ (env : Env Call Answer) where
  wire-send_and_ack :
      (cmd : ℕ) (pkt : List ℕ) (past : Trace Call Answer)
      → wire (send_and_ack (recorded env) cmd pkt past).1 ≡ wire past ++ pkt ∷ []
  unfolding send_and_ack
  wire-send_and_ack cmd pkt past = ground arith

  acked-send_and_ack :
      (cmd : ℕ) (body : List ℕ) (past : Trace Call Answer)
      → let r = send_and_ack (recorded env) cmd (cmd ∷ body) past in
        acked r.1 ≡ acked past ++ (if is_zero r.0 then (cmd ∷ body) ∷ [] else [])
  unfolding send_and_ack
  acked-send_and_ack cmd body past =
      let sent = (send (cmd ∷ body), env past (send (cmd ∷ body))) ∷ past in
      let same = check_ack_lem cmd body (env sent (recv 2)).bytes in
      ground (arith, same, append-nil (acked past))

  -- If every send and receive returns, the sequence of the TCP tool ends, whatever the other end
  -- answers: it reports 0 exactly if START, every chunk and END were each taken whole by send and
  -- acknowledged, and then they were handed to send in this order and nothing else was; otherwise
  -- a first part of them was handed to send, and not all of them were taken whole and
  -- acknowledged.
  pub tcp_sequence_wire :
      (fw : List ℕ) (past : Trace Call Answer)
      → (r : ℤ) × ((dfu_sequence (send_and_ack (recorded env)) chunk_size fw past).0 ≡ some r)
        × Sending wire acked past
            (packets (requests chunk_size fw))
            (r, (dfu_sequence (send_and_ack (recorded env)) chunk_size fw past).1)
  tcp_sequence_wire fw past =
      dfu_sequence-Sending (send_and_ack (recorded env)) wire acked
        (λ cmd body w. wire-send_and_ack cmd (cmd ∷ body) w) acked-send_and_ack chunk_size
        (omega arith) fw past

All-front {ℓ κ} : {A : Type ℓ} (P : A → Type κ) (xs ys : List A) → All P (xs ++ ys) → All P xs
All-front P [] ys h = tt
All-front P (x ∷ xs) ys h = (h.0, All-front P xs ys h.1)

module _ (env : Env Call Answer) where
  -- In a fresh run of the TCP tool no packet is empty and none is longer than the receive buffer
  -- of the device's server.
  wire_fits_mtu :
      (fw : List ℕ)
      → All
          (λ p. (0 < length p) × (length p ≤ mtu_size))
          (wire (dfu_sequence (send_and_ack (recorded env)) chunk_size fw []).1)
  wire_fits_mtu fw =
      let (r, e, s) = tcp_sequence_wire env fw [] in
      All-front (λ p. (0 < length p) × (length p ≤ mtu_size))
        (wire (dfu_sequence (send_and_ack (recorded env)) chunk_size fw []).1) s.unsent
        (rw s.in_order (packets-sizes chunk_size (omega arith) fw))
