-- ===== src/Host/Sent.antt =====
-- Which packets the DFU sequence hands to its transport, for any transport that keeps a log.
use mathlib.Core.List.{map}
use zephyr_development.Prelude.{
  ℕ, ◌<◌, ◌≡◌, refl, ap, ◌∙◌, some, List, [], ◌∷◌, ◌++◌, ℤ, is_zero, true, false, ◌⊎◌, ◌≢◌,
  if◌then◌else◌, append-nil, arith, All, length, ◌≤◌, ◌+◌, append_assoc, Bool-cases, inl, inr,
}
use zephyr_development.Host.{SendAndAck, end_cmd, dfu_sequence}
use zephyr_development.Host.Chunks.{chunks, chunks-sizes}
use zephyr_development.Host.Download.{
  Request, requests, download_requests, send_all, dfu_sequence-send_all,
}

-- A request on the wire.
abbrev pub packets : List Request → List (List ℕ)
packets = map (λ r. r.0 ∷ r.1)

-- `log` is what was handed to the transport, and `acked` what was taken whole and acknowledged.
module _ {W : Type 0} (log acked : W → List (List ℕ)) where
  -- From `w`, the packets were to be sent: each was acknowledged if the result is 0, and otherwise some first
  -- ones but not all; the ones handed over are some first ones too.
  pub record Sending (w : W) (pkts : List (List ℕ)) (r : ℤ × W) : Type 0 where
    pub unsent : List (List ℕ)
    pub unacked : List (List ℕ)
    pub in_order : log r.1 ++ unsent ≡ log w ++ pkts
    pub ack_order : acked r.1 ++ unacked ≡ acked w ++ pkts
    pub verdict :
        (is_zero r.0 ≡ true) × (unsent ≡ []) × (unacked ≡ [])
        ⊎ (is_zero r.0 ≡ false) × (unacked ≢ [])

module _ {W : Type 0} (send_and_ack : SendAndAck W) (log acked : W → List (List ℕ))
    (logged : (cmd : ℕ) (body : List ℕ) (w : W)
      → log (send_and_ack cmd (cmd ∷ body) w).1 ≡ log w ++ (cmd ∷ body) ∷ [])
    (counted : (cmd : ℕ) (body : List ℕ) (w : W)
      → acked (send_and_ack cmd (cmd ∷ body) w).1
        ≡ acked w
          ++ (if is_zero (send_and_ack cmd (cmd ∷ body) w).0 then (cmd ∷ body) ∷ [] else [])) where
  send_all-Sending :
      (rs : List Request) (w : W) → Sending log acked w (packets rs) (send_all send_and_ack rs w)
  unfolding send_all
  send_all-Sending [] w = record {
    unsent = [];
    unacked = [];
    in_order = refl;
    ack_order = refl;
    verdict = inl (refl, refl, refl);
  }
  send_all-Sending ((cmd, body) ∷ rs) w =
      let pkt = cmd ∷ body in
      let w' = (send_and_ack cmd pkt w).1 in
      let ih = send_all-Sending rs w' in
      let head = logged cmd body w in
      let regroup = append_assoc (log w) (pkt ∷ []) (packets rs) in
      elim (Bool-cases (is_zero (send_and_ack cmd pkt w).0)) [
        | inl e ↦ rw e (record {
          unsent = ih.unsent;
          unacked = ih.unacked;
          in_order = ih.in_order ∙ ap (λ l. l ++ packets rs) head ∙ regroup;
          ack_order =
              ih.ack_order
              ∙ ap (λ l. l ++ packets rs) (rw e at (counted cmd body w))
              ∙ append_assoc (acked w) (pkt ∷ []) (packets rs);
          verdict = ih.verdict;
        })
        | inr e ↦ rw e (record {
          unsent = packets rs;
          unacked = packets ((cmd, body) ∷ rs);
          in_order = ap (λ l. l ++ packets rs) head ∙ regroup;
          ack_order =
              ap (λ l. l ++ packets ((cmd, body) ∷ rs))
                (rw e at (counted cmd body w) ∙ append-nil (acked w));
          verdict = inr (refl, λ none_left. cc);
        })
      ]

  -- An update always ends; the whole script was acknowledged if it reports 0, and otherwise only first packets
  -- of it.
  pub dfu_sequence-Sending :
      (k : ℕ)
      → 0 < k
      → (fw : List ℕ) (w : W)
      → (r : ℤ) × ((dfu_sequence send_and_ack k fw w).0 ≡ some r)
        × Sending log acked w (packets (requests k fw)) (r, (dfu_sequence send_and_ack k fw w).1)
  dfu_sequence-Sending k positive fw w =
      let run = send_all send_and_ack (requests k fw) w in
      rw (dfu_sequence-send_all send_and_ack k positive fw w)
        (run.0, refl, send_all-Sending (requests k fw) w)

packet_sizes :
    (k : ℕ) (cs : List (List ℕ))
    → All (λ c. (0 < length c) × (length c ≤ k)) cs
    → All
        (λ p. (0 < length p) × (length p ≤ k + 1))
        (packets (download_requests cs ++ (end_cmd, []) ∷ []))
packet_sizes k [] h = omega arith
packet_sizes k (c ∷ cs) h = (omega arith, packet_sizes k cs h.1)

-- No packet of an update is longer than a chunk and its command byte.
pub packets-sizes :
    (k : ℕ)
    → 0 < k
    → (fw : List ℕ) → All (λ p. (0 < length p) × (length p ≤ k + 1)) (packets (requests k fw))
packets-sizes k positive fw =
    (omega arith, packet_sizes k (chunks k fw) (chunks-sizes k positive fw))
