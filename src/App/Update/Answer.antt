-- ===== src/App/Update/Answer.antt =====
-- One request of host-dfu-app/tcp_client.c and its answer by app/src/dfu.c.
use zephyr_development.Prelude.{
  ℕ, zero, suc, ◌+◌, ◌<◌, ◌≡◌, sym, ap, ◌∙◌, ℤ, is_zero, true, false, none, some, List, [], ◌∷◌,
  ◌++◌, Env, Trace, arith, ◌==◌, leb, if◌then◌else◌, length, take, drop, length-append, ==-refl,
  drop-append,
}
use zephyr_development.Dfu.{
  Call, tcp_server_send, result_byte, success, failed, net_tcp, dfu_handle, Outcome,
}
use zephyr_development.Dfu.Spec.{flash_call, accepted, session, session_step}
use zephyr_development.Dfu.Handle.{dfu_handle_refines, dfu_handle_outcome}
use zephyr_development.TcpClient.{send_and_ack, check_ack}
use zephyr_development.TcpServer.{mtu_size}
use zephyr_development.Host.Chunks.{chunks_single}
use zephyr_development.App.{tcp_received}
use zephyr_development.App.Update.{
  count, delivered, Device, deliver, hear, hear_all, take_answer, device_socket, is_reboot,
}

module _ (env : Env Call ℤ) (fd : ℕ) where
  -- How much of the answer to a request the socket takes.
  abbrev pub reply_count : ℕ → List ℕ → Trace Call ℤ → ℕ
  reply_count req buf past = elim (flash_call req buf) [
    | none ↦ count (env past (tcp_server_send fd (req ∷ failed ∷ [])))
    | some c ↦
        count
          (env ((c, env past c) ∷ past) (tcp_server_send fd (req ∷ result_byte (env past c) ∷ [])))
  ]

  abbrev pub answer : ℕ → List ℕ → Trace Call ℤ → List ℕ
  answer req buf past = req ∷ (if accepted env past req buf then success else failed) ∷ []

  delivered-dfu_handle :
      (req : ℕ) (buf : List ℕ) (past : Trace Call ℤ)
      → delivered fd (dfu_handle net_tcp env fd req buf past).1
        ≡ delivered fd past ++ take (reply_count req buf past) (answer req buf past)
  unfolding dfu_handle
  delivered-dfu_handle req buf past = ground (arith, ==-refl fd)

  -- Listening, with every earlier answer read.
  pub record IsReady (d : Device) : Type 0 where
    pub awake : d.off ≡ false
    pub synced : d.read ≡ length (delivered fd d.trace)

  -- What a client reads after a request that the device took.
  check_answer :
      (n req status : ℕ)
      → let bytes = take n (req ∷ status ∷ []) in
        is_zero (check_ack req (if leb 2 (length bytes) then some (take 2 bytes) else none)) ≡ true
        → (status ≡ success) × (length bytes ≡ 2)
  unfolding check_ack
  check_answer zero req status h = ground arith
  check_answer (suc zero) req status h = ground arith
  check_answer (suc (suc zero)) req status h = ground arith
  check_answer (suc (suc (suc n))) req status h = ground arith

  -- A request that fits into the server's buffer is heard as one.
  deliver_lem :
      (req : ℕ) (buf : List ℕ) (d : Device)
      → length buf < mtu_size
      → deliver env fd (req ∷ buf) d ≡ hear env fd (req ∷ buf) d
  unfolding deliver
  deliver_lem req buf d fits =
      ap (λ pieces. hear_all env fd pieces d)
        (chunks_single mtu_size (omega arith) req buf (omega (arith, fits)))

  module _ (req : ℕ) (buf : List ℕ) (d : Device) (h : IsReady d)
      (fits : length buf < mtu_size) where
    abbrev pub handled : Outcome × Trace Call ℤ
    handled = dfu_handle net_tcp env fd req buf d.trace

    -- The part of the answer that reaches the client.
    unfoldable pub arrived : List ℕ
    arrived = take (reply_count req buf d.trace) (answer req buf d.trace)

    left_lem : drop d.read (delivered fd handled.1) ≡ arrived
    unfolding arrived
    left_lem =
        rw (delivered-dfu_handle req buf d.trace, h.synced)
          (drop-append (delivered fd d.trace) arrived)

    pub send_and_ack_lem : send_and_ack (device_socket env fd) req (req ∷ buf) d ≡ (
        let d' : Device = record { trace = handled.1; read = d.read; off = is_reboot handled.0 } in
        (
          check_ack req (if leb 2 (length arrived) then some (take 2 arrived) else none),
          if leb 2 (length arrived) then record d' { read = d.read + 2 } else d',
        ))
    unfolding send_and_ack take_answer tcp_received
    send_and_ack_lem =
        ground (arith, ==-refl (suc (length buf)), left_lem, deliver_lem req buf d fits)

    -- An update step that the client takes for a success: the request was accepted, the session moved
    -- as the protocol says, every answer is read, and the device rebooted exactly after END.
    pub record Answered (d' : Device) : Type 0 where
      pub took : accepted env d.trace req buf ≡ true
      pub moved : session d'.trace ≡ session_step req buf true (session d.trace)
      pub synced : d'.read ≡ length (delivered fd d'.trace)
      pub asleep : d'.off ≡ (req == 5)

    pub send_and_ack-Answered :
        is_zero (send_and_ack (device_socket env fd) req (req ∷ buf) d).0 ≡ true
        → Answered (send_and_ack (device_socket env fd) req (req ∷ buf) d).1
    unfolding arrived
    send_and_ack-Answered ok =
        let count = reply_count req buf d.trace in
        let status = if accepted env d.trace req buf then success else failed in
        let read =
          check_answer count req status
            (sym (ap (λ (r : ℤ × Device). is_zero r.0) send_and_ack_lem) ∙ ok) in
        let took : accepted env d.trace req buf ≡ true = ground (arith, read.0) in
        let d' : Device = record {
          trace = handled.1;
          read = d.read + 2;
          off = is_reboot handled.0;
        } in
        let e : (send_and_ack (device_socket env fd) req (req ∷ buf) d).1 ≡ d' =
          ap (λ (r : ℤ × Device). r.1) send_and_ack_lem ∙ ground (arith, read.1) in
        rw e (record {
          took = took;
          moved =
              dfu_handle_refines net_tcp env fd req buf d.trace
              ∙ ap (λ b. session_step req buf b (session d.trace)) took;
          synced = rw (delivered-dfu_handle req buf d.trace) (
              omega (
                arith,
                length-append (delivered fd d.trace) (take count (answer req buf d.trace)),
                h.synced,
                read.1,
              ));
          asleep = ground (arith, dfu_handle_outcome net_tcp env fd req buf d.trace, took);
        })
