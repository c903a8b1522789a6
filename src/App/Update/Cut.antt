-- ===== src/App/Update/Cut.antt =====
-- A packet of host-dfu-app/tcp_client.c that reaches app/src/tcp_server.c in two pieces.
use zephyr_development.Prelude.{
  ℕ, ◌≡◌, refl, ap, ◌∙◌, ℤ, true, false, List, [], ◌∷◌, ◌++◌, Env, arith, ◌==◌,
}
use zephyr_development.Dfu.{Call, net_tcp, dfu_handle, dfu_download_cmd, dfu_end_cmd}
use zephyr_development.Dfu.Spec.{image, upgrading, accepted, session, session_step, Session}
use zephyr_development.Dfu.Handle.{dfu_handle_refines, dfu_handle_outcome}
use zephyr_development.App.{tcp_received}
use zephyr_development.App.Update.{Device, hear, hear_all, is_reboot}

module _ (env : Env Call ℤ) (fd : ℕ) where
  -- A request that an awake device accepts.
  pub record Heard (req : ℕ) (buf : List ℕ) (d d' : Device) : Type 0 where
    pub moved : session d'.trace ≡ session_step req buf true (session d.trace)
    pub asleep : d'.off ≡ (req == 5)

  hear-Heard :
      (req : ℕ) (buf : List ℕ) (d : Device)
      → d.off ≡ false
      → accepted env d.trace req buf ≡ true
      → Heard req buf d (hear env fd (req ∷ buf) d)
  unfolding tcp_received
  hear-Heard req buf d awake took =
      let handled = dfu_handle net_tcp env fd req buf d.trace in
      let e : hear env fd (req ∷ buf) d
          ≡ record d { trace = handled.1; off = is_reboot handled.0 } =
        rw awake refl in
      rw e (record {
        moved =
            dfu_handle_refines net_tcp env fd req buf d.trace
            ∙ ap (λ b. session_step req buf b (session d.trace)) took;
        asleep = ground (arith, dfu_handle_outcome net_tcp env fd req buf d.trace, took);
      })

  -- If a DOWNLOAD packet reaches a listening device in two pieces, the second of which begins with
  -- a byte 5, and the flash writer takes the first piece and answers 0 to the flush, then its
  -- image grows by the bytes before the cut only, and it requests the upgrade and reboots.
  pub cut_packet_reboots :
      (front rest : List ℕ) (d : Device)
      → d.off ≡ false
      → accepted env d.trace dfu_download_cmd front ≡ true
      → accepted env (hear env fd (dfu_download_cmd ∷ front) d).trace dfu_end_cmd rest ≡ true
      → let d' = hear_all env fd ((dfu_download_cmd ∷ front) ∷ (dfu_end_cmd ∷ rest) ∷ []) d in
        (image d'.trace ≡ image d.trace ++ front) × (upgrading d'.trace ≡ true) × (d'.off ≡ true)
  cut_packet_reboots front rest d awake took flushed =
      let middle = hear env fd (dfu_download_cmd ∷ front) d in
      let first = hear-Heard dfu_download_cmd front d awake took in
      let second = hear-Heard dfu_end_cmd rest middle first.asleep flushed in
      (
        ap (λ (s : Session). s.bytes) second.moved ∙ ap (λ (s : Session). s.bytes) first.moved,
        ap (λ (s : Session). s.upgrade) second.moved,
        second.asleep,
      )
