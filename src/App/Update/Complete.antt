-- ===== src/App/Update/Complete.antt =====
-- An update goes through when the flash writer and the answers do.
use zephyr_development.Prelude.{
  ℕ, ◌≡◌, ℤ, pos, is_zero, true, false, Bool, List, [], ◌∷◌, Env, Trace, arith, ◌==◌, length,
  ==-refl, ◌⊎◌, ◌<◌,
}
use zephyr_development.Dfu.{Call, flash_img_init, flash_img_buffered_write, tcp_server_send}
use zephyr_development.Dfu.Spec.{accepted}
use zephyr_development.Host.Download.{Request}
use zephyr_development.TcpClient.{send_and_ack, check_ack}
use zephyr_development.TcpServer.{mtu_size}
use zephyr_development.App.Update.{Device, device_socket}
use zephyr_development.App.Update.Answer.{IsReady, send_and_ack_lem, arrived, reply_count}

-- The flash writer does its part, and the socket takes an answer whole.
pub record IsReliable (env : Env Call ℤ) : Type 0 where
  pub init_good : (past : Trace Call ℤ) → env past flash_img_init ≡ pos 0
  pub write_good :
      (past : Trace Call ℤ) (b : List ℕ) (f : Bool)
      → env past (flash_img_buffered_write b f) ≡ pos 0
  pub send_good :
      (past : Trace Call ℤ) (fd : ℕ) (msg : List ℕ)
      → env past (tcp_server_send fd msg) ≡ pos (length msg)

module _ (env : Env Call ℤ) (good : IsReliable env) (fd : ℕ) where
  abbrev IsCommand : ℕ → Type 0
  IsCommand req = (req ≡ 3) ⊎ (req ≡ 4) ⊎ (req ≡ 5)

  accepted_good :
      (past : Trace Call ℤ) (req : ℕ) (buf : List ℕ)
      → IsCommand req
      → accepted env past req buf ≡ true
  accepted_good past req buf c =
      ground
        (arith, good.init_good past, good.write_good past buf false, good.write_good past [] true)

  reply_count_good :
      (past : Trace Call ℤ) (req : ℕ) (buf : List ℕ)
      → IsCommand req
      → reply_count env fd req buf past ≡ 2
  reply_count_good past req buf c = grind (arith, good.send_good)

  send_good :
      (req : ℕ) (buf : List ℕ) (d : Device)
      → IsCommand req
      → IsReady env fd d
      → length buf < mtu_size
      → is_zero (send_and_ack (device_socket env fd) req (req ∷ buf) d).0 ≡ true
  unfolding arrived check_ack
  send_good req buf d c h fits =
      rw
        (
          send_and_ack_lem env fd req buf d h fits,
          arrived,
          reply_count_good d.trace req buf c,
          accepted_good d.trace req buf c,
        )
        (ground (arith, ==-refl req))

  -- Nothing but END comes last, all before it are START or DOWNLOAD, and each fits into the server's buffer.
  abbrev IsScript : List Request → Type 0
  IsScript [] = Unit
  IsScript ((cmd, body) ∷ rs) =
      IsCommand cmd × ((rs ≡ []) ⊎ ((cmd == 5) ≡ false)) × (length body < mtu_size) × IsScript rs
