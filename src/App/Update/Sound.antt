-- ===== src/App/Update/Sound.antt =====
-- Success at the client means a written image and a requested upgrade at the device.
use zephyr_development.Prelude.{ℕ, ◌≡◌, ℤ, true, List, ◌∷◌, Env}
use zephyr_development.Dfu.{Call}
use zephyr_development.Dfu.Spec.{image, upgrading}
use zephyr_development.Host.Download.{Request, send_all}
use zephyr_development.TcpClient.{send_and_ack}
use zephyr_development.App.Update.{Device, device_socket}

module _ (env : Env Call ℤ) (fd : ℕ) where
  -- The device holds the image, has requested the upgrade and is in its reboot.
  pub record IsUpdated (fw : List ℕ) (d : Device) : Type 0 where
    pub written : image d.trace ≡ fw
    pub requested : upgrading d.trace ≡ true
    pub asleep : d.off ≡ true

  send : Request → Device → ℤ × Device
  send (cmd, body) d = send_and_ack (device_socket env fd) cmd (cmd ∷ body) d

  run : List Request → Device → ℤ × Device
  run = send_all (send_and_ack (device_socket env fd))
