-- ===== src/App/Update.antt =====
-- A whole update over TCP: host-dfu-app/tcp_client.c against app/src/tcp_server.c, app/main.c and
-- app/src/dfu.c. The tool is the one client that sends: the server takes more, and their requests would go
-- into the same update. No packet runs into the next, as the protocol supposes; the server's thread reads
-- each in pieces that its buffer holds, and hands every piece to the callback as a request.
pub mod Answer
pub mod Sound
pub mod Complete
pub mod Cut
mod Tests
use zephyr_development.Prelude.{
  ℕ, ◌+◌, ℤ, pos, negsuc, Bool, true, false, Option, none, some, List, [], ◌∷◌, ◌++◌, Env, Trace,
  ◌==◌, leb, if◌then◌else◌, length, take, drop,
}
use zephyr_development.Dfu.{
  Call, flash_img_init, flash_img_buffered_write, tcp_server_send, usb_app_send,
  boot_request_upgrade, usb_app_disable, sys_reboot, Outcome, returned, rebooted, fault,
}
use zephyr_development.TcpClient.{Socket}
use zephyr_development.TcpServer.{mtu_size}
use zephyr_development.Host.Chunks.{chunks}
use zephyr_development.App.{tcp_received}

-- How many bytes `zsock_send` took.
abbrev pub count : ℤ → ℕ
count (pos n) = n
count (negsuc n) = 0

-- The bytes that the device's answers brought to one client, oldest first. What `zsock_send` took is taken to
-- arrive, also when the reboot follows.
abbrev pub delivered : ℕ → Trace Call ℤ → List ℕ
delivered fd [] = []
delivered fd ((tcp_server_send to msg, r) ∷ past) =
    if to == fd then delivered fd past ++ take (count r) msg else delivered fd past
delivered fd ((usb_app_send msg, r) ∷ past) = delivered fd past
delivered fd ((flash_img_init, r) ∷ past) = delivered fd past
delivered fd ((flash_img_buffered_write b f, r) ∷ past) = delivered fd past
delivered fd ((boot_request_upgrade, r) ∷ past) = delivered fd past
delivered fd ((usb_app_disable, r) ∷ past) = delivered fd past
delivered fd ((sys_reboot, r) ∷ past) = delivered fd past

-- The device with one client: its calls so far, how much of its answers the client has read,
-- and whether it has gone into the reboot.
pub record Device : Type 0 where
  pub trace : Trace Call ℤ
  pub read : ℕ
  pub off : Bool

abbrev is_reboot : Outcome → Bool
is_reboot rebooted = true
is_reboot returned = false
is_reboot fault = false

module _ (env : Env Call ℤ) (fd : ℕ) where
  -- The thread hands over what one `zsock_recv` read; a device in its reboot hears nothing.
  abbrev pub hear : List ℕ → Device → Device
  hear piece d =
      let done = tcp_received env fd piece d.trace in
      if d.off then d else record d { trace = done.1; off = is_reboot done.0 }

  abbrev pub hear_all : List (List ℕ) → Device → Device
  hear_all [] d = d
  hear_all (piece ∷ pieces) d = hear_all pieces (hear piece d)

  -- A packet arrives.
  unfoldable pub deliver : List ℕ → Device → Device
  deliver pkt d = hear_all (chunks mtu_size pkt) d

  unfoldable pub take_answer : ℕ → Device → Option (List ℕ) × Device
  take_answer n d =
      let left = drop d.read (delivered fd d.trace) in
      if leb n (length left)
      then (some (take n left), record d { read = d.read + n })
      else (none, d)

  abbrev pub device_socket : Socket Device
  device_socket = record { send = λ pkt d. (pos (length pkt), deliver pkt d); recv = take_answer }
