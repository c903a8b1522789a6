-- ===== src/App/Update/Tests.antt =====
-- Whole updates over TCP, run and proved, at a concrete image.
use zephyr_development.Prelude.{
  ℕ, ◌≡◌, ◌++◌, refl, true, false, some, List, [], ◌∷◌, ℤ, pos, neg, Env, length,
}
use zephyr_development.Dfu.{Call, tcp_server_send, dfu_handle, flash_img_buffered_write}
use zephyr_development.Host.{dfu_sequence, dfu_download}
use zephyr_development.TcpClient.{send_and_ack, chunk_size}
use zephyr_development.Host.Chunks.{chunks}
use zephyr_development.App.{tcp_received}
use zephyr_development.Dfu.Spec.{image, upgrading}
use zephyr_development.App.Update.{Device, device_socket, deliver, take_answer, hear_all}
use zephyr_development.App.Update.Cut.{cut_packet_reboots}

abbrev reliable : Env Call ℤ
reliable past (tcp_server_send fd msg) = pos (length msg)
reliable past c = pos 0

-- The same, but the writer refuses every block.
abbrev worn_out : Env Call ℤ
worn_out past (tcp_server_send fd msg) = pos (length msg)
worn_out past (flash_img_buffered_write b f) = neg 5
worn_out past c = pos 0

abbrev booted : Device
booted = record { trace = []; read = 0; off = false }

abbrev firmware : List ℕ
firmware = 10 ∷ 20 ∷ 30 ∷ []

update_refused :
    (dfu_sequence (send_and_ack (device_socket worn_out 9)) chunk_size firmware booted).0
    ≡ some (neg 1)
unfolding dfu_sequence dfu_download send_and_ack deliver take_answer tcp_received dfu_handle chunks
update_refused = refl

-- The chunk 10, 20, 5, 30 is cut before its 5.
cut_packet_reboots_example :
    let d' = hear_all reliable 9 ((4 ∷ 10 ∷ 20 ∷ []) ∷ (5 ∷ 30 ∷ []) ∷ []) booted in
    (image d'.trace ≡ [] ++ 10 ∷ 20 ∷ []) × (upgrading d'.trace ≡ true) × (d'.off ≡ true)
cut_packet_reboots_example =
    cut_packet_reboots reliable 9 (10 ∷ 20 ∷ []) (30 ∷ []) booted refl refl refl
