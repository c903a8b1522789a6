-- ===== src/Host.antt =====
-- What host-dfu-app/tcp_client.c and host-dfu-app/dfu_host.c share: both send the same requests and
-- differ in the transport below `send_and_ack`, in the chunk size and in their exit codes.
pub mod Chunks
pub mod Download
pub mod Sent
pub mod Progress
use zephyr_development.Prelude.{
  ℕ, zero, suc, ◌+◌, ◌-◌, Option, none, some, List, [], ◌∷◌, ℤ, pos, neg, is_zero, Io, ltb,
  if◌then◌else◌, length, take, drop,
}

abbrev pub start_cmd : ℕ
start_cmd = 0x03

abbrev pub download_cmd : ℕ
download_cmd = 0x04

abbrev pub end_cmd : ℕ
end_cmd = 0x05

abbrev pub status_success : ℕ
status_success = 0x01

-- `send_and_ack` of the file at hand: command, packet, and 0 or -1.
abbrev pub SendAndAck : Type 0 → Type 0
SendAndAck W = ℕ → List ℕ → Io W ℤ

module _ {W : Type 0} (send_and_ack : SendAndAck W) where
  unfoldable pub dfu_start : Io W ℤ
  dfu_start w =
      let sent = send_and_ack start_cmd (start_cmd ∷ []) w in
      if is_zero sent.0 then (pos 0, sent.1) else (neg 1, sent.1)

  -- `while (offset < fw_size)` on fuel; `none` means that the fuel ran out.
  unfoldable pub download_from : ℕ → List ℕ → ℕ → ℕ → Io W (Option ℤ)
  download_from chunk_size fw zero offset w = (none, w)
  download_from chunk_size fw (suc fuel) offset w =
      let left = length fw - offset in
      let chunk = if ltb chunk_size left then chunk_size else left in
      let sent = send_and_ack download_cmd (download_cmd ∷ take chunk (drop offset fw)) w in
      let rest = download_from chunk_size fw fuel (offset + chunk) sent.1 in
      if ltb offset (length fw)
      then (if is_zero sent.0 then rest else (some (neg 1), sent.1))
      else (some (pos 0), w)

  unfoldable pub dfu_download : ℕ → List ℕ → Io W (Option ℤ)
  unfolding download_from
  dfu_download chunk_size fw = download_from chunk_size fw (suc (length fw)) 0

  unfoldable pub dfu_end : Io W ℤ
  dfu_end w =
      let sent = send_and_ack end_cmd (end_cmd ∷ []) w in
      if is_zero sent.0 then (pos 0, sent.1) else (neg 1, sent.1)

  -- The DFU sequence of `main`: each step only after the one before, else `goto done`.
  unfoldable pub dfu_sequence : ℕ → List ℕ → Io W (Option ℤ)
  unfolding dfu_start dfu_end
  dfu_sequence chunk_size fw w =
      let started = dfu_start w in
      let loaded = dfu_download chunk_size fw started.1 in
      let ended = dfu_end loaded.1 in
      if is_zero started.0
      then elim loaded.0 [
        | none ↦ (none, loaded.1)
        | some ret ↦ if is_zero ret then (some ended.0, ended.1) else (some ret, loaded.1)
      ]
      else (some started.0, started.1)
