-- ===== src/DfuHost/Tests.antt =====
-- Runs of host-dfu-app/dfu_host.c, and its theorems at concrete inputs.
use Prim.Native.String.{String}
use text.Mathlib.Text.{◌==◌ as str_eq}
use zephyr_development.Prelude.{
  ℕ, ◌≡◌, ◌≢◌, ◌⊎◌, refl, if◌then◌else◌, true, Option, none, some, List, [], ◌∷◌, ◌++◌, ℤ, pos,
  length,
}
use zephyr_development.Host.{dfu_sequence, dfu_download}
use zephyr_development.Host.Download.{requests}
use zephyr_development.Host.Sent.{packets}
use zephyr_development.DfuHost.{
  Answer, LibusbEnv, chunk_size, bulk_out, bulk_in, libusb_kernel_driver_active, run_update,
  send_and_ack, parse_args,
}
use zephyr_development.DfuHost.Main.{File, at_start, main, read_firmware, update_and_free}
use zephyr_development.DfuHost.Main.Ended.{IsEnded, main-IsEnded}
use zephyr_development.DfuHost.Wire.{wire, acked, wire-run_update}
use zephyr_development.DfuHost.Release.{held, nothing, fresh, run_update_releases}

abbrev plain : ℤ → Answer
plain r = record { ret = r; transferred = 0; bytes = [] }

-- A kernel driver is in the way, and the device answers every packet with success.
abbrev agreeing : LibusbEnv
agreeing past (bulk_out b) = record { ret = pos 0; transferred = length b; bytes = [] }
agreeing ((bulk_out (cmd ∷ body), a) ∷ past) (bulk_in n) = record {
  ret = pos 0;
  transferred = 0;
  bytes = cmd ∷ 1 ∷ [];
}
agreeing past libusb_kernel_driver_active = plain (pos 1)
agreeing past c = plain (pos 0)

abbrev firmware : List ℕ
firmware = 10 ∷ 20 ∷ 30 ∷ []

update_status : (run_update agreeing 1 2 firmware fresh).0 ≡ some 0
unfolding run_update dfu_sequence dfu_download send_and_ack
update_status = refl

wire-run_update_example :
    let r = run_update agreeing 1 2 firmware fresh in
    let script = packets (requests chunk_size firmware) in
    (status : ℕ) × (unsent : List (List ℕ)) × (unacked : List (List ℕ)) × (r.0 ≡ some status)
    × (wire r.1.trace ++ unsent ≡ [] ++ script)
    × (acked r.1.trace ++ unacked ≡ [] ++ script)
    × ((status ≡ 0) × (unsent ≡ []) × (unacked ≡ []) ⊎ (status ≡ 1) × (unacked ≢ []))
wire-run_update_example = wire-run_update agreeing 1 2 firmware fresh

run_update_releases_example : held (run_update agreeing 1 2 firmware fresh).1.trace ≡ nothing
run_update_releases_example = run_update_releases agreeing 1 2 firmware

-- One file, of three bytes; numbers are all read as 7.
abbrev disk : String → Option File
disk path =
    if str_eq path "fw.bin"
    then some (record { ftell = pos 3; malloc = true; fread = firmware })
    else none

abbrev seven : String → ℕ
seven s = 7

abbrev command_line : List String
command_line = "-v" ∷ "1234" ∷ "-f" ∷ "fw.bin" ∷ "-p" ∷ "5678" ∷ []

main_succeeds : (main seven disk agreeing command_line at_start).0 ≡ some 0
unfolding main parse_args read_firmware update_and_free run_update dfu_sequence dfu_download
    send_and_ack
main_succeeds = refl

main-IsEnded_example :
    IsEnded seven disk agreeing command_line (main seven disk agreeing command_line at_start)
main-IsEnded_example = main-IsEnded seven disk agreeing command_line
