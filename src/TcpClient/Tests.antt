-- ===== src/TcpClient/Tests.antt =====
-- Runs of host-dfu-app/tcp_client.c, and its theorems at concrete inputs.
use zephyr_development.Prelude.{Option}
use Prim.Native.String.{String}
use zephyr_development.Prelude.{
  ℕ, ◌≡◌, ◌+◌, ◌↔◌, refl, some, none, List, [], ◌∷◌, ℤ, pos, neg, length, Env, arith,
}
use zephyr_development.Host.{dfu_sequence, dfu_download}
use zephyr_development.Host.Download.{requests, send_all, dfu_sequence-send_all}
use zephyr_development.Host.Sent.{packets, Sending}
use zephyr_development.Host.Progress.Printed.{IsRising, shown, IsSuccess, printed, printed_lem}
use zephyr_development.TcpClient.{
  File, Network, Args, chunk_size, send_and_ack, tcp_connect, main_with, parse_args, main, loaded,
  connect_and_run,
}
use zephyr_development.TcpClient.Wire.{
  Call, Answer, send, recv, recorded, wire, acked, tcp_sequence_wire,
}

-- A device that takes every packet and answers the last command with success.
abbrev agreeing : Env Call Answer
agreeing past (send b) = record { code = pos (length b); bytes = none }
agreeing [] (recv n) = record { code = pos 0; bytes = none }
agreeing ((send [], a) ∷ past) (recv n) = record { code = pos 0; bytes = none }
agreeing ((send (cmd ∷ body), a) ∷ past) (recv n) = record {
  code = pos 0;
  bytes = some (cmd ∷ 1 ∷ []);
}
agreeing ((recv m, a) ∷ past) (recv n) = record { code = pos 0; bytes = none }

abbrev firmware : List ℕ
firmware = 10 ∷ 20 ∷ 30 ∷ []

wire_runs :
    wire (dfu_sequence (send_and_ack (recorded agreeing)) chunk_size firmware []).1
    ≡ (3 ∷ []) ∷ (4 ∷ 10 ∷ 20 ∷ 30 ∷ []) ∷ (5 ∷ []) ∷ []
unfolding dfu_sequence dfu_download send_and_ack
wire_runs = refl

tcp_sequence_wire_example :
    (r : ℤ) × ((dfu_sequence (send_and_ack (recorded agreeing)) chunk_size firmware []).0 ≡ some r)
    × Sending wire acked []
        (packets (requests chunk_size firmware))
        (r, (dfu_sequence (send_and_ack (recorded agreeing)) chunk_size firmware []).1)
tcp_sequence_wire_example = tcp_sequence_wire agreeing firmware []

dfu_sequence-send_all_example : dfu_sequence (send_and_ack (recorded agreeing)) 2 firmware [] ≡ (
    let r = send_all (send_and_ack (recorded agreeing)) (requests 2 firmware) [] in (some r.0, r.1))
dfu_sequence-send_all_example =
    dfu_sequence-send_all (send_and_ack (recorded agreeing)) 2 (omega arith) firmware []

-- A network where everything opens and no device ever answers.
abbrev silent : Network ℕ
silent = record {
  socket = λ w. (pos 3, w);
  inet_pton = λ ip w. (pos 1, w);
  connect = λ port w. (pos 0, w);
  close = λ w. (tt, w + 1);
  stream = record { send = λ b w. (neg 1, w); recv = λ n w. (none, w) };
}

abbrev given : Args
given = record { fw_path = some "fw.bin"; ip = some "10.0.0.2"; port = pos 2026 }

parse_runs :
    parse_args
      (λ s. pos 2026)
      ("-f" ∷ "fw.bin" ∷ "-i" ∷ "10.0.0.2" ∷ "-p" ∷ "2026" ∷ [])
      (record { fw_path = none; ip = none; port = pos 0 })
    ≡ some given
unfolding parse_args
parse_runs = refl

-- `-p` as the last argument reads the number through NULL.
parse_faults :
    parse_args
      (λ s. pos 2026)
      ("-f" ∷ "fw.bin" ∷ "-p" ∷ [])
      (record { fw_path = none; ip = none; port = pos 0 })
    ≡ none
unfolding parse_args
parse_faults = refl

-- The device refuses START, and the status is 0.
abbrev command_line : List String
command_line = "-f" ∷ "fw.bin" ∷ "-i" ∷ "10.0.0.2" ∷ "-p" ∷ "2026" ∷ []

abbrev read_port : String → ℤ
read_port s = pos 2026

abbrev disk : String → Option File
disk path = some (record { block = []; fread = firmware })

-- A file of three bytes of which only one is read: what stood in the block goes along.
short_read : loaded (record { block = 9 ∷ 9 ∷ 9 ∷ []; fread = 10 ∷ [] }) ≡ 10 ∷ 9 ∷ 9 ∷ []
short_read = refl

silent_runs : main read_port disk silent command_line 0 ≡ some (some 0, 1)
unfolding main parse_args main_with connect_and_run tcp_connect dfu_sequence send_and_ack
silent_runs = refl

printed_lem_example :
    IsRising 0 3 (printed (send_and_ack (recorded agreeing)) 2 firmware [])
    × (IsSuccess (dfu_download (send_and_ack (recorded agreeing)) 2 firmware []).0
        ↔ (shown 0 (printed (send_and_ack (recorded agreeing)) 2 firmware []) ≡ 3))
printed_lem_example =
    printed_lem (send_and_ack (recorded agreeing)) 2 (omega arith) firmware (omega arith) []
