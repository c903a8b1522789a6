-- ===== src/TcpClient.antt =====
-- host-dfu-app/tcp_client.c: the update tool that speaks the protocol over a TCP socket.

pub mod Wire
pub mod Exit
mod Tests
use Prim.Native.String.{String}
use text.Mathlib.Text.{◌==◌ as str_eq}
use zephyr_development.Prelude.{
  ℕ, suc, ◌||◌, not, Option, none, some, List, [], ◌∷◌, ℤ, pos, neg, is_zero, is_neg, is_count,
  Bool, true, false, Io, ◌==◌, if◌then◌else◌, length, ◌++◌, drop,
}
use zephyr_development.Host
use zephyr_development.Host.Progress
use zephyr_development.Host.{status_success}

abbrev pub chunk_size : ℕ
chunk_size = 254

-- The socket: `send` gives its return value, `recv` with MSG_WAITALL the bytes it read (none on error).
pub record Socket (W : Type 0) : Type 0 where
  pub send : List ℕ → Io W ℤ
  pub recv : ℕ → Io W (Option (List ℕ))

-- The two tests on a complete answer.
unfoldable pub check_ack : ℕ → Option (List ℕ) → ℤ
check_ack cmd (some (a ∷ b ∷ [])) =
    if not (a == cmd) then neg 1 else if not (b == status_success) then neg 1 else pos 0
check_ack cmd _ = neg 1

module _ {W : Type 0} (sock : Socket W) where
  open sock use {send, recv}

  unfoldable pub send_and_ack : ℕ → List ℕ → Io W ℤ
  unfolding check_ack
  send_and_ack cmd buf w =
      let sent = send buf w in
      let got = recv 2 sent.1 in
      if is_count sent.0 (length buf) then (check_ack cmd got.0, got.1) else (neg 1, sent.1)

  unfoldable pub dfu_start : Io W ℤ
  dfu_start = Host.dfu_start send_and_ack

  unfoldable pub dfu_download : List ℕ → Io W (Option ℤ)
  dfu_download = Host.dfu_download send_and_ack chunk_size

  unfoldable pub dfu_end : Io W ℤ
  dfu_end = Host.dfu_end send_and_ack

abbrev pub print_progress : ℕ → ℕ → Option Progress.Line
print_progress = Progress.print_progress

pub record Args : Type 0 where
  pub fw_path : Option String
  pub ip : Option String
  pub port : ℤ

-- The argument loop. `argv[++i]` past the last argument is the NULL at `argv[argc]`; `atoi` of NULL
-- is undefined, which is the `none` of the result. `atoi` is the C library's.
unfoldable pub parse_args : (String → ℤ) → List String → Args → Option Args
parse_args atoi [] a = some a
parse_args atoi (s ∷ []) a =
    if str_eq s "-f"
    then some (record a { fw_path = none })
    else if str_eq s "-i"
    then some (record a { ip = none })
    else if str_eq s "-p"
    then none
    else some a
parse_args atoi (s ∷ v ∷ rest) a =
    let path = parse_args atoi rest (record a { fw_path = some v }) in
    let address = parse_args atoi rest (record a { ip = some v }) in
    let number = parse_args atoi rest (record a { port = atoi v }) in
    let skip = parse_args atoi (v ∷ rest) a in
    if str_eq s "-f"
    then path
    else if str_eq s "-i"
    then address
    else if str_eq s "-p"
    then number
    else skip

-- The calls of `tcp_connect`, each with the value that it returns.
pub record Network (W : Type 0) : Type 0 where
  pub socket : Io W ℤ
  pub inet_pton : String → Io W ℤ
  pub connect : ℤ → Io W ℤ
  pub close : Io W (Unit {0})
  pub stream : Socket W

unfoldable pub tcp_connect : {W : Type 0} → Network W → String → ℤ → Io W ℤ
tcp_connect net ip port w =
    let opened = net.socket w in
    let parsed = net.inet_pton ip opened.1 in
    let connected = net.connect port parsed.1 in
    if is_neg opened.0
    then (neg 1, opened.1)
    else if is_neg parsed.0 || is_zero parsed.0
    then (neg 1, parsed.1)
    else if is_neg connected.0
    then (neg 1, connected.1)
    else (pos 0, connected.1)

-- `main` from `tcp_connect` on: the exit status. All three failures `goto done`, where the status is 0.
unfoldable pub connect_and_run : {W : Type 0} → Network W → List ℕ → String → ℤ → Io W (Option ℕ)
connect_and_run net fw ip port w =
    let connected = tcp_connect net ip port w in
    let run = Host.dfu_sequence (send_and_ack net.stream) chunk_size fw connected.1 in
    let closed = net.close run.1 in
    if is_zero connected.0
    then (elim run.0 [ none ↦ none | some ret ↦ some 0 ], closed.1)
    else (some 1, connected.1)

-- `main` from the parsed arguments on. The firmware file is a parameter, none where `fopen` fails.
-- A result `none` would be a loop that does not end.
unfoldable pub main_with :
    {W : Type 0} → Network W → (String → Option (List ℕ)) → Args → Io W (Option ℕ)
main_with net file a w = elim a.fw_path [
  | none ↦ (some 1, w)
  | some path ↦ elim a.ip [
    | none ↦ (some 1, w)
    | some ip ↦
        if is_zero a.port
        then (some 1, w)
        else elim (file path) [ none ↦ (some 1, w) | some fw ↦ connect_and_run net fw ip a.port w ]
  ]
]

-- What the C library gives for a file: the block of its size from `malloc`, taken not to be NULL, with what
-- happens to stand in it, and the bytes that `fread` gets.
pub record File : Type 0 where
  pub block : List ℕ
  pub fread : List ℕ

-- The block after the read, whose result is not looked at.
abbrev pub loaded : File → List ℕ
loaded f = f.fread ++ drop (length f.fread) f.block

-- `argv` without the program's name. The outer `none` is the undefined call of `atoi`.
unfoldable pub main :
    {W : Type 0}
    → (String → ℤ)
    → (String → Option File)
    → Network W
    → List String
    → W
    → Option (Option ℕ × W)
main atoi fopen net argv w =
    let file = λ (path : String). elim (fopen path) as (λ _. Option (List ℕ)) [
      | none ↦ none
      | some f ↦ some (loaded f)
    ] in
    elim (parse_args atoi argv (record { fw_path = none; ip = none; port = pos 0 })) [
      | none ↦ none
      | some a ↦ some (main_with net file a w)
    ]
