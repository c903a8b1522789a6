-- ===== src/DfuHost.antt =====
-- host-dfu-app/dfu_host.c: the update tool that speaks the protocol over USB bulk endpoints.
-- libusb is outside code: each call is recorded in a trace, with what it answered.
pub mod Wire
pub mod Release
pub mod Main
mod Tests
use Prim.Native.String.{String}
use text.Mathlib.Text.{◌==◌ as str_eq}
use zephyr_development.Prelude.{
  ℕ, is_count, ◌||◌, not, Option, none, some, List, [], ◌∷◌, ℤ, pos, neg, is_zero, Bool, true,
  false, Io, Trace, Env, ◌==◌, if◌then◌else◌, length, ◌%◌, ◌^◌,
}
use zephyr_development.Host
use zephyr_development.Host.Progress
use zephyr_development.Host.{status_success}

abbrev pub chunk_size : ℕ
chunk_size = 63

-- The calls of libusb.
pub data Call : Type 0 where
  libusb_init : Call
  libusb_open_device_with_vid_pid : ℕ → ℕ → Call
  libusb_kernel_driver_active : Call
  libusb_detach_kernel_driver : Call
  libusb_attach_kernel_driver : Call
  libusb_claim_interface : Call
  libusb_release_interface : Call
  libusb_close : Call
  libusb_exit : Call
  bulk_out : List ℕ → Call
  bulk_in : ℕ → Call

-- An answer: the return value (for the open call, 0 stands for a handle and anything else for NULL),
-- the count of bytes transferred out, and the bytes transferred in.
pub record Answer : Type 0 where
  pub ret : ℤ
  pub transferred : ℕ
  pub bytes : List ℕ

abbrev pub LibusbEnv : Type 0
LibusbEnv = Env Call Answer

-- The file's globals, and the trace.
pub record Globals : Type 0 where
  pub ctx : Bool
  pub hdev : Bool
  pub kernel_detached : Bool
  pub trace : Trace Call Answer

abbrev pub print_progress : ℕ → ℕ → Option Progress.Line
print_progress = Progress.print_progress

module _ (env : LibusbEnv) where
  abbrev pub libusb : Call → Io Globals Answer
  libusb c w = (env w.trace c, record w { trace = (c, env w.trace c) ∷ w.trace })

  -- The tests on the answer packet.
  unfoldable pub check_ack : ℕ → Answer → ℤ
  check_ack cmd a = elim a.bytes [
    | [] ↦ neg 1
    | b ∷ bs ↦ elim bs [
      | [] ↦ neg 1
      | s ∷ rest ↦
          if not (b == cmd) then neg 1 else if not (s == status_success) then neg 1 else pos 0
    ]
  ]

  unfoldable pub send_and_ack : ℕ → List ℕ → Io Globals ℤ
  unfolding check_ack
  send_and_ack cmd buf w =
      let tx = libusb (bulk_out buf) w in
      let rx = libusb (bulk_in 2) tx.1 in
      if not (is_zero tx.0.ret)
      then (neg 1, tx.1)
      else if not (tx.0.transferred == length buf)
      then (neg 1, tx.1)
      else if not (is_zero rx.0.ret)
      then (neg 1, rx.1)
      else (check_ack cmd rx.0, rx.1)

  unfoldable pub dfu_start : Io Globals ℤ
  dfu_start = Host.dfu_start send_and_ack

  unfoldable pub dfu_download : List ℕ → Io Globals (Option ℤ)
  dfu_download = Host.dfu_download send_and_ack chunk_size

  unfoldable pub dfu_end : Io Globals ℤ
  dfu_end = Host.dfu_end send_and_ack

  -- The tail of `usb_open`: claim the interface, or undo everything.
  unfoldable pub claim : Io Globals ℤ
  claim w =
      let claimed = libusb libusb_claim_interface w in
      let undone =
        if claimed.1.kernel_detached
        then (libusb libusb_attach_kernel_driver claimed.1).1
        else claimed.1 in
      let closed = libusb libusb_close undone in
      let exited = libusb libusb_exit closed.1 in
      if is_zero claimed.0.ret then (pos 0, claimed.1) else (neg 1, exited.1)

  unfoldable pub usb_open : ℕ → ℕ → Io Globals ℤ
  unfolding claim
  usb_open vid pid w =
      let started = libusb libusb_init w in
      let opened =
        libusb (libusb_open_device_with_vid_pid vid pid) (record started.1 { ctx = true }) in
      let found = is_zero opened.0.ret in
      let active = libusb libusb_kernel_driver_active (record opened.1 { hdev = found }) in
      let detached = libusb libusb_detach_kernel_driver active.1 in
      if not (is_zero started.0.ret)
      then (neg 1, started.1)
      else if not found
      then (neg 1, (libusb libusb_exit (record opened.1 { hdev = found })).1)
      else if not (is_count active.0.ret 1)
      then claim active.1
      else if not (is_zero detached.0.ret)
      then (neg 1, (libusb libusb_exit (libusb libusb_close detached.1).1).1)
      else claim (record detached.1 { kernel_detached = true })

  unfoldable pub usb_close : Io Globals (Unit {0})
  usb_close w =
      let released = (libusb libusb_release_interface w).1 in
      let attached =
        if released.kernel_detached
        then (libusb libusb_attach_kernel_driver released).1
        else released in
      let closed = record (libusb libusb_close attached).1 { hdev = false } in
      let device = if w.hdev then closed else w in
      let exited = record (libusb libusb_exit device).1 { ctx = false } in
      (tt, if device.ctx then exited else device)

  -- `main` from the read firmware on: the exit status. `none` would be a loop that does not end.
  unfoldable pub run_update : ℕ → ℕ → List ℕ → Io Globals (Option ℕ)
  unfolding usb_open usb_close
  run_update vid pid fw w =
      let opened = usb_open vid pid w in
      let run = Host.dfu_sequence send_and_ack chunk_size fw opened.1 in
      let closed = usb_close run.1 in
      if is_zero opened.0
      then (
        elim run.0 [ none ↦ none | some ret ↦ if is_zero ret then some 0 else some 1 ],
        closed.1,
      )
      else (some 1, opened.1)

pub record Args : Type 0 where
  pub fw_path : Option String
  pub vid : ℕ
  pub pid : ℕ

-- The argument loop; none is a usage error. `strtoul` base 16 is the C library's; the cast keeps the
-- low 16 bits.
unfoldable pub parse_args : (String → ℕ) → List String → Args → Option Args
parse_args strtoul [] a = some a
parse_args strtoul (s ∷ []) a = none
parse_args strtoul (s ∷ v ∷ rest) a =
    let path = parse_args strtoul rest (record a { fw_path = some v }) in
    let vendor = parse_args strtoul rest (record a { vid = strtoul v % 2 ^ 16 }) in
    let product = parse_args strtoul rest (record a { pid = strtoul v % 2 ^ 16 }) in
    if str_eq s "-f"
    then path
    else if str_eq s "-v"
    then vendor
    else if str_eq s "-p"
    then product
    else none
