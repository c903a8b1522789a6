-- ===== src/DfuHost/Release.antt =====
-- The libusb resources of host-dfu-app/dfu_host.c: what is taken is given back.
use zephyr_development.Prelude.{
  ℕ, Bool-cases, inl, inr, ◌≡◌, List, [], ◌∷◌, is_zero, Bool, true, false, not, ◌&&◌, Trace, arith,
  if◌then◌else◌,
}
use zephyr_development.Host.Download.{requests, send_all_inv, dfu_sequence-send_all}
use zephyr_development.DfuHost.{
  Call, Answer, LibusbEnv, Globals, chunk_size, libusb_init, libusb_open_device_with_vid_pid,
  libusb_detach_kernel_driver, libusb_attach_kernel_driver, libusb_claim_interface,
  libusb_release_interface, libusb_close, libusb_exit, send_and_ack, usb_open, usb_close,
  run_update,
}

-- What the process holds: a library session, a device handle, the kernel driver's place, interface 0. The
-- driver's place is given back by a request to attach it that is made through an open handle with the interface
-- released; libusb refuses one made while the interface is claimed.
pub record Held : Type 0 where
  pub session : Bool
  pub handle : Bool
  pub driver : Bool
  pub interface : Bool

abbrev pub nothing : Held
nothing = record { session = false; handle = false; driver = false; interface = false }

-- One call, and whether it answered 0.
abbrev pub take_or_give : Call → Bool → Held → Held
take_or_give libusb_init true h = record h { session = true }
take_or_give (libusb_open_device_with_vid_pid v p) true h = record h { handle = true }
take_or_give libusb_detach_kernel_driver true h = record h { driver = true }
take_or_give libusb_claim_interface true h = record h { interface = true }
take_or_give libusb_attach_kernel_driver good h =
    if h.handle && not h.interface then record h { driver = false } else h
take_or_give libusb_release_interface good h = record h { interface = false }
take_or_give libusb_close good h = record h { handle = false }
take_or_give libusb_exit good h = record h { session = false }
take_or_give _ _ h = h

abbrev pub held : Trace Call Answer → Held
held [] = nothing
held ((c, a) ∷ past) = take_or_give c (is_zero a.ret) (held past)

-- The state of the process at its start.
abbrev pub fresh : Globals
fresh = record { ctx = false; hdev = false; kernel_detached = false; trace = [] }

-- With the device open the globals say what is held.
abbrev Matches : Globals → Type 0
Matches w =
    held w.trace
    ≡ record { session = w.ctx; handle = w.hdev; driver = w.kernel_detached; interface = w.hdev }

module _ (env : LibusbEnv) where
  send_and_ack-Matches :
      (cmd : ℕ) (pkt : List ℕ) (w : Globals)
      → (Matches w × (w.ctx ≡ true) × (w.hdev ≡ true))
      → let w' = (send_and_ack env cmd pkt w).1 in Matches w' × (w'.ctx ≡ true) × (w'.hdev ≡ true)
  unfolding send_and_ack
  send_and_ack-Matches cmd pkt w m = ground arith

  -- `usb_open` fails with nothing held, or succeeds with all that the globals say.
  pub usb_open-Matches :
      (vid pid : ℕ)
      → let r = usb_open env vid pid fresh in
        if is_zero r.0
        then Matches r.1 × (r.1.ctx ≡ true) × (r.1.hdev ≡ true)
        else held r.1.trace ≡ nothing
  unfolding usb_open
  usb_open-Matches vid pid = ground arith

  usb_close-Matches :
      (w : Globals)
      → (Matches w × (w.ctx ≡ true) × (w.hdev ≡ true))
      → held (usb_close env w).1.trace ≡ nothing
  unfolding usb_close
  usb_close-Matches w m = ground arith

  -- Whatever libusb answers, a run of the USB tool ends with no session, no handle and no
  -- interface held, and if it detached the kernel driver it has asked for it to be attached again,
  -- through the open handle and with the interface released.
  pub run_update_releases :
      (vid pid : ℕ) (fw : List ℕ) → held (run_update env vid pid fw fresh).1.trace ≡ nothing
  unfolding run_update
  run_update_releases vid pid fw =
      let opened = usb_open env vid pid fresh in
      let ready = usb_open-Matches vid pid in
      elim (Bool-cases (is_zero opened.0)) [
        | inr e ↦ let none_held = rw e at ready in rw e none_held
        | inl e ↦
            let start = rw e at ready in
            rw (e, dfu_sequence-send_all (send_and_ack env) chunk_size (omega arith) fw opened.1)
              (usb_close-Matches _ (
                send_all_inv (send_and_ack env)
                  (λ (w : Globals). Matches w × (w.ctx ≡ true) × (w.hdev ≡ true))
                  send_and_ack-Matches (requests chunk_size fw) opened.1 start))
      ]
