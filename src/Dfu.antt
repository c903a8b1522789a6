-- ===== src/Dfu.antt =====
-- app/src/dfu.c: the device side of the firmware update protocol. A request is a command byte and
-- data; each handler calls the flash image writer and answers with the command and a result byte.
pub mod Spec
pub mod Handle
mod Tests
use zephyr_development.Prelude.{
  ℕ, ◌-◌, Bool, true, false, ◌||◌, none, some, List, [], ◌∷◌, ℤ, is_zero, Env, Trace, Io, call,
  pure, ◌>>=◌, ◌>>◌, ltb, if◌then◌else◌, get_elem?,
}

abbrev pub dfu_start_cmd : ℕ
dfu_start_cmd = 0x03

abbrev pub dfu_download_cmd : ℕ
dfu_download_cmd = 0x04

abbrev pub dfu_end_cmd : ℕ
dfu_end_cmd = 0x05

abbrev pub success : ℕ
success = 1

abbrev pub failed : ℕ
failed = 0

-- `DFU_NET_TCP` defined, or not.
pub data Transport : Type 0 where
  net_tcp usb : Transport

-- The calls of code outside dfu.c. What `flash_img_*` do to the context is theirs alone.
pub data Call : Type 0 where
  flash_img_init : Call
  flash_img_buffered_write : List ℕ → Bool → Call
  tcp_server_send : ℕ → List ℕ → Call
  usb_app_send : List ℕ → Call
  boot_request_upgrade : Call
  usb_app_disable : Call
  sys_reboot : Call

-- How a handler ends: `sys_reboot` does not return; `fault` is a call through no table entry.
pub data Outcome : Type 0 where
  returned rebooted fault : Outcome

abbrev pub DfuIo : Type 0 → Type 0
DfuIo = Io (Trace Call ℤ)

abbrev pub Handler : Type 0
Handler = ℕ → List ℕ → DfuIo Outcome

-- The result byte of an answer code: `if (ret) feedback[1] = FAILED`.
abbrev pub result_byte : ℤ → ℕ
result_byte ret = if is_zero ret then success else failed

module _ (net : Transport) (env : Env Call ℤ) where
  -- The `#if defined(DFU_NET_TCP)` around each answer.
  unfoldable pub reply : ℕ → List ℕ → DfuIo ℤ
  reply fd feedback = elim net [
    | net_tcp ↦ call env (tcp_server_send fd feedback)
    | usb ↦ call env (usb_app_send feedback)
  ]

  unfoldable pub dfu_start : Handler
  unfolding reply
  dfu_start fd buf = do
    ret ← call env flash_img_init
    reply fd (dfu_start_cmd ∷ result_byte ret ∷ [])
    pure returned

  unfoldable pub dfu_download : Handler
  unfolding reply
  dfu_download fd buf = do
    ret ← call env (flash_img_buffered_write buf false)
    reply fd (dfu_download_cmd ∷ result_byte ret ∷ [])
    pure returned

  -- The tail of `dfu_end` once the flush went through.
  unfoldable pub finish : DfuIo Outcome
  finish = elim net [
    | net_tcp ↦ do call env boot_request_upgrade; call env sys_reboot; pure rebooted
    | usb ↦ do
      call env boot_request_upgrade
      call env usb_app_disable
      call env sys_reboot
      pure rebooted
  ]

  unfoldable pub dfu_end : Handler
  unfolding reply finish
  dfu_end fd buf = do
    ret ← call env (flash_img_buffered_write [] true)
    reply fd (dfu_end_cmd ∷ result_byte ret ∷ [])
    if is_zero ret then finish else pure returned

  unfoldable pub lookup_table : List Handler
  unfolding dfu_start dfu_download dfu_end
  lookup_table = dfu_start ∷ dfu_download ∷ dfu_end ∷ []

  unfoldable pub dfu_handle : ℕ → ℕ → List ℕ → DfuIo Outcome
  unfolding reply lookup_table
  dfu_handle fd req buf =
      if ltb req dfu_start_cmd || ltb dfu_end_cmd req
      then (do reply fd (req ∷ failed ∷ []); pure returned)
      else elim (get_elem? lookup_table (req - dfu_start_cmd)) [
        | none ↦ pure fault
        | some handler ↦ handler fd buf
      ]
