-- ===== src/Dfu/Spec.antt =====
-- What app/inc/dfu.h promises of app/src/dfu.c, read off a trace: the answers sent, the image that
-- the flash writer took, and when an upgrade may be requested.
use zephyr_development.Prelude.{
  ℕ, ◌≡◌, Bool, true, false, Option, none, some, List, [], ◌∷◌, ◌++◌, ℤ, is_zero, Env, Trace, ◌==◌,
  if◌then◌else◌,
}
use zephyr_development.Dfu.{
  Transport, net_tcp, usb, Call, flash_img_init, flash_img_buffered_write, tcp_server_send,
  usb_app_send, boot_request_upgrade, usb_app_disable, sys_reboot, success,
}

-- The answers sent so far, newest first, each with the connection that it goes to (none over USB).
abbrev pub answers : Trace Call ℤ → List (Option ℕ × List ℕ)
answers [] = []
answers ((tcp_server_send fd msg, r) ∷ past) = (some fd, msg) ∷ answers past
answers ((usb_app_send msg, r) ∷ past) = (none, msg) ∷ answers past
answers ((flash_img_init, r) ∷ past) = answers past
answers ((flash_img_buffered_write b f, r) ∷ past) = answers past
answers ((boot_request_upgrade, r) ∷ past) = answers past
answers ((usb_app_disable, r) ∷ past) = answers past
answers ((sys_reboot, r) ∷ past) = answers past

abbrev pub receiver : Transport → ℕ → Option ℕ
receiver net_tcp fd = some fd
receiver usb fd = none

-- The flash call that a command stands for.
abbrev pub flash_call : ℕ → List ℕ → Option Call
flash_call req buf =
    if req == 3
    then some flash_img_init
    else if req == 4
    then some (flash_img_buffered_write buf false)
    else if req == 5
    then some (flash_img_buffered_write [] true)
    else none

-- Whether the request succeeds: it is a command, and its flash call answers 0.
abbrev pub accepted : Env Call ℤ → Trace Call ℤ → ℕ → List ℕ → Bool
accepted env past req buf = elim (flash_call req buf) [
  | none ↦ false
  | some c ↦ is_zero (env past c)
]

-- The bytes that the writer took since it was last set up.
abbrev pub image : Trace Call ℤ → List ℕ
image [] = []
image ((flash_img_init, r) ∷ past) = if is_zero r then [] else image past
image ((flash_img_buffered_write b f, r) ∷ past) = if is_zero r then image past ++ b else image past
image ((tcp_server_send fd msg, r) ∷ past) = image past
image ((usb_app_send msg, r) ∷ past) = image past
image ((boot_request_upgrade, r) ∷ past) = image past
image ((usb_app_disable, r) ∷ past) = image past
image ((sys_reboot, r) ∷ past) = image past

-- Whether an upgrade was requested.
abbrev pub upgrading : Trace Call ℤ → Bool
upgrading [] = false
upgrading ((boot_request_upgrade, r) ∷ past) = true
upgrading ((flash_img_init, r) ∷ past) = upgrading past
upgrading ((flash_img_buffered_write b f, r) ∷ past) = upgrading past
upgrading ((tcp_server_send fd msg, r) ∷ past) = upgrading past
upgrading ((usb_app_send msg, r) ∷ past) = upgrading past
upgrading ((usb_app_disable, r) ∷ past) = upgrading past
upgrading ((sys_reboot, r) ∷ past) = upgrading past

-- The session that a client of the protocol sees.
pub record Session : Type 0 where
  pub bytes : List ℕ
  pub upgrade : Bool

abbrev pub session : Trace Call ℤ → Session
session past = record { bytes = image past; upgrade = upgrading past }

-- One request, given whether the flash writer did its part: START empties the image, DOWNLOAD adds
-- its data, END requests the upgrade; a failure changes nothing.
abbrev pub session_step : ℕ → List ℕ → Bool → Session → Session
session_step req buf false s = s
session_step req buf true s =
    if req == 3
    then record s { bytes = [] }
    else if req == 4
    then record s { bytes = s.bytes ++ buf }
    else record s { upgrade = true }

-- The last two calls were a flush that answered 0 and its success answer.
abbrev pub IsFlushed : Trace Call ℤ → Type 0
IsFlushed ((tcp_server_send fd msg, q) ∷ (flash_img_buffered_write b true, r) ∷ past) =
    (msg ≡ 5 ∷ success ∷ []) × (is_zero r ≡ true)
IsFlushed ((usb_app_send msg, q) ∷ (flash_img_buffered_write b true, r) ∷ past) =
    (msg ≡ 5 ∷ success ∷ []) × (is_zero r ≡ true)
IsFlushed _ = ⊥

-- Every upgrade request in a trace came right after a good flush and its answer.
abbrev pub IsGuarded : Trace Call ℤ → Type 0
IsGuarded [] = Unit
IsGuarded ((boot_request_upgrade, r) ∷ past) = IsFlushed past × IsGuarded past
IsGuarded ((flash_img_init, r) ∷ past) = IsGuarded past
IsGuarded ((flash_img_buffered_write b f, r) ∷ past) = IsGuarded past
IsGuarded ((tcp_server_send fd msg, r) ∷ past) = IsGuarded past
IsGuarded ((usb_app_send msg, r) ∷ past) = IsGuarded past
IsGuarded ((usb_app_disable, r) ∷ past) = IsGuarded past
IsGuarded ((sys_reboot, r) ∷ past) = IsGuarded past
