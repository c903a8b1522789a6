-- ===== src/Dfu/Tests.antt =====
-- Runs of app/src/dfu.c, and its theorems at concrete inputs.
use zephyr_development.Prelude.{
  ℕ, ◌≡◌, ◌≢◌, ◌↔◌, refl, true, false, some, [], ◌∷◌, ℤ, pos, neg, Env,
}
use zephyr_development.Dfu.{
  Call, flash_img_buffered_write, tcp_server_send, boot_request_upgrade, sys_reboot, net_tcp, usb,
  returned, rebooted, fault, dfu_handle,
}
use zephyr_development.Dfu.Spec.{answers, accepted, session, IsGuarded}
use zephyr_development.Dfu.Handle.{
  answers-dfu_handle, dfu_handle_refines, dfu_handle_outcome, dfu_handle-IsGuarded,
}

-- A flash writer that refuses empty DOWNLOADs and accepts all else.
abbrev picky : Env Call ℤ
picky past (flash_img_buffered_write [] false) = neg 5
picky past c = pos 0

end_reboots : dfu_handle net_tcp picky 9 5 [] [] ≡ (
  rebooted,
  (sys_reboot, pos 0)
      ∷ (boot_request_upgrade, pos 0)
      ∷ (tcp_server_send 9 (5 ∷ 1 ∷ []), pos 0)
      ∷ (flash_img_buffered_write [] true, pos 0)
      ∷ [],
)
unfolding dfu_handle
end_reboots = refl

unknown_request :
    dfu_handle net_tcp picky 9 7 (1 ∷ []) []
    ≡ (returned, (tcp_server_send 9 (7 ∷ 0 ∷ []), pos 0) ∷ [])
unfolding dfu_handle
unknown_request = refl

answers-dfu_handle_example :
    answers (dfu_handle net_tcp picky 9 4 [] []).1 ≡ (some 9, 4 ∷ 0 ∷ []) ∷ []
answers-dfu_handle_example = answers-dfu_handle net_tcp picky 9 4 [] []

dfu_handle_refines_example :
    session (dfu_handle usb picky 9 4 (8 ∷ 7 ∷ []) []).1
    ≡ record { bytes = 8 ∷ 7 ∷ []; upgrade = false }
dfu_handle_refines_example = dfu_handle_refines usb picky 9 4 (8 ∷ 7 ∷ []) []

dfu_handle_outcome_example :
    ((dfu_handle net_tcp picky 9 5 [] []).0 ≢ fault)
    × (((dfu_handle net_tcp picky 9 5 [] []).0 ≡ rebooted)
        ↔ ((◌≡◌ {A = ℕ} 5 5) × (accepted picky [] 5 [] ≡ true)))
dfu_handle_outcome_example = dfu_handle_outcome net_tcp picky 9 5 [] []

dfu_handle-IsGuarded_example : IsGuarded (dfu_handle net_tcp picky 9 5 [] []).1
dfu_handle-IsGuarded_example = dfu_handle-IsGuarded net_tcp picky 9 5 [] [] tt
