-- ===== src/Dfu/Handle.antt =====
-- `dfu_handle` of app/src/dfu.c on every request byte and every answer of the flash writer.
use zephyr_development.Prelude.{
  ℕ, ◌≡◌, ◌≢◌, ◌↔◌, true, List, [], ◌∷◌, ℤ, Env, Trace, arith, append-nil,
}
use zephyr_development.Dfu.{Transport, Call, rebooted, fault, dfu_handle, success, failed}
use zephyr_development.Dfu.Spec.{answers, receiver, accepted, session, session_step, IsGuarded}
use zephyr_development.Prelude.{if◌then◌else◌}

module _ (net : Transport) (env : Env Call ℤ) (fd req : ℕ) (buf : List ℕ)
    (past : Trace Call ℤ) where
  -- Every request gets exactly one answer, on the connection it came from: its own command byte,
  -- and 1 exactly when it is a command whose flash call answers 0.
  pub answers-dfu_handle :
      answers (dfu_handle net env fd req buf past).1
      ≡ (receiver net fd, req ∷ (if accepted env past req buf then success else failed) ∷ [])
        ∷ answers past
  unfolding dfu_handle
  answers-dfu_handle = ground arith

  -- One request moves the session (the bytes written and whether the upgrade is requested) as the
  -- protocol says, for every request byte, transport and answer of the flash writer.
  pub dfu_handle_refines :
      session (dfu_handle net env fd req buf past).1
      ≡ session_step req buf (accepted env past req buf) (session past)
  unfolding dfu_handle
  dfu_handle_refines = ground (arith, append-nil (session past).bytes)

  -- The handler table is never left, and the device reboots exactly on an accepted END.
  pub dfu_handle_outcome :
      ((dfu_handle net env fd req buf past).0 ≢ fault)
      × (((dfu_handle net env fd req buf past).0 ≡ rebooted)
          ↔ ((req ≡ 5) × (accepted env past req buf ≡ true)))
  unfolding dfu_handle
  dfu_handle_outcome = ground arith

  -- If every upgrade request so far came right after a flush that answered 0 and its success
  -- answer, the same holds after one more request of any kind.
  pub dfu_handle-IsGuarded : IsGuarded past → IsGuarded (dfu_handle net env fd req buf past).1
  unfolding dfu_handle
  dfu_handle-IsGuarded h = ground arith
