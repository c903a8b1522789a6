-- ===== src/Ota.antt =====
-- app/src/updatehub_ota.c: one round of polling the update server. The updatehub library and the work queue
-- are outside code: each call is recorded with its answer.
mod Tests
use zephyr_development.Prelude.{
  ℕ, ◌+◌, ◌≡◌, refl, Bool, true, false, ◌||◌, ◌&&◌, List, [], ◌∷◌, Env, Trace, Io, arith,
  if◌then◌else◌,
}

-- The answers of `updatehub_probe` and `updatehub_update` that have a case; `other` is every other one.
pub data Status : Type 0 where
  unconfirmed_image has_update no_update ok other : Status

pub data Call : Type 0 where
  updatehub_probe : Call
  updatehub_update : Call
  updatehub_report_error : Call
  updatehub_reboot : Call
  k_work_reschedule_for_queue : Call
  k_work_schedule_for_queue : Call
  k_work_queue_init : Call
  k_work_queue_start : Call
  k_work_init_delayable : Call

module _ (env : Env Call Status) where
  abbrev pub updatehub : Call → Io (Trace Call Status) Status
  updatehub c t = (env t c, (c, env t c) ∷ t)

  -- `updatehub_reboot` is followed by a return, should it come back.
  unfoldable pub updatehub_poll : Trace Call Status → Trace Call Status
  updatehub_poll t =
      let probed = updatehub updatehub_probe t in
      let reported = (updatehub updatehub_report_error probed.1).1 in
      let updated = updatehub updatehub_update probed.1 in
      elim probed.0 [
        | unconfirmed_image ↦ (updatehub updatehub_reboot reported).1
        | has_update ↦ elim updated.0 [
          | ok ↦ (updatehub updatehub_reboot updated.1).1
          | _ ↦ (updatehub k_work_reschedule_for_queue updated.1).1
        ]
        | _ ↦ (updatehub k_work_reschedule_for_queue probed.1).1
      ]

  unfoldable pub updatehub_init : Trace Call Status → Trace Call Status
  updatehub_init t =
      let queue = (updatehub k_work_queue_start (updatehub k_work_queue_init t).1).1 in
      (updatehub k_work_init_delayable queue).1

  unfoldable pub updatehub_start : Trace Call Status → Trace Call Status
  updatehub_start t = (updatehub k_work_schedule_for_queue t).1

-- The calls of each kind so far.
abbrev pub reboots : Trace Call Status → ℕ
reboots [] = 0
reboots ((updatehub_reboot, a) ∷ past) = reboots past + 1
reboots ((c, a) ∷ past) = reboots past

abbrev pub schedules : Trace Call Status → ℕ
schedules [] = 0
schedules ((k_work_reschedule_for_queue, a) ∷ past) = schedules past + 1
schedules ((k_work_schedule_for_queue, a) ∷ past) = schedules past + 1
schedules ((c, a) ∷ past) = schedules past

abbrev pub is_unconfirmed : Status → Bool
is_unconfirmed unconfirmed_image = true
is_unconfirmed _ = false

abbrev pub is_update : Status → Bool
is_update has_update = true
is_update _ = false

abbrev pub is_ok : Status → Bool
is_ok ok = true
is_ok _ = false

module _ (env : Env Call Status) where
  -- Whether the round that starts at `t` has to reboot: the image is not confirmed, or there is an update and
  -- its installation answers OK.
  abbrev pub must_reboot : Trace Call Status → Bool
  must_reboot t =
      let probed = env t updatehub_probe in
      is_unconfirmed probed
      || is_update probed && is_ok (env ((updatehub_probe, probed) ∷ t) updatehub_update)

  -- Every round of the updatehub poll either reboots once or puts itself on the queue once, never
  -- both and never neither; it reboots exactly if the image is not confirmed or an update was
  -- there and its installation answered OK.
  pub updatehub_poll_lem :
      (t : Trace Call Status)
      → (reboots (updatehub_poll env t) ≡ (if must_reboot t then reboots t + 1 else reboots t))
        × (schedules (updatehub_poll env t)
            ≡ (if must_reboot t then schedules t else schedules t + 1))
  unfolding updatehub_poll
  updatehub_poll_lem t = ground arith
