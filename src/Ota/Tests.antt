-- ===== src/Ota/Tests.antt =====
-- Rounds of app/src/updatehub_ota.c.
use zephyr_development.Prelude.{◌≡◌, [], Env}
use zephyr_development.Ota.{
  Status, Call, has_update, ok, updatehub_probe, updatehub_poll, updatehub_poll_lem, reboots,
  schedules,
}

abbrev fresh_release : Env Call Status
fresh_release past updatehub_probe = has_update
fresh_release past c = ok

updatehub_poll_lem_example :
    (reboots (updatehub_poll fresh_release []) ≡ 1)
    × (schedules (updatehub_poll fresh_release []) ≡ 0)
updatehub_poll_lem_example = updatehub_poll_lem fresh_release []
