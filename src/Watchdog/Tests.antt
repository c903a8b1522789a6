-- ===== src/Watchdog/Tests.antt =====
-- The watchdog of app/src/wdt.c as app/main.c starts it.
use zephyr_development.Prelude.{◌≡◌, refl, [], ℤ, pos, neg, Env}
use zephyr_development.Watchdog.{
  Call, device_is_ready, wdt_install_timeout, watchdog_init, watchdog_daemon_start, feeder_periodic,
}
use zephyr_development.Watchdog.Feeding.{started, after_ms, feeds, tick}

abbrev attached : Env Call ℤ
attached past device_is_ready = pos 1
attached past c = pos 0

-- A driver that takes no window of that length.
abbrev too_long : Env Call ℤ
too_long past device_is_ready = pos 1
too_long past (wdt_install_timeout cfg) = neg 22
too_long past c = pos 0

init_refused : (watchdog_init too_long 30000 []).0 ≡ neg 22
unfolding watchdog_init
init_refused = refl

-- Seven milliseconds with a timer of three: two feeds.
two_feeds : feeds (after_ms attached 7 (started attached 5 3 1 [])).trace ≡ 2
unfolding tick feeder_periodic watchdog_daemon_start watchdog_init
two_feeds = refl
