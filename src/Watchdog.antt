-- ===== src/Watchdog.antt =====
-- app/src/wdt.c: the hardware watchdog and the kernel timer that feeds it. The watchdog driver and the timer are
-- outside code: each call is recorded with its answer.
pub mod Feeding
mod Tests
use zephyr_development.Prelude.{
  ℕ, Bool, true, false, ◌&&◌, Option, List, [], ◌∷◌, ℤ, pos, neg, is_zero, is_neg, Io, Env, Trace,
  enodev, if◌then◌else◌,
}

-- `struct wdt_timeout_cfg`: no callback, the flag WDT_FLAG_RESET_SOC, and the window.
pub record TimeoutCfg : Type 0 where
  pub callback : Bool
  pub reset_soc : Bool
  pub window_min : ℕ
  pub window_max : ℕ

pub data Call : Type 0 where
  device_is_ready : Call
  wdt_install_timeout : TimeoutCfg → Call
  wdt_setup : Call
  wdt_feed : ℕ → Call
  k_timer_init : Call
  k_timer_start : ℕ → ℕ → Call

-- Answers are return values; 0 also stands for false.
module _ (env : Env Call ℤ) where
  abbrev pub wdt : Call → Io (Trace Call ℤ) ℤ
  wdt c t = (env t c, (c, env t c) ∷ t)

  unfoldable pub feeder_periodic : Trace Call ℤ → Trace Call ℤ
  feeder_periodic t =
      let ready = wdt device_is_ready t in
      if is_zero ready.0 then ready.1 else (wdt (wdt_feed 0) ready.1).1

  unfoldable pub watchdog_init : ℕ → Io (Trace Call ℤ) ℤ
  watchdog_init timeoutms t =
      let ready = wdt device_is_ready t in
      let cfg : TimeoutCfg = record {
        callback = false;
        reset_soc = true;
        window_min = 0;
        window_max = timeoutms;
      } in
      let installed = wdt (wdt_install_timeout cfg) ready.1 in
      if is_zero ready.0
      then (neg enodev, ready.1)
      else if is_neg installed.0
      then installed
      else wdt wdt_setup installed.1

  unfoldable pub watchdog_daemon_start : ℕ → Trace Call ℤ → Trace Call ℤ
  watchdog_daemon_start duration_ms t =
      (wdt (k_timer_start duration_ms duration_ms) (wdt k_timer_init t).1).1
