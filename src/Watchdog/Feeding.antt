-- ===== src/Watchdog/Feeding.antt =====
-- That the timer of app/src/wdt.c keeps the watchdog from resetting the board, in milliseconds of time.
use zephyr_development.Prelude.{
  ℕ, zero, suc, ◌+◌, ◌≤◌, ◌<◌, ◌≡◌, Bool, true, false, Option, none, some, [], ◌∷◌, ℤ, is_zero, Env,
  Trace, if◌then◌else◌, ◌==◌, ◌||◌, ◌-◌, leb, is_neg,
}
use zephyr_development.Watchdog.{
  Call, TimeoutCfg, device_is_ready, wdt_install_timeout, wdt_setup, wdt_feed, k_timer_start,
  feeder_periodic, watchdog_init, watchdog_daemon_start,
}

-- The window that the last good `wdt_install_timeout` gave.
abbrev pub installed : Trace Call ℤ → Option ℕ
installed [] = none
installed ((wdt_install_timeout cfg, a) ∷ past) =
    if is_neg a then installed past else some cfg.window_max
installed ((c, a) ∷ past) = installed past

-- The window of the watchdog that runs: the one installed when `wdt_setup` last answered 0 or more; none before.
abbrev pub running : Trace Call ℤ → Option ℕ
running [] = none
running ((wdt_setup, a) ∷ past) = if is_neg a then running past else installed past
running ((c, a) ∷ past) = running past

-- The time to the first expiry of the timer that was started, and its period.
abbrev pub armed : Trace Call ℤ → Option (ℕ × ℕ)
armed [] = none
armed ((k_timer_start first every, a) ∷ past) = some (first, every)
armed ((c, a) ∷ past) = armed past

abbrev pub feeds : Trace Call ℤ → ℕ
feeds [] = 0
feeds ((wdt_feed channel, a) ∷ past) = feeds past + 1
feeds ((c, a) ∷ past) = feeds past

-- The board: the calls so far, the time since the watchdog was last fed, and the time to the next expiry of the
-- timer with its period, none for a timer that does not run.
pub record Board : Type 0 where
  pub trace : Trace Call ℤ
  pub unfed : ℕ
  pub timer : Option (ℕ × ℕ)

-- Whether the last call of the timer's handler fed the watchdog.
abbrev pub fed : Trace Call ℤ → Bool
fed [] = false
fed ((wdt_feed channel, a) ∷ past) = true
fed ((c, a) ∷ past) = false

module _ (env : Env Call ℤ) where
  -- One millisecond. At its expiry the timer calls its handler, and starts anew unless its period is 0; a feed
  -- starts the watchdog's count anew.
  unfoldable pub tick : Board → Board
  tick b =
      let called = feeder_periodic env b.trace in
      elim b.timer [
        | none ↦ record b { unfed = b.unfed + 1 }
        | some (left, every) ↦
            if leb left 1
            then record {
              trace = called;
              unfed = if fed called then 0 else b.unfed + 1;
              timer = if every == 0 then none else some (every, every);
            }
            else record b { unfed = b.unfed + 1; timer = some (left - 1, every) }
      ]

  abbrev pub after_ms : ℕ → Board → Board
  after_ms zero b = b
  after_ms (suc n) b = tick (after_ms n b)

-- Whether the device was not ready when asked, or did not take a window or the set-up.
abbrev pub refused : Trace Call ℤ → Bool
refused [] = false
refused ((device_is_ready, a) ∷ past) = is_zero a || refused past
refused ((wdt_install_timeout cfg, a) ∷ past) = is_neg a || refused past
refused ((wdt_setup, a) ∷ past) = is_neg a || refused past
refused ((c, a) ∷ past) = refused past

-- The watchdog's device stays ready, and takes every window and the set-up.
pub record IsWorking (env : Env Call ℤ) : Type 0 where
  pub ready : (past : Trace Call ℤ) → is_zero (env past device_is_ready) ≡ false
  pub installs :
      (past : Trace Call ℤ) (cfg : TimeoutCfg) → is_neg (env past (wdt_install_timeout cfg)) ≡ false
  pub sets_up : (past : Trace Call ℤ) → is_neg (env past wdt_setup) ≡ false

-- The board when the timer is started, `gap` milliseconds after the watchdog.
abbrev pub started : Env Call ℤ → ℕ → ℕ → ℕ → Trace Call ℤ → Board
started env timeout duration gap t =
    let calls = watchdog_daemon_start env duration (watchdog_init env timeout t).1 in
    record { trace = calls; unfed = gap; timer = armed calls }

-- The timer runs with the period, and the watchdog is fed in time if the next expiry feeds it.
pub record IsOnTime (timeout every : ℕ) (b : Board) : Type 0 where
  pub left : ℕ
  pub runs : b.timer ≡ some (left, every)
  pub in_time : b.unfed + left ≤ timeout
  pub ahead : 0 < left
