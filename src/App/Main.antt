-- ===== src/App/Main.antt =====
-- `main` of app/main.c up to its idle loop: the components started one after the other, their results ignored.
pub mod Boot
mod Tests
use zephyr_development.Prelude.{ℕ, Bool, true, false, List, [], ◌∷◌, ℤ, pos, Env, Trace}
use zephyr_development.Watchdog
use zephyr_development.Watchdog.{watchdog_init, watchdog_daemon_start}
use zephyr_development.Wifi
use zephyr_development.Wifi.{Wifi, wifi_init, wifi_connect}
use zephyr_development.Ota
use zephyr_development.Ota.{updatehub_init, updatehub_start}
use zephyr_development.TcpServer
use zephyr_development.TcpServer.Start
use zephyr_development.TcpServer.Start.{Listener, tcp_server_init, tcp_server_start}

-- The one call of outside code that `main` makes itself.
pub data Call : Type 0 where
  boot_write_img_confirmed : Call

-- What the outside code of each component answers, and the networks stored.
pub record World : Type 0 where
  pub boot : Env Call ℤ
  pub wdt : Env Watchdog.Call ℤ
  pub wifi : Env Wifi.Call Wifi.Answer
  pub ota : Env Ota.Call Ota.Status
  pub tcp : Env Start.Call ℤ
  pub stored : List ℕ

pub record Board : Type 0 where
  pub boot : Trace Call ℤ
  pub wdt : Trace Watchdog.Call ℤ
  pub wifi : Wifi
  pub ota : Trace Ota.Call Ota.Status
  pub tcp : Listener

-- Memory as the reset leaves it.
abbrev pub powered : Board
powered = record {
  boot = [];
  wdt = [];
  wifi = record { wifi_connected = false; ipv4 = []; trace = [] };
  ota = [];
  tcp = record { server_fd = pos 0; server = TcpServer.initial; trace = [] };
}

unfoldable pub main : World → Board → Board
main world b =
    let confirmed = record b {
      boot = (boot_write_img_confirmed, world.boot b.boot boot_write_img_confirmed) ∷ b.boot;
    } in
    let armed = record confirmed { wdt = (watchdog_init world.wdt 30000 confirmed.wdt).1 } in
    let guarded = record armed { wdt = watchdog_daemon_start world.wdt 29000 armed.wdt } in
    let radio = record guarded { wifi = (wifi_init world.wifi guarded.wifi).1 } in
    let updater = record radio { ota = updatehub_init world.ota radio.ota } in
    let joined = record updater { wifi = (wifi_connect world.wifi world.stored updater.wifi).1 } in
    let polled = record joined { ota = updatehub_start world.ota joined.ota } in
    let bound = record polled { tcp = (tcp_server_init world.tcp 2026 polled.tcp).1 } in
    record bound { tcp = (tcp_server_start world.tcp true bound.tcp).1 }
