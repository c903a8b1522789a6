-- ===== src/App/Main/Boot.antt =====
-- What runs when `main` of app/main.c has come to its idle loop.
use zephyr_development.Prelude.{
  ℕ, ◌+◌, ◌*◌, ◌≤◌, ◌≡◌, ◌∙◌, refl, Bool, true, false, [], ◌∷◌, ℤ, is_zero, Env, Trace, arith,
  length, if◌then◌else◌, none, some,
}
use zephyr_development.TcpServer
use zephyr_development.TcpServer.Start
use zephyr_development.TcpServer.Start.{
  Listener, zsock_socket, zsock_listen, k_thread_create_conn, k_thread_create_proc, tcp_server_init,
  tcp_server_start,
}
use zephyr_development.Wifi
use zephyr_development.Wifi.Tries.{requests, counts-zephyr}
use zephyr_development.Wifi.Networks.{wifi_connect_outcome}
use zephyr_development.Wifi.{
  Wifi, wifi_init, wifi_connect, net_mgmt_add_wifi_callback, net_mgmt_add_l4_callback,
}
use zephyr_development.Ota.{schedules, updatehub_init, updatehub_start}
use zephyr_development.Watchdog
use zephyr_development.Watchdog.{watchdog_init, watchdog_daemon_start}
use zephyr_development.Watchdog.Feeding.{running, armed, refused}
use zephyr_development.App.Main.{World, powered, main}

-- Whether the newest `zsock_listen` answered 0.
abbrev pub is_listening : Trace Start.Call ℤ → Bool
is_listening [] = false
is_listening ((zsock_listen fd backlog, a) ∷ past) = is_zero a
is_listening ((c, a) ∷ past) = is_listening past

-- The accepting threads and the polling threads with a callback made so far.
abbrev pub accepting : Trace Start.Call ℤ → ℕ
accepting [] = 0
accepting ((k_thread_create_conn, a) ∷ past) = accepting past + 1
accepting ((c, a) ∷ past) = accepting past

abbrev pub polling : Trace Start.Call ℤ → ℕ
polling [] = 0
polling ((k_thread_create_proc true, a) ∷ past) = polling past + 1
polling ((c, a) ∷ past) = polling past

-- The server is as its threads expect it: both run, once, exactly if the socket listens, on the zeroed table.
pub record IsServing (s : Listener) : Type 0 where
  pub accepts : accepting s.trace ≡ (if is_listening s.trace then 1 else 0)
  pub polls : polling s.trace ≡ (if is_listening s.trace then 1 else 0)
  pub table : s.server ≡ TcpServer.initial

tcp_IsServing :
    (env : Env Start.Call ℤ)
    → IsServing (tcp_server_start env true (tcp_server_init env 2026 powered.tcp).1).1
unfolding tcp_server_init tcp_server_start
tcp_IsServing env = record { accepts = ground arith; polls = ground arith; table = ground arith }

requests-wifi_init :
    (env : Env Wifi.Call Wifi.Answer) (w : Wifi)
    → requests (wifi_init env w).1.trace ≡ requests w.trace
unfolding wifi_init
requests-wifi_init env w =
    (counts-zephyr env net_mgmt_add_l4_callback (Wifi.zephyr env net_mgmt_add_wifi_callback w).1).0
    ∙ (counts-zephyr env net_mgmt_add_wifi_callback w).0

wdt-started :
    (env : Env Watchdog.Call ℤ)
    → let t = watchdog_daemon_start env 29000 (watchdog_init env 30000 []).1 in
      (running t ≡ (if refused t then none else some 30000)) × (armed t ≡ some (29000, 29000))
unfolding watchdog_init watchdog_daemon_start
wdt-started env = ground arith

-- If every call of outside code returns, the wait for the network included, then whatever they
-- answer, when main has come to its idle loop both threads of the TCP server run, once each,
-- exactly if the socket listens, and the table is the zeroed one from which they start; the
-- watchdog runs with a window of 30000 ms unless its device was not ready or refused the window or
-- the set-up, and then none runs; the feeding timer was started with 29000 ms to its first expiry
-- and as its period either way; the update poll is scheduled once; and at most five Wi-Fi requests
-- were made for each stored network.
pub main-IsServing :
    (world : World)
    → let b = main world powered in
      IsServing b.tcp
      × (running b.wdt ≡ (if refused b.wdt then none else some 30000))
      × (armed b.wdt ≡ some (29000, 29000))
      × (schedules b.ota ≡ 1)
      × (requests b.wifi.trace ≤ 5 * length world.stored)
unfolding main updatehub_init updatehub_start
main-IsServing world =
    let w = (wifi_init world.wifi powered.wifi).1 in
    let tried = (wifi_connect_outcome world.wifi world.stored w).1 in
    let before = requests-wifi_init world.wifi powered.wifi in
    let (runs, feeds) = wdt-started world.wdt in
    (tcp_IsServing world.tcp, runs, feeds, refl, omega (arith, tried, before))
