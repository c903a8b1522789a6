-- ===== src/App/Main/Tests.antt =====
-- A start of app/main.c on a board without a network, and one whose socket does not listen.
use zephyr_development.Prelude.{
  ◌≡◌, ◌≤◌, refl, [], ◌∷◌, ℤ, pos, neg, Env, none, some, if◌then◌else◌,
}
use zephyr_development.Ota
use zephyr_development.Ota.{schedules}
use zephyr_development.TcpServer.Start
use zephyr_development.TcpServer.Start.{zsock_listen, zsock_bind, tcp_server_init, tcp_server_start}
use zephyr_development.Watchdog.Feeding.{running, armed, refused}
use zephyr_development.Wifi.Tries.{requests}
use zephyr_development.App.Main.{World, main, powered}
use zephyr_development.App.Main.Boot.{IsServing, accepting, main-IsServing}

-- Port 2026 is taken.
abbrev busy_port : Env Start.Call ℤ
busy_port past (zsock_bind fd port) = neg 112
busy_port past (zsock_listen fd backlog) = neg 22
busy_port past c = pos 4

abbrev lonely : World
lonely = record {
  boot = λ past c. pos 0;
  wdt = λ past c. pos 1;
  wifi = λ past c. record { ret = pos 0; events = [] };
  ota = λ past c. Ota.ok;
  tcp = λ past c. pos 0;
  stored = 1 ∷ 2 ∷ [];
}

no_threads : accepting (main (record lonely { tcp = busy_port }) powered).tcp.trace ≡ 0
unfolding main tcp_server_init tcp_server_start
no_threads = refl

one_thread : accepting (main lonely powered).tcp.trace ≡ 1
unfolding main tcp_server_init tcp_server_start
one_thread = refl

main-IsServing_example :
    let b = main lonely powered in
    IsServing b.tcp
    × (running b.wdt ≡ (if refused b.wdt then none else some 30000))
    × (armed b.wdt ≡ some (29000, 29000))
    × (schedules b.ota ≡ 1)
    × (requests b.wifi.trace ≤ 10)
main-IsServing_example = main-IsServing lonely
