-- ===== src/Wifi/Tests.antt =====
-- Runs of app/src/wifi_impl.c with two stored networks, and the theorems at concrete inputs.
use zephyr_development.Prelude.{
  ◌≤◌, ◌≡◌, ◌⊎◌, refl, Bool, if◌then◌else◌, ◌==◌, true, false, [], ◌∷◌, pos, neg, Env, Trace,
  enodev, einval, efault, some,
}
use zephyr_development.Wifi.{
  Call, Answer, Wifi, wifi_connect_result, net_mgmt_wifi_connect, k_sem_take_wifi_conn,
  k_sem_take_net_ready, l4_connected, k_sem_give_wifi_conn, net_if_get_wifi_sta, wifi_callback,
  try_connect, wifi_cred_ssid_cb, wifi_connect,
}
use zephyr_development.Wifi.Tries.{requests}
use zephyr_development.Wifi.Networks.{wifi_connect_outcome}

-- The semaphore was given by the last thing that happened.
abbrev given : Trace Call Answer → Bool
given ((k_sem_give_wifi_conn, a) ∷ past) = true
given _ = false

-- Network 2 is there, network 1 is not.
abbrev second_answers : Env Call Answer
second_answers past k_sem_take_wifi_conn = record {
  ret = if given past then pos 0 else neg 11;
  events = [];
}
second_answers past (net_mgmt_wifi_connect ssid) = record {
  ret = pos 0;
  events = if ssid == 2 then wifi_connect_result (pos 0) ∷ [] else [];
}
second_answers past k_sem_take_net_ready = record {
  ret = pos 0;
  events = l4_connected (some (10 ∷ 0 ∷ 0 ∷ 7 ∷ [])) ∷ [];
}
second_answers past net_if_get_wifi_sta = record { ret = pos 1; events = [] }
second_answers past c = record { ret = pos 0; events = [] }

abbrev offline : Wifi
offline = record { wifi_connected = false; ipv4 = []; trace = [] }

second_joined : (wifi_connect second_answers (1 ∷ 2 ∷ 3 ∷ []) offline).0 ≡ pos 0
unfolding wifi_connect wifi_cred_ssid_cb try_connect wifi_callback
second_joined = refl

six_requests : requests (wifi_connect second_answers (1 ∷ 2 ∷ 3 ∷ []) offline).1.trace ≡ 6
unfolding wifi_connect wifi_cred_ssid_cb try_connect wifi_callback
six_requests = refl

wifi_connect_outcome_example :
    let r = wifi_connect second_answers (1 ∷ 2 ∷ 3 ∷ []) offline in
    ((r.0 ≡ pos 0) × (r.1.wifi_connected ≡ true)
      ⊎ (r.0 ≡ neg efault) × (r.1.wifi_connected ≡ false)
      ⊎ ((r.0 ≡ neg enodev) ⊎ (r.0 ≡ neg einval)) × (requests r.1.trace ≡ 0))
    × (requests r.1.trace ≤ 15)
wifi_connect_outcome_example = wifi_connect_outcome second_answers (1 ∷ 2 ∷ 3 ∷ []) offline
