-- ===== src/Wifi.antt =====
-- app/src/wifi_impl.c: joining one of the stored networks. The network stack, its event thread and the
-- semaphores are outside code: each call is recorded with its answer, which also tells the events that came
-- in until the call returned.
pub mod Tries
pub mod Awaited
pub mod Networks
mod Tests
use Prim.Native.String.{String}
use zephyr_development.Prelude.{
  Option, none, some, ℕ, zero, suc, Bool, true, false, List, [], ◌∷◌, ℤ, pos, neg, is_zero, Io, Env,
  Trace, enodev, einval, efault, if◌then◌else◌,
}

abbrev pub conn_nr_tries : ℕ
conn_nr_tries = 5

-- The events with a case in `wifi_callback` and `net_evt_callback`. A connect result carries its
-- status, and the connected network the text of the address, if the interface has one.
pub data Event : Type 0 where
  wifi_connect_result : ℤ → Event
  wifi_disconnect_result : Event
  l4_connected : Option (List ℕ) → Event

-- Networks are named by numbers.
pub data Call : Type 0 where
  net_if_get_wifi_sta : Call
  wifi_credentials_is_empty : Call
  wifi_credentials_get_by_ssid : ℕ → Call
  net_mgmt_wifi_connect : ℕ → Call
  k_sem_take_wifi_conn : Call
  k_sem_give_wifi_conn : Call
  k_msleep : Call
  net_dhcpv4_start : Call
  k_sem_take_net_ready : Call
  k_sem_give_net_ready : Call
  net_mgmt_add_wifi_callback : Call
  net_mgmt_add_l4_callback : Call
  wifi_credentials_set_personal : String → String → Call
  wifi_credentials_delete_by_ssid : String → Call

-- What a call gives when it returns: the return value (0 also stands for NULL and for false), and the events
-- meanwhile, the oldest first. The wait for the network has no time limit;
-- Wifi/Awaited says when it returns.
pub record Answer : Type 0 where
  pub ret : ℤ
  pub events : List Event

pub record Wifi : Type 0 where
  pub wifi_connected : Bool
  pub ipv4 : List ℕ
  pub trace : Trace Call Answer

-- `k_sem_give` answers nothing.
abbrev pub give : Call → Wifi → Wifi
give c w = record w { trace = (c, record { ret = pos 0; events = [] }) ∷ w.trace }

-- `wifi_callback` and `net_evt_callback`.
unfoldable pub wifi_callback : Event → Wifi → Wifi
wifi_callback (wifi_connect_result status) w = record (give k_sem_give_wifi_conn w) {
  wifi_connected = true;
}
wifi_callback wifi_disconnect_result w = record w { wifi_connected = false }
wifi_callback (l4_connected none) w = give k_sem_give_net_ready w
wifi_callback (l4_connected (some addr)) w = give k_sem_give_net_ready (record w { ipv4 = addr })

abbrev pub after_events : List Event → Wifi → Wifi
after_events [] w = w
after_events (e ∷ es) w = after_events es (wifi_callback e w)

module _ (env : Env Call Answer) where
  abbrev pub zephyr : Call → Io Wifi Answer
  zephyr c w =
      let a = env w.trace c in (a, after_events a.events (record w { trace = (c, a) ∷ w.trace }))

  -- `__wifi_connect` with `n` tries left.
  unfoldable pub try_connect : ℕ → ℕ → Io Wifi ℤ
  try_connect zero ssid w = (neg efault, w)
  try_connect (suc n) ssid w =
      let asked = (zephyr (net_mgmt_wifi_connect ssid) w).1 in
      let taken = zephyr k_sem_take_wifi_conn asked in
      let rest = try_connect n ssid (zephyr k_msleep taken.1).1 in
      let leased = (zephyr net_dhcpv4_start taken.1).1 in
      if is_zero taken.0.ret then (pos 0, (zephyr k_sem_take_net_ready leased).1) else rest

  unfoldable pub wifi_cred_ssid_cb : ℕ → Wifi → Wifi
  wifi_cred_ssid_cb ssid w =
      let found = zephyr (wifi_credentials_get_by_ssid ssid) w in
      let joined = (try_connect conn_nr_tries ssid found.1).1 in
      if w.wifi_connected then w else if is_zero found.0.ret then joined else found.1

  -- The calls of the callback that `wifi_credentials_for_each_ssid` makes, for the networks that it gives, in
  -- its order; which these are is a parameter of `wifi_connect`.
  abbrev pub for_each_ssid : List ℕ → Wifi → Wifi
  for_each_ssid [] w = w
  for_each_ssid (ssid ∷ ssids) w = for_each_ssid ssids (wifi_cred_ssid_cb ssid w)

  unfoldable pub wifi_connect : List ℕ → Io Wifi ℤ
  wifi_connect stored w =
      let intf = zephyr net_if_get_wifi_sta w in
      let empty = zephyr wifi_credentials_is_empty intf.1 in
      let walked = for_each_ssid stored empty.1 in
      if is_zero intf.0.ret
      then (neg enodev, intf.1)
      else if is_zero empty.0.ret
      then (if walked.wifi_connected then pos 0 else neg efault, walked)
      else (neg einval, empty.1)

  unfoldable pub wifi_init : Io Wifi ℤ
  wifi_init w = (pos 0, (zephyr net_mgmt_add_l4_callback (zephyr net_mgmt_add_wifi_callback w).1).1)

  unfoldable pub wifi_save : String → String → Io Wifi ℤ
  wifi_save ssid password w =
      let saved = zephyr (wifi_credentials_set_personal ssid password) w in (saved.0.ret, saved.1)

  unfoldable pub wifi_del : String → Io Wifi ℤ
  wifi_del ssid w =
      let deleted = zephyr (wifi_credentials_delete_by_ssid ssid) w in (deleted.0.ret, deleted.1)

abbrev pub wifi_get_ipv4 : Wifi → List ℕ
wifi_get_ipv4 w = w.ipv4
