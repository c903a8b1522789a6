-- ===== src/Wifi/Networks.antt =====
-- The walk of app/src/wifi_impl.c over the stored networks.
use zephyr_development.Prelude.{
  ℕ, ◌+◌, ◌*◌, ◌≤◌, ◌≡◌, ◌⊎◌, ◌∙◌, refl, ap, true, false, List, [], ◌∷◌, ◌++◌, ℤ, pos, neg, is_zero,
  Env, enodev, einval, efault, arith, Bool-cases, inl, inr, length,
}
use zephyr_development.Wifi.{
  Call, Answer, Wifi, zephyr, try_connect, conn_nr_tries, wifi_cred_ssid_cb, for_each_ssid,
  wifi_connect, net_if_get_wifi_sta, wifi_credentials_is_empty, wifi_credentials_get_by_ssid,
}
use zephyr_development.Wifi.Tries.{requests, counts-zephyr, try_connect-Tried, Tried}

module _ (env : Env Call Answer) where
  skip_connected :
      (ssid : ℕ) (w : Wifi) → w.wifi_connected ≡ true → wifi_cred_ssid_cb env ssid w ≡ w
  unfolding wifi_cred_ssid_cb
  skip_connected ssid w e = rw (e, wifi_cred_ssid_cb) refl

  skip_all : (ssids : List ℕ) (w : Wifi) → w.wifi_connected ≡ true → for_each_ssid env ssids w ≡ w
  skip_all [] w e = refl
  skip_all (ssid ∷ ssids) w e =
      ap (for_each_ssid env ssids) (skip_connected ssid w e) ∙ skip_all ssids w e

  -- Once the connected flag is set the walk over the stored networks leaves the rest of them
  -- alone: it changes nothing and asks nothing.
  for_each_ssid-append :
      (before after : List ℕ) (w : Wifi)
      → (for_each_ssid env before w).wifi_connected ≡ true
      → for_each_ssid env (before ++ after) w ≡ for_each_ssid env before w
  for_each_ssid-append [] after w e = skip_all after w e
  for_each_ssid-append (ssid ∷ before) after w e =
      for_each_ssid-append before after (wifi_cred_ssid_cb env ssid w) e

  Tried-requests :
      (ret : ℤ) (n : ℕ) (w w' : Wifi)
      → Tried env n ret w w'
      → requests w'.trace ≤ requests w.trace + n
  Tried-requests ret n w w' (inl (e, l, u, (k, low, high, r))) = omega arith
  Tried-requests ret n w w' (inr (e, l, u, r)) = omega arith

  one_network :
      (ssid : ℕ) (w : Wifi) → requests (wifi_cred_ssid_cb env ssid w).trace ≤ requests w.trace + 5
  unfolding wifi_cred_ssid_cb
  one_network ssid w =
      let found = (zephyr env (wifi_credentials_get_by_ssid ssid) w).1 in
      let r = (counts-zephyr env (wifi_credentials_get_by_ssid ssid) w).0 in
      let tried =
        Tried-requests (try_connect env conn_nr_tries ssid found).0 conn_nr_tries found
          (try_connect env conn_nr_tries ssid found).1
          (try_connect-Tried env conn_nr_tries ssid found) in
      ground (arith, r, tried)

  all_networks :
      (ssids : List ℕ) (w : Wifi)
      → requests (for_each_ssid env ssids w).trace ≤ requests w.trace + 5 * length ssids
  all_networks [] w = omega arith
  all_networks (ssid ∷ ssids) w =
      omega (arith, one_network ssid w, all_networks ssids (wifi_cred_ssid_cb env ssid w))

  -- Whatever the stack answers, wifi_connect returns 0 with the connected flag set, or -EFAULT
  -- without it, or -ENODEV or -EINVAL with no connect request made; in all it makes at most five
  -- requests for each stored network.
  pub wifi_connect_outcome :
      (stored : List ℕ) (w : Wifi)
      → let r = wifi_connect env stored w in
        ((r.0 ≡ pos 0) × (r.1.wifi_connected ≡ true)
          ⊎ (r.0 ≡ neg efault) × (r.1.wifi_connected ≡ false)
          ⊎ ((r.0 ≡ neg enodev) ⊎ (r.0 ≡ neg einval)) × (requests r.1.trace ≡ requests w.trace))
        × (requests r.1.trace ≤ requests w.trace + 5 * length stored)
  unfolding wifi_connect
  wifi_connect_outcome stored w =
      let intf = zephyr env net_if_get_wifi_sta w in
      let c1 = (counts-zephyr env net_if_get_wifi_sta w).0 in
      let empty = zephyr env wifi_credentials_is_empty intf.1 in
      let c2 = (counts-zephyr env wifi_credentials_is_empty intf.1).0 in
      let walked = for_each_ssid env stored empty.1 in
      let all = all_networks stored empty.1 in
      elim (Bool-cases (is_zero intf.0.ret)) [
        | inl e ↦ rw (e, wifi_connect) (inr (inr (inl refl, c1)), omega arith)
        | inr e ↦ elim (Bool-cases (is_zero empty.0.ret)) [
          | inr e' ↦ rw (e, e', wifi_connect) (inr (inr (inr refl, c2 ∙ c1)), omega arith)
          | inl e' ↦ elim (Bool-cases walked.wifi_connected) [
            | inl c ↦ rw (e, e', wifi_connect) (inl (rw c refl, c), omega arith)
            | inr c ↦ rw (e, e', wifi_connect) (inr (inl (rw c refl, c)), omega arith)
          ]
        ]
      ]
