-- ===== src/Wifi/Tries.antt =====
-- How often app/src/wifi_impl.c asks for one network.
use zephyr_development.Prelude.{
  none, some, ℕ, zero, suc, ◌+◌, ◌≤◌, ◌≡◌, ◌⊎◌, ◌∙◌, refl, sym, subst, ap, true, false, List, [],
  ◌∷◌, ℤ, pos, neg, is_zero, Env, Trace, efault, arith, Bool-cases, inl, inr,
}
use zephyr_development.Wifi.{
  Event, Call, Answer, Wifi, net_mgmt_wifi_connect, net_dhcpv4_start, wifi_connect_result,
  wifi_disconnect_result, l4_connected, k_sem_take_wifi_conn, k_sem_take_net_ready, k_msleep,
  wifi_callback, after_events, zephyr, try_connect,
}

-- The connect requests made, and the number of times that the address was asked for.
abbrev pub requests : Trace Call Answer → ℕ
requests [] = 0
requests ((net_mgmt_wifi_connect ssid, a) ∷ past) = requests past + 1
requests ((c, a) ∷ past) = requests past

abbrev pub leases : Trace Call Answer → ℕ
leases [] = 0
leases ((net_dhcpv4_start, a) ∷ past) = leases past + 1
leases ((c, a) ∷ past) = leases past

-- The waits without a time limit that have returned.
abbrev pub untimed : Trace Call Answer → ℕ
untimed [] = 0
untimed ((k_sem_take_net_ready, a) ∷ past) = untimed past + 1
untimed ((c, a) ∷ past) = untimed past

counts-after_events :
    (es : List Event) (w : Wifi)
    → (requests (after_events es w).trace ≡ requests w.trace)
      × (leases (after_events es w).trace ≡ leases w.trace)
      × (untimed (after_events es w).trace ≡ untimed w.trace)
unfolding wifi_callback
counts-after_events [] w = (refl, refl, refl)
counts-after_events (wifi_connect_result status ∷ es) w =
    counts-after_events es (wifi_callback (wifi_connect_result status) w)
counts-after_events (wifi_disconnect_result ∷ es) w =
    counts-after_events es (wifi_callback wifi_disconnect_result w)
counts-after_events (l4_connected none ∷ es) w =
    counts-after_events es (wifi_callback (l4_connected none) w)
counts-after_events (l4_connected (some addr) ∷ es) w =
    counts-after_events es (wifi_callback (l4_connected (some addr)) w)

module _ (env : Env Call Answer) where
  pub counts-zephyr :
      (c : Call) (w : Wifi)
      → let t = (c, env w.trace c) ∷ w.trace in
        (requests (zephyr env c w).1.trace ≡ requests t)
        × (leases (zephyr env c w).1.trace ≡ leases t)
        × (untimed (zephyr env c w).1.trace ≡ untimed t)
  counts-zephyr c w =
      counts-after_events (env w.trace c).events (record w { trace = (c, env w.trace c) ∷ w.trace })

  -- The outcome of `n` tries: joined after `k` requests and one wait without a time limit, or given up after all
  -- requests and no such wait.
  abbrev pub Tried : ℕ → ℤ → Wifi → Wifi → Type 0
  Tried n ret w w' =
      ((ret ≡ pos 0)
        × (leases w'.trace ≡ leases w.trace + 1)
        × (untimed w'.trace ≡ untimed w.trace + 1)
        × ((k : ℕ) × (1 ≤ k) × (k ≤ n) × (requests w'.trace ≡ requests w.trace + k)))
      ⊎ ((ret ≡ neg efault)
          × (leases w'.trace ≡ leases w.trace)
          × (untimed w'.trace ≡ untimed w.trace)
          × (requests w'.trace ≡ requests w.trace + n))

  -- The state after the request and the wait of one try.
  abbrev pub asked : ℕ → Wifi → Wifi
  asked ssid w = (zephyr env (net_mgmt_wifi_connect ssid) w).1

  abbrev pub waited : ℕ → Wifi → Answer × Wifi
  waited ssid w = zephyr env k_sem_take_wifi_conn (asked ssid w)

  abbrev pub slept : ℕ → Wifi → Wifi
  slept ssid w = (zephyr env k_msleep (waited ssid w).1).1

  abbrev pub leased : ℕ → Wifi → Wifi
  leased ssid w = (zephyr env net_dhcpv4_start (waited ssid w).1).1

  abbrev pub joined : ℕ → Wifi → Wifi
  joined ssid w = (zephyr env k_sem_take_net_ready (leased ssid w)).1

  pub try_joined :
      (n ssid : ℕ) (w : Wifi)
      → is_zero (waited ssid w).0.ret ≡ true
      → try_connect env (suc n) ssid w ≡ (pos 0, joined ssid w)
  unfolding try_connect
  try_joined n ssid w e = rw e refl

  pub try_again :
      (n ssid : ℕ) (w : Wifi)
      → is_zero (waited ssid w).0.ret ≡ false
      → try_connect env (suc n) ssid w ≡ try_connect env n ssid (slept ssid w)
  unfolding try_connect
  try_again n ssid w e = rw e refl

  counts-slept :
      (ssid : ℕ) (w : Wifi)
      → (requests (slept ssid w).trace ≡ requests w.trace + 1)
        × (leases (slept ssid w).trace ≡ leases w.trace)
        × (untimed (slept ssid w).trace ≡ untimed w.trace)
  counts-slept ssid w =
      let (r1, l1, u1) = counts-zephyr (net_mgmt_wifi_connect ssid) w in
      let (r2, l2, u2) = counts-zephyr k_sem_take_wifi_conn (asked ssid w) in
      let (r3, l3, u3) = counts-zephyr k_msleep (waited ssid w).1 in
      (r3 ∙ r2 ∙ r1, l3 ∙ l2 ∙ l1, u3 ∙ u2 ∙ u1)

  counts-joined :
      (ssid : ℕ) (w : Wifi)
      → (requests (joined ssid w).trace ≡ requests w.trace + 1)
        × (leases (joined ssid w).trace ≡ leases w.trace + 1)
        × (untimed (joined ssid w).trace ≡ untimed w.trace + 1)
  counts-joined ssid w =
      let (r1, l1, u1) = counts-zephyr (net_mgmt_wifi_connect ssid) w in
      let (r2, l2, u2) = counts-zephyr k_sem_take_wifi_conn (asked ssid w) in
      let (r3, l3, u3) = counts-zephyr net_dhcpv4_start (waited ssid w).1 in
      let (r4, l4, u4) = counts-zephyr k_sem_take_net_ready (leased ssid w) in
      (r4 ∙ r3 ∙ r2 ∙ r1, l4 ∙ l3 ∙ ap (λ k. k + 1) (l2 ∙ l1), u4 ∙ ap (λ k. k + 1) (u3 ∙ u2 ∙ u1))

  one_more :
      (n : ℕ) (ret : ℤ) (w w1 w' : Wifi)
      → requests w1.trace ≡ requests w.trace + 1
      → leases w1.trace ≡ leases w.trace
      → untimed w1.trace ≡ untimed w.trace
      → Tried n ret w1 w'
      → Tried (suc n) ret w w'
  one_more n ret w w1 w' r l u (inl (e, l', u', (k, low, high, r'))) = inl (
    e,
    l' ∙ ap (λ i. i + 1) l,
    u' ∙ ap (λ i. i + 1) u,
    (suc k, omega arith, omega arith, omega arith),
  )
  one_more n ret w w1 w' r l u (inr (e, l', u', r')) = inr (e, l' ∙ l, u' ∙ u, omega arith)

  try_none :
      (ssid : ℕ) (w : Wifi)
      → Tried zero (try_connect env zero ssid w).0 w (try_connect env zero ssid w).1
  unfolding try_connect
  try_none ssid w = inr (refl, refl, refl, omega arith)

  -- The tries on one network, once the last wait has returned.
  pub try_connect-Tried :
      (n ssid : ℕ) (w : Wifi) → Tried n (try_connect env n ssid w).0 w (try_connect env n ssid w).1
  try_connect-Tried zero ssid w = try_none ssid w
  try_connect-Tried (suc n) ssid w = elim (Bool-cases (is_zero (waited ssid w).0.ret)) [
    | inl e ↦
        let (r, l, u) = counts-joined ssid w in
        subst (λ (p : ℤ × Wifi). Tried (suc n) p.0 w p.1) (sym (try_joined n ssid w e))
          (inl (refl, l, u, (1, omega arith, omega arith, r)))
    | inr e ↦
        let (r, l, u) = counts-slept ssid w in
        subst (λ (p : ℤ × Wifi). Tried (suc n) p.0 w p.1) (sym (try_again n ssid w e))
          (one_more n (try_connect env n ssid (slept ssid w)).0 w (slept ssid w)
            (try_connect env n ssid (slept ssid w)).1 r l u
            (try_connect-Tried n ssid (slept ssid w)))
  ]
