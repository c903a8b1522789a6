-- ===== src/Wifi/Awaited.antt =====
-- The tries of app/src/wifi_impl.c on one network, with the wait for the network at their end.
use zephyr_development.Prelude.{
  ℕ, ◌+◌, ◌<◌, ◌≡◌, ◌⊎◌, List, [], ◌∷◌, ℤ, pos, neg, Env, Trace, efault,
}
use zephyr_development.Wifi.{
  Event, Call, Answer, Wifi, l4_connected, k_sem_take_net_ready, k_sem_give_net_ready,
}

-- How often the network came up: in a run so far, and among the events of one call.
abbrev pub ups : Trace Call Answer → ℕ
ups [] = 0
ups ((k_sem_give_net_ready, a) ∷ past) = ups past + 1
ups ((c, a) ∷ past) = ups past

abbrev pub ups_in : List Event → ℕ
ups_in [] = 0
ups_in (l4_connected addr ∷ es) = ups_in es + 1
ups_in (e ∷ es) = ups_in es

-- `k_sem_take` without a time limit returns only when the semaphore was given: before the call, or during it.
abbrev pub IsAwaited : Env Call Answer → Type 0
IsAwaited env =
    (past : Trace Call Answer) → 0 < ups past + ups_in (env past k_sem_take_net_ready).events

-- A run of tries that ends with 0 has seen the network come up.
abbrev pub IsOnline : ℤ × Wifi → Type 0
IsOnline r = (r.0 ≡ pos 0) × (0 < ups r.1.trace) ⊎ (r.0 ≡ neg efault)
