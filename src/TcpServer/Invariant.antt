-- ===== src/TcpServer/Invariant.antt =====
-- The two threads of app/src/tcp_server.c as interleaved steps, and what every interleaving keeps.
use zephyr_development.Prelude.{
  ℕ, ◌≤◌, ◌≡◌, refl, sym, ◌∙◌, Bool, true, false, Option, none, some, List, [], ◌∷◌, arith, ◌==◌,
  if◌then◌else◌, length,
}
use zephyr_development.TcpServer.{
  Slot, Server, Event, accepted, closed, rx, Revents, max_clients, active_fds, remove_client,
  add_client, conn_round, handle_client, activate, initial,
}
use zephyr_development.TcpServer.Slots.{
  has_active, IsGood, AfterActivate, activate-Activated, deactivate-Deactivated,
}

-- Whether a descriptor was accepted and not closed since.
abbrev pub is_open : List Event → ℕ → Bool
is_open [] fd = false
is_open (accepted f ∷ past) fd = if f == fd then true else is_open past fd
is_open (closed f ∷ past) fd = if f == fd then false else is_open past fd
is_open (rx f bytes ∷ past) fd = is_open past fd

pub record IsValid (server : Server) : Type 0 where
  pub good : IsGood server.slots
  pub total : length server.slots ≡ max_clients
  pub counted : server.num_active ≡ length (active_fds server.slots)
  pub bounded : length (active_fds server.slots) ≤ max_clients
  pub tracked : (fd : ℕ) → is_open server.trace fd ≡ has_active fd server.slots

pub initial-IsValid : IsValid initial
initial-IsValid = record {
  good = ground arith;
  total = refl;
  counted = refl;
  bounded = omega arith;
  tracked = λ fd. ground arith;
}

count_le : (ss : List Slot) → length (active_fds ss) ≤ length ss
count_le [] = omega arith
count_le (s ∷ ss) = ground (arith, count_le ss)

module _ {server : Server} (v : IsValid server) where
  -- A valid table and an accepted descriptor that is not open.
  conn_round-IsValid_of :
      (fd : ℕ) (o : Option (List Slot))
      → is_open server.trace fd ≡ false
      → activate fd server.slots ≡ o
      → AfterActivate fd server.slots o
      → IsValid (conn_round (some fd) server)
  unfolding conn_round add_client
  conn_round-IsValid_of fd none fresh e a =
      rw (e, add_client)
        (record {
          good = v.good;
          total = v.total;
          counted = v.counted;
          bounded = v.bounded;
          tracked = λ x. ground (arith, v.tracked x);
        })
  conn_round-IsValid_of fd (some ss') fresh e a =
      rw (e, add_client)
        (record {
          good = a.good;
          total = a.total ∙ v.total;
          counted = omega (arith, v.counted, v.bounded, a.count);
          bounded = omega (arith, count_le ss', a.total, v.total);
          tracked = λ x. ground (arith, v.tracked x, a.holds x);
        })

  conn_round-keeps_of :
      (fd x : ℕ) (o : Option (List Slot))
      → has_active x server.slots ≡ true
      → activate fd server.slots ≡ o
      → AfterActivate fd server.slots o
      → has_active x (conn_round (some fd) server).slots ≡ true
  unfolding conn_round add_client
  conn_round-keeps_of fd x none h e a = rw (e, add_client) h
  conn_round-keeps_of fd x (some ss') h e a = rw (e, add_client) (ground (arith, a.holds x))

  pub conn_round-IsValid :
      (fd : ℕ) → is_open server.trace fd ≡ false → IsValid (conn_round (some fd) server)
  conn_round-IsValid fd fresh =
      conn_round-IsValid_of fd (activate fd server.slots) fresh refl
        (activate-Activated fd server.slots v.good (sym (v.tracked fd) ∙ fresh))

  -- Closing an active client.
  pub remove_client-IsValid :
      (fd : ℕ) → has_active fd server.slots ≡ true → IsValid (remove_client fd server)
  unfolding remove_client
  remove_client-IsValid fd held =
      let (ss', found, d) = deactivate-Deactivated fd server.slots v.good held in
      rw (found, remove_client)
        (record {
          good = d.good;
          total = d.total ∙ v.total;
          counted = omega (arith, v.counted, v.bounded, d.count);
          bounded = omega (arith, v.bounded, d.count);
          tracked = λ x. ground (arith, v.tracked x, d.holds x);
        })

  rx-IsValid :
      (fd : ℕ) (bytes : List ℕ) → IsValid (record server { trace = rx fd bytes ∷ server.trace })
  rx-IsValid fd bytes = record {
    good = v.good;
    total = v.total;
    counted = v.counted;
    bounded = v.bounded;
    tracked = v.tracked;
  }

  pub handle_client-IsValid :
      (cb : Bool) (fd : ℕ) (revents : Revents) (received : Option (List ℕ))
      → has_active fd server.slots ≡ true
      → IsValid (handle_client cb fd revents received server)
  unfolding handle_client
  handle_client-IsValid cb fd revents none held = ground (arith, v, remove_client-IsValid fd held)
  handle_client-IsValid cb fd revents (some bytes) held =
      ground (arith, v, remove_client-IsValid fd held, rx-IsValid fd bytes)

  -- Other clients keep their slots.
  pub remove_client-others :
      (fd x : ℕ)
      → has_active fd server.slots ≡ true
      → (fd == x) ≡ false
      → has_active x server.slots ≡ true
      → has_active x (remove_client fd server).slots ≡ true
  unfolding remove_client
  remove_client-others fd x held ne h =
      let (ss', found, d) = deactivate-Deactivated fd server.slots v.good held in
      rw (found, remove_client) (ground (arith, d.holds x))

  pub conn_round-keeps :
      (fd x : ℕ)
      → is_open server.trace fd ≡ false
      → has_active x server.slots ≡ true
      → has_active x (conn_round (some fd) server).slots ≡ true
  conn_round-keeps fd x fresh h =
      conn_round-keeps_of fd x (activate fd server.slots) h refl
        (activate-Activated fd server.slots v.good (sym (v.tracked fd) ∙ fresh))
