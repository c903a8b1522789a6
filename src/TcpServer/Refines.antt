-- ===== src/TcpServer/Refines.antt =====
-- The threads of app/src/tcp_server.c against what their table promises.
use mathlib.Core.Quot
use zephyr_development.Prelude.{
  ℕ, ◌≡◌, refl, ap, ◌∙◌, Bool, true, false, Option, none, some, List, [], ◌∷◌, arith, ltb, length,
}
use zephyr_development.TcpServer.{
  Slot, Server, Revents, max_clients, active_fds, conn_round, add_client, activate, remove_client,
  handle_client,
}
use zephyr_development.TcpServer.Slots.{has_active}
use zephyr_development.TcpServer.Invariant.{IsValid}
use zephyr_development.TcpServer.Threads.{
  System, Reach, start, next, accept, poll, handle, Reach-Inv,
}
use zephyr_development.TcpServer.Clients.{
  Clients, clients, size, remove, admit, serve, Joins, activate-Joins, deactivate-without,
}

module _ (server : Server) (v : IsValid server) where
  clients-add_of :
      (fd : ℕ) (o : Option (List Slot))
      → activate fd server.slots ≡ o
      → Joins fd server.slots o
      → clients (conn_round (some fd) server) ≡ admit fd (clients server)
  unfolding conn_round add_client
  clients-add_of fd none e j =
      let full : ltb (length (active_fds server.slots)) max_clients ≡ false =
        ground (arith, j, v.total) in
      rw (e, add_client, full) refl
  clients-add_of fd (some ss') e j =
      let room : ltb (length (active_fds server.slots)) max_clients ≡ true =
        ground (arith, j.0, v.total) in
      rw (e, add_client, room) (Quot.sound j.1)

  clients-conn_round : (fd : ℕ) → clients (conn_round (some fd) server) ≡ admit fd (clients server)
  clients-conn_round fd =
      clients-add_of fd (activate fd server.slots) refl (activate-Joins fd server.slots)

  clients-remove_client :
      (fd : ℕ)
      → has_active fd server.slots ≡ true
      → clients (remove_client fd server) ≡ remove fd (clients server)
  unfolding remove_client
  clients-remove_client fd held =
      let (ss', found, same) = deactivate-without fd server.slots v.good held in
      rw (found, remove_client) (Quot.sound same)

  clients-handle_client :
      (cb : Bool) (fd : ℕ) (revents : Revents) (received : Option (List ℕ))
      → has_active fd server.slots ≡ true
      → clients (handle_client cb fd revents received server)
        ≡ serve fd revents received (clients server)
  unfolding handle_client
  clients-handle_client cb fd revents none held = ground (arith, clients-remove_client fd held)
  clients-handle_client cb fd revents (some []) held = ground (arith, clients-remove_client fd held)
  clients-handle_client cb fd revents (some (b ∷ bytes)) held =
      ground (arith, clients-remove_client fd held)

-- The clients after the moves of a run, with no table.
abbrev pub moved : {cb : Bool} {s : System} → Reach cb s → Clients
moved start = Quot.mk []
moved (next r (accept fd fresh)) = admit fd (moved r)
moved (next r (poll fds revents idle snap)) = moved r
moved (next r (handle fd revents rest received e)) = serve fd revents received (moved r)

-- However the two threads of the TCP server interleave, its slot table holds, as a collection
-- without order or slots, exactly the clients that the accepted and handled ones leave when each
-- new one is taken while there are fewer than MAX_CLIENTS and each goes when it hangs up or its
-- stream ends, and the counter is their number.
pub clients-Reach :
    {cb : Bool} {s : System} (r : Reach cb s)
    → (clients s.server ≡ moved r) × (s.server.num_active ≡ size (moved r))
clients-Reach {cb} {s} r = (same r, (Reach-Inv r).valid.counted ∙ ap size (same r))
  where
    same : {cb : Bool} {s : System} (r : Reach cb s) → clients s.server ≡ moved r
    same start = refl
    same (next {s = s} r (accept fd fresh)) =
        clients-conn_round s.server (Reach-Inv r).valid fd ∙ ap (admit fd) (same r)
    same (next r (poll fds revents idle snap)) = same r
    same {cb} (next {s = s} r (handle fd revents rest received e)) =
        clients-handle_client s.server (Reach-Inv r).valid cb fd revents received
          (rw e at (Reach-Inv r).live).0
        ∙ ap (serve fd revents received) (same r)
