-- ===== src/TcpServer/Tests.antt =====
-- Runs of app/src/tcp_server.c, and its theorems at concrete inputs.
use zephyr_development.Prelude.{◌≡◌, refl, true, false, some, [], ◌∷◌}
use zephyr_development.TcpServer.{
  Server, Slot, Revents, accepted, closed, snapshot, conn_round, handle_client, remove_client,
  add_client, activate, deactivate, initial,
}
use zephyr_development.TcpServer.Threads.{
  Reach, start, next, accept, poll, handle, IsSafe, Reach-IsSafe,
}
use zephyr_development.TcpServer.Clients.{clients, size}
use zephyr_development.TcpServer.Refines.{moved, clients-Reach}

abbrev none_active : Slot
none_active = record { fd = 0; active = false }

abbrev ready : Revents
ready = record { pollhup = false; pollin = true }

-- Two clients come; the first one closes.
abbrev one_left : Server
one_left = record {
  num_active = 1;
  slots =
      record { fd = 7; active = false }
      ∷ record { fd = 8; active = true }
      ∷ none_active
      ∷ none_active
      ∷ none_active
      ∷ [];
  trace = closed 7 ∷ accepted 8 ∷ accepted 7 ∷ [];
}

close_runs :
    handle_client true 7 ready (some []) (conn_round (some 8) (conn_round (some 7) initial))
    ≡ one_left
unfolding handle_client conn_round add_client activate remove_client deactivate
close_runs = refl

abbrev joined : Server
joined = conn_round (some 7) initial

snapshot-joined : snapshot joined ≡ some (7 ∷ [])
unfolding snapshot conn_round add_client activate
snapshot-joined = refl

polled : Reach true (record { server = joined; pending = (7, ready) ∷ [] })
polled = next (next start (accept 7 refl)) (poll (7 ∷ []) (λ fd. ready) refl snapshot-joined)

-- The polled client ends its stream.
ended : Reach true (record { server = handle_client true 7 ready (some []) joined; pending = [] })
ended = next polled (handle 7 ready [] (some []) refl)

clients-Reach_example :
    (clients (handle_client true 7 ready (some []) joined) ≡ moved ended)
    × ((handle_client true 7 ready (some []) joined).num_active ≡ size (moved ended))
clients-Reach_example = clients-Reach ended

-- The polled client has sent a message; it is handed over.
Reach-IsSafe_example :
    IsSafe (record { server = handle_client true 7 ready (some (3 ∷ [])) joined; pending = [] })
Reach-IsSafe_example = Reach-IsSafe (next polled (handle 7 ready [] (some (3 ∷ [])) refl))
