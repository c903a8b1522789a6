-- ===== src/App/Serve.antt =====
-- The callback of app/main.c under the threads of app/src/tcp_server.c: every message of every client goes to the
-- update handler of app/src/dfu.c, in the order in which the server reads them.
mod Tests
use zephyr_development.Prelude.{
  ℕ, ◌<◌, ◌≡◌, ◌≢◌, refl, sym, ap, ◌∙◌, Bool, true, false, Option, none, some, List, [], ◌∷◌, ℤ,
  Env, Trace, arith, if◌then◌else◌, length, ltb, ◌&&◌, ◌==◌, ◌⊎◌, inl, inr,
}
use zephyr_development.Dfu.{Call, Outcome, returned, rebooted, fault, net_tcp, dfu_handle}
use zephyr_development.Dfu.Spec.{accepted, session, session_step, Session}
use zephyr_development.Dfu.Handle.{dfu_handle_refines, dfu_handle_outcome}
use zephyr_development.TcpServer.{
  Server, Event, closed, rx, Revents, add_client, conn_round, remove_client, handle_client,
}
use zephyr_development.TcpServer.Threads.{System, Reach, start, next, accept, poll, handle}
use zephyr_development.App.{tcp_received}

-- The handler's calls so far, and how its last call ended.
pub record Board : Type 0 where
  pub calls : Trace Call ℤ
  pub ended : Outcome

module _ (env : Env Call ℤ) where
  -- One message; a board in its reboot, or after a fault, runs nothing more.
  abbrev pub on_message : ℕ → List ℕ → Board → Board
  on_message fd bytes b =
      let r = tcp_received env fd bytes b.calls in
      elim b.ended [ returned ↦ record { calls = r.1; ended = r.0 } | rebooted ↦ b | fault ↦ b ]

  -- The board after the events of a server, which are kept newest first.
  abbrev pub board : List Event → Board
  board [] = record { calls = []; ended = returned }
  board (Event.accepted fd ∷ past) = board past
  board (closed fd ∷ past) = board past
  board (rx fd bytes ∷ past) = on_message fd bytes (board past)

  -- The session of the protocol after the same messages.
  abbrev pub requested : Board → List ℕ → Session → Session
  requested b [] s = s
  requested b (req ∷ buf) s = elim b.ended [
    | returned ↦ session_step req buf (accepted env b.calls req buf) s
    | rebooted ↦ s
    | fault ↦ s
  ]

  abbrev pub session_of : List Event → Session
  session_of [] = record { bytes = []; upgrade = false }
  session_of (Event.accepted fd ∷ past) = session_of past
  session_of (closed fd ∷ past) = session_of past
  session_of (rx fd bytes ∷ past) = requested (board past) bytes (session_of past)

-- No empty message was handed over.
abbrev pub IsFilled : List Event → Type 0
IsFilled [] = Unit
IsFilled (Event.accepted fd ∷ past) = IsFilled past
IsFilled (closed fd ∷ past) = IsFilled past
IsFilled (rx fd bytes ∷ past) = (0 < length bytes) × IsFilled past

conn_round-IsFilled :
    (fd : ℕ) (server : Server)
    → IsFilled server.trace
    → IsFilled (conn_round (some fd) server).trace
unfolding conn_round add_client
conn_round-IsFilled fd server h = ground (arith, h)

remove_client-IsFilled :
    (fd : ℕ) (server : Server) → IsFilled server.trace → IsFilled (remove_client fd server).trace
unfolding remove_client
remove_client-IsFilled fd server h = ground (arith, h)

handle_client-IsFilled :
    (cb : Bool) (fd : ℕ) (revents : Revents) (received : Option (List ℕ)) (server : Server)
    → IsFilled server.trace
    → IsFilled (handle_client cb fd revents received server).trace
unfolding handle_client
handle_client-IsFilled cb fd revents none server h =
    ground (arith, h, remove_client-IsFilled fd server h)
handle_client-IsFilled cb fd revents (some bytes) server h =
    ground (arith, h, remove_client-IsFilled fd server h)

pub Reach-IsFilled : {cb : Bool} {s : System} → Reach cb s → IsFilled s.server.trace
Reach-IsFilled start = tt
Reach-IsFilled (next {s = s} r (accept fd fresh)) =
    conn_round-IsFilled fd s.server (Reach-IsFilled r)
Reach-IsFilled (next r (poll fds revents idle snap)) = Reach-IsFilled r
Reach-IsFilled {cb} (next {s = s} r (handle fd revents rest received e)) =
    handle_client-IsFilled cb fd revents received s.server (Reach-IsFilled r)

module _ (env : Env Call ℤ) where
  Outcome-cases : (o : Outcome) → o ≢ fault → (o ≡ returned) ⊎ (o ≡ rebooted)
  Outcome-cases returned h = inl refl
  Outcome-cases rebooted h = inr refl
  Outcome-cases fault h = absurd (h refl)

  on_message_lem :
      (fd : ℕ) (bytes : List ℕ) (b : Board)
      → 0 < length bytes
      → b.ended ≢ fault
      → let b' = on_message env fd bytes b in
        (b'.ended ≢ fault) × (session b'.calls ≡ requested env b bytes (session b.calls))
  unfolding tcp_received
  on_message_lem fd [] b full good = absurd (omega arith)
  on_message_lem fd (req ∷ buf) b full good = elim (Outcome-cases b.ended good) [
    | inl e ↦ rw e (
      (dfu_handle_outcome net_tcp env fd req buf b.calls).0,
      dfu_handle_refines net_tcp env fd req buf b.calls,
    )
    | inr e ↦ rw e ((λ f. good (e ∙ f)), refl)
  ]

  board_lem :
      (events : List Event)
      → IsFilled events
      → ((board env events).ended ≢ fault)
        × (session (board env events).calls ≡ session_of env events)
  board_lem [] h = ((λ e. cc), refl)
  board_lem (Event.accepted fd ∷ past) h = board_lem past h
  board_lem (closed fd ∷ past) h = board_lem past h
  board_lem (rx fd bytes ∷ past) h =
      let (good, same) = board_lem past h.1 in
      let (good', step) = on_message_lem fd bytes (board env past) h.0 good in
      (good', step ∙ ap (requested env (board env past) bytes) same)

  -- However the two threads of the TCP server interleave and whichever clients they serve, the
  -- callback of main never reads an empty message, the handler table is never left, and the update
  -- session is the one of the protocol for the messages in the order in which the server read
  -- them, whatever the flash writer and the sockets answer.
  pub Reach-IsServed :
      {cb : Bool} {s : System}
      → Reach cb s
      → ((board env s.server.trace).ended ≢ fault)
        × (session (board env s.server.trace).calls ≡ session_of env s.server.trace)
  Reach-IsServed {s = s} r = board_lem s.server.trace (Reach-IsFilled r)
