-- ===== src/TcpServer.antt =====
-- app/src/tcp_server.c: a table of client slots shared by an accepting thread and a polling thread.
pub mod Slots
pub mod Invariant
pub mod Clients
pub mod Threads
pub mod Refines
pub mod Start
mod Tests
use zephyr_development.Prelude.{
  ℕ, ◌+◌, ◌-◌, ◌%◌, ◌^◌, Bool, true, false, ◌&&◌, not, Option, none, some, List, [], ◌∷◌, ltb, leb,
  ◌==◌, if◌then◌else◌, length, take, replicate,
}

-- `CONFIG_ZVFS_POLL_MAX` of app/conf/esp32/esp32.conf
abbrev pub max_clients : ℕ
max_clients = 5

abbrev pub mtu_size : ℕ
mtu_size = 255

pub record Slot : Type 0 where
  pub fd : ℕ
  pub active : Bool

-- What the threads do to the outside, newest first: a client accepted, `zsock_close`, a message
-- handed to the callback.
pub data Event : Type 0 where
  accepted : ℕ → Event
  closed : ℕ → Event
  rx : ℕ → List ℕ → Event

pub record Server : Type 0 where
  pub num_active : ℕ
  pub slots : List Slot
  pub trace : List Event

-- `atomic_t` is a 32-bit word on the targets.
abbrev pub atomic_add : ℕ → ℕ
atomic_add n = (n + 1) % 2 ^ 32

abbrev pub atomic_sub : ℕ → ℕ
atomic_sub n = (n + 2 ^ 32 - 1) % 2 ^ 32

-- The loop of `remove_client`: the first slot with the descriptor; none if there is no such slot.
unfoldable pub deactivate : ℕ → List Slot → Option (List Slot)
deactivate client_fd [] = none
deactivate client_fd (s ∷ ss) =
    let rest = deactivate client_fd ss in
    if s.fd == client_fd
    then some (record s { active = false } ∷ ss)
    else elim rest [ none ↦ none | some ss' ↦ some (s ∷ ss') ]

unfoldable pub remove_client : ℕ → Server → Server
remove_client client_fd server = elim (deactivate client_fd server.slots) [
  | none ↦ server
  | some ss ↦ record server {
    num_active = atomic_sub server.num_active;
    slots = ss;
    trace = closed client_fd ∷ server.trace;
  }
]

-- The loop of `add_client`: the first free slot; none if all are taken.
unfoldable pub activate : ℕ → List Slot → Option (List Slot)
activate client_fd [] = none
activate client_fd (s ∷ ss) =
    let rest = activate client_fd ss in
    if not s.active
    then some (record { fd = client_fd; active = true } ∷ ss)
    else elim rest [ none ↦ none | some ss' ↦ some (s ∷ ss') ]

unfoldable pub add_client : ℕ → Server → Server
add_client client_fd server = elim (activate client_fd server.slots) [
  | none ↦ record server { trace = closed client_fd ∷ server.trace }
  | some ss ↦ record server { num_active = atomic_add server.num_active; slots = ss }
]

-- One round of `tcp_server_conn_handler`: `zsock_accept` gave a client, or failed (none).
unfoldable pub conn_round : Option ℕ → Server → Server
conn_round none server = server
conn_round (some client_fd) server =
    add_client client_fd (record server { trace = accepted client_fd ∷ server.trace })

-- The loop under the lock that fills `pollfd`.
abbrev pub active_fds : List Slot → List ℕ
active_fds [] = []
active_fds (s ∷ ss) = if s.active then s.fd ∷ active_fds ss else active_fds ss

-- The entries that the polling thread reads, `pollfd[0]` to `pollfd[num_active - 1]`; none if one of
-- them was not filled.
unfoldable pub snapshot : Server → Option (List ℕ)
snapshot server =
    let fds = active_fds server.slots in
    if leb server.num_active (length fds) then some (take server.num_active fds) else none

-- The two tests on `revents`.
pub record Revents : Type 0 where
  pub pollhup : Bool
  pub pollin : Bool

-- The body of the loop over the polled clients. `received` is what `zsock_recv` answers: none for an
-- error, else the bytes read.
unfoldable pub handle_client : Bool → ℕ → Revents → Option (List ℕ) → Server → Server
handle_client cb fd revents received server =
    if revents.pollhup
    then remove_client fd server
    else if revents.pollin
    then elim received [
      | none ↦ server
      | some bytes ↦
          if ltb 0 (length bytes) && cb
          then record server { trace = rx fd bytes ∷ server.trace }
          else if length bytes == 0
          then remove_client fd server
          else server
    ]
    else server

-- `tcp_server_init` leaves the static table zeroed.
abbrev pub initial : Server
initial = record {
  num_active = 0;
  slots = replicate max_clients (record { fd = 0; active = false });
  trace = [];
}
