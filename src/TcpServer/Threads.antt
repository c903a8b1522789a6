-- ===== src/TcpServer/Threads.antt =====
-- The accepting and the polling thread of app/src/tcp_server.c, interleaved at their lock regions.
use mathlib.Core.List.{map}
use zephyr_development.Prelude.{
  ℕ, ◌≤◌, ◌≡◌, sym, subst, ◌∙◌, Bool, true, false, Option, none, some, List, [], ◌∷◌, arith, ◌==◌,
  length, Bool-cases, inl, inr, All, take_all,
}
use zephyr_development.TcpServer.{
  Slot, Server, Revents, max_clients, active_fds, snapshot, conn_round, handle_client, initial,
}
use zephyr_development.TcpServer.Slots.{has_active, IsGood}
use zephyr_development.TcpServer.Invariant.{
  is_open, IsValid, initial-IsValid, conn_round-IsValid, handle_client-IsValid,
  remove_client-others, conn_round-keeps,
}

-- The server, and the polled clients that the polling thread has still to handle.
pub record System : Type 0 where
  pub server : Server
  pub pending : List (ℕ × Revents)

-- A client is accepted at any time, with a descriptor that is not open; the polling thread fills
-- its array when it has handled the last one, and then handles the entries one by one.
pub data Step (cb : Bool) (s : System) : System → Type 0 where
  accept :
      (fd : ℕ)
      → is_open s.server.trace fd ≡ false
      → Step cb s (record s { server = conn_round (some fd) s.server })
  poll :
      (fds : List ℕ) (revents : ℕ → Revents)
      → s.pending ≡ []
      → snapshot s.server ≡ some fds
      → Step cb s (record s { pending = map (λ fd. (fd, revents fd)) fds })
  handle :
      (fd : ℕ) (revents : Revents) (rest : List (ℕ × Revents)) (received : Option (List ℕ))
      → s.pending ≡ (fd, revents) ∷ rest
      → Step cb s
          (record { server = handle_client cb fd revents received s.server; pending = rest })

pub data Reach (cb : Bool) : System → Type 0 where
  start : Reach cb (record { server = initial; pending = [] })
  next : {s t : System} → Reach cb s → Step cb s t → Reach cb t

abbrev pub AllActive : List Slot → List (ℕ × Revents) → Type 0
AllActive ss = All (λ e. has_active e.0 ss ≡ true)

abbrev pub IsDistinct : List (ℕ × Revents) → Type 0
IsDistinct [] = Unit
IsDistinct (e ∷ es) = All (λ e'. (e.0 == e'.0) ≡ false) es × IsDistinct es

pub record Inv (s : System) : Type 0 where
  pub valid : IsValid s.server
  pub live : AllActive s.server.slots s.pending
  pub distinct : IsDistinct s.pending

-- A valid server reads the array exactly as far as it is filled.
pub snapshot-active_fds :
    (server : Server) → IsValid server → snapshot server ≡ some (active_fds server.slots)
unfolding snapshot
snapshot-active_fds server v =
    ground (arith, v.counted, take_all server.num_active (active_fds server.slots))

active_fds-taken :
    (s : Slot) (ss : List Slot) → s.active ≡ true → active_fds (s ∷ ss) ≡ s.fd ∷ active_fds ss
active_fds-taken s ss e = ground arith

active_fds-free :
    (s : Slot) (ss : List Slot) → s.active ≡ false → active_fds (s ∷ ss) ≡ active_fds ss
active_fds-free s ss e = ground arith

module _ (revents : ℕ → Revents) where
  abbrev pub entries : List ℕ → List (ℕ × Revents)
  entries = map (λ fd. (fd, revents fd))

  AllActive-cons :
      (s : Slot) (ss : List Slot) (fds : List ℕ)
      → AllActive ss (entries fds)
      → AllActive (s ∷ ss) (entries fds)
  AllActive-cons s ss [] h = tt
  AllActive-cons s ss (fd ∷ fds) h = (ground (arith, h.0), AllActive-cons s ss fds h.1)

  AllActive-active_fds : (ss : List Slot) → AllActive ss (entries (active_fds ss))
  AllActive-active_fds [] = tt
  AllActive-active_fds (s ∷ ss) = elim (Bool-cases s.active) [
    | inl e ↦
        subst (λ fds. AllActive (s ∷ ss) (entries fds)) (sym (active_fds-taken s ss e))
          (ground (arith, e), AllActive-cons s ss (active_fds ss) (AllActive-active_fds ss))
    | inr e ↦
        subst (λ fds. AllActive (s ∷ ss) (entries fds)) (sym (active_fds-free s ss e))
          (AllActive-cons s ss (active_fds ss) (AllActive-active_fds ss))
  ]

  differ :
      (x : ℕ) (ss : List Slot)
      → has_active x ss ≡ false
      → All (λ e. (x == e.0) ≡ false) (entries (active_fds ss))
  differ x [] h = tt
  differ x (s ∷ ss) h = elim (Bool-cases s.active) [
    | inl e ↦
        subst (λ fds. All (λ e. (x == e.0) ≡ false) (entries fds)) (sym (active_fds-taken s ss e))
          (ground arith, differ x ss (ground arith))
    | inr e ↦
        subst (λ fds. All (λ e. (x == e.0) ≡ false) (entries fds)) (sym (active_fds-free s ss e))
          (differ x ss (ground arith))
  ]

  active_fds-IsDistinct : (ss : List Slot) → IsGood ss → IsDistinct (entries (active_fds ss))
  active_fds-IsDistinct [] g = tt
  active_fds-IsDistinct (s ∷ ss) g = elim (Bool-cases s.active) [
    | inl e ↦
        subst (λ fds. IsDistinct (entries fds)) (sym (active_fds-taken s ss e))
          (differ s.fd ss g.0, active_fds-IsDistinct ss g.1)
    | inr e ↦
        subst (λ fds. IsDistinct (entries fds)) (sym (active_fds-free s ss e))
          (active_fds-IsDistinct ss g.1)
  ]

module _ {server : Server} (v : IsValid server) where
  conn_round-AllActive :
      (fd : ℕ) (es : List (ℕ × Revents))
      → is_open server.trace fd ≡ false
      → AllActive server.slots es
      → AllActive (conn_round (some fd) server).slots es
  conn_round-AllActive fd [] fresh h = tt
  conn_round-AllActive fd (e ∷ es) fresh h =
      (conn_round-keeps v fd e.0 fresh h.0, conn_round-AllActive fd es fresh h.1)

  handle_client-others :
      (cb : Bool) (fd x : ℕ) (revents : Revents) (received : Option (List ℕ))
      → has_active fd server.slots ≡ true
      → (fd == x) ≡ false
      → has_active x server.slots ≡ true
      → has_active x (handle_client cb fd revents received server).slots ≡ true
  unfolding handle_client
  handle_client-others cb fd x revents none held ne h =
      ground (arith, remove_client-others v fd x held ne h)
  handle_client-others cb fd x revents (some bytes) held ne h =
      ground (arith, remove_client-others v fd x held ne h)

  handle_client-AllActive :
      (cb : Bool) (fd : ℕ) (revents : Revents) (received : Option (List ℕ))
      (es : List (ℕ × Revents))
      → has_active fd server.slots ≡ true
      → All (λ e. (fd == e.0) ≡ false) es
      → AllActive server.slots es
      → AllActive (handle_client cb fd revents received server).slots es
  handle_client-AllActive cb fd revents received [] held ne h = tt
  handle_client-AllActive cb fd revents received (e ∷ es) held ne h = (
    handle_client-others cb fd e.0 revents received held ne.0 h.0,
    handle_client-AllActive cb fd revents received es held ne.1 h.1,
  )

-- Every step of either thread keeps the table, the counter and the polled clients in order.
pub Step-Inv : {cb : Bool} {s t : System} → Step cb s t → Inv s → Inv t
Step-Inv {s = s} (accept fd fresh) h = record {
  valid = conn_round-IsValid h.valid fd fresh;
  live = conn_round-AllActive h.valid fd s.pending fresh h.live;
  distinct = h.distinct;
}
Step-Inv {s = s} (poll fds revents idle snap) h =
    let e : fds ≡ active_fds s.server.slots = cc (snapshot-active_fds s.server h.valid) in
    record {
      valid = h.valid;
      live = rw e (AllActive-active_fds revents s.server.slots);
      distinct = rw e (active_fds-IsDistinct revents s.server.slots h.valid.good);
    }
Step-Inv {cb} {s = s} (handle fd revents rest received e) h =
    let live = rw e at h.live in
    let distinct = rw e at h.distinct in
    record {
      valid = handle_client-IsValid h.valid cb fd revents received live.0;
      live = handle_client-AllActive h.valid cb fd revents received rest live.0 distinct.0 live.1;
      distinct = distinct.1;
    }

pub Reach-Inv : {cb : Bool} {s : System} → Reach cb s → Inv s
Reach-Inv start = record { valid = initial-IsValid; live = tt; distinct = tt }
Reach-Inv (next r st) = Step-Inv st (Reach-Inv r)

-- The counter is the number of clients, at most MAX_CLIENTS; the polling thread reads exactly the
-- filled part of its array; a descriptor is open exactly if an active slot holds it, so none leaks and
-- none is used after its close; and every polled client not yet handled is still open.
pub record IsSafe (s : System) : Type 0 where
  pub counted : s.server.num_active ≡ length (active_fds s.server.slots)
  pub bounded : s.server.num_active ≤ max_clients
  pub filled : snapshot s.server ≡ some (active_fds s.server.slots)
  pub tracked : (fd : ℕ) → is_open s.server.trace fd ≡ has_active fd s.server.slots
  pub polled_open : All (λ e. is_open s.server.trace e.0 ≡ true) s.pending

-- However the accepting and the polling thread interleave, the counter is the number of clients
-- and at most MAX_CLIENTS, the polling thread reads exactly the filled part of its array, a
-- descriptor is open exactly if an active slot holds it, and every polled client not yet handled
-- is still open.
pub Reach-IsSafe : {cb : Bool} {s : System} → Reach cb s → IsSafe s
Reach-IsSafe {s = s} r =
    let h = Reach-Inv r in
    let v = h.valid in
    record {
      counted = v.counted;
      bounded = omega (arith, v.counted, v.bounded);
      filled = snapshot-active_fds s.server v;
      tracked = v.tracked;
      polled_open = pending_open v s.pending h.live;
    }
  where
    pending_open :
        {server : Server}
        → IsValid server
        → (es : List (ℕ × Revents)) → AllActive server.slots es
        → All (λ e. is_open server.trace e.0 ≡ true) es
    pending_open v [] h = tt
    pending_open v (e ∷ es) h = (v.tracked e.0 ∙ h.0, pending_open v es h.1)
