-- ===== src/TcpServer/Start.antt =====
-- Starting and answering in app/src/tcp_server.c. The socket library and the threads are outside code: each
-- call is recorded with its answer.
use zephyr_development.Prelude.{
  ℕ, Bool, List, ◌∷◌, ℤ, pos, is_zero, is_neg, Io, Env, Trace, if◌then◌else◌,
}
use zephyr_development.TcpServer.{Server, max_clients}

-- Descriptors are integers here: that of a socket that could not be made is negative.
pub data Call : Type 0 where
  zsock_socket : Call
  zsock_bind : ℤ → ℕ → Call
  zsock_listen : ℤ → ℕ → Call
  k_thread_create_conn : Call
  k_thread_create_proc : Bool → Call
  zsock_send : ℕ → List ℕ → Call

-- `server_fd`, the rest of `server`, and the trace.
pub record Listener : Type 0 where
  pub server_fd : ℤ
  pub server : Server
  pub trace : Trace Call ℤ

module _ (env : Env Call ℤ) where
  abbrev pub zsock : Call → Io Listener ℤ
  zsock c s = (env s.trace c, record s { trace = (c, env s.trace c) ∷ s.trace })

  unfoldable pub tcp_server_init : ℕ → Io Listener ℤ
  tcp_server_init port s =
      let opened = zsock zsock_socket s in
      let kept = record opened.1 { server_fd = opened.0 } in
      let reset = record kept { server = record kept.server { num_active = 0 } } in
      if is_neg opened.0 then (opened.0, kept) else zsock (zsock_bind opened.0 port) reset

  -- `cb` tells whether the callback is given.
  unfoldable pub tcp_server_start : Bool → Io Listener ℤ
  tcp_server_start cb s =
      let listening = zsock (zsock_listen s.server_fd max_clients) s in
      let accepting = (zsock k_thread_create_conn listening.1).1 in
      let polling = (zsock (k_thread_create_proc cb) accepting).1 in
      if is_zero listening.0 then (pos 0, polling) else listening

  unfoldable pub tcp_server_send : ℕ → List ℕ → Io Listener ℤ
  tcp_server_send fd buf s = zsock (zsock_send fd buf) s
