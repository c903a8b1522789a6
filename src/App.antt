-- ===== src/App.antt =====
-- app/main.c: the callback that joins the TCP server to the update handler.
pub mod Update
pub mod Serve
pub mod Main
use zephyr_development.Prelude.{ℕ, ℤ, List, [], ◌∷◌, Env, pure}
use zephyr_development.Dfu.{Call, DfuIo, Outcome, fault, net_tcp, dfu_handle}

-- `buf[0]` and the rest. The server never hands over an empty message; reading it would be a fault.
unfoldable pub tcp_received : Env Call ℤ → ℕ → List ℕ → DfuIo Outcome
tcp_received env client_fd [] = pure fault
tcp_received env client_fd (req ∷ rest) = dfu_handle net_tcp env client_fd req rest
