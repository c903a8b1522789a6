-- ===== src/App/Serve/Tests.antt =====
-- Two clients at the device: the one starts an update, and the other writes into it.
use zephyr_development.Prelude.{◌≡◌, ◌≢◌, refl, true, false, some, [], ◌∷◌, ℤ, pos, Env}
use zephyr_development.Dfu.{Call, fault, dfu_handle}
use zephyr_development.Dfu.Spec.{session, image}
use zephyr_development.TcpServer.{
  Server, Revents, snapshot, conn_round, handle_client, add_client, activate, initial,
}
use zephyr_development.TcpServer.Threads.{Reach, start, next, accept, poll, handle}
use zephyr_development.App.{tcp_received}
use zephyr_development.App.Serve.{board, session_of, Reach-IsServed}

abbrev flash_ok : Env Call ℤ
flash_ok past c = pos 0

abbrev readable : Revents
readable = record { pollhup = false; pollin = true }

abbrev both : Server
both = conn_round (some 8) (conn_round (some 7) initial)

snapshot-both : snapshot both ≡ some (7 ∷ 8 ∷ [])
unfolding snapshot conn_round add_client activate
snapshot-both = refl

abbrev heard : Server
heard =
    handle_client true 8 readable (some (4 ∷ 20 ∷ []))
      (handle_client true 7 readable (some (3 ∷ [])) both)

served : Reach true (record { server = heard; pending = [] })
unfolding conn_round add_client activate
served =
    let first = next start (accept 7 refl) in
    let second = next first (accept 8 refl) in
    let polled = next second (poll (7 ∷ 8 ∷ []) (λ fd. readable) refl snapshot-both) in
    let one = next polled (handle 7 readable ((8, readable) ∷ []) (some (3 ∷ [])) refl) in
    next one (handle 8 readable [] (some (4 ∷ 20 ∷ [])) refl)

Reach-IsServed_example :
    ((board flash_ok heard.trace).ended ≢ fault)
    × (session (board flash_ok heard.trace).calls ≡ session_of flash_ok heard.trace)
Reach-IsServed_example = Reach-IsServed flash_ok served

-- The block of client 8 is in the image that client 7 began.
shared_image : image (board flash_ok heard.trace).calls ≡ 20 ∷ []
unfolding handle_client conn_round add_client activate tcp_received dfu_handle
shared_image = refl
