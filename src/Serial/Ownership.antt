-- ===== src/Serial/Ownership.antt =====
-- Who has the two receive buffers of app/src/serial.c.
use zephyr_development.Prelude.{
  take-suc_length, ◌≡◌, ℕ, ◌≢◌, ◌<◌, sym, ap, ◌∙◌, Option, none, some, Env, arith,
}
use zephyr_development.Fifo.{Fifo}
use zephyr_development.Usb.Receive.{Frame}
use zephyr_development.Serial.{Call, Answer, uart_cb, rx_buf_request, uart_rx_buf_rsp}
use zephyr_development.Serial.Driver.{
  Line, Step, Reach, start, then_step, asks, byte_in, reports, switches, ignored, served, response,
  last_response,
}

-- The buffer that the driver was given to go on with, or the one that the file would give it.
abbrev pub given : Option ℕ → ℕ → ℕ
given none free = free
given (some b) free = b

module _ (F : Fifo Frame) where
  -- The buffer that the file would hand out, or has handed out, is never the one that the driver fills, and each
  -- is one of the two.
  pub record IsOwned (l : Line F) : Type 0 where
    pub apart : given l.driver.next l.port.free_buf ≢ l.driver.current
    pub one_of_two : (given l.driver.next l.port.free_buf < 2) × (l.driver.current < 2)

module _ (F : Fifo Frame) (env : Env Call Answer) (q : F.Queue) where
  next-asks :
      (l : Line F)
      → response l.port.trace (uart_cb F env rx_buf_request l.port).trace ≡ some l.port.free_buf
  unfolding uart_cb
  next-asks l =
      let asked = uart_rx_buf_rsp l.port.free_buf in
      ap last_response (take-suc_length (asked, env l.port.trace asked) l.port.trace)

  Step-IsOwned : {l l' : Line F} → Step F env l l' → IsOwned F l → IsOwned F l'
  unfolding uart_cb
  Step-IsOwned (asks l e) o =
      let same = ap (λ next. given next l.port.free_buf) e in
      let handed = ap (λ next. given next l.port.free_buf) (next-asks l) in
      record {
        apart = λ e'. o.apart (same ∙ sym handed ∙ e');
        one_of_two = (omega (arith, handed, same, o.one_of_two), o.one_of_two.1);
      }
  Step-IsOwned (byte_in l b room) o = record { apart = o.apart; one_of_two = o.one_of_two }
  Step-IsOwned (reports l junk) o = record { apart = o.apart; one_of_two = o.one_of_two }
  Step-IsOwned (switches l new e all) o =
      let same = ap (λ next. given next l.port.free_buf) e in
      record {
        apart = λ e'. o.apart (same ∙ sym e');
        one_of_two = (o.one_of_two.1, omega (arith, same, o.one_of_two));
      }
  Step-IsOwned (ignored l) o = record { apart = o.apart; one_of_two = o.one_of_two }
  Step-IsOwned (served l) o = record { apart = o.apart; one_of_two = o.one_of_two }

  reached : (l : Line F) → Reach F env q l → IsOwned F l
  reached l start = record { apart = λ e. omega arith; one_of_two = (omega arith, omega arith) }
  reached l (then_step l' l'' r st) = Step-IsOwned st (reached l' r)

  -- If the UART driver asks for a buffer only while it has none to go on with, and goes on with
  -- the one that serial.c answered with as it gives back the one before, then in every reachable
  -- state the buffer that serial.c would hand out, or has handed out, is not the one that the
  -- driver fills, each is one of the two, and a request for a buffer is answered with the one that
  -- serial.c has.
  pub Reach-IsOwned :
      (l : Line F)
      → Reach F env q l
      → IsOwned F l
        × (response l.port.trace (uart_cb F env rx_buf_request l.port).trace ≡ some l.port.free_buf)
  Reach-IsOwned l r = (reached l r, next-asks l)
