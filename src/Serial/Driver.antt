-- ===== src/Serial/Driver.antt =====
-- The UART driver beside app/src/serial.c: the order of its events, and the bytes that come in.
use zephyr_development.Prelude.{
  ℕ, ◌-◌, ◌<◌, ◌≡◌, Bool, true, false, Option, none, some, List, [], ◌∷◌, ◌++◌, Env, Trace, length,
  drop, take,
}
use zephyr_development.Fifo.{Fifo}
use zephyr_development.Usb.Receive.{Frame}
use zephyr_development.Usb.Receive.Order.{accept}
use zephyr_development.Serial.{
  Event, rx_rdy, rx_buf_request, rx_buf_released, other, Call, Answer, Port, k_heap_alloc,
  uart_rx_buf_rsp, uart_cb, uart_entry_round, initial,
}

-- The buffers that the driver has, the one that it fills and the one that it was given to go on with; what it has
-- put into the first; and how much of that it has reported.
pub record Driver : Type 0 where
  pub current : ℕ
  pub next : Option ℕ
  pub filled : List ℕ
  pub reported : ℕ

-- Beside the two: the bytes that came over the wire, the reports for which there was a block, and whether there
-- was none for one.
module _ (F : Fifo Frame) where
  pub record Line : Type 0 where
    pub port : Port F
    pub driver : Driver
    pub arrived : List ℕ
    pub accepted : List (List ℕ)
    pub dropped : Bool

abbrev pub is_none : Option ℕ → Bool
is_none none = true
is_none (some block) = false

abbrev pub or : Bool → Bool → Bool
or true b = true
or false b = b

-- The buffer of the newest `uart_rx_buf_rsp` among the calls of the second trace that are not in the first; none
-- if there is none.
abbrev pub last_response : Trace Call Answer → Option ℕ
last_response [] = none
last_response ((uart_rx_buf_rsp buf, a) ∷ past) = some buf
last_response ((c, a) ∷ past) = last_response past

abbrev pub response : Trace Call Answer → Trace Call Answer → Option ℕ
response old new = last_response (take (length new - length old) new)

-- How much of what the driver has put into the buffer it has not reported.
abbrev pub unreported : Driver → ℕ
unreported d = length d.filled - d.reported

abbrev pub report : Driver → List ℕ → Event
report d junk = rx_rdy (d.filled ++ junk) d.reported (unreported d)

module _ (F : Fifo Frame) (env : Env Call Answer) where
  -- The block that the heap gives for a report of `n` bytes.
  abbrev pub block_for : Port F → ℕ → Option ℕ
  block_for p n = (env p.trace (k_heap_alloc n)).block

  -- The driver's documented order of events: it asks for a buffer to go on with only while it has none; what it
  -- has put into the buffer since the last report it reports, with the buffer, of which the rest may hold
  -- anything; and it goes on with the next buffer, as it gives back the one before, when all of that is reported.
  -- It takes the buffer that the file's callback hands it with `uart_rx_buf_rsp`. `served` is a round of the
  -- file's thread.
  pub data Step : Line F → Line F → Type 0 where
    asks :
        (l : Line F)
        → l.driver.next ≡ none
        → Step l (record l {
          port = uart_cb F env rx_buf_request l.port;
          driver = record l.driver {
            next = response l.port.trace (uart_cb F env rx_buf_request l.port).trace;
          };
        })
    byte_in :
        (l : Line F) (b : ℕ)
        → length l.driver.filled < 64
        → Step l (record l {
          driver = record l.driver { filled = l.driver.filled ++ b ∷ [] };
          arrived = l.arrived ++ b ∷ [];
        })
    reports :
        (l : Line F) (junk : List ℕ)
        → Step l (record l {
          port = uart_cb F env (report l.driver junk) l.port;
          driver = record l.driver { reported = length l.driver.filled };
          accepted =
              accept
                (block_for l.port (unreported l.driver))
                (drop l.driver.reported l.driver.filled)
                l.accepted;
          dropped = or l.dropped (is_none (block_for l.port (unreported l.driver)));
        })
    switches :
        (l : Line F) (new : ℕ)
        → l.driver.next ≡ some new
        → l.driver.reported ≡ length l.driver.filled
        → Step l (record l {
          port = uart_cb F env (rx_buf_released l.driver.current) l.port;
          driver = record { current = new; next = none; filled = []; reported = 0 };
        })
    ignored : (l : Line F) → Step l (record l { port = uart_cb F env other l.port })
    served :
        (l : Line F)
        → Step l (record l { port = record l.port { frames = uart_entry_round F l.port.frames } })

  -- Reception is started with buffer 0.
  abbrev pub at_start : F.Queue → Line F
  at_start q = record {
    port = initial F q;
    driver = record { current = 0; next = none; filled = []; reported = 0 };
    arrived = [];
    accepted = [];
    dropped = false;
  }

  pub data Reach (q : F.Queue) : Line F → Type 0 where
    start : Reach q (at_start q)
    then_step : (l l' : Line F) → Reach q l → Step l l' → Reach q l'
