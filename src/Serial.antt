-- ===== src/Serial.antt =====
-- app/src/serial.c: the serial line with two receive buffers that the driver and the file pass to and fro, and
-- the frames that its thread hands over. The UART driver, the heap and the kernel are outside code: their calls
-- are recorded with their answers. The frames, their heap and their queue are those of Usb/Receive.
pub mod Write
pub mod Driver
pub mod Ownership
pub mod Stream
mod Tests
use zephyr_development.Fifo.{Fifo}
use zephyr_development.Usb.Receive.{Frame, Receiver, k_heap_free}
use zephyr_development.Prelude.{
  ◌++◌, ℕ, Bool, true, false, not, Option, none, some, List, [], ◌∷◌, ℤ, pos, neg, is_zero, Io, Env,
  Trace, enodev, efault, einval, if◌then◌else◌, take, drop, length, ◌+◌,
}

-- `UART_RX_RDY` with its buffer, offset and length; `UART_RX_BUF_RELEASED` with its buffer. `other` is each
-- event without a case.
pub data Event : Type 0 where
  rx_rdy : List ℕ → ℕ → ℕ → Event
  rx_buf_request : Event
  rx_buf_released : ℕ → Event
  other : Event

-- The heap is asked for a frame with `n` bytes of data.
pub data Call : Type 0 where
  device_is_ready : Call
  uart_callback_set : Call
  uart_rx_enable : ℕ → Call
  uart_rx_buf_rsp : ℕ → Call
  uart_poll_out : ℕ → Call
  k_heap_alloc : ℕ → Call
  k_thread_create : Call

-- The return value (0 also stands for false), and the block allocated, none for NULL.
pub record Answer : Type 0 where
  pub ret : ℤ
  pub block : Option ℕ

-- `k_fifo_put` of a frame that the heap has given, with the block that it takes.
unfoldable pub queue_frame : (F : Fifo Frame) → Option ℕ → List ℕ → Receiver F → Receiver F
queue_frame F none bytes s = s
queue_frame F (some block) bytes s = record s {
  rx_fifo = F.k_fifo_put (record { pointer = block; bytes = bytes }) s.rx_fifo;
  usb_heap = s.usb_heap ++ block ∷ [];
}

-- One round of `uart_entry`: the oldest frame is handed to the callback and freed. On an empty queue the
-- thread waits.
unfoldable pub uart_entry_round : (F : Fifo Frame) → Receiver F → Receiver F
uart_entry_round F s = elim (F.k_fifo_get s.rx_fifo) [
  | none ↦ s
  | some (msg, rest) ↦
      k_heap_free F none msg.pointer
        (record s { rx_fifo = rest; handed = s.handed ++ msg.bytes ∷ [] })
]

-- `free_buf`, as an index into `uart_buffer`, the frames, and the trace.
module _ (F : Fifo Frame) where
  pub record Port : Type 0 where
    pub free_buf : ℕ
    pub frames : Receiver F
    pub trace : Trace Call Answer

module _ (F : Fifo Frame) (env : Env Call Answer) where
  abbrev pub zephyr : Call → Io (Port F) Answer
  zephyr c p = (env p.trace c, record p { trace = (c, env p.trace c) ∷ p.trace })

  unfoldable pub uart_cb : Event → Port F → Port F
  uart_cb (rx_rdy buf offset len) p =
      let msg = zephyr (k_heap_alloc len) p in
      record msg.1 { frames = queue_frame F msg.0.block (take len (drop offset buf)) msg.1.frames }
  uart_cb rx_buf_request p = (zephyr (uart_rx_buf_rsp p.free_buf) p).1
  uart_cb (rx_buf_released buf) p = record p { free_buf = buf }
  uart_cb other p = p

  -- `cb` tells whether the callback is given.
  unfoldable pub serial_init : Bool → Io (Port F) ℤ
  serial_init cb p =
      let ready = zephyr device_is_ready p in
      let set = zephyr uart_callback_set ready.1 in
      let enabled = zephyr (uart_rx_enable 0) set.1 in
      let started = zephyr k_thread_create enabled.1 in
      if is_zero ready.0.ret
      then (neg enodev, ready.1)
      else if not cb
      then (neg efault, ready.1)
      else if not (is_zero set.0.ret)
      then (set.0.ret, set.1)
      else if not (is_zero enabled.0.ret)
      then (enabled.0.ret, enabled.1)
      else (pos 0, started.1)

  abbrev pub poll_out_all : List ℕ → Port F → Port F
  poll_out_all [] p = p
  poll_out_all (b ∷ bytes) p = poll_out_all bytes (zephyr (uart_poll_out b) p).1

  -- `bytes` is none for a null pointer with a size above 0.
  unfoldable pub serial_write : Option (List ℕ) → Io (Port F) ℤ
  serial_write bytes p =
      let ready = zephyr device_is_ready p in
      if is_zero ready.0.ret
      then (neg enodev, ready.1)
      else elim bytes [ none ↦ (neg einval, ready.1) | some bs ↦ (pos 0, poll_out_all bs ready.1) ]

-- Before `serial_init`: buffer 1 is free, and nothing is queued.
abbrev pub initial : (F : Fifo Frame) → F.Queue → Port F
initial F q = record {
  free_buf = 1;
  frames = record { rx_fifo = q; usb_heap = []; bad_free = false; handed = [] };
  trace = [];
}
