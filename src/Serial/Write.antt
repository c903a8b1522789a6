-- ===== src/Serial/Write.antt =====
-- What app/src/serial.c puts on the line.
use zephyr_development.Prelude.{
  ℕ, ◌≡◌, ◌∙◌, Option, none, some, List, [], ◌∷◌, ◌++◌, is_zero, Env, Trace, if◌then◌else◌,
  append_assoc, Bool-cases, inl, inr, append-nil, sym,
}
use zephyr_development.Fifo.{Fifo}
use zephyr_development.Usb.Receive.{Frame}
use zephyr_development.Serial.{
  Call, Answer, Port, device_is_ready, uart_poll_out, zephyr, poll_out_all, serial_write,
}

abbrev pub out : Call → List ℕ → List ℕ
out (uart_poll_out b) sent = sent ++ b ∷ []
out _ sent = sent

-- The bytes put on the line, the oldest first.
abbrev pub line : Trace Call Answer → List ℕ
line [] = []
line ((c, a) ∷ past) = out c (line past)

abbrev pub bytes_of : Option (List ℕ) → List ℕ
bytes_of none = []
bytes_of (some bytes) = bytes

module _ (F : Fifo Frame) (env : Env Call Answer) where
  line-poll_out_all :
      (bytes : List ℕ) (p : Port F)
      → line (poll_out_all F env bytes p).trace ≡ line p.trace ++ bytes
  line-poll_out_all [] p = sym (append-nil (line p.trace))
  line-poll_out_all (b ∷ bytes) p =
      line-poll_out_all bytes (zephyr F env (uart_poll_out b) p).1
      ∙ append_assoc (line p.trace) (b ∷ []) bytes

  -- Serial_write puts its bytes on the line, all of them and in order, if it returns 0, and
  -- nothing otherwise.
  pub line-serial_write :
      (bytes : Option (List ℕ)) (p : Port F)
      → let r = serial_write F env bytes p in
        line r.1.trace ≡ line p.trace ++ (if is_zero r.0 then bytes_of bytes else [])
  unfolding serial_write
  line-serial_write none p = elim (Bool-cases (is_zero (env p.trace device_is_ready).ret)) [
    | inl e ↦ rw (e, serial_write) (sym (append-nil (line p.trace)))
    | inr e ↦ rw (e, serial_write) (sym (append-nil (line p.trace)))
  ]
  line-serial_write (some bytes) p = elim (Bool-cases (is_zero (env p.trace device_is_ready).ret)) [
    | inl e ↦ rw (e, serial_write) (sym (append-nil (line p.trace)))
    | inr e ↦ rw (e, serial_write) (line-poll_out_all bytes (zephyr F env device_is_ready p).1)
  ]
