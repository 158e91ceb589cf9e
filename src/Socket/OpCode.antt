-- ===== src/Socket/OpCode.antt =====
-- `WebSocketOpCode` of include/websocket.h: the enumeration's values. A received header can hold
-- any 4-bit value.
use pico_radio.Base.{ℕ}

abbrev pub continuation_frame : ℕ
continuation_frame = 0

abbrev pub text_frame : ℕ
text_frame = 1

abbrev pub binary_frame : ℕ
binary_frame = 2

abbrev pub connection_close : ℕ
connection_close = 8

abbrev pub ping : ℕ
ping = 9

abbrev pub pong : ℕ
pong = 10
