-- ===== src/Socket/Transmit.antt =====
-- `WebSocket::sendFrame`, `ping`, `pong`, `close` and `send` of src/websocket.cpp.
use pico_radio.Base.{
  Bool, List, Option, [], false, if◌then◌else◌, length, none, some, true, ℕ, ◌++◌, ◌+◌, ◌==◌, ◌>>=◌,
  ◌∷◌,
}
use pico_radio.Socket.Bytes.{htons, le_bytes}
use pico_radio.Socket.OpCode
use pico_radio.Socket.Header.{FrameHeader, len_code, normal_closure}
use pico_radio.Socket.Encode.{frame_bytes, frame_bytes_pair, frame_length}
use pico_radio.Socket.State.{
  Env, TcpClient, WebSocket, closed, disconnect, emit, is_connected, masking_key,
}

-- `TcpClient::writeBytes`, and the comparison of its result with `frameLength`. An error closes
-- the TCP connection.
unfoldable pub write_buffer : Env → ℕ → List ℕ → WebSocket → TcpClient → Bool × WebSocket
write_buffer env size buffer s t =
    let s' = record s { wire = s.wire ++ buffer ∷ [] } in
    elim (env.write s.attempts buffer) [
      | none ↦ (false, record s' { tcp = some (record t { connected = false }) })
      | some ret ↦ (ret == size, s')
    ]

unfoldable pub next_attempt : Bool × WebSocket → Bool × WebSocket
next_attempt (ok, s) = (ok, record s { attempts = s.attempts + 1 })

-- Both `sendFrame` functions from the semaphore on: `size` is `frameLength`.
unfoldable pub send_buffer : Env → ℕ → List ℕ → WebSocket → Option (Bool × WebSocket)
unfolding write_buffer next_attempt
send_buffer env size buffer s =
    if env.take_mutex s.attempts
    then (do
      t ← s.tcp
      if t.connected then some (next_attempt (write_buffer env size buffer s t)) else none)
    else some (next_attempt (false, s))

unfoldable pub send_frame : Env → FrameHeader → List ℕ → ℕ → WebSocket → Option (Bool × WebSocket)
send_frame env h payload key s =
    send_buffer env (frame_length h (length payload)) (frame_bytes h payload key) s

unfoldable pub send_frame_pair :
    Env → FrameHeader → List ℕ → List ℕ → ℕ → WebSocket → Option (Bool × WebSocket)
send_frame_pair env h payload1 payload2 key s =
    send_buffer env (frame_length h (length payload1 + length payload2))
      (frame_bytes_pair h payload1 payload2 key) s

-- `assert(isConnected() == true)`
unfoldable pub assert_connected : WebSocket → Option (Unit {0})
unfolding is_connected
assert_connected s = if is_connected s then some tt else none

-- The header that every caller of `sendFrame` starts from: one final frame.
unfoldable pub final_header : WebSocket → ℕ → ℕ → FrameHeader
final_header s code n = record {
  opcode = code;
  rsv3 = false;
  rsv2 = false;
  rsv1 = false;
  fin = true;
  payload_len = len_code n;
  mask = s.use_masking;
}

unfoldable pub send_control : Env → ℕ → List ℕ → WebSocket → Option WebSocket
unfolding assert_connected final_header
send_control env code payload s = do
  connected ← assert_connected s
  (ok, s') ← send_frame env (final_header s code (length payload)) payload (masking_key env s) s
  some s'

unfoldable pub ping : Env → List ℕ → WebSocket → Option WebSocket
unfolding send_control
ping env = send_control env OpCode.ping

unfoldable pub pong : Env → List ℕ → WebSocket → Option WebSocket
unfolding send_control
pong env = send_control env OpCode.pong

-- `close(uint16_t statusCode, const std::string_view &reason)`
unfoldable pub close_with : Env → ℕ → List ℕ → WebSocket → Option WebSocket
unfolding assert_connected final_header
close_with env status reason s = do
  connected ← assert_connected s
  if s.close_frame_sent
      then some (disconnect (if s.close_callback then emit (closed status reason) s else s))
      else (do
        (ok, s') ←
            send_frame_pair env (final_header s OpCode.connection_close (length reason + 2))
              (le_bytes 2 (htons status)) reason (masking_key env s) s
        some (record s' { close_frame_sent = true }))

-- `close()`
unfoldable pub close : Env → WebSocket → Option WebSocket
unfolding close_with
close env s = close_with env normal_closure [] s
