-- ===== src/Socket/Send.antt =====
-- `WebSocket::send` of src/websocket.cpp: one frame, or a series of fragments.
pub mod Plan
pub mod Content
use pico_radio.Base.{
  Bool, List, Option, drop, false, if◌then◌else◌, leb, length, ltb, none, some, suc, take, true,
  zero, ℕ, ◌+◌, ◌-◌, ◌==◌, ◌>>=◌,
}
use pico_radio.Socket.OpCode
use pico_radio.Socket.Header.{FrameHeader, len_code}
use pico_radio.Socket.State.{Env, WebSocket, masking_key}
use pico_radio.Socket.Transmit.{assert_connected, final_header, send_frame}

pub data MessageType : Type 0 where
  text binary : MessageType

unfoldable pub opcode_of : MessageType → ℕ
opcode_of text = OpCode.text_frame
opcode_of binary = OpCode.binary_frame

-- WEBSOCKET_MAX_PACKET_SIZE, which is TCP_MSS of lwipopts.h.
abbrev pub max_packet_size : ℕ
max_packet_size = 1460

-- `fragmentHeaderSize` at its first computation, and `fragmentPayloadLength`.
unfoldable pub fragment_header_size : Bool → ℕ
fragment_header_size mask =
    2
    + (if leb 65535 (max_packet_size - 8)
        then 8
        else if leb 126 (max_packet_size - 6)
        then 2
        else 0)
    + (if mask then 4 else 0)

unfoldable pub fragment_size : Bool → ℕ
unfolding fragment_header_size
fragment_size mask = max_packet_size - fragment_header_size mask

unfoldable pub packet_size : FrameHeader → ℕ → ℕ
packet_size h n =
    2
    + (if h.payload_len == 127 then 8 else if h.payload_len == 126 then 2 else 0)
    + (if h.mask then 4 else 0)
    + n

-- One round of the loop sends a frame. `first` and `middle` leave bytes for the next round.
pub data Round : Type 0 where
  last : FrameHeader → List ℕ → Round
  more : FrameHeader → List ℕ → Round

-- The body of `while (bytesLeft > 0)`; the payload of a frame is the bytes from the pointer that
-- the code passes on.
unfoldable pub round_of : ℕ → List ℕ → FrameHeader → ℕ → Round
round_of f bytes h left =
    if leb f left
    then (if left == f
        then last
            (record h { opcode = OpCode.continuation_frame; fin = true; payload_len = len_code f })
            (take f (drop (length bytes - left) bytes))
        else if left == length bytes
        then more (record h { fin = false; payload_len = len_code f }) (take f bytes)
        else more
            (record h { opcode = OpCode.continuation_frame; fin = false; payload_len = len_code f })
            (take f bytes))
    else last
        (record h { opcode = OpCode.continuation_frame; fin = true; payload_len = len_code left })
        (take left (drop (length bytes - left) bytes))

-- The loop, with fuel; `h` is the header as the rounds before have left it.
unfoldable pub send_loop :
    Env → ℕ → List ℕ → ℕ → FrameHeader → ℕ → WebSocket → Option (Bool × WebSocket)
send_loop env f bytes zero h left s = none
send_loop env f bytes (suc fuel) h left s =
    if left == 0 then some (true, s) else elim (round_of f bytes h left) [
      | last h' p ↦ send_frame env h' p (masking_key env s) s
      | more h' p ↦ do
        (ok, s') ← send_frame env h' p (masking_key env s) s
        let rest = send_loop env f bytes fuel h' (left - f) s'
        if ok then rest else some (false, s')
    ]

-- `send(const uint8_t *data, size_t length, WebSocketMessageType messageType)`. Each round takes
-- bytes off, so there are fewer rounds than bytes.
unfoldable pub send : Env → MessageType → List ℕ → WebSocket → Option (Bool × WebSocket)
unfolding assert_connected opcode_of packet_size round_of send_loop final_header fragment_size
send env ty bytes s = do
  connected ← assert_connected s
  let h = final_header s (opcode_of ty) (length bytes)
  if ltb max_packet_size (packet_size h (length bytes))
      then send_loop env (fragment_size h.mask) bytes (length bytes) h (length bytes) s
      else send_frame env h bytes (masking_key env s) s
