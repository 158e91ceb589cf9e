-- ===== src/Socket/Receive.antt =====
-- `WebSocket::handleFrame`, `parseFrameHeader` and `enterPollLoop` of src/websocket.cpp.
-- `pvPortMalloc(0)` is the null pointer. Copies of received fragments are taken to find memory,
-- which the code does not check. Callbacks are recorded and do not call back into the socket.
pub mod Fragments
pub mod Memory
use pico_radio.Base.{
  Bool, List, Option, [], false, if◌then◌else◌, length, none, not, some, suc, true, zero, ℕ, ◌++◌,
  ◌+◌, ◌==◌, ◌>>=◌, ◌∷◌,
}
use pico_radio.Socket.Bytes.{from_le, htons}
use pico_radio.Socket.OpCode
use pico_radio.Socket.Header.{FrameHeader, parse_header}
use pico_radio.Socket.State.{
  Buffer, Env, WebSocket, borrowed, disconnect, emit, freed, is_connected, null, owned,
  pong_received, received,
}
use pico_radio.Socket.Transmit.{close, close_with, pong}
use pico_radio.Socket.Decode.{read_bytes, read_frame}

-- A block of memory with these bytes.
abbrev pub block : List ℕ → Buffer
block [] = null
block (b ∷ bs) = owned (b ∷ bs)

-- The payload of the frame that is being parsed.
abbrev pub lent : List ℕ → Buffer
lent [] = null
lent (b ∷ bs) = borrowed (b ∷ bs)

-- What `memcpy` reads and `vPortFree` then frees; `none` if that memory is not the frame's own.
unfoldable pub take_block : Buffer → Option (List ℕ)
take_block null = some []
take_block (owned bytes) = some bytes
take_block (borrowed bytes) = none
take_block freed = none

unfoldable pub free_block : Buffer → Buffer
free_block null = null
free_block _ = freed

-- `receivedCallback`, which sees these bytes.
unfoldable pub notify : List ℕ → WebSocket → WebSocket
unfolding emit
notify bytes s =
    let fr = s.current_frame in
    if s.received_callback then emit (received fr.is_fragment fr.opcode bytes) s else s

-- A new buffer with the bytes so far and those of this fragment takes the old one's place.
unfoldable pub append_fragment : List ℕ → WebSocket → Option (List ℕ × WebSocket)
unfolding take_block
append_fragment payload s = do
  old ← take_block s.current_frame.payload
  let bytes = old ++ payload
  some (
    bytes,
    record s {
      current_frame = record s.current_frame {
        payload = block bytes;
        payload_length = s.current_frame.payload_length + length payload;
      };
    },
  )

-- The branch `!header.FIN`.
unfoldable pub handle_fragment : FrameHeader → List ℕ → WebSocket → Option WebSocket
unfolding notify append_fragment
handle_fragment h payload s =
    if h.opcode == OpCode.continuation_frame
    then (do (bytes, s') ← append_fragment payload s; some (notify bytes s'))
    else some (
        notify payload (record s {
          current_frame = record {
            is_fragment = true;
            opcode = h.opcode;
            payload = block payload;
            payload_length = length payload;
          };
        }))

set_fragment : Bool → WebSocket → WebSocket
set_fragment b s = record s { current_frame = record s.current_frame { is_fragment = b } }

free_current : WebSocket → WebSocket
unfolding free_block
free_current s = record s {
  current_frame = record s.current_frame { payload = free_block s.current_frame.payload };
}

-- The last fragment of a series. The buffer is freed and its address stays in `currentFrame`.
unfoldable pub handle_last_fragment : List ℕ → WebSocket → Option WebSocket
unfolding notify append_fragment set_fragment free_current
handle_last_fragment payload s = do
  (bytes, s') ← append_fragment payload s
  some (free_current (notify bytes (set_fragment false s')))

-- A close frame from the peer.
unfoldable pub handle_close : Env → List ℕ → WebSocket → Option WebSocket
unfolding close close_with
handle_close env (b0 ∷ b1 ∷ reason) s = do
  s' ←
      close_with env (htons (from_le (b0 ∷ b1 ∷ []))) reason (record s { gracefully_closed = true })
  some (disconnect s')
handle_close env _ s = close env s

unfoldable pub handle_message : FrameHeader → List ℕ → WebSocket → WebSocket
unfolding notify
handle_message h payload s =
    if s.received_callback
    then notify payload (record s {
      current_frame = record {
        is_fragment = false;
        opcode = h.opcode;
        payload = lent payload;
        payload_length = length payload;
      };
    })
    else s

unfoldable pub handle_frame : Env → FrameHeader → List ℕ → WebSocket → Option WebSocket
handle_frame env h payload s =
    if not h.fin
    then handle_fragment h payload s
    else if h.opcode == OpCode.continuation_frame
    then handle_last_fragment payload s
    else if h.opcode == OpCode.ping
    then pong env payload s
    else if h.opcode == OpCode.pong
    then some (if s.pong_callback then emit (pong_received payload) s else s)
    else if h.opcode == OpCode.connection_close
    then handle_close env payload s
    else if h.opcode == OpCode.text_frame
    then some (handle_message h payload s)
    else if h.opcode == OpCode.binary_frame
    then some (handle_message h payload s)
    else some s

-- `vPortFree(payload)` behind the call of `handleFrame`: a frame that shares the block is left
-- with its address.
unfoldable pub release_buffer : Buffer → Buffer
release_buffer (borrowed bytes) = freed
release_buffer b = b

unfoldable pub release : WebSocket → WebSocket
unfolding release_buffer
release s = record s {
  current_frame = record s.current_frame { payload = release_buffer s.current_frame.payload };
}

unfoldable pub parse_frame : Env → FrameHeader → WebSocket → Option WebSocket
parse_frame env h s = do
  t ← s.tcp
  elim (read_frame env h t) [
    | none ↦ some (disconnect s)
    | some (payload, t') ↦ do
      s' ← handle_frame env h payload (record s { tcp = some t' })
      some (release s')
  ]

-- One round of the poll loop. A single byte that arrives alone is read and lost.
poll_header : Env → List ℕ → WebSocket → Option WebSocket
poll_header env (b0 ∷ b1 ∷ []) s = parse_frame env (parse_header b0 b1) s
poll_header env _ s = some s

unfoldable pub poll_round : Env → WebSocket → Option WebSocket
unfolding poll_header
poll_round env s = do
  t ← s.tcp
  let (bytes, t') = read_bytes 2 t
  poll_header env bytes (record s { tcp = some t' })

-- The first `n` rounds of `while (isConnected())`.
unfoldable pub poll : Env → ℕ → WebSocket → Option WebSocket
unfolding is_connected
poll env zero s = some s
poll env (suc n) s = if is_connected s then (do s' ← poll_round env s; poll env n s') else some s
