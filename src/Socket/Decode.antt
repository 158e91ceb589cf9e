-- ===== src/Socket/Decode.antt =====
-- `WebSocket::parseFrameHeader` up to its call of `handleFrame`, and the reads that it makes of
-- `TcpClient::readBytes` in src/tcpclient.cpp.
use pico_radio.Base.{
  Bool, List, Option, [], drop, false, if◌then◌else◌, leb, length, none, some, take, ℕ, ◌%◌, ◌==◌,
  ◌>>=◌, ◌^◌, ◌||◌, ◌∷◌,
}
use pico_radio.Socket.Bytes.{from_le, htonll, htons}
use pico_radio.Socket.OpCode
use pico_radio.Socket.Header.{FrameHeader, parse_header}
use pico_radio.Socket.Encode.{masked}
use pico_radio.Socket.State.{Env, TcpClient}

-- `readBytes`: what has arrived, `n` bytes at most. Where nothing comes it is a timeout, and an empty
-- piece is an error of `recv` or the end of the connection, for which the client disconnects. Its
-- assertion holds wherever it is called: the callers have asked `isConnected`, have just accepted
-- the connection, or have just read from it.
unfoldable pub read_bytes : ℕ → TcpClient → List ℕ × TcpClient
read_bytes n t = elim t.incoming [
  | [] ↦ ([], t)
  | c ∷ cs ↦ elim c [
    | [] ↦ ([], record t { connected = false; incoming = cs })
    | x ∷ xs ↦
        if leb (length (x ∷ xs)) n
        then (x ∷ xs, record t { incoming = cs })
        else (take n (x ∷ xs), record t { incoming = drop n (x ∷ xs) ∷ cs })
  ]
]

-- `readBytes(mem, n, WEBSOCKET_TIMEOUT) != n` sends the caller to its error branch, `none`.
unfoldable pub read_exact : ℕ → TcpClient → Option (List ℕ × TcpClient)
unfolding read_bytes
read_exact n t =
    let (bytes, t') = read_bytes n t in if length bytes == n then some (bytes, t') else none

unfoldable pub valid_opcode : ℕ → Bool
valid_opcode code =
    (code == OpCode.connection_close)
    || (code == OpCode.ping)
    || (code == OpCode.pong)
    || (code == OpCode.continuation_frame)
    || (code == OpCode.text_frame)
    || (code == OpCode.binary_frame)

-- The 64-bit length is stored in a `size_t`, of 32 bits on this target.
unfoldable pub read_length : ℕ → TcpClient → Option (ℕ × TcpClient)
read_length code t =
    if code == 126
    then (do (bytes, t') ← read_exact 2 t; some (htons (from_le bytes), t'))
    else if code == 127
    then (do (bytes, t') ← read_exact 8 t; some (htonll (from_le bytes) % 2 ^ 32, t'))
    else some (code, t)

unfoldable pub read_key : Bool → TcpClient → Option (ℕ × TcpClient)
read_key mask t =
    if mask then (do (bytes, t') ← read_exact 4 t; some (from_le bytes, t')) else some (0, t)

unfoldable pub read_payload : Env → Bool → ℕ → ℕ → TcpClient → Option (List ℕ × TcpClient)
read_payload env mask key n t =
    if n == 0
    then some ([], t)
    else if env.alloc n
    then (do (bytes, t') ← read_exact n t; some (masked mask key bytes, t'))
    else none

-- The payload behind a header, unmasked; `none` where the code disconnects.
unfoldable pub read_frame : Env → FrameHeader → TcpClient → Option (List ℕ × TcpClient)
unfolding valid_opcode
read_frame env h t =
    if valid_opcode h.opcode
    then (do
      (n, t1) ← read_length h.payload_len t
      (key, t2) ← read_key h.mask t1
      read_payload env h.mask key n t2)
    else none

header_of : List ℕ → Option FrameHeader
header_of (b0 ∷ b1 ∷ []) = some (parse_header b0 b1)
header_of _ = none

-- The read of the poll loop and the frame behind it: `none` where fewer than two bytes arrive or
-- the code disconnects.
unfoldable pub next_frame : Env → TcpClient → Option (FrameHeader × List ℕ × TcpClient)
unfolding header_of
next_frame env t = do
  (bytes, t1) ← read_exact 2 t
  header ← header_of bytes
  (payload, t2) ← read_frame env header t1
  some (header, payload, t2)
