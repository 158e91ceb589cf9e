-- ===== src/Handshake/Client.antt =====
-- `WebSocket::initiateHandshake` of src/websocket.cpp. The client's key, `accept_key`, which is SHA-1 of
-- the key and the GUID of RFC 6455, and whether `writeString` sends the request are given.
use pico_radio.Base.{
  Bool, List, Option, [], codes, if◌then◌else◌, not, same, some, ℕ, ◌++◌, ◌>>=◌, ◌||◌, ◌∷◌,
}
use pico_radio.Socket.State.{TcpClient}
use pico_radio.Handshake.TextStream.{TextStream, is_nil, new_stream, read_line}
use pico_radio.Handshake.Headers.{Headers, line_fuel, no_headers, read_headers, second_part}

-- The list of protocols: no comma follows one that equals the last.
unfoldable pub join_protocols : List ℕ → List (List ℕ) → List ℕ
join_protocols last [] = []
join_protocols last (p ∷ ps) =
    p ++ ((if same p last then [] else codes ", ") ++ join_protocols last ps)

abbrev pub back : List ℕ → List (List ℕ) → List ℕ
back p [] = p
back p (q ∷ qs) = back q qs

unfoldable pub protocol_header : List (List ℕ) → List ℕ
unfolding join_protocols
protocol_header [] = []
protocol_header (p ∷ ps) =
    codes "\r\nSec-WebSocket-Protocol: " ++ join_protocols (back p ps) (p ∷ ps)

unfoldable pub request : List ℕ → List ℕ → List ℕ → List (List ℕ) → List ℕ
unfolding protocol_header
request path host key protocols =
    codes "GET "
    ++ (path
        ++ (codes " HTTP/1.1\r\nConnection: Upgrade\r\nUpgrade: websocket\r\nHost: "
            ++ (host
                ++ (codes "\r\nSec-WebSocket-Version: 13\r\nSec-WebSocket-Key: "
                    ++ (key ++ (protocol_header protocols ++ codes "\r\n\r\n"))))))

-- `false`, or `true` with the protocol that the server chose.
pub data Answer : Type 0 where
  rejected : Answer
  accepted : List ℕ → Answer

-- The tests behind the last header.
unfoldable pub judge : (List ℕ → List ℕ) → List ℕ → Headers → Answer
judge accept_key key h =
    if not h.connection || not h.upgrade || is_nil h.key
    then rejected
    else if same h.key (accept_key key)
    then accepted h.protocol
    else rejected

-- From the server's first line on.
unfoldable pub read_answer : List ℕ → (List ℕ → List ℕ) → List ℕ → TextStream → Option Answer
unfolding read_line second_part read_headers judge
read_answer past accept_key key s = do
  (line, s1) ← read_line s
  if same (second_part past b' ' line) (codes "101")
      then (do
        (h, s2) ← read_headers (line_fuel s1) (codes "Sec-WebSocket-Accept") no_headers s1
        some (judge accept_key key h))
      else some rejected

unfoldable pub initiate_handshake :
    List ℕ → (List ℕ → List ℕ) → List ℕ → Bool → List ℕ → TcpClient → Option Answer
unfolding read_answer
initiate_handshake past accept_key key sent memory t =
    if sent then read_answer past accept_key key (new_stream memory t) else some rejected
