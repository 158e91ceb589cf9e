-- ===== src/Handshake/Server.antt =====
-- `WsServer::handleRawConnection` of src/wsserver.cpp up to the message loop. SHA-1, the protocol
-- callback and whether the server is full are given.
use pico_radio.Base.{
  Bool, List, Option, [], codes, false, if◌then◌else◌, leb, map, none, not, same, some, true, ℕ,
  ◌&&◌, ◌++◌, ◌==◌, ◌>>=◌, ◌||◌, ◌∷◌,
}
use pico_radio.Socket.State.{TcpClient}
use pico_radio.Socket.Decode.{read_bytes}
use pico_radio.Handshake.TextStream.{TextStream, is_nil, new_stream, read_line}
use pico_radio.Handshake.Headers.{Headers, first_part, line_fuel, no_headers, read_headers}

-- `std::isspace` in the C locale.
abbrev pub is_space : ℕ → Bool
is_space c = c == b' ' || (leb 9 c && leb c 13)

unfoldable pub ltrim : List ℕ → List ℕ
ltrim [] = []
ltrim (c ∷ cs) = let rest = ltrim cs in if is_space c then rest else c ∷ cs

unfoldable pub rtrim : List ℕ → List ℕ
rtrim [] = []
rtrim (c ∷ cs) = let rest = rtrim cs in if is_space c && is_nil rest then [] else c ∷ rest

-- `std::views::split` at commas: the parts, the first of which goes on from `part`.
unfoldable pub split_commas : List ℕ → List ℕ → List (List ℕ)
split_commas part [] = part ∷ []
split_commas part (c ∷ cs) = elim (c == b',') [
  | true ↦ part ∷ split_commas [] cs
  | false ↦ split_commas (part ++ c ∷ []) cs
]

-- An empty text has no parts.
unfoldable pub requested_protocols : List ℕ → List (List ℕ)
unfolding split_commas ltrim rtrim
requested_protocols [] = []
requested_protocols (c ∷ cs) = map (λ p. rtrim (ltrim p)) (split_commas [] (c ∷ cs))

unfoldable pub switching_protocols : List ℕ → List ℕ → List ℕ
switching_protocols handshake_key protocol =
    codes
      "HTTP/1.1 101 Switching Protocols\r\nUpgrade: websocket\r\nConnection: Upgrade\r\nSec-Websocket-Accept: "
    ++ (handshake_key
        ++ (codes "\r\n"
            ++ ((if is_nil protocol
                  then []
                  else codes "Sec-Websocket-Protocol: " ++ (protocol ++ codes "\r\n"))
                ++ codes "\r\n")))

-- The connection is closed at once, or behind the bad-request response, or a client joins: its path,
-- its protocol and the response that it has been sent.
pub data Outcome : Type 0 where
  closed_at_once : Outcome
  bad_request : Outcome
  joined : List ℕ → List ℕ → List ℕ → Outcome

pub record Choices : Type 0 where
  pub accept_key : List ℕ → List ℕ
  pub protocol_callback : Option (List (List ℕ) → List ℕ)
  pub at_capacity : Bool

unfoldable pub choose_protocol : Choices → List ℕ → List ℕ
unfolding requested_protocols
choose_protocol c protocols = elim c.protocol_callback [
  | none ↦ []
  | some choose ↦ choose (requested_protocols protocols)
]

-- The tests behind the last header.
unfoldable pub answer : Choices → List ℕ → Headers → Outcome
unfolding choose_protocol switching_protocols
answer c path h =
    if not h.connection || not h.upgrade || is_nil h.key || c.at_capacity
    then bad_request
    else (let protocol = choose_protocol c h.protocol in
        joined path protocol (switching_protocols (c.accept_key h.key) protocol))

unfoldable pub read_request : Choices → TextStream → Option Outcome
unfolding read_line first_part read_headers answer
read_request c s = do
  (line, s1) ← read_line s
  (h, s2) ← read_headers (line_fuel s1) (codes "Sec-WebSocket-Key") no_headers s1
  some (answer c (first_part b' ' line) h)

unfoldable pub handle_raw_connection : Choices → List ℕ → TcpClient → Option Outcome
unfolding read_bytes read_request
handle_raw_connection c memory t =
    let (method, t') = read_bytes 4 t in
    if same method (codes "GET ")
    then read_request c (new_stream memory t')
    else some closed_at_once
