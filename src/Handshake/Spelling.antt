-- ===== src/Handshake/Spelling.antt =====
-- The handshake of this client with this server.
use pico_radio.Base.{
  All, List, [], ap, append_assoc, arith, codes, false, if◌then◌else◌, length, refl, some, true, ℕ,
  ◌++◌, ◌==◌, ◌∙◌, ◌∷◌, ◌≡◌, ◌≤◌,
}
use pico_radio.Handshake.TextStream.{is_nil}
use pico_radio.Handshake.Headers.{header_of, no_headers, read_header, second_part, split_at}
use pico_radio.Handshake.Lines.{IsLine, arriving}
use pico_radio.Handshake.Client.{initiate_handshake, judge, rejected, request}
use pico_radio.Handshake.Server.{
  Choices, choose_protocol, handle_raw_connection, joined, switching_protocols,
}
use pico_radio.Handshake.Agreement.{IsHeader, headers_of, initiate_handshake-lines, text_of}
use pico_radio.Handshake.Requests.{is_line→IsLine, joined_protocols, literal-IsLine, server_accepts}

response_headers : List ℕ → List ℕ → List (List ℕ)
response_headers handshake_key protocol =
    codes "Upgrade: websocket"
    ∷ codes "Connection: Upgrade"
    ∷ (codes "Sec-Websocket-Accept: " ++ handshake_key)
    ∷ (if is_nil protocol then [] else (codes "Sec-Websocket-Protocol: " ++ protocol) ∷ [])

response-lines :
    (handshake_key protocol : List ℕ)
    → switching_protocols handshake_key protocol
      ≡ text_of
          (codes "HTTP/1.1 101 Switching Protocols" ∷ response_headers handshake_key protocol)
          []
unfolding switching_protocols response_headers
response-lines handshake_key [] = refl
response-lines handshake_key (c ∷ cs) =
    ap
      (λ l.
        codes
          "HTTP/1.1 101 Switching Protocols\r\nUpgrade: websocket\r\nConnection: Upgrade\r\nSec-Websocket-Accept: "
        ++ (handshake_key ++ (codes "\r\nSec-Websocket-Protocol: " ++ c ∷ l)))
      (append_assoc cs (codes "\r\n") (codes "\r\n"))

response_headers-IsHeader :
    (handshake_key protocol : List ℕ)
    → IsLine handshake_key
    → IsLine protocol
    → All IsHeader (response_headers handshake_key protocol)
unfolding response_headers
response_headers-IsHeader handshake_key protocol k p = (
  (refl, is_line→IsLine (codes "Upgrade: websocket") refl),
  (
    (refl, is_line→IsLine (codes "Connection: Upgrade") refl),
    ((refl, literal-IsLine (codes "Sec-Websocket-Accept: ") handshake_key refl k), last protocol p),
  ),
)
  where
    last :
        (q : List ℕ)
        → IsLine q
        → All IsHeader (if is_nil q then [] else (codes "Sec-Websocket-Protocol: " ++ q) ∷ [])
    last [] h = tt
    last (c ∷ cs) h =
        ((refl, literal-IsLine (codes "Sec-Websocket-Protocol: ") (c ∷ cs) refl h), tt)

-- The server's header names are not those that the client looks for.
response_headers-Headers :
    (handshake_key protocol : List ℕ)
    → headers_of (codes "Sec-WebSocket-Accept") no_headers (response_headers handshake_key protocol)
      ≡ record { connection = true; upgrade = true; key = []; protocol = [] }
unfolding response_headers read_header header_of split_at
response_headers-Headers handshake_key [] = refl
response_headers-Headers handshake_key (c ∷ cs) = refl

-- A client never gets through to a server of this library: the server, which has room and is sent
-- the client's request in one piece, joins the client with the path of the request and sends a
-- response, which the client, if it comes in one piece, rejects, whatever SHA-1 and the protocol
-- callback give. The path has no space, no text has a line break, and both messages fit into the
-- buffers.
pub client_rejects-server_accepts :
    (past : List ℕ) (c : Choices) (path host key : List ℕ) (protocols : List (List ℕ))
    (memory memory' : List ℕ)
    → All (λ x. (x == b' ') ≡ false) path
    → IsLine path
    → IsLine host
    → IsLine key
    → is_nil key ≡ false
    → All IsLine protocols
    → IsLine (c.accept_key key)
    → IsLine (choose_protocol c (joined_protocols protocols))
    → c.at_capacity ≡ false
    → length (request path host key protocols) ≤ length memory
    → length
        (switching_protocols (c.accept_key key) (choose_protocol c (joined_protocols protocols)))
      ≤ length memory'
    → let response =
        switching_protocols (c.accept_key key) (choose_protocol c (joined_protocols protocols)) in
      (handle_raw_connection c memory (arriving (request path host key protocols) [])
        ≡ some (joined path (choose_protocol c (joined_protocols protocols)) response))
      × (initiate_handshake past c.accept_key key true memory' (arriving response [])
          ≡ some rejected)
unfolding judge second_part
client_rejects-server_accepts past c path host key protocols memory memory' spaceless path_line
      host_line key_line full protocol_list hash_line chosen_line room fits fits' =
    let protocol = choose_protocol c (joined_protocols protocols) in
    let hash = c.accept_key key in
    let whole = ap length (response-lines hash protocol) in
    (
      server_accepts c path host key protocols [] memory spaceless path_line host_line key_line full
          protocol_list room fits,
      ap (λ text. initiate_handshake past c.accept_key key true memory' (arriving text []))
            (response-lines hash protocol)
          ∙ initiate_handshake-lines past c.accept_key key memory'
              (codes "HTTP/1.1 101 Switching Protocols") (response_headers hash protocol) [] []
              (is_line→IsLine (codes "HTTP/1.1 101 Switching Protocols") refl)
              (response_headers-IsHeader hash protocol hash_line chosen_line)
              (omega (arith, whole, fits'))
          ∙ ap (λ h. some (judge c.accept_key key h)) (response_headers-Headers hash protocol)
          ∙ (unfold judge in refl),
    )
