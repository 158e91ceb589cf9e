-- ===== src/Handshake/Requests.antt =====
-- The client's request as the server reads it.
use pico_radio.Base.{
  All, Bool, List, [], ap, append_assoc, ap₂, arith, codes, false, if◌then◌else◌, leb, length, none,
  refl, same, some, suc, sym, true, ℕ, ◌++◌, ◌==◌, ◌∙◌, ◌∷◌, ◌≡◌, ◌≤◌,
}
use pico_radio.Socket.Decode.{read_bytes}
use pico_radio.Handshake.TextStream.{is_break, is_nil, new_stream}
use pico_radio.Handshake.Headers.{first_part, header_of, no_headers, read_header, split_at}
use pico_radio.Handshake.Lines.{IsLine, arriving, crlf, is_nil-crlf}
use pico_radio.Handshake.Client.{back, join_protocols, protocol_header, request}
use pico_radio.Handshake.Server.{
  Choices, answer, choose_protocol, closed_at_once, handle_raw_connection, joined, read_request,
  switching_protocols,
}
use pico_radio.Handshake.Agreement.{IsHeader, headers_of, read_request-lines, text_of}

-- `IsLine` as a test, which computes at literals.
abbrev pub is_line : List ℕ → Bool
is_line [] = true
is_line (c ∷ cs) = if is_break c then false else is_line cs

pub is_line→IsLine : (text : List ℕ) → is_line text ≡ true → IsLine text
is_line→IsLine [] e = tt
is_line→IsLine (c ∷ cs) e =
    let plain : is_break c ≡ false = ground (arith, e) in
    let on : is_line cs ≡ true = ground (arith, e) in (plain, is_line→IsLine cs on)

append-IsLine : (xs ys : List ℕ) → IsLine xs → IsLine ys → IsLine (xs ++ ys)
append-IsLine [] ys h k = k
append-IsLine (x ∷ xs) ys h k = (h.0, append-IsLine xs ys h.1 k)

-- A line that begins with a text of the source.
pub literal-IsLine : (text ys : List ℕ) → is_line text ≡ true → IsLine ys → IsLine (text ++ ys)
literal-IsLine text ys e k = append-IsLine text ys (is_line→IsLine text e) k

join_protocols-IsLine :
    (last : List ℕ) (ps : List (List ℕ)) → All IsLine ps → IsLine (join_protocols last ps)
unfolding join_protocols
join_protocols-IsLine last [] h = tt
join_protocols-IsLine last (p ∷ ps) h = append-IsLine p _ h.0 (
    append-IsLine (if same p last then [] else codes ", ") (join_protocols last ps)
      (separator (same p last)) (join_protocols-IsLine last ps h.1))
  where
    separator : (b : Bool) → IsLine (if b then [] else codes ", ")
    separator true = tt
    separator false = (refl, (refl, tt))

protocol_lines : List (List ℕ) → List (List ℕ)
protocol_lines [] = []
protocol_lines (p ∷ ps) =
    (codes "Sec-WebSocket-Protocol: " ++ join_protocols (back p ps) (p ∷ ps)) ∷ []

request_headers : List ℕ → List ℕ → List (List ℕ) → List (List ℕ)
unfolding protocol_lines
request_headers host key protocols =
    codes "Connection: Upgrade"
    ∷ codes "Upgrade: websocket"
    ∷ (codes "Host: " ++ host)
    ∷ codes "Sec-WebSocket-Version: 13"
    ∷ (codes "Sec-WebSocket-Key: " ++ key)
    ∷ protocol_lines protocols

request-lines :
    (path host key : List ℕ) (protocols : List (List ℕ))
    → request path host key protocols
      ≡ codes "GET "
        ++ text_of ((path ++ codes " HTTP/1.1") ∷ request_headers host key protocols) []
unfolding request request_headers protocol_lines protocol_header
request-lines path host key [] =
    ap (λ l. codes "GET " ++ l)
      (sym
        (append_assoc path (codes " HTTP/1.1") (crlf (text_of (request_headers host key []) []))))
request-lines path host key (p ∷ ps) =
    ap (λ l. codes "GET " ++ l)
      (sym (
        append_assoc path (codes " HTTP/1.1")
          (crlf (text_of (request_headers host key (p ∷ ps)) []))))

request_headers-IsHeader :
    (host key : List ℕ) (protocols : List (List ℕ))
    → IsLine host
    → IsLine key
    → All IsLine protocols
    → All IsHeader (request_headers host key protocols)
unfolding request_headers
request_headers-IsHeader host key protocols h k ps = (
  (refl, is_line→IsLine (codes "Connection: Upgrade") refl),
  (
    (refl, is_line→IsLine (codes "Upgrade: websocket") refl),
    (
      (refl, literal-IsLine (codes "Host: ") host refl h),
      (
        (refl, is_line→IsLine (codes "Sec-WebSocket-Version: 13") refl),
        (
          (refl, literal-IsLine (codes "Sec-WebSocket-Key: ") key refl k),
          protocol_line protocols ps,
        ),
      ),
    ),
  ),
)
  where
    protocol_line : (qs : List (List ℕ)) → All IsLine qs → All IsHeader (protocol_lines qs)
    protocol_line [] h = tt
    protocol_line (q ∷ qs) h = (
      (
        refl,
        literal-IsLine (codes "Sec-WebSocket-Protocol: ") (join_protocols (back q qs) (q ∷ qs)) refl
            (join_protocols-IsLine (back q qs) (q ∷ qs) h),
      ),
      tt,
    )

-- The protocols as they reach the server.
abbrev pub joined_protocols : List (List ℕ) → List ℕ
joined_protocols [] = []
joined_protocols (p ∷ ps) = join_protocols (back p ps) (p ∷ ps)

request_headers-Headers :
    (host key : List ℕ) (protocols : List (List ℕ))
    → headers_of (codes "Sec-WebSocket-Key") no_headers (request_headers host key protocols)
      ≡ record {
        connection = true;
        upgrade = true;
        key = key;
        protocol = joined_protocols protocols;
      }
unfolding request_headers protocol_lines read_header header_of split_at
request_headers-Headers host key [] = refl
request_headers-Headers host key (p ∷ ps) = refl

first_part-append :
    (text rest : List ℕ)
    → All (λ c. (c == b' ') ≡ false) text
    → first_part b' ' (text ++ b' ' ∷ rest) ≡ text
unfolding first_part split_at
first_part-append text rest h =
    ap (λ o. elim o [ none ↦ text ++ b' ' ∷ rest | some q ↦ q.0 ]) (before text h)
  where
    before :
        (l : List ℕ)
        → All (λ c. (c == b' ') ≡ false) l
        → split_at b' ' (l ++ b' ' ∷ rest) ≡ some (l, rest)
    before [] k = refl
    before (x ∷ l) k = rw (k.0, before l k.1)

method_read :
    (c : Choices) (memory text : List ℕ) (later : List (List ℕ))
    → is_nil text ≡ false
    → handle_raw_connection c memory (arriving (codes "GET " ++ text) later)
      ≡ read_request c (new_stream memory (arriving text later))
method_read c memory [] later full = absurd cc
method_read c memory (x ∷ xs) later full =
    let four : read_bytes 4 (arriving (codes "GET " ++ x ∷ xs) later)
        ≡ (codes "GET ", arriving (x ∷ xs) later) =
      unfold read_bytes in rw (longer (length xs)) in
    unfold handle_raw_connection in
    ap
      (λ q.
        if same q.0 (codes "GET ")
        then read_request c (new_stream memory q.1)
        else some closed_at_once)
      four
  where
    longer : (n : ℕ) → leb (suc (suc (suc (suc (suc n))))) 4 ≡ false
    longer n = ground arith

module _ (c : Choices) (path host key : List ℕ) (protocols : List (List ℕ))
    (later : List (List ℕ)) where
  pub server_accepts :
      (memory : List ℕ)
      → All (λ x. (x == b' ') ≡ false) path
      → IsLine path
      → IsLine host
      → IsLine key
      → is_nil key ≡ false
      → All IsLine protocols
      → c.at_capacity ≡ false
      → length (request path host key protocols) ≤ length memory
      → let protocol = choose_protocol c (joined_protocols protocols) in
        handle_raw_connection c memory (arriving (request path host key protocols) later)
        ≡ some (joined path protocol (switching_protocols (c.accept_key key) protocol))
  server_accepts memory spaceless path_line host_line key_line full protocol_list room fits =
      let line = path ++ codes " HTTP/1.1" in
      let headers = request_headers host key protocols in
      let whole = ap length (request-lines path host key protocols) in
      ap (λ text. handle_raw_connection c memory (arriving text later))
        (request-lines path host key protocols)
      ∙ method_read c memory (text_of (line ∷ headers) []) later
          (is_nil-crlf line (text_of headers []))
      ∙ read_request-lines c memory line headers [] later
          (append-IsLine path (codes " HTTP/1.1") path_line
            (is_line→IsLine (codes " HTTP/1.1") refl))
          (request_headers-IsHeader host key protocols host_line key_line protocol_list)
          (omega (arith, whole))
      ∙ ap₂ (λ p h. some (answer c p h)) (first_part-append path (codes "HTTP/1.1") spaceless)
          (request_headers-Headers host key protocols)
      ∙ (unfold answer in rw (full, room))
