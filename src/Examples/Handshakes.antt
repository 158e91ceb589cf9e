-- ===== src/Examples/Handshakes.antt =====
-- The theorems on the handshake at concrete inputs.
use pico_radio.Base.{List, [], arith, codes, false, refl, some, suc, true, zero, ℕ, ◌++◌, ◌∷◌, ◌≡◌}
use pico_radio.Nt.Json.Reads.{without→Without}
use pico_radio.Handshake.TextStream.{TextStream, new_stream, read_line}
use pico_radio.Handshake.Headers.{first_part, header_of, read_header, second_part, split_at}
use pico_radio.Handshake.Lines.{arriving, crlf}
use pico_radio.Handshake.Pieces.{read_line-two_pieces}
use pico_radio.Handshake.Client.{
  Answer, accepted, initiate_handshake, join_protocols, judge, protocol_header, rejected, request,
}
use pico_radio.Handshake.Server.{
  Choices, Outcome, choose_protocol, handle_raw_connection, joined, switching_protocols,
}
use pico_radio.Handshake.Agreement.{initiate_handshake-lines, text_of}
use pico_radio.Handshake.Requests.{is_line→IsLine}
use pico_radio.Handshake.Ends.{handshake_total}
use pico_radio.Handshake.Spelling.{client_rejects-server_accepts}

abbrev zeros : ℕ → List ℕ
zeros zero = []
zeros (suc n) = 0 ∷ zeros n

abbrev first_choice : List (List ℕ) → List ℕ
first_choice [] = []
first_choice (p ∷ ps) = p

abbrev some_choices : Choices
some_choices = record {
  accept_key = λ key. key ++ codes "=";
  protocol_callback = some first_choice;
  at_capacity = false;
}

abbrev two_protocols : List (List ℕ)
two_protocols = codes "v4.1" ∷ codes "rtt" ∷ []

read_line_example :
    (s : TextStream) × (read_line
        (new_stream (zeros 16) (arriving (codes "HTTP/1.1 ") ((codes "101 OK" ++ crlf []) ∷ [])))
      ≡ some (codes "101 OK", s))
read_line_example =
    read_line-two_pieces (zeros 16) b'H' (codes "TTP/1.1 ") (codes "101 OK") [] []
      (is_line→IsLine (codes "HTTP/1.1 ") refl) (is_line→IsLine (codes "101 OK") refl) (omega arith)
      (omega arith)

abbrev good_headers : List (List ℕ)
good_headers =
    codes "Upgrade: websocket" ∷ codes "Connection: Upgrade" ∷ codes "Sec-WebSocket-Accept: k=" ∷ []

initiate_handshake_example :
    initiate_handshake [] some_choices.accept_key
      (codes "k")
      true
      (zeros 128)
      (arriving (text_of (codes "HTTP/1.1 101 OK" ∷ good_headers) []) [])
    ≡ some (accepted [])
unfolding second_part first_part split_at judge read_header header_of
initiate_handshake_example =
    initiate_handshake-lines [] some_choices.accept_key (codes "k") (zeros 128)
      (codes "HTTP/1.1 101 OK") good_headers [] [] (is_line→IsLine (codes "HTTP/1.1 101 OK") refl)
      (
        (refl, is_line→IsLine (codes "Upgrade: websocket") refl),
        (
          (refl, is_line→IsLine (codes "Connection: Upgrade") refl),
          ((refl, is_line→IsLine (codes "Sec-WebSocket-Accept: k=") refl), tt),
        ),
      )
      (omega arith)

client_rejects_example :
    (handle_raw_connection some_choices (zeros 300) (
        arriving (request (codes "/nt/robot") (codes "10.0.0.2:5810") (codes "k") two_protocols) [])
      ≡ some (
          joined
            (codes "/nt/robot")
            (codes "v4.1")
            (switching_protocols (codes "k=") (codes "v4.1"))))
    × (initiate_handshake [] some_choices.accept_key
          (codes "k")
          true
          (zeros 300)
          (arriving (switching_protocols (codes "k=") (codes "v4.1")) [])
        ≡ some rejected)
unfolding choose_protocol join_protocols
client_rejects_example =
    client_rejects-server_accepts [] some_choices (codes "/nt/robot") (codes "10.0.0.2:5810")
      (codes "k") two_protocols (zeros 300) (zeros 300)
      (without→Without b' ' (codes "/nt/robot") refl) (is_line→IsLine (codes "/nt/robot") refl)
      (is_line→IsLine (codes "10.0.0.2:5810") refl) (is_line→IsLine (codes "k") refl) refl
      (is_line→IsLine (codes "v4.1") refl, (is_line→IsLine (codes "rtt") refl, tt))
      (is_line→IsLine (codes "k=") refl) (is_line→IsLine (codes "v4.1") refl) refl
      (unfold request protocol_header join_protocols in omega arith)
      (unfold switching_protocols in omega arith)

handshake_total_example :
    ((a : Answer) × (initiate_handshake [] some_choices.accept_key
          (codes "k")
          true
          (zeros 16)
          (arriving (codes "HTTP") (codes "/1.1 101 OK" ∷ []))
        ≡ some a))
    × ((o : Outcome) × (handle_raw_connection some_choices
            (zeros 16)
            (arriving (codes "HTTP") (codes "/1.1 101 OK" ∷ []))
          ≡ some o))
handshake_total_example =
    handshake_total [] some_choices.accept_key (codes "k") (zeros 16) true some_choices
      (arriving (codes "HTTP") (codes "/1.1 101 OK" ∷ []))
