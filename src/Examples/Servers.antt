-- ===== src/Examples/Servers.antt =====
-- The theorems on the WebSocket server at concrete inputs.
use pico_radio.Base.{
  Bool, List, Option, [], codes, false, none, refl, some, true, ℕ, ◌>>=◌, ◌∷◌, ◌≡◌,
}
use pico_radio.Socket.State.{WebSocket}
use pico_radio.Socket.Send.{text}
use pico_radio.Socket.Transmit.{send_buffer, send_frame}
use pico_radio.WsServer.{ClientEntry, Server}
use pico_radio.WsServer.Dispatch.{Request, ping_request, request, text_request}
use pico_radio.WsServer.Isolation.{others, others-request, target}
use pico_radio.Examples.{env, hello, socket}

abbrev entry_of : ℕ → WebSocket → ClientEntry
entry_of n ws = record { guid = n; ws = ws; requested_path = codes "/nt/x" }

abbrev server : Server
server = record {
  clients = entry_of 4 socket ∷ entry_of 5 socket ∷ [];
  listening = true;
  dispatch_queue_running = true;
  dispatch_queue = [];
}

abbrev program : List Request
program = text_request 5 hello text ∷ ping_request 4 ∷ []

abbrev result_or : Bool × Server → Option (Bool × Server) → Bool × Server
result_or d none = d
result_or d (some r) = r

abbrev pinged : Bool × Server
unfolding request
pinged = result_or (false, server) (request env false (ping_request 4) server)

others-request_example : others 4 pinged.1.clients ≡ others 4 server.clients
unfolding target
others-request_example =
    others-request env false (ping_request 4) server pinged.0 pinged.1
      (unfold request pinged send_frame send_buffer in refl)
