-- ===== src/WsServer/Lost.antt =====
-- Disconnecting a client more than once.
use pico_radio.Base.{List, Option, [], if◌then◌else◌, none, some, ℕ, ◌>>=◌, ◌∷◌, ◌≡◌}
use pico_radio.Socket.State.{WebSocket}
use pico_radio.Socket.OpCode
use pico_radio.WsServer.{ClientEntry, has_guid}

-- The socket of the first entry with this GUID.
unfoldable pub socket_of : ℕ → List ClientEntry → Option WebSocket
unfolding has_guid
socket_of guid [] = none
socket_of guid (c ∷ cs) =
    let rest = socket_of guid cs in if has_guid guid c then some c.ws else rest

-- What holds of the socket of the first entry with a GUID.
abbrev First : ℕ → (WebSocket → Type 0) → List ClientEntry → Type 0
First guid P cs = (ws : WebSocket) × (socket_of guid cs ≡ some ws) × P ws
