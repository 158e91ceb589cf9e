-- ===== src/WsServer/Dispatch.antt =====
-- Calls from interrupts and the task that carries them out.
use pico_radio.Base.{Bool, List, Option, [], refl, some, ℕ, ◌>>=◌, ◌∷◌, ◌≡◌}
use pico_radio.Socket.State.{Env}
use pico_radio.Socket.Send.{MessageType, send}
use pico_radio.WsServer.{
  ClientEntry, Element, Server, at_first, close_socket, disconnect_client, disconnect_guid,
  dispatched, has_guid, is_open, ping_client, ping_client_payload, ping_guid, ping_payload,
  ping_socket, send_bytes, send_data, send_string, send_text,
}

-- A call of one of the functions on a client's GUID.
pub data Request : Type 0 where
  disconnect_request : ℕ → Request
  ping_request : ℕ → Request
  payload_request : ℕ → List ℕ → Request
  text_request : ℕ → List ℕ → MessageType → Request
  data_request : ℕ → List ℕ → MessageType → Request

unfoldable pub request : Env → Bool → Request → Server → Option (Bool × Server)
unfolding disconnect_client ping_client ping_client_payload send_text send_data
request env in_isr (disconnect_request guid) = disconnect_client env in_isr guid
request env in_isr (ping_request guid) = ping_client env in_isr guid
request env in_isr (payload_request guid payload) = ping_client_payload env in_isr guid payload
request env in_isr (text_request guid message ty) = send_text env in_isr guid message ty
request env in_isr (data_request guid message ty) = send_data env in_isr guid message ty

-- The calls of a program, one after the other.
unfoldable pub calls : Env → Bool → List Request → Server → Option Server
unfolding request
calls env in_isr [] s = some s
calls env in_isr (q ∷ qs) s = do (ok, s') ← request env in_isr q s; calls env in_isr qs s'

-- What a call does to the clients.
unfoldable pub effect : Env → Request → List ClientEntry → Option (Bool × List ClientEntry)
unfolding at_first has_guid is_open close_socket ping_socket send
effect env (disconnect_request guid) = at_first (has_guid guid) (close_socket env)
effect env (ping_request guid) = at_first (is_open guid) (ping_socket env [])
effect env (payload_request guid payload) = at_first (is_open guid) (ping_socket env payload)
effect env (text_request guid message ty) = at_first (is_open guid) (send env ty message)
effect env (data_request guid message ty) = at_first (is_open guid) (send env ty message)

-- What an interrupt puts into the queue for it.
unfoldable pub element_of : Request → Element
element_of (disconnect_request guid) = disconnect_guid guid
element_of (ping_request guid) = ping_guid guid
element_of (payload_request guid payload) = ping_payload guid payload
element_of (text_request guid message ty) = send_string guid message ty
element_of (data_request guid message ty) = send_bytes guid message ty

elements : List Request → List Element
elements [] = []
elements (q ∷ qs) = element_of q ∷ elements qs

abbrev with_queue : List Element → Server → Server
with_queue q s = record s { dispatch_queue = q }

pub request-dispatched :
    (env : Env) (in_isr : Bool) (q : Request) (s : Server)
    → request env in_isr q s ≡ dispatched in_isr (element_of q) (effect env q) s
unfolding request disconnect_client ping_client ping_client_payload send_text send_data effect
    element_of
request-dispatched env in_isr (disconnect_request guid) s = refl
request-dispatched env in_isr (ping_request guid) s = refl
request-dispatched env in_isr (payload_request guid payload) s = refl
request-dispatched env in_isr (text_request guid message ty) s = refl
request-dispatched env in_isr (data_request guid message ty) s = refl
