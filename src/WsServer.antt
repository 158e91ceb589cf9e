-- ===== src/WsServer.antt =====
-- The clients and the dispatch queue of `WsServer`: src/wsserver.cpp. A GUID is a number. `in_isr`
-- tells whether the caller is an interrupt. The text behind a queued `std::string_view` is taken to
-- be there until it is sent.
pub mod Dispatch
pub mod Isolation
pub mod Lost
use pico_radio.Base.{
  Bool, List, Option, [], drop, false, if◌then◌else◌, length, some, suc, true, zero, ℕ, ◌&&◌, ◌++◌,
  ◌==◌, ◌>>=◌, ◌∷◌,
}
use pico_radio.Socket.State.{Env, WebSocket, is_connected}
use pico_radio.Socket.Transmit.{close, ping}
use pico_radio.Socket.Send.{MessageType, send}

pub record ClientEntry : Type 0 where
  pub guid : ℕ
  pub ws : WebSocket
  pub requested_path : List ℕ

-- `DispatchQueueElement`
pub data Element : Type 0 where
  disconnect_guid : ℕ → Element
  ping_guid : ℕ → Element
  ping_payload : ℕ → List ℕ → Element
  send_string : ℕ → List ℕ → MessageType → Element
  send_bytes : ℕ → List ℕ → MessageType → Element

-- `listening` is the result of `isListening`. The queue's front is the head of the list.
pub record Server : Type 0 where
  pub clients : List ClientEntry
  pub listening : Bool
  pub dispatch_queue_running : Bool
  pub dispatch_queue : List Element

-- The loops over `clients`, which return at the first entry that passes the test.
unfoldable pub at_first :
    (ClientEntry → Bool)
    → (WebSocket → Option (Bool × WebSocket))
    → List ClientEntry
    → Option (Bool × List ClientEntry)
at_first test op [] = some (false, [])
at_first test op (c ∷ cs) =
    let rest = at_first test op cs in
    if test c
    then (do (ok, ws') ← op c.ws; some (ok, record c { ws = ws' } ∷ cs))
    else (do (ok, cs') ← rest; some (ok, c ∷ cs'))

unfoldable pub has_guid : ℕ → ClientEntry → Bool
has_guid guid c = c.guid == guid

unfoldable pub is_open : ℕ → ClientEntry → Bool
unfolding has_guid is_connected
is_open guid c = has_guid guid c && is_connected c.ws

-- `isClientConnected`
unfoldable pub is_client_connected : ℕ → List ClientEntry → Bool
unfolding has_guid is_connected
is_client_connected guid [] = false
is_client_connected guid (c ∷ cs) =
    let rest = is_client_connected guid cs in if has_guid guid c then is_connected c.ws else rest

unfoldable pub push : Element → Server → Server
push e s = record s { dispatch_queue = s.dispatch_queue ++ e ∷ [] }

unfoldable pub pop : Server → Server
pop s = record s { dispatch_queue = drop 1 s.dispatch_queue }

-- What the functions below share: in an interrupt the element is queued and the result is true. The
-- result of those that give none is not looked at.
unfoldable pub dispatched :
    Bool
    → Element
    → (List ClientEntry → Option (Bool × List ClientEntry))
    → Server
    → Option (Bool × Server)
unfolding push
dispatched in_isr e body s =
    if in_isr && s.dispatch_queue_running
    then some (true, push e s)
    else (do (ok, cs) ← body s.clients; some (ok, record s { clients = cs }))

unfoldable pub close_socket : Env → WebSocket → Option (Bool × WebSocket)
unfolding close
close_socket env ws = do ws' ← close env ws; some (true, ws')

unfoldable pub ping_socket : Env → List ℕ → WebSocket → Option (Bool × WebSocket)
unfolding ping
ping_socket env payload ws = do ws' ← ping env payload ws; some (true, ws')

-- `disconnectClient` does not ask whether the client is connected.
unfoldable pub disconnect_client : Env → Bool → ℕ → Server → Option (Bool × Server)
unfolding dispatched at_first has_guid close_socket
disconnect_client env in_isr guid s =
    dispatched in_isr (disconnect_guid guid) (at_first (has_guid guid) (close_socket env)) s

unfoldable pub ping_client : Env → Bool → ℕ → Server → Option (Bool × Server)
unfolding dispatched at_first is_open ping_socket
ping_client env in_isr guid s =
    dispatched in_isr (ping_guid guid) (at_first (is_open guid) (ping_socket env [])) s

unfoldable pub ping_client_payload : Env → Bool → ℕ → List ℕ → Server → Option (Bool × Server)
unfolding dispatched at_first is_open ping_socket
ping_client_payload env in_isr guid payload s =
    dispatched in_isr (ping_payload guid payload)
      (at_first (is_open guid) (ping_socket env payload)) s

unfoldable pub send_text : Env → Bool → ℕ → List ℕ → MessageType → Server → Option (Bool × Server)
unfolding dispatched at_first is_open send
send_text env in_isr guid message ty s =
    dispatched in_isr (send_string guid message ty) (at_first (is_open guid) (send env ty message))
      s

unfoldable pub send_data : Env → Bool → ℕ → List ℕ → MessageType → Server → Option (Bool × Server)
unfolding dispatched at_first is_open send
send_data env in_isr guid message ty s =
    dispatched in_isr (send_bytes guid message ty) (at_first (is_open guid) (send env ty message)) s

-- The `switch` of the dispatch task, which is no interrupt.
unfoldable pub perform : Env → Element → Server → Option (Bool × Server)
unfolding disconnect_client ping_client ping_client_payload send_text send_data
perform env (disconnect_guid guid) = disconnect_client env false guid
perform env (ping_guid guid) = ping_client env false guid
perform env (ping_payload guid payload) = ping_client_payload env false guid payload
perform env (send_string guid message ty) = send_text env false guid message ty
perform env (send_bytes guid message ty) = send_data env false guid message ty

-- `while (!dispatchQueue.empty())`, with a bound on the rounds.
unfoldable pub run_queue : Env → ℕ → Server → Option Server
unfolding perform pop
run_queue env zero s = some s
run_queue env (suc n) s = elim s.dispatch_queue [
  | [] ↦ some s
  | e ∷ es ↦ do (ok, s') ← perform env e s; run_queue env n (pop s')
]

-- A round of `joinDispatchQueue`, while no interrupt comes.
unfoldable pub join_dispatch_queue : Env → Server → Option Server
unfolding run_queue
join_dispatch_queue env s =
    if s.listening && s.dispatch_queue_running
    then run_queue env (length s.dispatch_queue) s
    else some (record s { dispatch_queue_running = false })
